-- ===== src/Commands/Params.antt =====
-- src/command.c: `get_parameters`. `sscanf(s, "%d", ...)` is a parameter.
use docker_chessd.Prelude.{
  ℕ, Bool, ◌&&◌, ◌||◌, leb, ◌==◌, if◌then◌else◌, Option, none, some, List, [], ◌∷◌, map,
}
use docker_chessd.Prelude.Int.{ℤ}
use docker_chessd.Prelude.Text.{isspace, tolower, skip_space, until}
use docker_chessd.Commands.{ispunct, eatword, word}

-- TYPE_NULL to TYPE_STRING with the values; `type_punc` is a word that points to the array `punc`, which
-- all calls share.
pub data Value : Type 0 where
  type_null : Value
  type_word : List ℕ → Value
  type_punc : Value
  type_int : ℤ → Value
  type_string : List ℕ → Value

-- COM_BADPARAMETERS, or COM_OK with the values that were read, followed by TYPE_NULL, and the character
-- in `punc`.
pub data Read : Type 0 where
  bad_read : Read
  good_read : List Value → Option ℕ → Read

abbrev pub isupper : ℕ → Bool
isupper c = leb b'A' c && leb c b'Z'

-- `stolower`, if the letter of the parameter is a small one.
abbrev pub lowered : ℕ → List ℕ → List ℕ
lowered letter s = if isupper letter then s else map tolower s

-- One parameter: with the value, the rest of the line and `punc`.
pub data Step : Type 0 where
  stop : Read → Step
  value_read : Value → List ℕ → Option ℕ → Step

-- Past one space, if there is one.
abbrev pub past_space : List ℕ → List ℕ
past_space [] = []
past_space (c ∷ s) = if isspace c then s else c ∷ s

-- Past the end of a word, where a NUL is written.
abbrev pub past_one : List ℕ → List ℕ
past_one [] = []
past_one (c ∷ s) = s

-- Behind the white space: nothing more, for an optional parameter or another.
abbrev pub missing_param : Bool → Option ℕ → Step
missing_param optional punc = if optional then stop (good_read [] punc) else stop bad_read

-- A word, `w` or `o`.
unfoldable pub word_param : ℕ → Bool → Option ℕ → List ℕ → Step
unfolding eatword until
word_param letter optional punc [] = missing_param optional punc
word_param letter optional punc (c ∷ s) =
    if ispunct c
    then value_read type_punc (past_space s) (some c)
    else value_read (type_word (lowered letter (word (c ∷ s)))) (past_one (eatword (c ∷ s))) punc

-- A number, `d` or `p`.
abbrev pub number_or_bad : Option ℤ → List ℕ → Option ℕ → Step
number_or_bad none s punc = stop bad_read
number_or_bad (some n) s punc = value_read (type_int n) s punc

unfoldable pub int_param : (List ℕ → Option ℤ) → Bool → Option ℕ → List ℕ → Step
unfolding eatword
int_param scan optional punc [] = missing_param optional punc
int_param scan optional punc (c ∷ s) =
    number_or_bad (scan (c ∷ s)) (past_one (eatword (c ∷ s))) punc

-- A word or a number, `i` or `n`.
abbrev pub number_or_word : ℕ → Option ℤ → List ℕ → Value
number_or_word letter none s = type_word (lowered letter s)
number_or_word letter (some n) s = type_int n

unfoldable pub either_param : (List ℕ → Option ℤ) → ℕ → Bool → Option ℕ → List ℕ → Step
unfolding eatword until
either_param scan letter optional punc [] = missing_param optional punc
either_param scan letter optional punc (c ∷ s) =
    if ispunct c
    then value_read type_punc (past_space s) (some c)
    else value_read (number_or_word letter (scan (c ∷ s)) (word (c ∷ s)))
        (past_one (eatword (c ∷ s))) punc

-- The rest of the line, `s` or `t`.
unfoldable pub string_param : ℕ → Bool → Option ℕ → List ℕ → Step
string_param letter optional punc [] = missing_param optional punc
string_param letter optional punc (c ∷ s) =
    value_read (type_string (lowered letter (c ∷ s))) [] punc

-- The letters, with their kind and whether the parameter is optional.
pub data ParamKind : Type 0 where
  a_word an_int an_either a_string no_kind : ParamKind

abbrev pub param_kind : ℕ → ParamKind
param_kind c =
    let l = tolower c in
    if l == b'w' || l == b'o'
    then a_word
    else if l == b'd' || l == b'p'
    then an_int
    else if l == b'i' || l == b'n'
    then an_either
    else if l == b's' || l == b't'
    then a_string
    else no_kind

abbrev pub is_optional : ℕ → Bool
is_optional c = let l = tolower c in l == b'o' || (l == b'p' || (l == b'n' || l == b't'))

-- The `switch`.
unfoldable pub read_param : (List ℕ → Option ℤ) → ParamKind → ℕ → Option ℕ → List ℕ → Step
unfolding word_param int_param either_param string_param skip_space
read_param scan a_word c punc s = word_param c (is_optional c) punc (skip_space s)
read_param scan an_int c punc s = int_param scan (is_optional c) punc (skip_space s)
read_param scan an_either c punc s = either_param scan c (is_optional c) punc (skip_space s)
read_param scan a_string c punc s = string_param c (is_optional c) punc s
read_param scan no_kind c punc s = value_read type_null s punc

abbrev pub with_value : Value → Read → Read
with_value v bad_read = bad_read
with_value v (good_read vs punc) = good_read (v ∷ vs) punc

abbrev pub then_read : Step → (List ℕ → Option ℕ → Read) → Read
then_read (stop r) go = r
then_read (value_read v s punc) go = with_value v (go s punc)

abbrev pub at_end : List ℕ → Option ℕ → Read
at_end [] punc = good_read [] punc
at_end (c ∷ s) punc = bad_read

-- The loop of `get_parameters` over the letters of `param_string`.
unfoldable pub get_parameters : (List ℕ → Option ℤ) → List ℕ → List ℕ → Option ℕ → Read
unfolding read_param
get_parameters scan [] s punc = at_end s punc
get_parameters scan (c ∷ letters) s punc =
    then_read (read_param scan (param_kind c) c punc s)
      (λ s' punc'. get_parameters scan letters s' punc')
