-- ===== src/Commands/Fits.antt =====
-- src/command.c: the parameters that a command is called with, and its `param_string`.
use docker_chessd.Prelude.{
  ℕ, ◌≡◌, refl, ap, subst, ◌⊎◌, inl, inr, Bool, true, false, if◌then◌else◌, Option, none, some,
  List, [], ◌∷◌, map, Bool-cases, arith,
}
use docker_chessd.Prelude.Int.{ℤ}
use docker_chessd.Prelude.Text.{tolower, skip_space}
use docker_chessd.Commands.{ispunct, word}
use docker_chessd.Commands.Params.{
  Value, type_null, type_word, type_punc, type_int, type_string, Read, bad_read, good_read, isupper,
  lowered, Step, stop, value_read, missing_param, word_param, number_or_bad, int_param,
  number_or_word, either_param, string_param, ParamKind, a_word, an_int, an_either, a_string,
  no_kind, param_kind, is_optional, read_param, with_value, then_read, at_end, get_parameters,
}

-- The letters of a text are small where the parameter's letter is a small one.
abbrev IsLowered : ℕ → List ℕ → Type 0
IsLowered c s = (isupper c ≡ true) ⊎ (map tolower s ≡ s)

-- The values that a letter allows.
abbrev pub Allows : ParamKind → ℕ → Value → Type 0
Allows a_word c type_punc = Unit
Allows a_word c (type_word s) = IsLowered c s
Allows an_int c (type_int n) = Unit
Allows an_either c type_punc = Unit
Allows an_either c (type_word s) = IsLowered c s
Allows an_either c (type_int n) = Unit
Allows a_string c (type_string s) = IsLowered c s
Allows no_kind c type_null = Unit
Allows _ c v = ⊥

-- Values for the letters in order; they end with the letters or before an optional one.
abbrev pub Fits : List ℕ → List Value → Type 0
Fits [] [] = Unit
Fits [] (v ∷ vs) = ⊥
Fits (c ∷ letters) [] = is_optional c ≡ true
Fits (c ∷ letters) (v ∷ vs) = Allows (param_kind c) c v × Fits letters vs

tolower_twice : (c : ℕ) → tolower (tolower c) ≡ tolower c
tolower_twice c = ground arith

map-tolower_twice : (s : List ℕ) → map tolower (map tolower s) ≡ map tolower s
map-tolower_twice [] = refl
map-tolower_twice (c ∷ s) = rw (tolower_twice c, map-tolower_twice s) refl

lowered-IsLowered : (c : ℕ) (s : List ℕ) → IsLowered c (lowered c s)
lowered-IsLowered c s = elim (Bool-cases (isupper c)) [
  | inl e ↦ inl e
  | inr e ↦ rw e (inr (map-tolower_twice s))
]

-- A step that stops, or reads what its letter allows.
unfoldable StepFits : ParamKind → ℕ → Step → Type 0
StepFits k c (stop bad_read) = Unit
StepFits k c (stop (good_read [] punc)) = is_optional c ≡ true
StepFits k c (stop (good_read (v ∷ vs) punc)) = ⊥
StepFits k c (value_read v s punc) = Allows k c v

if-Step :
    (k : ParamKind) (c : ℕ) (b : Bool) (u v : Step)
    → StepFits k c u
    → StepFits k c v
    → StepFits k c (if b then u else v)
if-Step k c true u v h i = h
if-Step k c false u v h i = i

missing_param-Fits :
    (k : ParamKind) (c : ℕ) (punc : Option ℕ) → StepFits k c (missing_param (is_optional c) punc)
unfolding StepFits
missing_param-Fits k c punc = elim (Bool-cases (is_optional c)) [ inl e ↦ rw e e | inr e ↦ rw e tt ]

word_param-Fits :
    (c : ℕ) (punc : Option ℕ) (s : List ℕ) → StepFits a_word c (word_param c (is_optional c) punc s)
unfolding word_param StepFits
word_param-Fits c punc [] = missing_param-Fits a_word c punc
word_param-Fits c punc (d ∷ s) =
    if-Step a_word c (ispunct d) _ _ tt (lowered-IsLowered c (word (d ∷ s)))

number_or_bad-Fits :
    (c : ℕ) (punc : Option ℕ) (n : Option ℤ) (s : List ℕ)
    → StepFits an_int c (number_or_bad n s punc)
unfolding StepFits
number_or_bad-Fits c punc none s = tt
number_or_bad-Fits c punc (some n) s = tt

int_param-Fits :
    (scan : List ℕ → Option ℤ) (c : ℕ) (punc : Option ℕ) (s : List ℕ)
    → StepFits an_int c (int_param scan (is_optional c) punc s)
unfolding int_param
int_param-Fits scan c punc [] = missing_param-Fits an_int c punc
int_param-Fits scan c punc (d ∷ s) = number_or_bad-Fits c punc (scan (d ∷ s)) _

number_or_word-Allows :
    (c : ℕ) (n : Option ℤ) (s : List ℕ) → Allows an_either c (number_or_word c n s)
number_or_word-Allows c none s = lowered-IsLowered c s
number_or_word-Allows c (some n) s = tt

either_param-Fits :
    (scan : List ℕ → Option ℤ) (c : ℕ) (punc : Option ℕ) (s : List ℕ)
    → StepFits an_either c (either_param scan c (is_optional c) punc s)
unfolding either_param StepFits
either_param-Fits scan c punc [] = missing_param-Fits an_either c punc
either_param-Fits scan c punc (d ∷ s) =
    if-Step an_either c (ispunct d) _ _ tt (number_or_word-Allows c (scan (d ∷ s)) (word (d ∷ s)))

string_param-Fits :
    (c : ℕ) (punc : Option ℕ) (s : List ℕ)
    → StepFits a_string c (string_param c (is_optional c) punc s)
unfolding string_param StepFits
string_param-Fits c punc [] = missing_param-Fits a_string c punc
string_param-Fits c punc (d ∷ s) = lowered-IsLowered c (d ∷ s)

read_param-Fits :
    (scan : List ℕ → Option ℤ) (k : ParamKind) (c : ℕ) (punc : Option ℕ) (s : List ℕ)
    → StepFits k c (read_param scan k c punc s)
unfolding read_param StepFits
read_param-Fits scan a_word c punc s = word_param-Fits c punc (skip_space s)
read_param-Fits scan an_int c punc s = int_param-Fits scan c punc (skip_space s)
read_param-Fits scan an_either c punc s = either_param-Fits scan c punc (skip_space s)
read_param-Fits scan a_string c punc s = string_param-Fits c punc s
read_param-Fits scan no_kind c punc s = tt

at_end-Fits :
    (s : List ℕ) (punc q : Option ℕ) (vs : List Value) → at_end s punc ≡ good_read vs q → Fits [] vs
at_end-Fits [] punc q [] e = tt
at_end-Fits [] punc q (v ∷ vs) e = cc e
at_end-Fits (c ∷ s) punc q vs e = cc e

with_value-Fits :
    (c : ℕ) (letters : List ℕ) (v : Value) (r : Read) (q : Option ℕ) (vs : List Value)
    → Allows (param_kind c) c v
    → ((ws : List Value) → r ≡ good_read ws q → Fits letters ws)
    → with_value v r ≡ good_read vs q
    → Fits (c ∷ letters) vs
with_value-Fits c letters v bad_read q vs a ih e = cc e
with_value-Fits c letters v (good_read ws p) q vs a ih e =
    let same_values : (v ∷ ws) ≡ vs = cc e in
    let same_punc : p ≡ q = cc e in
    subst (λ (l : List Value). Fits (c ∷ letters) l) same_values
      (a, ih ws (ap (good_read ws) same_punc))

then_read-Fits :
    (c : ℕ) (letters : List ℕ) (step : Step) (go : List ℕ → Option ℕ → Read) (q : Option ℕ)
    (vs : List Value)
    → StepFits (param_kind c) c step
    → ((s : List ℕ) (punc : Option ℕ) (ws : List Value)
        → go s punc ≡ good_read ws q
        → Fits letters ws)
    → then_read step go ≡ good_read vs q
    → Fits (c ∷ letters) vs
unfolding StepFits
then_read-Fits c letters (stop bad_read) go q vs h ih e = cc e
then_read-Fits c letters (stop (good_read [] p)) go q [] h ih e = h
then_read-Fits c letters (stop (good_read [] p)) go q (v ∷ vs) h ih e = cc e
then_read-Fits c letters (stop (good_read (v ∷ ws) p)) go q vs h ih e = absurd h
then_read-Fits c letters (value_read v s punc) go q vs h ih e =
    with_value-Fits c letters v (go s punc) q vs h (ih s punc) e

-- Where the parameters of a command are accepted they fit its `param_string`: for `w` or `o` a word, for
-- `d` or `p` a number, for `i` or `n` one of the two, for `s` or `t` a text. They are missing_param from an
-- optional one on at most, and a letter that is not a capital has its word or text in small letters.
pub get_parameters-Fits :
    (scan : List ℕ → Option ℤ) (letters s : List ℕ) (punc q : Option ℕ) (vs : List Value)
    → get_parameters scan letters s punc ≡ good_read vs q
    → Fits letters vs
unfolding get_parameters
get_parameters-Fits scan [] s punc q vs e = at_end-Fits s punc q vs e
get_parameters-Fits scan (c ∷ letters) s punc q vs e =
    then_read-Fits c letters (read_param scan (param_kind c) c punc s) _ q vs
      (read_param-Fits scan (param_kind c) c punc s)
      (λ s' punc' ws h. get_parameters-Fits scan letters s' punc' q ws h) e
