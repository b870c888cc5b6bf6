-- ===== src/Commands.antt =====
-- src/command.c: how a line that a player types becomes a command with its parameters. A `char *` into
-- a line is the rest of the line; the words that the source ends by writing a NUL are lists of their
-- own. What a command does is no part of this file.
pub mod Fill
pub mod Alias
pub mod Match
pub mod Params
pub mod Fits
pub mod Run
pub mod Sequence
use docker_chessd.Prelude.{
  ℕ, zero, suc, ◌+◌, ◌-◌, Bool, true, false, not, ◌&&◌, ◌||◌, leb, ltb, ◌==◌, if◌then◌else◌, Option,
  none, some, List, [], ◌∷◌, ◌++◌, length, map, take, drop, find_index,
}
use docker_chessd.Prelude.Int.{ℤ, pos, neg}
use docker_chessd.Prelude.Text.{
  codes, isspace, isdigit, isalpha, tolower, skip_space, same_name, same_text, until, from,
}

abbrev pub ispunct : ℕ → Bool
ispunct c = ltb 32 c && (ltb c 127 && not (isalpha c || isdigit c))

-- `eatword`, and the word before it.
unfoldable pub eatword : List ℕ → List ℕ
unfolding from
eatword s = from isspace s

abbrev pub word : List ℕ → List ℕ
word s = until isspace s

abbrev pub max_com_length : ℕ
max_com_length = 50

-- `parse_command`: the command and its parameters, `none` for COM_BADCOMMAND.
abbrev pub behind_word : List ℕ → List ℕ
behind_word [] = []
behind_word (c ∷ s) = skip_space s

unfoldable pub parse_command : List ℕ → Option (List ℕ × List ℕ)
unfolding eatword until skip_space
parse_command s =
    if leb max_com_length (length (word s)) then none else some (word s, behind_word (eatword s))

-- `struct alias_type`.
pub record AliasType : Type 0 where
  pub comm_name : List ℕ
  pub alias : List ℕ

-- `alias_lookup` in the aliases that are searched: the text that stands for the name.
unfoldable pub alias_lookup : List ℕ → List AliasType → Option (List ℕ)
unfolding same_name
alias_lookup name [] = none
alias_lookup name (a ∷ rest) =
    let found = alias_lookup name rest in if same_name name a.comm_name then some a.alias else found

abbrev pub is_blank : ℕ → Bool
is_blank c = c == 32 || c == 9

-- The name at the start of a line: its punctuation, or the text before the first blank.
unfoldable pub alias_name : List ℕ → List ℕ
unfolding until
alias_name [] = []
alias_name (c ∷ s) =
    if ispunct c then until (λ d. not (ispunct d)) (c ∷ s) else until is_blank (c ∷ s)

-- strchr(s, '@') as an index.
abbrev pub is_at : ℕ → Bool
is_at c = c == b'@'

abbrev pub strchr : List ℕ → Option ℕ
strchr s = find_index is_at s

-- One round of the loop that puts `com_str` in place of each `@` of `name` from `at_offset` on: the new
-- name and offset, or none where there is no `@`.
unfoldable pub replace_at : List ℕ → List ℕ → ℕ → Option ℕ → Option (List ℕ × ℕ)
replace_at com_str name at_offset none = none
replace_at com_str name at_offset (some k) = some (
  take (at_offset + k) name ++ (com_str ++ drop (at_offset + k + 1) name),
  at_offset + k + length com_str,
)

abbrev pub repeat_with : (List ℕ → ℕ → List ℕ × ℕ) → List ℕ × ℕ → Option (List ℕ × ℕ) → List ℕ × ℕ
repeat_with again before none = before
repeat_with again before (some (name2, at_offset)) = again name2 at_offset

-- The loop, on fuel: the text and the offset at its end.
unfoldable pub substitute : ℕ → List ℕ → List ℕ → ℕ → List ℕ × ℕ
unfolding replace_at
substitute zero com_str name at_offset = (name, at_offset)
substitute (suc n) com_str name at_offset =
    repeat_with (λ name2 offset2. substitute n com_str name2 offset2) (name, at_offset)
      (replace_at com_str name at_offset (strchr (drop at_offset name)))

-- A name and the rest of the line, with a space between them where there is a rest.
abbrev pub join : List ℕ → List ℕ → List ℕ
join name [] = name
join name (c ∷ s) = name ++ (32 ∷ c ∷ s)

-- The end of `alias_substitute`: with no `@` in the alias there is one implied at its end.
unfoldable pub expand_alias : List ℕ → List ℕ → List ℕ
unfolding substitute
expand_alias name com_str =
    let done = substitute (suc (length name)) com_str name 0 in
    if done.1 == 0 then join done.0 com_str else done.0

-- `alias_substitute` for the name and the rest of the line.
unfoldable pub use_alias : List ℕ → Option (List ℕ) → List ℕ → List ℕ
unfolding expand_alias same_text
use_alias name none com_str = if same_text name (b'@' ∷ []) then com_str else join name com_str
use_alias name (some alias) com_str =
    if same_text alias (b'@' ∷ []) then com_str else expand_alias alias com_str

-- `alias_substitute`.
unfoldable pub alias_substitute : List AliasType → List ℕ → List ℕ
unfolding alias_name alias_lookup use_alias skip_space
alias_substitute aliases line =
    let name = alias_name line in
    use_alias name (alias_lookup name aliases) (skip_space (drop (length name) line))

-- The entries of `command_list`, without the function.
pub record Command : Type 0 where
  pub comm_name : List ℕ
  pub param_string : List ℕ
  pub admin_level : ℕ

-- The entry, -COM_AMBIGUOUS or -COM_FAILED.
pub data Matched : Type 0 where
  matched : Command → Matched
  ambiguous : Matched
  not_found : Matched

-- strncmp(name, comm, strlen(comm)) == 0.
unfoldable pub begins : List ℕ → List ℕ → Bool
begins name [] = true
begins [] (d ∷ comm) = false
begins (c ∷ name) (d ∷ comm) = let rest = begins name comm in if c == d then rest else false

-- The loop of `match_command`, with `gotIt`; `allowed` is `check_admin` for the player and a level.
abbrev pub second : Matched → Option Command → Matched
second rest none = rest
second rest (some c) = ambiguous

unfoldable pub find_command : (ℕ → Bool) → List ℕ → List Command → Option Command → Matched
unfolding begins
find_command allowed comm [] none = not_found
find_command allowed comm [] (some c) = matched c
find_command allowed comm (x ∷ rest) got_it =
    let with_x = find_command allowed comm rest (some x) in
    let without = find_command allowed comm rest got_it in
    if begins x.comm_name comm && allowed x.admin_level then second with_x got_it else without

-- `match_command`, where `removed` tells the names on the list L_REMOVEDCOM.
abbrev pub unless_removed : (List ℕ → Bool) → Matched → Matched
unless_removed removed (matched c) = if removed c.comm_name then not_found else matched c
unless_removed removed ambiguous = ambiguous
unless_removed removed not_found = not_found

unfoldable pub match_command : (ℕ → Bool) → (List ℕ → Bool) → List Command → List ℕ → Matched
unfolding find_command
match_command allowed removed commands comm =
    unless_removed removed (find_command allowed comm commands none)
