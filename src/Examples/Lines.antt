-- ===== src/Examples/Lines.antt =====
-- src/command.c at concrete lines.
use docker_chessd.Prelude.{
  ℕ, ◌⊎◌, All, ◌+◌, ◌-◌, ◌*◌, leb, ◌==◌, ◌&&◌, if◌then◌else◌, ◌≡◌, refl, true, false, Option, none,
  some, List, [], ◌∷◌, length, drop, keep, count_if, arith,
}
use docker_chessd.Prelude.Int.{ℤ, pos}
use docker_chessd.Prelude.Text.{codes, same_name, skip_space, until, from, same_text}
use docker_chessd.Commands.{
  eatword, AliasType, alias_lookup, alias_name, is_at, replace_at, substitute, expand_alias,
  use_alias, alias_substitute, Command, ambiguous, begins, find_command, unless_removed,
  match_command,
}
use docker_chessd.Commands.Alias.{expansion, alias_substitute-expansion, length-alias_substitute}
use docker_chessd.Commands.Match.{is_candidate, only, match_command-keep}
use docker_chessd.Commands.Params.{
  type_word, type_punc, type_int, type_string, good_read, word_param, int_param, either_param,
  string_param, read_param, get_parameters,
}
use docker_chessd.Commands.Fits.{Fits, get_parameters-Fits}
use docker_chessd.Commands.Run.{com_ok, Server, one_command, process_command}
use docker_chessd.Commands.Sequence.{joined, aliased, IsWhole, Runs, process_command-Runs}

abbrev aliases : List AliasType
aliases =
    record { comm_name = codes "rematch"; alias = codes "match @ 5 0 @" }
    ∷ record { comm_name = codes "+"; alias = codes "addlist" }
    ∷ []

replaced : alias_substitute aliases (codes "rematch ana") ≡ codes "match ana 5 0 ana"
unfolding until from same_name same_text skip_space alias_lookup alias_name replace_at substitute
    expand_alias use_alias alias_substitute
replaced = refl

appended : alias_substitute aliases (codes "+ censor ana") ≡ codes "addlist censor ana"
unfolding until from same_name same_text skip_space alias_lookup alias_name replace_at substitute
    expand_alias use_alias alias_substitute
appended = refl

alias_substitute-expansion_example :
    alias_substitute aliases (codes "rematch ana")
    ≡ expansion
        (codes "match @ 5 0 @")
        (skip_space (drop (length (alias_name (codes "rematch ana"))) (codes "rematch ana")))
unfolding until same_name alias_lookup alias_name
alias_substitute-expansion_example =
    alias_substitute-expansion aliases (codes "rematch ana") (codes "match @ 5 0 @") refl

length-alias_substitute_example :
    length (alias_substitute aliases (codes "rematch ana")) + count_if is_at (codes "match @ 5 0 @")
    ≡ length (codes "match @ 5 0 @")
      + count_if is_at (codes "match @ 5 0 @")
        * length
            (skip_space (drop (length (alias_name (codes "rematch ana"))) (codes "rematch ana")))
unfolding until same_name alias_lookup alias_name
length-alias_substitute_example =
    length-alias_substitute aliases (codes "rematch ana") (codes "match @ 5 0 @") refl
      (λ e. omega (arith, e))

abbrev commands : List Command
commands =
    record { comm_name = codes "set"; param_string = codes "wT"; admin_level = 0 }
    ∷ record { comm_name = codes "setlocale"; param_string = codes "w"; admin_level = 100 }
    ∷ record { comm_name = codes "play"; param_string = codes "i"; admin_level = 0 }
    ∷ []

-- The name of a command is ambiguous for one who may use a longer one.
set_is_ambiguous : match_command (λ level. true) (λ name. false) commands (codes "set") ≡ ambiguous
unfolding begins find_command match_command
set_is_ambiguous = refl

match_command-keep_example :
    match_command (λ level. level == 0) (λ name. false) commands (codes "pl")
    ≡ unless_removed
        (λ name. false)
        (only (keep (is_candidate (λ level. level == 0) (codes "pl")) commands))
match_command-keep_example =
    match_command-keep (λ level. level == 0) (λ name. false) commands (codes "pl")

-- `sscanf` at a digit.
abbrev scan : List ℕ → Option ℤ
scan [] = none
scan (c ∷ s) = if leb b'0' c && leb c b'9' then some (pos (c - b'0')) else none

play_by_number :
    get_parameters scan (codes "i") (codes "3") none ≡ good_read (type_int (pos 3) ∷ []) none
unfolding until from eatword skip_space word_param int_param either_param string_param read_param
    get_parameters
play_by_number = refl

set_text :
    get_parameters scan (codes "wT") (codes "Shout On") none
    ≡ good_read (type_word (codes "shout") ∷ type_string (codes "On") ∷ []) none
unfolding until from eatword skip_space word_param int_param either_param string_param read_param
    get_parameters
set_text = refl

-- Both words are the last of the two signs.
two_signs :
    get_parameters scan (codes "ww") (codes "+ -") none
    ≡ good_read (type_punc ∷ type_punc ∷ []) (some b'-')
unfolding until from eatword skip_space word_param int_param either_param string_param read_param
    get_parameters
two_signs = refl

get_parameters-Fits_example :
    Fits (codes "wT") (type_word (codes "shout") ∷ type_string (codes "On") ∷ [])
get_parameters-Fits_example =
    get_parameters-Fits scan (codes "wT") (codes "Shout On") none none
      (type_word (codes "shout") ∷ type_string (codes "On") ∷ []) set_text

-- A server that counts the commands.
abbrev server : Server ℕ
server = record {
  commands = commands;
  scan = scan;
  g_alias_list = [];
  alias_list = λ s. aliases;
  has_game = λ s. false;
  in_setup = λ s. false;
  check_admin = λ s level. level == 0;
  is_removed = λ s name. false;
  comm_func = λ c vs punc s. (com_ok, s + 1);
}

process_command-Runs_example :
    ((begins (codes "+ censor ana; play 3") (codes "alias ") ≡ true)
      × (process_command server (codes "+ censor ana; play 3") 0
          ≡ one_command server 0 (codes "+ censor ana; play 3")))
    ⊎ ((begins (codes "+ censor ana; play 3") (codes "alias ") ≡ false)
        × (ts : List (List ℕ)) × (aliased server 0 (codes "+ censor ana; play 3") ≡ joined ts)
        × All IsWhole ts
        × Runs server ts 0 (process_command server (codes "+ censor ana; play 3") 0))
process_command-Runs_example = process_command-Runs server (codes "+ censor ana; play 3") 0
