-- ===== src/Commands/Match.antt =====
-- src/command.c: `match_command` against the list of the commands that a word may stand for.
use docker_chessd.Prelude.{
  ℕ, ◌≡◌, refl, ap, inl, inr, Bool, ◌&&◌, Option, none, some, List, [], ◌∷◌, keep, keep-cons_yes,
  keep-cons_no, Bool-cases,
}
use docker_chessd.Commands.{
  Command, Matched, matched, ambiguous, not_found, begins, second, find_command, unless_removed,
  match_command,
}

-- The commands that the player may use and whose names begin with the word.
abbrev pub is_candidate : (ℕ → Bool) → List ℕ → Command → Bool
is_candidate allowed comm c = begins c.comm_name comm && allowed c.admin_level

-- One candidate, and what none or several mean.
abbrev pub only : List Command → Matched
only [] = not_found
only (c ∷ []) = matched c
only (c ∷ d ∷ rest) = ambiguous

abbrev got_before : Option Command → List Command → List Command
got_before none l = l
got_before (some c) l = c ∷ l

find_command_lem :
    (allowed : ℕ → Bool) (comm : List ℕ) (l : List Command) (got_it : Option Command)
    → find_command allowed comm l got_it
      ≡ only (got_before got_it (keep (is_candidate allowed comm) l))
unfolding find_command
find_command_lem allowed comm [] none = refl
find_command_lem allowed comm [] (some c) = refl
find_command_lem allowed comm (x ∷ l) got_it = elim (Bool-cases (is_candidate allowed comm x)) [
  | inl e ↦
      rw (e, keep-cons_yes (is_candidate allowed comm) x l e)
        (two got_it (find_command_lem allowed comm l (some x)))
  | inr e ↦
      rw (e, keep-cons_no (is_candidate allowed comm) x l e)
        (find_command_lem allowed comm l got_it)
]
  where
    two :
        (g : Option Command)
        → find_command allowed comm l (some x) ≡ only (x ∷ keep (is_candidate allowed comm) l)
        → second (find_command allowed comm l (some x)) g
          ≡ only (got_before g (x ∷ keep (is_candidate allowed comm) l))
    two none e = e
    two (some c) e = refl

-- A word stands for the one command that the player may use and whose name it begins, if that is not
-- removed; with none it fails, and with several it is ambiguous, also where it is the name of one.
pub match_command-keep :
    (allowed : ℕ → Bool) (removed : List ℕ → Bool) (commands : List Command) (comm : List ℕ)
    → match_command allowed removed commands comm
      ≡ unless_removed removed (only (keep (is_candidate allowed comm) commands))
unfolding match_command
match_command-keep allowed removed commands comm =
    ap (unless_removed removed) (find_command_lem allowed comm commands none)
