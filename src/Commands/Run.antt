-- ===== src/Commands/Run.antt =====
-- src/command.c: `one_command` and `process_command`, with `is_drop` of src/setup.c. What a command does to
-- the state of the server is a parameter.
use docker_chessd.Prelude.{
  ℕ, Bool, true, false, not, ◌&&◌, ◌||◌, ltb, ◌==◌, if◌then◌else◌, Option, none, some, List, [],
  ◌∷◌, length, map, keep,
}
use docker_chessd.Prelude.Int.{ℤ}
use docker_chessd.Prelude.Text.{codes, tolower, skip_space}
use docker_chessd.Syntax.{MoveForm, not_move, is_move, isfile, isrank}
use docker_chessd.Commands.{
  parse_command, AliasType, alias_substitute, Command, Matched, matched, ambiguous, not_found,
  begins, match_command,
}
use docker_chessd.Commands.Params.{Value, Read, bad_read, good_read, get_parameters}

-- `check_valid_square`.
abbrev pub check_valid_square : List ℕ → Bool
check_valid_square (f ∷ r ∷ []) = isfile f && isrank r
check_valid_square _ = false

-- The letters prnbqk, the sign @ or *.
abbrev pub is_piece_letter : ℕ → Bool
is_piece_letter c =
    c == b'p' || (c == b'r' || (c == b'n' || (c == b'b' || (c == b'q' || c == b'k'))))

abbrev pub is_piece_capital : ℕ → Bool
is_piece_capital c =
    c == b'P' || (c == b'R' || (c == b'N' || (c == b'B' || (c == b'Q' || c == b'K'))))

abbrev pub is_drop_sign : ℕ → Bool
is_drop_sign c = c == b'@' || c == b'*'

-- A piece or none, the sign and a square.
abbrev pub sign_and_square : List ℕ → Bool
sign_and_square [] = false
sign_and_square (c ∷ s) = is_drop_sign c && check_valid_square s

abbrev pub colored_drop : List ℕ → Bool
colored_drop [] = false
colored_drop (c ∷ s) = is_piece_letter c && sign_and_square s

-- `is_drop`.
unfoldable pub is_drop : List ℕ → Bool
is_drop [] = false
is_drop (c ∷ s) =
    if ltb (length s) 3 || ltb 4 (length s)
    then false
    else if c == b'x' || c == b'X'
    then sign_and_square s
    else if c == b'w'
    then colored_drop s
    else if length s == 4
    then c == b'b' && colored_drop s
    else if is_piece_letter c || is_piece_capital c
    then sign_and_square s
    else false

-- The results that `one_command` has of its own.
pub data Com : Type 0 where
  com_ok : Com
  com_failed : Com
  com_ismove : Com
  com_ambiguous : Com
  com_badparameters : Com
  com_badcommand : Com
  com_rights : Com
  com_ismove_insetup : Com
  com_other : ℕ → Com

abbrev pub is_ok : Com → Bool
is_ok com_ok = true
is_ok _ = false

-- What the commands find of a player and of the server in a state, and what a command does.
pub record Server (A : Type 0) : Type 0 where
  pub commands : List Command
  pub scan : List ℕ → Option ℤ
  pub g_alias_list : List AliasType
  pub alias_list : A → List AliasType
  pub has_game : A → Bool
  pub in_setup : A → Bool
  pub check_admin : A → ℕ → Bool
  pub is_removed : A → List ℕ → Bool
  pub comm_func : Command → List Value → Option ℕ → A → Com × A

abbrev pub is_no_move : MoveForm → Bool
is_no_move not_move = true
is_no_move _ = false

module _ {A : Type 0} (server : Server A) where
  -- From the parameters on.
  abbrev pub call : Command → A → Read → Com × A
  call c s bad_read = (com_badparameters, s)
  call c s (good_read vs punc) = Server.comm_func server c vs punc s

  -- From the result of `match_command` on.
  unfoldable pub run_matched : List ℕ → A → Matched → Com × A
  unfolding get_parameters
  run_matched parameters s not_found = (com_failed, s)
  run_matched parameters s ambiguous = (com_ambiguous, s)
  run_matched parameters s (matched c) =
      if not (Server.check_admin server s c.admin_level)
      then (com_rights, s)
      else call c s (get_parameters (Server.scan server) c.param_string parameters none)

  unfoldable pub run_parsed : A → Option (List ℕ × List ℕ) → Com × A
  unfolding is_drop run_matched
  run_parsed s none = (com_badcommand, s)
  run_parsed s (some (comm, parameters)) =
      if Server.has_game server s && (Server.in_setup server s && is_drop comm)
      then (com_ismove, s)
      else if not (is_no_move (is_move comm))
      then (
        if not (Server.has_game server s)
            then com_ok
            else if Server.in_setup server s
            then com_ismove_insetup
            else com_ismove,
        s,
      )
      else run_matched parameters s (
          match_command (Server.check_admin server s) (Server.is_removed server s)
            (Server.commands server) (map tolower comm))

  -- `one_command`.
  unfoldable pub one_command : A → List ℕ → Com × A
  unfolding parse_command run_parsed
  one_command s line = run_parsed s (parse_command line)

  -- The aliases of the player and those of the server.
  unfoldable pub substituted : A → List ℕ → List ℕ
  unfolding alias_substitute
  substituted s line =
      alias_substitute (Server.g_alias_list server)
        (alias_substitute (Server.alias_list server s) line)

  abbrev pub run_token : A → List ℕ → Com × A
  run_token s [] = (com_ok, s)
  run_token s (c ∷ t) = one_command s (substituted s (c ∷ t))

  -- if (retval != COM_OK) return retval.
  abbrev pub unless_failed : Com × A → (A → Com × A) → Com × A
  unless_failed r go = if is_ok r.0 then go r.1 else r

  -- The loop of `process_command` over the parts of the line.
  unfoldable pub run_tokens : List (List ℕ) → A → Com × A
  unfolding substituted one_command skip_space
  run_tokens [] s = (com_ok, s)
  run_tokens (t ∷ rest) s = unless_failed (run_token s (skip_space t)) (λ s'. run_tokens rest s')

-- strtok_r(s, ";", ...): the parts of a text that are not empty.
abbrev pub put_first : ℕ → List (List ℕ) → List (List ℕ)
put_first c [] = (c ∷ []) ∷ []
put_first c (t ∷ rest) = (c ∷ t) ∷ rest

unfoldable pub split : List ℕ → List (List ℕ)
split [] = [] ∷ []
split (c ∷ s) = let rest = split s in if c == b';' then [] ∷ rest else put_first c rest

abbrev pub is_part : List ℕ → Bool
is_part [] = false
is_part (c ∷ s) = true

abbrev pub parts : List ℕ → List (List ℕ)
parts s = keep is_part (split s)

-- `process_command`.
module _ {A : Type 0} (server : Server A) where
  abbrev pub run_text : List ℕ → A → Com × A
  run_text text s = run_tokens server (parts text) s

  unfoldable pub process_command : List ℕ → A → Com × A
  unfolding begins run_tokens split
  process_command line s =
      if begins line (codes "alias ")
      then one_command server s line
      else run_text (substituted server s line) s
