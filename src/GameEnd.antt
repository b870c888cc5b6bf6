-- ===== src/GameEnd.antt =====
-- src/movecheck.c: `has_legal_move` and the end of `execute_move`, which tells whether a move ends
-- the game.
pub mod Complete
pub mod Verdict
use docker_chessd.Prelude.{
  ℕ, ◌+◌, Bool, true, false, ltb, if◌then◌else◌, Option, none, some, List, [], ◌∷◌, ◌++◌, any,
}
use docker_chessd.Prelude.Int.{pos, inc}
use docker_chessd.Board.{
  toggle, color_eq, pawn, knight, bishop, rook, queen, king, kind_eq, Square, nopiece, piece,
  is_empty, has_kind, GameState,
}
use docker_chessd.Pieces.{Pos, squares, piece_loop}
use docker_chessd.Legal.{from_square, from_holding}
use docker_chessd.Check.{in_check}
use docker_chessd.Move.{Move, Garray, Outcome, move_ok, stalemate, checkmate, no_material}
use docker_chessd.Execute.{make_move}
use docker_chessd.Calculate.{legal_andcheck_move}
use docker_chessd.Possible.{
  minus_one, jump, possible_pawn_moves, possible_knight_moves, possible_bishop_moves,
  possible_rook_moves, possible_queen_moves, possible_king_moves,
}

-- The `switch` of `has_legal_move`.
unfoldable pub possible_moves : GameState → Square → ℕ → ℕ → List Pos
possible_moves gs nopiece f r = []
possible_moves gs (piece c pawn) f r = possible_pawn_moves gs f r
possible_moves gs (piece c knight) f r = possible_knight_moves gs f r
possible_moves gs (piece c bishop) f r = possible_bishop_moves gs f r
possible_moves gs (piece c rook) f r = possible_rook_moves gs f r
possible_moves gs (piece c queen) f r = possible_queen_moves gs f r
possible_moves gs (piece c king) f r = possible_king_moves gs f r

-- Can the piece at `(f, r)` go to one of the squares?
unfoldable pub can_go : Garray → GameState → Pos → List Pos → Bool
can_go g gs (f, r) l = any (λ p. legal_andcheck_move g gs (from_square f r) p.0 p.1) l

-- The loop over the mover's pieces. The arrays of squares are never reset, so each piece is tried
-- on the squares of those before it too.
unfoldable pub try_pieces : Garray → GameState → List Pos → List Pos → Bool
try_pieces g gs tried [] = false
try_pieces g gs tried ((f, r) ∷ l) =
    let rest = try_pieces g gs (tried ++ possible_moves gs (gs.board f r) f r) l in
    if can_go g gs (f, r) (tried ++ possible_moves gs (gs.board f r) f r) then true else rest

-- `kf`, `kr`: the last king that the loop has met, at first (0, 0).
unfoldable pub last_king : GameState → Pos → List Pos → Pos
last_king gs p [] = p
last_king gs p ((f, r) ∷ l) = last_king gs (if has_kind (gs.board f r) king then (f, r) else p) l

-- The squares of the board at `kf - 1` to `kf + 1` and `kr - 1` to `kr + 1`.
present : List (Option Pos) → List Pos
present [] = []
present (none ∷ l) = present l
present (some p ∷ l) = p ∷ present l

around : Pos → List Pos
unfolding present jump
around (f, r) = present (
    jump minus_one minus_one f r
    ∷ jump minus_one (pos 0) f r
    ∷ jump minus_one (pos 1) f r
    ∷ jump (pos 0) minus_one f r
    ∷ jump (pos 0) (pos 0) f r
    ∷ jump (pos 0) (pos 1) f r
    ∷ jump (pos 1) minus_one f r
    ∷ jump (pos 1) (pos 0) f r
    ∷ jump (pos 1) (pos 1) f r
    ∷ [])

-- The state with one more queen to drop.
abbrev lend_queen : GameState → GameState
lend_queen gs = record gs {
  holding = λ c k.
      if color_eq c gs.on_move
      then (if kind_eq k queen then inc (gs.holding c k) else gs.holding c k)
      else gs.holding c k;
}

-- The last part, for linked games: could a queen be dropped beside the king?
unfoldable pub try_drops : Garray → GameState → Pos → Bool
unfolding around
try_drops g gs k =
    any
      (λ p.
        if is_empty (gs.board p.0 p.1)
        then legal_andcheck_move g (lend_queen gs) (from_holding queen) p.0 p.1
        else false)
      (around k)

abbrev in_linked_game : Garray → Option ℕ → Bool
in_linked_game g none = false
in_linked_game g (some n) = (g n).linked

unfoldable pub has_legal_move : Garray → GameState → Bool
has_legal_move g gs =
    if try_pieces g gs [] (piece_loop gs.board gs.on_move)
    then true
    else if in_linked_game g gs.game_num
    then try_drops g gs (last_king gs (0, 0) (piece_loop gs.board gs.on_move))
    else false

-- The `switch` that measures the mating material: a knight or a bishop counts 1, a king nothing,
-- and any other piece sets the count to 2.
abbrev pub material : Square → ℕ → ℕ
material nopiece n = n
material (piece c pawn) n = 2
material (piece c knight) n = n + 1
material (piece c bishop) n = n + 1
material (piece c rook) n = 2
material (piece c queen) n = 2
material (piece c king) n = n

unfoldable pub strength : GameState → ℕ → List Pos → ℕ
strength gs n [] = n
strength gs n ((f, r) ∷ l) = strength gs (material (gs.board f r) n) l

-- The result for the state after the move, with the other side to move.
unfoldable pub game_status : Garray → Bool → GameState → Outcome
game_status g check gs =
    if check
    then (if has_legal_move g gs then move_ok else checkmate)
    else if has_legal_move g gs
    then (if ltb (strength gs 0 squares) 2 then no_material else move_ok)
    else stalemate

-- `execute_move(gs, mt, 1)`: the state and the move that it leaves, and its result.
unfoldable pub execute_move : Garray → GameState → Move → GameState × Move × Outcome
execute_move g gs m =
    let (gs', m') = make_move g gs m in
    let after = record gs' { on_move = toggle gs'.on_move } in
    (after, m', game_status g (in_check gs') after)
