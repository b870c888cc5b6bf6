-- ===== src/Check.antt =====
-- src/movecheck.c: attacked squares, `in_check` and `legal_move`. In the source these call one
-- another (legal_move, legal_king_move, is_square_attacked, in_check, legal_move); here each takes
-- the test of attacked squares as an argument and the chain is closed after one round. The module
-- Check.Recursion shows that the values of the closed functions satisfy the equations of the source; the
-- order of its tests, on which the end of the recursion rests, is not modelled.
pub mod Recursion
use docker_chessd.Prelude.{Bool, true, false, ℕ, Option, none, some, first, any}
use docker_chessd.Board.{toggle, king, nopiece, piece, is_piece, put, GameState}
use docker_chessd.Pieces.{Pos, squares, piece_loop}
use docker_chessd.Legal.{Attacked, Origin, from_square, legal_move_with}

-- The first square in board order that holds the king of the side that is not to move.
unfoldable pub find_king : GameState → Option Pos
find_king gs = first (λ p. is_piece (gs.board p.0 p.1) (toggle gs.on_move) king) squares

-- The loop of `in_check` over the pieces of the side to move.
unfoldable pub check_loop : Attacked → GameState → Option Pos → Bool
check_loop attacked gs none = false
check_loop attacked gs (some (kf, kr)) =
    any (λ p. legal_move_with attacked gs (from_square p.0 p.1) kf kr)
      (piece_loop gs.board gs.on_move)

-- `in_check`: is the side that is not to move in check?
unfoldable pub in_check_with : Attacked → GameState → Bool
unfolding check_loop
in_check_with attacked gs = check_loop attacked gs (find_king gs)

-- `is_square_attacked`: moves the king to the square and looks for check.
unfoldable pub is_square_attacked_with : Attacked → GameState → ℕ → ℕ → Bool
unfolding in_check_with
is_square_attacked_with attacked gs kf kr = in_check_with attacked (record gs {
  board = put (put gs.board 4 kr nopiece) kf kr (piece gs.on_move king);
  on_move = toggle gs.on_move;
})

-- Castling never captures, so `in_check` never asks for an attacked square.
abbrev pub unasked : Attacked
unasked gs f r = false

unfoldable pub in_check : GameState → Bool
unfolding in_check_with
in_check gs = in_check_with unasked gs

unfoldable pub is_square_attacked : GameState → ℕ → ℕ → Bool
unfolding is_square_attacked_with
is_square_attacked gs kf kr = is_square_attacked_with unasked gs kf kr

unfoldable pub legal_move : GameState → Origin → ℕ → ℕ → Bool
unfolding legal_move_with is_square_attacked
legal_move gs o tf tr = legal_move_with is_square_attacked gs o tf tr
