-- ===== src/Fen/Length.antt =====
-- src/eco.c: the length of what `board_to_FEN` writes.
use docker_chessd.Prelude.{
  ℕ, zero, suc, ◌+◌, ◌*◌, ◌≤◌, ◌==◌, if◌then◌else◌, [], ◌∷◌, length, length-append, arith,
}
use docker_chessd.Board.{Board, GameState}
use docker_chessd.Fen.{print_row, print_rows, board_to_fen, side_char}

-- A rank takes one character for each file that is left, and one for empty squares that are pending.
length-print_row :
    (left f r n : ℕ) (b : Board)
    → length (print_row left b r f n) ≤ left + (if n == 0 then 0 else 1)
unfolding print_row
length-print_row zero f r n b = ground arith
length-print_row (suc left) f r n b = ground (
  arith,
  length-print_row left (f + 1) r 0 b,
  length-print_row left (f + 1) r n b,
  length-print_row left (f + 1) r (n + 1) b,
)

length-print_rows : (n : ℕ) (b : Board) → length (print_rows n b) ≤ n * 9
unfolding print_rows
length-print_rows zero b = omega arith
length-print_rows (suc r) b = omega (
  arith,
  length-append {0} (print_row 8 b r 0 0) ((if r == 0 then b' ' else b'/') ∷ print_rows r b),
  length-print_row 8 0 r 0 b,
  length-print_rows r b,
)

-- The text has at most 73 characters, so that with its final NUL it fits the 74 bytes of `FENstring`
-- and of the field `FENpos` of a move.
pub length-board_to_fen : (gs : GameState) → length (board_to_fen gs) ≤ 73
unfolding board_to_fen
length-board_to_fen gs = omega (
  arith,
  length-append {0} (print_rows 8 gs.board) (side_char gs.on_move ∷ []),
  length-print_rows 8 gs.board,
)
