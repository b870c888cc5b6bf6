-- ===== src/Possible/Squares.antt =====
-- The generators of the moves of the pieces other than pawns, together.
use docker_chessd.Prelude.{ℕ, ◌<◌, ◌≡◌, ◌↔◌, true, In, leb, dist}
use docker_chessd.Board.{GameState}
use docker_chessd.Legal.{legal_knight_move, legal_bishop_move, legal_rook_move, legal_queen_move}
use docker_chessd.Possible.{
  possible_knight_moves, possible_bishop_moves, possible_rook_moves, possible_queen_moves,
  possible_king_moves,
}
use docker_chessd.Possible.Jumps.{free_for, In-possible_knight_moves, In-possible_king_moves}
use docker_chessd.Possible.Sliders.{
  Elsewhere, In-possible_rook_moves, In-possible_bishop_moves, In-possible_queen_moves,
}

-- From a square of the board the generated squares of a rook, a bishop and a queen are the other squares
-- of the board that hold no piece of the mover and that legal_rook_move, legal_bishop_move or
-- legal_queen_move accepts; those of a knight the squares without a piece of the mover that
-- legal_knight_move accepts, and those of a king the neighbours without one.
pub possible_squares_iff :
    (gs : GameState) (f r x y : ℕ) (hf : f < 8) (hr : r < 8)
    → (In (x, y) (possible_rook_moves gs f r)
        ↔ (Elsewhere gs f r x y hf hr × (legal_rook_move gs.board f r x y ≡ true)))
      × (In (x, y) (possible_bishop_moves gs f r)
          ↔ (Elsewhere gs f r x y hf hr × (legal_bishop_move gs.board f r x y ≡ true)))
      × (In (x, y) (possible_queen_moves gs f r)
          ↔ (Elsewhere gs f r x y hf hr × (legal_queen_move gs.board f r x y ≡ true)))
      × (In (x, y) (possible_knight_moves gs f r) ↔ (
          (x < 8)
          × (y < 8)
          × (legal_knight_move f r x y ≡ true)
          × (free_for gs.board gs.on_move x y ≡ true)))
      × (In (x, y) (possible_king_moves gs f r) ↔ (
          (x < 8)
          × (y < 8)
          × ((leb (dist f x) 1 ≡ true) × (leb (dist r y) 1 ≡ true) × ¬ ((f ≡ x) × (r ≡ y)))
          × (free_for gs.board gs.on_move x y ≡ true)))
possible_squares_iff gs f r x y hf hr = (
  In-possible_rook_moves gs f r x y hf hr,
  In-possible_bishop_moves gs f r x y hf hr,
  In-possible_queen_moves gs f r x y hf hr,
  In-possible_knight_moves gs f r x y,
  In-possible_king_moves gs f r x y,
)
