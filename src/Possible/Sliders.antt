-- ===== src/Possible/Sliders.antt =====
-- possible_rook_moves, possible_bishop_moves and possible_queen_moves generate exactly the moves
-- that legal_rook_move, legal_bishop_move and legal_queen_move accept.
use docker_chessd.Prelude.{
  ℕ, ◌+◌, ◌-◌, ◌<◌, true, false, ◌≡◌, ◌↔◌, ◌⊎◌, ◌++◌, arith, In, In-append_iff, dist, List,
}
use docker_chessd.Prelude.Int.{pos}
use docker_chessd.Board.{GameState}
use docker_chessd.Pieces.{Pos}
use docker_chessd.Legal.{legal_rook_move, legal_bishop_move, legal_queen_move}
use docker_chessd.Possible.{
  minus_one, ray, possible_rook_moves, possible_bishop_moves, possible_queen_moves,
}
use docker_chessd.Possible.Jumps.{free_for}
use docker_chessd.Possible.Rays.{
  up, down, left, right, diagonal, file_clear_first, rank_clear_first, diagonal_clear_first,
}

module _ (gs : GameState) (f r x y : ℕ) (hf : f < 8) (hr : r < 8) where
  abbrev pub Elsewhere : Type 0
  Elsewhere = (x < 8) × (y < 8) × ¬ ((f ≡ x) × (r ≡ y)) × (free_for gs.board gs.on_move x y ≡ true)

  In-four :
      (a b c d : List Pos)
      → In (x, y) (a ++ (b ++ (c ++ d))) ↔ (In (x, y) a ⊎ In (x, y) b ⊎ In (x, y) c ⊎ In (x, y) d)
  In-four a b c d = ground (
    arith,
    In-append_iff (x, y) a (b ++ (c ++ d)),
    In-append_iff (x, y) b (c ++ d),
    In-append_iff (x, y) c d,
  )

  -- From a square of the board, the rook's generated squares are the other squares of the board that
  -- hold no piece of the mover and that legal_rook_move accepts.
  pub In-possible_rook_moves :
      In (x, y) (possible_rook_moves gs f r)
      ↔ (Elsewhere × (legal_rook_move gs.board f r x y ≡ true))
  unfolding possible_rook_moves legal_rook_move
  In-possible_rook_moves = ground (
    arith,
    In-four (ray 8 gs.board gs.on_move minus_one (pos 0) f r)
        (ray 8 gs.board gs.on_move (pos 1) (pos 0) f r)
        (ray 8 gs.board gs.on_move (pos 0) (pos 1) f r)
        (ray 8 gs.board gs.on_move (pos 0) minus_one f r),
    left gs.board gs.on_move 8 f r x y hf hr,
    right gs.board gs.on_move 8 f r x y hf hr,
    up gs.board gs.on_move 8 f r x y hf hr,
    down gs.board gs.on_move 8 f r x y hf hr,
    rank_clear_first (f - (x + 1)) gs.board r (x + 1),
    rank_clear_first (x - (f + 1)) gs.board r (f + 1),
    file_clear_first (y - (r + 1)) gs.board f (r + 1),
    file_clear_first (r - (y + 1)) gs.board f (y + 1),
  )

  -- From a square of the board, the bishop's generated squares are the other squares of the board
  -- that hold no piece of the mover and that legal_bishop_move accepts.
  pub In-possible_bishop_moves :
      In (x, y) (possible_bishop_moves gs f r)
      ↔ (Elsewhere × (legal_bishop_move gs.board f r x y ≡ true))
  unfolding possible_bishop_moves legal_bishop_move
  In-possible_bishop_moves = ground (
    arith,
    In-four (ray 8 gs.board gs.on_move minus_one (pos 1) f r)
        (ray 8 gs.board gs.on_move (pos 1) (pos 1) f r)
        (ray 8 gs.board gs.on_move minus_one minus_one f r)
        (ray 8 gs.board gs.on_move (pos 1) minus_one f r),
    diagonal gs.board gs.on_move false true 8 f r x y hf hr,
    diagonal gs.board gs.on_move true true 8 f r x y hf hr,
    diagonal gs.board gs.on_move false false 8 f r x y hf hr,
    diagonal gs.board gs.on_move true false 8 f r x y hf hr,
    diagonal_clear_first (dist f x - 1) gs.board false true (f - 1) (r + 1),
    diagonal_clear_first (dist f x - 1) gs.board true true (f + 1) (r + 1),
    diagonal_clear_first (dist f x - 1) gs.board false false (f - 1) (r - 1),
    diagonal_clear_first (dist f x - 1) gs.board true false (f + 1) (r - 1),
  )

  -- From a square of the board, the queen's generated squares are the other squares of the board that
  -- hold no piece of the mover and that legal_queen_move accepts.
  pub In-possible_queen_moves :
      In (x, y) (possible_queen_moves gs f r)
      ↔ (Elsewhere × (legal_queen_move gs.board f r x y ≡ true))
  unfolding possible_queen_moves legal_queen_move
  In-possible_queen_moves = ground (
    arith,
    In-append_iff (x, y) (possible_rook_moves gs f r) (possible_bishop_moves gs f r),
    In-possible_rook_moves,
    In-possible_bishop_moves,
  )
