-- ===== src/Possible/Jumps.antt =====
-- Knight and king jumps: the generated squares are exactly those that the legality tests accept.
use docker_chessd.Prelude.{
  ℕ, suc, ◌+◌, ◌<◌, Bool, true, ◌≡◌, ◌↔◌, ◌⊎◌, ◌||◌, Option, none, some, List, [], ◌∷◌, arith, In,
  In-append_iff, leb, dist,
}
use docker_chessd.Prelude.Int.{ℤ, pos, negsuc, offset}
use docker_chessd.Board.{GameState, Board, Color, is_empty, iscolor, toggle}
use docker_chessd.Pieces.{Pos}
use docker_chessd.Legal.{legal_knight_move}
use docker_chessd.Possible.{
  jump, land, jumps, knight_jumps, possible_knight_moves, king_jumps, possible_king_moves,
}

-- The square where a jump may land.
abbrev pub free_for : Board → Color → ℕ → ℕ → Bool
free_for b mover f r = is_empty (b f r) || iscolor (b f r) (toggle mover)

-- `y` is `x + d`.
abbrev Shift : ℤ → ℕ → ℕ → Type 0
Shift (pos d) x y = y ≡ x + d
Shift (negsuc d) x y = y + suc d ≡ x

abbrev Lands : List (ℤ × ℤ) → ℕ → ℕ → ℕ → ℕ → Type 0
Lands [] f r f' r' = ⊥
Lands ((df, dr) ∷ l) f r f' r' = (Shift df f f' × Shift dr r r') ⊎ Lands l f r f' r'

pub offset_iff : (d : ℤ) (x y : ℕ) → (offset d x ≡ some y) ↔ (Shift d x y × (y < 8))
unfolding offset
offset_iff (pos d) x y = ground arith
offset_iff (negsuc d) x y = ground arith

jump_iff :
    (df dr : ℤ) (f r f' r' : ℕ)
    → (jump df dr f r ≡ some (f', r')) ↔ ((offset df f ≡ some f') × (offset dr r ≡ some r'))
unfolding jump
jump_iff df dr f r f' r' = ground arith

In-land :
    (b : Board) (mover : Color) (o : Option Pos) (f r : ℕ)
    → In (f, r) (land b mover o) ↔ ((o ≡ some (f, r)) × (free_for b mover f r ≡ true))
unfolding land
In-land b mover none f r = ground arith
In-land b mover (some (x, y)) f r = ground arith

In-jumps :
    (b : Board) (mover : Color) (f r f' r' : ℕ) (l : List (ℤ × ℤ))
    → In (f', r') (jumps b mover f r l)
      ↔ ((f' < 8) × (r' < 8) × Lands l f r f' r' × (free_for b mover f' r' ≡ true))
unfolding jumps
In-jumps b mover f r f' r' [] = ground arith
In-jumps b mover f r f' r' ((df, dr) ∷ l) = ground (
  arith,
  In-append_iff (f', r') (land b mover (jump df dr f r)) (jumps b mover f r l),
  In-land b mover (jump df dr f r) f' r',
  jump_iff df dr f r f' r',
  offset_iff df f f',
  offset_iff dr r r',
  In-jumps b mover f r f' r' l,
)

knight_jumps_lem :
    (f r f' r' : ℕ) → (legal_knight_move f r f' r' ≡ true) ↔ Lands knight_jumps f r f' r'
unfolding legal_knight_move
knight_jumps_lem f r f' r' = ground arith

king_jumps_lem :
    (f r f' r' : ℕ)
    → ((leb (dist f f') 1 ≡ true) × (leb (dist r r') 1 ≡ true) × ¬ ((f ≡ f') × (r ≡ r')))
      ↔ Lands king_jumps f r f' r'
king_jumps_lem f r f' r' = ground arith

-- The knight's generated squares are the squares of the board that `legal_knight_move` accepts and
-- that do not hold a piece of the mover.
pub In-possible_knight_moves :
    (gs : GameState) (f r f' r' : ℕ)
    → In (f', r') (possible_knight_moves gs f r) ↔ (
        (f' < 8)
        × (r' < 8)
        × (legal_knight_move f r f' r' ≡ true)
        × (free_for gs.board gs.on_move f' r' ≡ true))
unfolding possible_knight_moves
In-possible_knight_moves gs f r f' r' =
    ground (arith, In-jumps gs.board gs.on_move f r f' r' knight_jumps, knight_jumps_lem f r f' r')

-- The king's generated squares are the squares of the board one step away that do not hold a piece
-- of the mover.
pub In-possible_king_moves :
    (gs : GameState) (f r f' r' : ℕ)
    → In (f', r') (possible_king_moves gs f r) ↔ (
        (f' < 8)
        × (r' < 8)
        × ((leb (dist f f') 1 ≡ true) × (leb (dist r r') 1 ≡ true) × ¬ ((f ≡ f') × (r ≡ r')))
        × (free_for gs.board gs.on_move f' r' ≡ true))
unfolding possible_king_moves
In-possible_king_moves gs f r f' r' =
    ground (arith, In-jumps gs.board gs.on_move f r f' r' king_jumps, king_jumps_lem f r f' r')
