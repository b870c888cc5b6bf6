-- ===== src/Possible.antt =====
-- src/movecheck.c: the squares that a piece may go to, `possible_pawn_moves` to
-- `possible_king_moves`. `add_pos` puts a square at the end of the caller's arrays; here each
-- function returns the squares that it adds, in their order.
pub mod Jumps
pub mod Rays
pub mod Sliders
pub mod Squares
pub mod Pawns
use docker_chessd.Prelude.{
  ℕ, zero, suc, ◌+◌, ◌-◌, Bool, true, false, not, ◌&&◌, ◌||◌, ltb, ◌==◌, if◌then◌else◌, Option,
  none, some, List, [], ◌∷◌, ◌++◌,
}
use docker_chessd.Prelude.Int.{ℤ, pos, negsuc, offset}
use docker_chessd.Board.{
  Color, white, black, toggle, is_empty, iscolor, Board, Ep, no_ep, higher, lower, GameState,
}
use docker_chessd.Pieces.{Pos}

-- `add_pos` under a condition.
abbrev pub add_if : Bool → Pos → List Pos
add_if test p = if test then p ∷ [] else []

abbrev pub enemy_at : Board → Color → ℕ → ℕ → Bool
enemy_at b enemy f r = not (is_empty (b f r)) && iscolor (b f r) enemy

-- The squares of `possible_pawn_moves` ahead of a pawn at `(f, r)`: `ahead` and, from the start
-- rank, `twice`.
unfoldable pub pawn_steps : Board → ℕ → ℕ → ℕ → Bool → List Pos
pawn_steps b f ahead twice at_start =
    if is_empty (b f ahead)
    then (f, ahead) ∷ add_if (at_start && is_empty (b f twice)) (f, twice)
    else []

unfoldable pub pawn_takes : Board → Color → ℕ → ℕ → Ep → List Pos
pawn_takes b enemy f ahead e =
    add_if (ltb 0 f && enemy_at b enemy (f - 1) ahead) (f - 1, ahead)
    ++ (add_if (ltb f 7 && enemy_at b enemy (f + 1) ahead) (f + 1, ahead)
        ++ (elim e [ lower ↦ (f - 1, ahead) ∷ [] | higher ↦ (f + 1, ahead) ∷ [] | no_ep ↦ [] ]))

-- For a black pawn `r - 1` and `r - 2` are squares of the board unless it stands on rank 0 or 1.
unfoldable pub possible_pawn_moves : GameState → ℕ → ℕ → List Pos
possible_pawn_moves gs f r = elim gs.on_move [
  | white ↦
      pawn_steps gs.board f (r + 1) (r + 2) (r == 1)
      ++ pawn_takes gs.board black f (r + 1) (gs.ep_possible white f)
  | black ↦
      pawn_steps gs.board f (r - 1) (r - 2) (r == 6)
      ++ pawn_takes gs.board white f (r - 1) (gs.ep_possible black f)
]

-- A jump from `(f, r)`, kept on the board.
unfoldable pub jump : ℤ → ℤ → ℕ → ℕ → Option Pos
unfolding offset
jump df dr f r = elim (offset df f) [
  | none ↦ none
  | some f' ↦ (elim (offset dr r) [ none ↦ none | some r' ↦ some (f', r') ])
]

-- The body of the loops over knightJumps and kingJumps.
unfoldable pub land : Board → Color → Option Pos → List Pos
land b mover none = []
land b mover (some (f, r)) = add_if (is_empty (b f r) || iscolor (b f r) (toggle mover)) (f, r)

unfoldable pub jumps : Board → Color → ℕ → ℕ → List (ℤ × ℤ) → List Pos
jumps b mover f r [] = []
jumps b mover f r ((df, dr) ∷ l) = land b mover (jump df dr f r) ++ jumps b mover f r l

-- The integers -1 and -2.
abbrev pub minus_one : ℤ
minus_one = negsuc 0

abbrev pub minus_two : ℤ
minus_two = negsuc 1

abbrev pub knight_jumps : List (ℤ × ℤ)
knight_jumps =
    (minus_one, pos 2)
    ∷ (pos 1, pos 2)
    ∷ (pos 2, minus_one)
    ∷ (pos 2, pos 1)
    ∷ (minus_one, minus_two)
    ∷ (pos 1, minus_two)
    ∷ (minus_two, pos 1)
    ∷ (minus_two, minus_one)
    ∷ []

unfoldable pub possible_knight_moves : GameState → ℕ → ℕ → List Pos
possible_knight_moves gs f r = jumps gs.board gs.on_move f r knight_jumps

abbrev pub king_jumps : List (ℤ × ℤ)
king_jumps =
    (minus_one, minus_one)
    ∷ (pos 0, minus_one)
    ∷ (pos 1, minus_one)
    ∷ (minus_one, pos 1)
    ∷ (pos 0, pos 1)
    ∷ (pos 1, pos 1)
    ∷ (minus_one, pos 0)
    ∷ (pos 1, pos 0)
    ∷ []

unfoldable pub possible_king_moves : GameState → ℕ → ℕ → List Pos
possible_king_moves gs f r = jumps gs.board gs.on_move f r king_jumps

-- One of the eight loops `for (;;)` of the sliding pieces: a square off the board or with a piece
-- of the mover ends it, and so does one with an enemy's piece once it is added. `go` is the rest
-- of the loop from the new square.
unfoldable pub slide : Board → Color → Option Pos → (ℕ → ℕ → List Pos) → List Pos
slide b mover none go = []
slide b mover (some (f, r)) go =
    if not (is_empty (b f r)) && iscolor (b f r) mover
    then []
    else (f, r) ∷ (if is_empty (b f r) then go f r else [])

-- With fuel for the squares of one line; Possible.Rays proves that 8 are enough.
unfoldable pub ray : ℕ → Board → Color → ℤ → ℤ → ℕ → ℕ → List Pos
ray zero b mover df dr f r = []
ray (suc fuel) b mover df dr f r = slide b mover (jump df dr f r) (ray fuel b mover df dr)

unfoldable pub possible_bishop_moves : GameState → ℕ → ℕ → List Pos
possible_bishop_moves gs f r =
    ray 8 gs.board gs.on_move minus_one (pos 1) f r
    ++ (ray 8 gs.board gs.on_move (pos 1) (pos 1) f r
        ++ (ray 8 gs.board gs.on_move minus_one minus_one f r
            ++ ray 8 gs.board gs.on_move (pos 1) minus_one f r))

unfoldable pub possible_rook_moves : GameState → ℕ → ℕ → List Pos
possible_rook_moves gs f r =
    ray 8 gs.board gs.on_move minus_one (pos 0) f r
    ++ (ray 8 gs.board gs.on_move (pos 1) (pos 0) f r
        ++ (ray 8 gs.board gs.on_move (pos 0) (pos 1) f r
            ++ ray 8 gs.board gs.on_move (pos 0) minus_one f r))

unfoldable pub possible_queen_moves : GameState → ℕ → ℕ → List Pos
possible_queen_moves gs f r = possible_rook_moves gs f r ++ possible_bishop_moves gs f r
