-- ===== src/Possible/Rays.antt =====
-- The lines of the sliding pieces: the squares that a loop of possible_rook_moves or
-- possible_bishop_moves adds, by the loops of legal_rook_move and legal_bishop_move.
use docker_chessd.Prelude.{
  ℕ, zero, suc, ◌+◌, ◌-◌, ◌≤◌, ◌<◌, Bool, true, false, ◌≡◌, refl, ◌↔◌, ◌⊎◌, ◌&&◌, Option, none,
  some, arith, In, dist, if◌then◌else◌, ltb, List,
}
use docker_chessd.Prelude.Int.{ℤ, pos}
use docker_chessd.Board.{Board, Color, is_empty}
use docker_chessd.Pieces.{Pos}
use docker_chessd.Legal.{file_clear, rank_clear, diagonal_clear, advance}
use docker_chessd.Possible.{minus_one, jump, slide, ray}
use docker_chessd.Possible.Jumps.{free_for}

-- The loops of the legality tests, by their first square and by their last one.
pub file_clear_first :
    (n : ℕ) (b : Board) (f i : ℕ)
    → file_clear n b f i
      ≡ (if ltb 0 n then is_empty (b f i) && file_clear (n - 1) b f (i + 1) else true)
unfolding file_clear
file_clear_first zero b f i = refl
file_clear_first (suc n) b f i = ground arith

pub rank_clear_first :
    (n : ℕ) (b : Board) (r i : ℕ)
    → rank_clear n b r i
      ≡ (if ltb 0 n then is_empty (b i r) && rank_clear (n - 1) b r (i + 1) else true)
unfolding rank_clear
rank_clear_first zero b r i = refl
rank_clear_first (suc n) b r i = ground arith

file_clear_last :
    (n : ℕ) (b : Board) (f i : ℕ)
    → file_clear n b f i
      ≡ (if ltb 0 n then is_empty (b f (i + n - 1)) && file_clear (n - 1) b f i else true)
unfolding file_clear
file_clear_last zero b f i = refl
file_clear_last (suc n) b f i =
    ground (arith, file_clear_last n b f (i + 1), file_clear_first n b f i)

rank_clear_last :
    (n : ℕ) (b : Board) (r i : ℕ)
    → rank_clear n b r i
      ≡ (if ltb 0 n then is_empty (b (i + n - 1) r) && rank_clear (n - 1) b r i else true)
unfolding rank_clear
rank_clear_last zero b r i = refl
rank_clear_last (suc n) b r i =
    ground (arith, rank_clear_last n b r (i + 1), rank_clear_first n b r i)

pub diagonal_clear_first :
    (n : ℕ) (b : Board) (ix iy : Bool) (x y : ℕ)
    → diagonal_clear n b ix iy x y ≡ (
        if ltb 0 n
        then is_empty (b x y) && diagonal_clear (n - 1) b ix iy (advance ix x) (advance iy y)
        else true)
unfolding diagonal_clear
diagonal_clear_first zero b ix iy x y = refl
diagonal_clear_first (suc n) b ix iy x y = ground arith

-- A step of a loop: the next square is added unless the mover holds it, and the loop goes on from it
-- if it is empty.
In-slide :
    (b : Board) (mover : Color) (f r x y : ℕ) (go : ℕ → ℕ → List Pos)
    → In (x, y) (slide b mover (some (f, r)) go) ↔ (
        (free_for b mover f r ≡ true)
        × (((x ≡ f) × (y ≡ r)) ⊎ ((is_empty (b f r) ≡ true) × In (x, y) (go f r))))
unfolding slide
In-slide b mover f r x y go = ground arith

-- The same for a step that is made only under a test.
In-slide_at :
    (ok : Bool) (o : Option Pos) (b : Board) (mover : Color) (f r x y : ℕ) (go : ℕ → ℕ → List Pos)
    → o ≡ (if ok then some (f, r) else none)
    → In (x, y) (slide b mover o go) ↔ (
        (ok ≡ true)
        × (free_for b mover f r ≡ true)
        × (((x ≡ f) × (y ≡ r)) ⊎ ((is_empty (b f r) ≡ true) × In (x, y) (go f r))))
unfolding slide
In-slide_at true o b mover f r x y go e = rw e (ground (arith, In-slide b mover f r x y go))
In-slide_at false o b mover f r x y go e = rw e (ground arith)

module _ (f r : ℕ) (hf : f < 8) (hr : r < 8) where
  jump_up : jump (pos 0) (pos 1) f r ≡ (if ltb r 7 then some (f, r + 1) else none)
  unfolding jump
  jump_up = ground arith

  jump_down : jump (pos 0) minus_one f r ≡ (if ltb 0 r then some (f, r - 1) else none)
  unfolding jump
  jump_down = ground arith

  jump_right : jump (pos 1) (pos 0) f r ≡ (if ltb f 7 then some (f + 1, r) else none)
  unfolding jump
  jump_right = ground arith

  jump_left : jump minus_one (pos 0) f r ≡ (if ltb 0 f then some (f - 1, r) else none)
  unfolding jump
  jump_left = ground arith

abbrev pub unit_step : Bool → ℤ
unit_step true = pos 1
unit_step false = minus_one

-- `x` lies beyond `f` in the direction of a flag; a step in it stays on the board.
abbrev pub Ahead : Bool → ℕ → ℕ → Type 0
Ahead true f x = f < x
Ahead false f x = x < f

abbrev can_step : Bool → ℕ → Bool
can_step true x = ltb x 7
can_step false x = ltb 0 x

-- Fuel for the steps that are left.
abbrev pub Room : Bool → ℕ → ℕ → Type 0
Room true n f = 8 ≤ f + n
Room false n f = f < n

Room-pos : (d : Bool) (f : ℕ) → f < 8 → ¬ Room d 0 f
Room-pos true f h k = omega arith
Room-pos false f h k = omega arith

jump_diagonal :
    (f r : ℕ)
    → f < 8
    → r < 8
    → (ix iy : Bool)
    → jump (unit_step ix) (unit_step iy) f r
      ≡ (if can_step ix f && can_step iy r then some (advance ix f, advance iy r) else none)
unfolding jump
jump_diagonal f r hf hr true true = ground arith
jump_diagonal f r hf hr true false = ground arith
jump_diagonal f r hf hr false true = ground arith
jump_diagonal f r hf hr false false = ground arith

-- The loops of possible_rook_moves along a file and along a rank, from `(f, r)` with enough fuel.
module _ (b : Board) (mover : Color) where
  pub up :
      (n f r x y : ℕ)
      → f < 8
      → r < 8
      → 8 ≤ r + n
      → In (x, y) (ray n b mover (pos 0) (pos 1) f r) ↔ (
          (x ≡ f)
          × (r < y)
          × (y < 8)
          × (file_clear (y - (r + 1)) b f (r + 1) ≡ true)
          × (free_for b mover x y ≡ true))
  unfolding ray
  up zero f r x y hf hr hn = absurd (omega arith)
  up (suc n) f r x y hf hr hn = ground (
    arith,
    In-slide_at (ltb r 7) (jump (pos 0) (pos 1) f r) b mover f (r + 1) x y
        (ray n b mover (pos 0) (pos 1)) (jump_up f r hf hr),
    up n f (r + 1) x y hf,
    file_clear_first (y - (r + 1)) b f (r + 1),
  )

  pub down :
      (n f r x y : ℕ)
      → f < 8
      → r < 8
      → r < n
      → In (x, y) (ray n b mover (pos 0) minus_one f r) ↔ (
          (x ≡ f)
          × (y < r)
          × (file_clear (r - (y + 1)) b f (y + 1) ≡ true)
          × (free_for b mover x y ≡ true))
  unfolding ray
  down zero f r x y hf hr hn = absurd (omega arith)
  down (suc n) f r x y hf hr hn = ground (
    arith,
    In-slide_at (ltb 0 r) (jump (pos 0) minus_one f r) b mover f (r - 1) x y
        (ray n b mover (pos 0) minus_one) (jump_down f r hf hr),
    down n f (r - 1) x y hf,
    file_clear_last (r - (y + 1)) b f (y + 1),
  )

  pub right :
      (n f r x y : ℕ)
      → f < 8
      → r < 8
      → 8 ≤ f + n
      → In (x, y) (ray n b mover (pos 1) (pos 0) f r) ↔ (
          (y ≡ r)
          × (f < x)
          × (x < 8)
          × (rank_clear (x - (f + 1)) b r (f + 1) ≡ true)
          × (free_for b mover x y ≡ true))
  unfolding ray
  right zero f r x y hf hr hn = absurd (omega arith)
  right (suc n) f r x y hf hr hn = ground (
    arith,
    In-slide_at (ltb f 7) (jump (pos 1) (pos 0) f r) b mover (f + 1) r x y
        (ray n b mover (pos 1) (pos 0)) (jump_right f r hf hr),
    right n (f + 1) r x y,
    rank_clear_first (x - (f + 1)) b r (f + 1),
  )

  pub left :
      (n f r x y : ℕ)
      → f < 8
      → r < 8
      → f < n
      → In (x, y) (ray n b mover minus_one (pos 0) f r) ↔ (
          (y ≡ r)
          × (x < f)
          × (rank_clear (f - (x + 1)) b r (x + 1) ≡ true)
          × (free_for b mover x y ≡ true))
  unfolding ray
  left zero f r x y hf hr hn = absurd (omega arith)
  left (suc n) f r x y hf hr hn = ground (
    arith,
    In-slide_at (ltb 0 f) (jump minus_one (pos 0) f r) b mover (f - 1) r x y
        (ray n b mover minus_one (pos 0)) (jump_left f r hf hr),
    left n (f - 1) r x y,
    rank_clear_last (f - (x + 1)) b r (x + 1),
  )

  -- A loop of possible_bishop_moves, towards the files and the ranks that the two flags tell.
  pub diagonal :
      (ix iy : Bool) (n f r x y : ℕ)
      → f < 8
      → r < 8
      → Room ix n f
      → In (x, y) (ray n b mover (unit_step ix) (unit_step iy) f r) ↔ (
          (x < 8)
          × (y < 8)
          × Ahead ix f x
          × Ahead iy r y
          × (dist f x ≡ dist r y)
          × (diagonal_clear (dist f x - 1) b ix iy (advance ix f) (advance iy r) ≡ true)
          × (free_for b mover x y ≡ true))
  unfolding ray
  diagonal ix iy zero f r x y hf hr hn = absurd (Room-pos ix f hf hn)
  diagonal true true (suc n) f r x y hf hr hn = ground (
    arith,
    In-slide_at (ltb f 7 && ltb r 7) (jump (pos 1) (pos 1) f r) b mover (f + 1) (r + 1) x y
        (ray n b mover (pos 1) (pos 1)) (jump_diagonal f r hf hr true true),
    diagonal true true n (f + 1) (r + 1) x y,
    diagonal_clear_first (dist f x - 1) b true true (f + 1) (r + 1),
  )
  diagonal true false (suc n) f r x y hf hr hn = ground (
    arith,
    In-slide_at (ltb f 7 && ltb 0 r) (jump (pos 1) minus_one f r) b mover (f + 1) (r - 1) x y
        (ray n b mover (pos 1) minus_one) (jump_diagonal f r hf hr true false),
    diagonal true false n (f + 1) (r - 1) x y,
    diagonal_clear_first (dist f x - 1) b true false (f + 1) (r - 1),
  )
  diagonal false true (suc n) f r x y hf hr hn = ground (
    arith,
    In-slide_at (ltb 0 f && ltb r 7) (jump minus_one (pos 1) f r) b mover (f - 1) (r + 1) x y
        (ray n b mover minus_one (pos 1)) (jump_diagonal f r hf hr false true),
    diagonal false true n (f - 1) (r + 1) x y,
    diagonal_clear_first (dist f x - 1) b false true (f - 1) (r + 1),
  )
  diagonal false false (suc n) f r x y hf hr hn = ground (
    arith,
    In-slide_at (ltb 0 f && ltb 0 r) (jump minus_one minus_one f r) b mover (f - 1) (r - 1) x y
        (ray n b mover minus_one minus_one) (jump_diagonal f r hf hr false false),
    diagonal false false n (f - 1) (r - 1) x y,
    diagonal_clear_first (dist f x - 1) b false false (f - 1) (r - 1),
  )
