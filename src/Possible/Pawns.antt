-- ===== src/Possible/Pawns.antt =====
-- possible_pawn_moves generates every move that legal_pawn_move accepts.
use docker_chessd.Prelude.{
  ℕ, ◌+◌, ◌-◌, ◌<◌, Bool, true, ◌≡◌, ◌↔◌, ◌⊎◌, inl, inr, ◌++◌, arith, In, dist, ◌||◌,
  In-append_left, In-append_right, Bool-cases, ◌==◌, List,
}
use docker_chessd.Board.{
  GameState, Board, Color, white, black, is_empty, Color-cases, Ep, no_ep, higher, lower,
}
use docker_chessd.Pieces.{Pos}
use docker_chessd.Legal.{ep_capture, legal_pawn_move, pawn_advance, pawn_capture, takes_piece}
use docker_chessd.Possible.{possible_pawn_moves, pawn_steps, pawn_takes, enemy_at}

In-pawn_steps :
    (b : Board) (f ahead twice : ℕ) (start : Bool) (x y : ℕ)
    → In (x, y) (pawn_steps b f ahead twice start) ↔ (
        (x ≡ f)
        × (is_empty (b f ahead) ≡ true)
        × ((y ≡ ahead) ⊎ ((y ≡ twice) × (start ≡ true) × (is_empty (b f twice) ≡ true))))
unfolding pawn_steps
In-pawn_steps b f ahead twice start x y = ground arith

abbrev Points : Ep → ℕ → ℕ → Type 0
Points no_ep f x = ⊥
Points higher f x = x ≡ f + 1
Points lower f x = x ≡ f - 1

In-pawn_takes :
    (b : Board) (enemy : Color) (f ahead : ℕ) (e : Ep) (x y : ℕ)
    → In (x, y) (pawn_takes b enemy f ahead e) ↔ (
        (y ≡ ahead)
        × (((x + 1 ≡ f) × (enemy_at b enemy x ahead ≡ true))
            ⊎ ((x ≡ f + 1) × (f < 7) × (enemy_at b enemy x ahead ≡ true))
            ⊎ Points e f x))
unfolding pawn_takes
In-pawn_takes b enemy f ahead no_ep x y = ground arith
In-pawn_takes b enemy f ahead higher x y = ground arith
In-pawn_takes b enemy f ahead lower x y = ground arith

-- The two captures of legal_pawn_move, for the squares that possible_pawn_moves adds.
pawn_takes_of :
    (b : Board) (enemy : Color) (f r ahead : ℕ) (e : Ep) (x y : ℕ)
    → x < 8
    → y ≡ ahead
    → (dist f x == 1) ≡ true
    → (enemy_at b enemy x ahead || ep_capture b enemy e f r x) ≡ true
    → In (x, y) (pawn_takes b enemy f ahead e)
unfolding ep_capture
pawn_takes_of b enemy f r ahead no_ep x y hx q d h =
    ground (arith, In-pawn_takes b enemy f ahead no_ep x y)
pawn_takes_of b enemy f r ahead higher x y hx q d h =
    ground (arith, In-pawn_takes b enemy f ahead higher x y)
pawn_takes_of b enemy f r ahead lower x y hx q d h =
    ground (arith, In-pawn_takes b enemy f ahead lower x y)

module _ (gs : GameState) (f r x y : ℕ) (hf : f < 8) (hr : r < 8) (hx : x < 8) (hy : y < 8) where
  white_steps : List Pos
  white_steps = pawn_steps gs.board f (r + 1) (r + 2) (r == 1)

  white_takes : List Pos
  white_takes = pawn_takes gs.board black f (r + 1) (gs.ep_possible white f)

  black_steps : List Pos
  black_steps = pawn_steps gs.board f (r - 1) (r - 2) (r == 6)

  black_takes : List Pos
  black_takes = pawn_takes gs.board white f (r - 1) (gs.ep_possible black f)

  white_moves : gs.on_move ≡ white → possible_pawn_moves gs f r ≡ white_steps ++ white_takes
  unfolding possible_pawn_moves white_steps white_takes
  white_moves e = rw (e, possible_pawn_moves)

  black_moves : gs.on_move ≡ black → possible_pawn_moves gs f r ≡ black_steps ++ black_takes
  unfolding possible_pawn_moves black_steps black_takes
  black_moves e = rw (e, possible_pawn_moves)

  advance_white : gs.on_move ≡ white → x ≡ f → pawn_advance gs f r y ≡ true → In (x, y) white_steps
  unfolding pawn_advance white_steps
  advance_white e q h = ground (arith, In-pawn_steps gs.board f (r + 1) (r + 2) (r == 1) x y)

  advance_black : gs.on_move ≡ black → x ≡ f → pawn_advance gs f r y ≡ true → In (x, y) black_steps
  unfolding pawn_advance black_steps
  advance_black e q h = ground (arith, In-pawn_steps gs.board f (r - 1) (r - 2) (r == 6) x y)

  capture_white : gs.on_move ≡ white → pawn_capture gs f r x y ≡ true → In (x, y) white_takes
  unfolding pawn_capture takes_piece white_takes
  capture_white e h =
      ground (arith, pawn_takes_of gs.board black f r (r + 1) (gs.ep_possible white f) x y)

  capture_black : gs.on_move ≡ black → pawn_capture gs f r x y ≡ true → In (x, y) black_takes
  unfolding pawn_capture takes_piece black_takes
  capture_black e h =
      ground (arith, pawn_takes_of gs.board white f r (r - 1) (gs.ep_possible black f) x y)

  -- Every move of a pawn from a square of the board to a square of the board that legal_pawn_move
  -- accepts is generated.
  pub In-possible_pawn_moves :
      legal_pawn_move gs f r x y ≡ true → In (x, y) (possible_pawn_moves gs f r)
  unfolding legal_pawn_move
  In-possible_pawn_moves h = elim (Color-cases gs.on_move) [
    | inl e ↦ rw (white_moves e) (elim (Bool-cases (f == x)) [
      | inl q ↦
          In-append_left (x, y) white_steps white_takes (advance_white e (ground arith) (rw q at h))
      | inr q ↦ In-append_right (x, y) white_steps white_takes (capture_white e (rw q at h))
    ])
    | inr e ↦ rw (black_moves e) (elim (Bool-cases (f == x)) [
      | inl q ↦
          In-append_left (x, y) black_steps black_takes (advance_black e (ground arith) (rw q at h))
      | inr q ↦ In-append_right (x, y) black_steps black_takes (capture_black e (rw q at h))
    ])
  ]
