-- ===== src/ParseMove/Safety.antt =====
-- What holds of a move that parse_move accepts.
use docker_chessd.Prelude.{
  ℕ, ◌≡◌, ◌≢◌, sym, ◌∙◌, ap, arith, true, false, List, Bool-cases, Option-cases, inl, inr,
}
use docker_chessd.Board.{GameState, Kind}
use docker_chessd.Check.{in_check, legal_move}
use docker_chessd.Move.{Move, Garray, move_ok}
use docker_chessd.Execute.{execute_quiet}
use docker_chessd.Calculate.{move_calculate}
use docker_chessd.Calculate.Safety.{SameSquares, move_calculate_squares, move_calculate_verdict}
use docker_chessd.ParseMove.{
  Squares, found, refused, accept, parse_move, read_squares, alg_parse_move, resolve, resolve_pawn,
  resolve_from,
}
use docker_chessd.Syntax.{
  is_move, Match, get_move_info, MoveForm, comp, comp_dash, short_castle, long_castle, alg,
  not_move,
}

-- The move may be made, and making it leaves the mover's king out of check.
pub record IsSafe (g : Garray) (gs : GameState) (m : Move) : Type 0 where
  pub legal : legal_move gs m.origin m.to_file m.to_rank ≡ true
  pub unchecked : in_check (execute_quiet g gs m).0 ≡ false

legal_same :
    (gs : GameState) (m n : Move)
    → SameSquares m n
    → legal_move gs m.origin m.to_file m.to_rank ≡ legal_move gs n.origin n.to_file n.to_rank
legal_same gs m n h i = legal_move gs (h.origin i) (h.to_file i) (h.to_rank i)

calculate-IsSafe :
    (g : Garray) (gs : GameState) (m : Move) (k : Kind)
    → legal_move gs m.origin m.to_file m.to_rank ≡ true
    → (move_calculate g gs m k).1 ≡ move_ok
    → IsSafe g gs (move_calculate g gs m k).0
calculate-IsSafe g gs m k h e = record {
  legal = legal_same gs (move_calculate g gs m k).0 m (move_calculate_squares g gs m k) ∙ h;
  unchecked = ground (arith, move_calculate_verdict g gs m k);
}

accept-IsSafe :
    (g : Garray) (gs : GameState) (m : Move) (k : Kind) (s : Squares)
    → (s ≢ refused move_ok)
    → (accept g gs m k s).1 ≡ move_ok
    → IsSafe g gs (accept g gs m k s).0
unfolding accept
accept-IsSafe g gs m k (refused o) ne e = absurd (ne (ap refused e))
accept-IsSafe g gs m k (found o tf tr) ne e = elim (Bool-cases (legal_move gs o tf tr)) [
  | inl h ↦
      rw h (
        calculate-IsSafe g gs (record m { origin = o; to_file = tf; to_rank = tr }) k h (rw h at e))
  | inr h ↦ cc (rw h at e)
]

-- A refusal is never MOVE_OK.
resolve_ne_ok : (g : Garray) (gs : GameState) (m : Match) → resolve g gs m ≢ refused move_ok
unfolding resolve resolve_pawn resolve_from
resolve_ne_ok g gs m e = ground arith

alg_parse_move_ne_ok :
    (g : Garray) (s : List ℕ) (gs : GameState) → alg_parse_move g s gs ≢ refused move_ok
unfolding alg_parse_move
alg_parse_move_ne_ok g s gs e = elim (Option-cases (get_move_info s)) [
  | inl h ↦ cc (rw (h, alg_parse_move) at e)
  | inr (m, h) ↦ resolve_ne_ok g gs m (rw (h, alg_parse_move) at e)
]

read_squares_ne_ok :
    (g : Garray) (t : MoveForm) (s : List ℕ) (gs : GameState)
    → read_squares g t s gs ≢ refused move_ok
unfolding read_squares
read_squares_ne_ok g comp s gs e = cc
read_squares_ne_ok g comp_dash s gs e = cc
read_squares_ne_ok g short_castle s gs e = cc
read_squares_ne_ok g long_castle s gs e = cc
read_squares_ne_ok g alg s gs e = alg_parse_move_ne_ok g s gs e
read_squares_ne_ok g not_move s gs e = cc

-- A move that parse_move accepts, in whatever notation it is typed, may be made by legal_move, and
-- executing it leaves the king of the side that made it out of check.
pub parse_move-IsSafe :
    (g : Garray) (s : List ℕ) (gs : GameState) (m m' : Move) (promote : Kind)
    → parse_move g s gs m promote ≡ (m', move_ok)
    → IsSafe g gs m'
unfolding parse_move
parse_move-IsSafe g s gs m m' promote e =
    let h =
      accept-IsSafe g gs (record m { color = gs.on_move }) promote (read_squares g (is_move s) s gs)
        (read_squares_ne_ok g (is_move s) s gs) (ap (λ p. p.1) e) in
    rw (ap (λ p. p.0) e) at h

accept-calculated :
    (g : Garray) (gs : GameState) (m : Move) (k : Kind) (s : Squares)
    → (s ≢ refused move_ok)
    → (accept g gs m k s).1 ≡ move_ok
    → (n : Move) × ((accept g gs m k s).0 ≡ (move_calculate g gs n k).0)
      × (legal_move gs n.origin n.to_file n.to_rank ≡ true)
unfolding accept
accept-calculated g gs m k (refused o) ne e = absurd (ne (ap refused e))
accept-calculated g gs m k (found o tf tr) ne e = elim (Bool-cases (legal_move gs o tf tr)) [
  | inl h ↦ (record m { origin = o; to_file = tf; to_rank = tr }, rw h, h)
  | inr h ↦ cc (rw h at e)
]

-- An accepted move is one that move_calculate has filled in, for squares that legal_move accepts.
pub parse_move-calculated :
    (g : Garray) (s : List ℕ) (gs : GameState) (m m' : Move) (promote : Kind)
    → parse_move g s gs m promote ≡ (m', move_ok)
    → (n : Move) × (m' ≡ (move_calculate g gs n promote).0)
      × (legal_move gs n.origin n.to_file n.to_rank ≡ true)
unfolding parse_move
parse_move-calculated g s gs m m' promote e =
    let (n, q, l) =
      accept-calculated g gs (record m { color = gs.on_move }) promote
        (read_squares g (is_move s) s gs) (read_squares_ne_ok g (is_move s) s gs)
        (ap (λ p. p.1) e) in
    (n, sym (ap (λ p. p.0) e) ∙ q, l)
