-- ===== src/Calculate/Safety.antt =====
-- What move_calculate and legal_andcheck_move promise of a move that they accept.
use docker_chessd.Prelude.{ℕ, ◌≡◌, refl, ◌∙◌, arith, true, false, ◌↔◌, if◌then◌else◌}
use docker_chessd.Board.{GameState, Kind, queen}
use docker_chessd.Legal.{Origin, from_square, from_holding}
use docker_chessd.Check.{in_check, legal_move}
use docker_chessd.Move.{Move, Garray, move_ok, illegal}
use docker_chessd.Execute.{execute_quiet}
use docker_chessd.Execute.State.{SameMove, execute_quiet_fields, execute_quiet_same}
use docker_chessd.Notation.{alg_unparse}
use docker_chessd.Calculate.{describe, fill_in, notate, move_calculate, legal_andcheck_move, blank}

-- The squares of a move.
pub record SameSquares (m n : Move) : Type 0 where
  pub origin : m.origin ≡ n.origin
  pub to_file : m.to_file ≡ n.to_file
  pub to_rank : m.to_rank ≡ n.to_rank

same_squares : {m n : Move} → SameMove m n → SameSquares m n
same_squares h = record { origin = h.origin; to_file = h.to_file; to_rank = h.to_rank }

trans_squares : {l m n : Move} → SameSquares l m → SameSquares m n → SameSquares l n
trans_squares h k = record {
  origin = h.origin ∙ k.origin;
  to_file = h.to_file ∙ k.to_file;
  to_rank = h.to_rank ∙ k.to_rank;
}

describe_squares :
    (gs : GameState) (m : Move) (k : Kind) (o : Origin) → SameSquares (describe gs m k o) m
unfolding describe
describe_squares gs m k (from_holding j) = record { origin = refl; to_file = refl; to_rank = refl }
describe_squares gs m k (from_square ff fr) = record {
  origin = refl;
  to_file = refl;
  to_rank = refl;
}

fill_in_squares : (gs : GameState) (m : Move) (k : Kind) → SameSquares (fill_in gs m k) m
unfolding fill_in
fill_in_squares gs m k =
    let h = describe_squares gs _ k m.origin in
    record { origin = h.origin; to_file = h.to_file; to_rank = h.to_rank }

pub notate_fields : (g : Garray) (gs : GameState) (m : Move) → SameMove (notate g gs m) m
unfolding notate alg_unparse
notate_fields g gs m =
    let h = execute_quiet_fields g gs m in
    record {
      color = h.color;
      origin = h.origin;
      to_file = h.to_file;
      to_rank = h.to_rank;
      promotion = h.promotion;
    }

-- move_calculate keeps the squares of the move.
pub move_calculate_squares :
    (g : Garray) (gs : GameState) (m : Move) (k : Kind) → SameSquares (move_calculate g gs m k).0 m
unfolding move_calculate
move_calculate_squares g gs m k =
    trans_squares (same_squares (execute_quiet_fields g gs (notate g gs (fill_in gs m k))))
      (trans_squares (same_squares (notate_fields g gs (fill_in gs m k))) (fill_in_squares gs m k))

-- The verdict is that of the state after the move that move_calculate leaves.
pub move_calculate_verdict :
    (g : Garray) (gs : GameState) (m : Move) (k : Kind)
    → (move_calculate g gs m k).1
      ≡ (if in_check (execute_quiet g gs (move_calculate g gs m k).0).0 then illegal else move_ok)
unfolding move_calculate
move_calculate_verdict g gs m k =
    let n = notate g gs (fill_in gs m k) in
    rw (execute_quiet_same g gs (execute_quiet g gs n).1 n (execute_quiet_fields g gs n))

-- The move that legal_andcheck_move tries: it promotes a pawn to a queen.
abbrev pub trial : Garray → GameState → Origin → ℕ → ℕ → Move
trial g gs o tf tr = (move_calculate g gs (blank gs o tf tr) queen).0

-- legal_andcheck_move accepts exactly the moves that legal_move accepts and after which the king of
-- the mover is not in check.
pub legal_andcheck_move_iff :
    (g : Garray) (gs : GameState) (o : Origin) (tf tr : ℕ)
    → (legal_andcheck_move g gs o tf tr ≡ true) ↔ (
        (legal_move gs o tf tr ≡ true)
        × (in_check (execute_quiet g gs (trial g gs o tf tr)).0 ≡ false))
unfolding legal_andcheck_move
legal_andcheck_move_iff g gs o tf tr =
    ground (arith, move_calculate_verdict g gs (blank gs o tf tr) queen)
