-- ===== src/Execute/State.antt =====
-- Executing a move fills its captured piece and its ep mark, and nothing else; the state that
-- results does not depend on those two fields.
use docker_chessd.Prelude.{ℕ, ◌≡◌, refl, sym, ◌∙◌, ◌||◌, not, if◌then◌else◌, Bool-cases, inl, inr}
use docker_chessd.Board.{GameState, Square, Board, put, nopiece, is_empty, has_kind, pawn, toggle}
use docker_chessd.Legal.{Origin, from_square, from_holding}
use docker_chessd.Move.{Move, Garray}
use docker_chessd.Execute.{
  capture_en_passant, is_en_passant, move_piece, move_from, make_move, execute_quiet, count_move,
  place_drop, hop_rook, update_moved, update_ep, mark_irreversible, or_color,
}

-- The fields of a move that a trial execution leaves alone.
pub record SameMove (m n : Move) : Type 0 where
  pub color : m.color ≡ n.color
  pub origin : m.origin ≡ n.origin
  pub to_file : m.to_file ≡ n.to_file
  pub to_rank : m.to_rank ≡ n.to_rank
  pub promotion : m.promotion ≡ n.promotion

capture_en_passant_fields :
    (moved took : Square) (gs : GameState) (m : Move) (ff fr : ℕ)
    → SameMove (capture_en_passant moved took gs m ff fr).1 m
unfolding capture_en_passant
capture_en_passant_fields moved took gs m ff fr =
    elim (Bool-cases (is_en_passant moved took ff m.to_file)) [
      | inl h ↦
          rw h (record {
            color = refl;
            origin = refl;
            to_file = refl;
            to_rank = refl;
            promotion = refl;
          })
      | inr h ↦
          rw h (record {
            color = refl;
            origin = refl;
            to_file = refl;
            to_rank = refl;
            promotion = refl;
          })
    ]

-- The state after an ep capture, and after a move, by the fields of the move that it depends on.
abbrev pub captured_state : Square → Square → GameState → ℕ → ℕ → ℕ → GameState
captured_state moved took gs tf ff fr =
    if is_en_passant moved took ff tf then record gs { board = put gs.board tf fr nopiece } else gs

capture_en_passant_state :
    (moved took : Square) (gs : GameState) (m : Move) (ff fr : ℕ)
    → (capture_en_passant moved took gs m ff fr).0 ≡ captured_state moved took gs m.to_file ff fr
unfolding capture_en_passant
capture_en_passant_state moved took gs m ff fr =
    elim (Bool-cases (is_en_passant moved took ff m.to_file)) [ inl h ↦ rw h | inr h ↦ rw h ]

abbrev pub lifted : GameState → ℕ → ℕ → Square → ℕ → ℕ → Board
lifted gs tf tr q ff fr =
    put (put gs.board tf tr (if is_empty q then gs.board ff fr else or_color q gs.on_move)) ff fr
      nopiece

unfoldable pub piece_state : Garray → GameState → ℕ → ℕ → Square → ℕ → ℕ → GameState
piece_state g gs tf tr q ff fr =
    let moved = gs.board ff fr in
    let took = gs.board tf tr in
    let gs1 = record gs { board = lifted gs tf tr q ff fr } in
    let gs2 = if has_kind moved pawn || not (is_empty took) then mark_irreversible g gs1 else gs1 in
    hop_rook moved
      (update_moved moved (update_ep moved (captured_state moved took gs2 tf ff fr) fr tf tr) ff fr)
      ff tf tr

move_piece-state :
    (g : Garray) (gs : GameState) (m : Move) (ff fr : ℕ)
    → (move_piece g gs m ff fr).0 ≡ piece_state g gs m.to_file m.to_rank m.promotion ff fr
unfolding move_piece piece_state
move_piece-state g gs m ff fr = rw capture_en_passant_state

unfoldable pub executed : Garray → GameState → Origin → ℕ → ℕ → Square → GameState
executed g gs (from_holding k) tf tr q =
    let gs' = count_move (place_drop g gs k tf tr) in record gs' { on_move = toggle gs'.on_move }
executed g gs (from_square ff fr) tf tr q =
    let gs' = count_move (piece_state g gs tf tr q ff fr) in
    record gs' { on_move = toggle gs'.on_move }

from-executed :
    (g : Garray) (gs : GameState) (m : Move) (o : Origin)
    → (let gs' = count_move (move_from g gs m o).0 in record gs' { on_move = toggle gs'.on_move })
      ≡ executed g gs o m.to_file m.to_rank m.promotion
unfolding move_from executed
from-executed g gs m (from_holding k) = refl
from-executed g gs m (from_square ff fr) = rw move_piece-state

-- The state after a move.
pub execute_quiet-executed :
    (g : Garray) (gs : GameState) (m : Move)
    → (execute_quiet g gs m).0 ≡ executed g gs m.origin m.to_file m.to_rank m.promotion
unfolding execute_quiet make_move
execute_quiet-executed g gs m = from-executed g gs m m.origin

move_from_fields :
    (g : Garray) (gs : GameState) (m : Move) (o : Origin) → SameMove (move_from g gs m o).1 m
unfolding move_from move_piece
move_from_fields g gs m (from_holding k) = record {
  color = refl;
  origin = refl;
  to_file = refl;
  to_rank = refl;
  promotion = refl;
}
move_from_fields g gs m (from_square ff fr) = capture_en_passant_fields _ _ _ m ff fr

pub execute_quiet_fields :
    (g : Garray) (gs : GameState) (m : Move) → SameMove (execute_quiet g gs m).1 m
unfolding execute_quiet make_move
execute_quiet_fields g gs m = move_from_fields g gs m m.origin

executed_same :
    (g : Garray) (gs : GameState) (m n : Move)
    → SameMove m n
    → executed g gs m.origin m.to_file m.to_rank m.promotion
      ≡ executed g gs n.origin n.to_file n.to_rank n.promotion
executed_same g gs m n h i = executed g gs (h.origin i) (h.to_file i) (h.to_rank i) (h.promotion i)

-- Moves that agree in the fields that a trial execution leaves alone have one resulting state.
pub execute_quiet_same :
    (g : Garray) (gs : GameState) (m n : Move)
    → SameMove m n
    → (execute_quiet g gs m).0 ≡ (execute_quiet g gs n).0
execute_quiet_same g gs m n h =
    execute_quiet-executed g gs m ∙ executed_same g gs m n h ∙ sym (execute_quiet-executed g gs n)
