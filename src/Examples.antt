-- ===== src/Examples.antt =====
-- Concrete positions and moves on which the theorems are applied.
pub mod Formulas
pub mod Texts
pub mod Offers
pub mod Play
pub mod Rosters
pub mod Ads
pub mod Lines
pub mod Matches
use docker_chessd.Prelude.{
  ℕ, ◌<◌, ◌≡◌, ◌↔◌, refl, true, false, none, ap, [], In, keep, leb, dist, arith,
}
use docker_chessd.Prelude.Int.{pos, negsuc}
use docker_chessd.Board.{
  Board, GameState, white, black, nopiece, piece, pawn, rook, queen, king, put, no_ep,
}
use docker_chessd.Pieces.{
  Pos, belongs, for_ranks, for_files, squares, next_piece_loop, loop_from, piece_loop,
}
use docker_chessd.Pieces.Order.{piece_loop-keep}
use docker_chessd.Legal.{
  Origin, from_square, ep_capture, pawn_advance, takes_piece, pawn_capture, legal_pawn_move,
  legal_knight_move, diagonal_clear, legal_bishop_move, file_clear, rank_clear, legal_rook_move,
  legal_queen_move, castle_short, castle_long, king_castles, legal_king_move, legal_piece_move,
  legal_drop, legal_from, legal_move_with,
}
use docker_chessd.Check.{
  find_king, check_loop, in_check_with, is_square_attacked_with, in_check, is_square_attacked,
  legal_move,
}
use docker_chessd.Move.{Move, Garray, move_ok, checkmate, stalemate, no_material}
use docker_chessd.Execute.{
  mark_irreversible, place_drop, capture_en_passant, ep_flags, update_ep, update_moved, hop_rook,
  move_piece, move_from, make_move, execute_quiet,
}
use docker_chessd.Execute.Frame.{Moves, placed, execute_quiet-Moves}
use docker_chessd.Execute.EnPassant.{EpIsSound, execute_quiet-EpIsSound}
use docker_chessd.Calculate.{
  square_string, drop_string, describe, fill_in, notate, move_calculate, legal_andcheck_move,
}
use docker_chessd.Notation.{alg_unparse}
use docker_chessd.ParseMove.{read_squares, accept, parse_move}
use docker_chessd.ParseMove.Safety.{IsSafe, parse_move-IsSafe}
use docker_chessd.Syntax.{is_move}
use docker_chessd.Prelude.Text.{codes}
use docker_chessd.Possible.{
  possible_rook_moves, possible_bishop_moves, possible_queen_moves, possible_knight_moves,
  possible_king_moves, possible_pawn_moves,
}
use docker_chessd.Possible.Jumps.{free_for}
use docker_chessd.Possible.Squares.{possible_squares_iff}
use docker_chessd.Possible.Sliders.{Elsewhere}
use docker_chessd.Possible.Pawns.{In-possible_pawn_moves}
use docker_chessd.GameEnd.{has_legal_move, execute_move}
use docker_chessd.GameEnd.Complete.{has_legal_move_complete, has_legal_move_sound}
use docker_chessd.GameEnd.Verdict.{IsStuck, IsBare, after_move, execute_move_verdict}
use docker_chessd.Calculate.Safety.{trial, legal_andcheck_move_iff}

-- One game, not linked to another.
abbrev pub table : Garray
table n = record { num_half_moves = 0; linked = false }

-- White: Ke1, Rh1, Pe2. Black: Ke8, Pd4.
abbrev pub position : Board
position =
    put
      (put
        (put (put (put (λ f r. nopiece) 4 0 (piece white king)) 7 0 (piece white rook)) 4 1
          (piece white pawn))
        4 7 (piece black king))
      3 3 (piece black pawn)

abbrev pub opening : GameState
opening = record {
  board = position;
  holding = λ c k. pos 0;
  wkmoved = false;
  wqrmoved = false;
  wkrmoved = false;
  bkmoved = false;
  bqrmoved = false;
  bkrmoved = false;
  ep_possible = λ c f. no_ep;
  last_irreversible = negsuc 0;
  on_move = white;
  move_num = 1;
  game_num = none;
}

-- e2-e4, which Black's pawn may take en passant.
abbrev pub double_step : Move
double_step = record {
  color = white;
  origin = from_square 4 1;
  to_file = 4;
  to_rank = 3;
  piece_captured = nopiece;
  promotion = nopiece;
  en_passant = no_ep;
  double_pawn = none;
  move_string = [];
  alg_string = [];
}

double_step_legal : legal_move opening (from_square 4 1) 4 3 ≡ true
unfolding legal_move pawn_advance
double_step_legal = refl

execute_quiet-EpIsSound_example : EpIsSound (execute_quiet table opening double_step).0
execute_quiet-EpIsSound_example =
    execute_quiet-EpIsSound table opening double_step 4 1 refl double_step_legal (λ a b. refl)

execute_quiet-Moves_example :
    Moves opening 4 1 4 3
      (placed opening nopiece 4 1)
      (execute_quiet table opening double_step).0.board
execute_quiet-Moves_example =
    execute_quiet-Moves table opening double_step 4 1 refl double_step_legal

legal_andcheck_move_iff_example :
    (legal_andcheck_move table opening (from_square 4 1) 4 3 ≡ true) ↔ (
      (legal_move opening (from_square 4 1) 4 3 ≡ true)
      × (in_check (execute_quiet table opening (trial table opening (from_square 4 1) 4 3)).0
          ≡ false))
legal_andcheck_move_iff_example = legal_andcheck_move_iff table opening (from_square 4 1) 4 3

step_accepted : legal_andcheck_move table opening (from_square 4 1) 4 3 ≡ true
unfolding find_king check_loop in_check_with in_check legal_move ep_capture pawn_advance takes_piece
    pawn_capture legal_pawn_move legal_knight_move diagonal_clear legal_bishop_move file_clear
    rank_clear legal_rook_move legal_queen_move castle_short castle_long king_castles
    legal_king_move legal_piece_move legal_drop legal_from legal_move_with for_ranks for_files
    squares next_piece_loop loop_from piece_loop is_square_attacked_with is_square_attacked
    mark_irreversible place_drop capture_en_passant ep_flags update_ep update_moved hop_rook
    move_piece move_from make_move execute_quiet square_string drop_string describe fill_in notate
    move_calculate legal_andcheck_move alg_unparse
step_accepted = refl

king_stays : king_castles is_square_attacked opening 4 1 4 3 ≡ false
unfolding king_castles castle_short castle_long
king_stays = refl

opening_has_move : has_legal_move table opening ≡ true
opening_has_move =
    has_legal_move_complete table opening 4 1 4 3 (omega arith) (omega arith) (omega arith)
      (omega arith) king_stays step_accepted

has_legal_move_complete_example : has_legal_move table opening ≡ true
has_legal_move_complete_example =
    has_legal_move_complete table opening 4 1 4 3 (omega arith) (omega arith) (omega arith)
      (omega arith) king_stays step_accepted

has_legal_move_sound_example :
    (q : Pos) × (p : Pos) × (q.0 < 8)
    × (q.1 < 8)
    × (belongs opening.board opening.on_move q.0 q.1 ≡ true)
    × (legal_andcheck_move table opening (from_square q.0 q.1) p.0 p.1 ≡ true)
has_legal_move_sound_example = has_legal_move_sound table opening refl opening_has_move

execute_move_verdict_example :
    ((execute_move table opening double_step).2 ≡ checkmate
      → (in_check (make_move table opening double_step).0 ≡ true)
        × IsStuck table (after_move table opening double_step))
    × ((execute_move table opening double_step).2 ≡ stalemate
        → (in_check (make_move table opening double_step).0 ≡ false)
          × IsStuck table (after_move table opening double_step))
    × (((execute_move table opening double_step).2 ≡ no_material) ↔ (
        (in_check (make_move table opening double_step).0 ≡ false)
        × (has_legal_move table (after_move table opening double_step) ≡ true)
        × IsBare (after_move table opening double_step)))
execute_move_verdict_example = execute_move_verdict table opening double_step

piece_loop-keep_example :
    piece_loop position white ≡ keep (λ p. belongs position white p.0 p.1) squares
piece_loop-keep_example = piece_loop-keep position white

possible_squares_iff_example :
    (In (7, 3) (possible_rook_moves opening 4 0) ↔ (
      Elsewhere opening 4 0 7 3 (omega arith) (omega arith)
      × (legal_rook_move position 4 0 7 3 ≡ true)))
    × (In (7, 3) (possible_bishop_moves opening 4 0) ↔ (
        Elsewhere opening 4 0 7 3 (omega arith) (omega arith)
        × (legal_bishop_move position 4 0 7 3 ≡ true)))
    × (In (7, 3) (possible_queen_moves opening 4 0) ↔ (
        Elsewhere opening 4 0 7 3 (omega arith) (omega arith)
        × (legal_queen_move position 4 0 7 3 ≡ true)))
    × (In (7, 3) (possible_knight_moves opening 4 0) ↔ (
        (7 < 8)
        × (3 < 8)
        × (legal_knight_move 4 0 7 3 ≡ true)
        × (free_for position white 7 3 ≡ true)))
    × (In (7, 3) (possible_king_moves opening 4 0) ↔ (
        (7 < 8)
        × (3 < 8)
        × ((leb (dist 4 7) 1 ≡ true)
            × (leb (dist 0 3) 1 ≡ true)
            × ¬ ((◌≡◌ {A = ℕ} 4 7) × (◌≡◌ {A = ℕ} 0 3)))
        × (free_for position white 7 3 ≡ true)))
possible_squares_iff_example = possible_squares_iff opening 4 0 7 3 (omega arith) (omega arith)

pawn_step_legal : legal_pawn_move opening 4 1 4 3 ≡ true
unfolding legal_pawn_move pawn_advance
pawn_step_legal = refl

In-possible_pawn_moves_example : In (4, 3) (possible_pawn_moves opening 4 1)
In-possible_pawn_moves_example =
    In-possible_pawn_moves opening 4 1 4 3 (omega arith) (omega arith) (omega arith) (omega arith)
      pawn_step_legal

pub parsed : (parse_move table (codes "e2e4") opening double_step queen).1 ≡ move_ok
unfolding parse_move read_squares accept is_move find_king check_loop in_check_with in_check
    legal_move ep_capture pawn_advance takes_piece pawn_capture legal_pawn_move legal_knight_move
    diagonal_clear legal_bishop_move file_clear rank_clear legal_rook_move legal_queen_move
    castle_short castle_long king_castles legal_king_move legal_piece_move legal_drop legal_from
    legal_move_with for_ranks for_files squares next_piece_loop loop_from piece_loop
    is_square_attacked_with is_square_attacked mark_irreversible place_drop capture_en_passant
    ep_flags update_ep update_moved hop_rook move_piece move_from make_move execute_quiet
    square_string drop_string describe fill_in notate move_calculate legal_andcheck_move alg_unparse
parsed = refl

pub parsed_origin :
    (parse_move table (codes "e2e4") opening double_step queen).0.origin ≡ from_square 4 1
unfolding parse_move read_squares accept is_move find_king check_loop in_check_with in_check
    legal_move ep_capture pawn_advance takes_piece pawn_capture legal_pawn_move legal_knight_move
    diagonal_clear legal_bishop_move file_clear rank_clear legal_rook_move legal_queen_move
    castle_short castle_long king_castles legal_king_move legal_piece_move legal_drop legal_from
    legal_move_with for_ranks for_files squares next_piece_loop loop_from piece_loop
    is_square_attacked_with is_square_attacked mark_irreversible place_drop capture_en_passant
    ep_flags update_ep update_moved hop_rook move_piece move_from make_move execute_quiet
    square_string drop_string describe fill_in notate move_calculate legal_andcheck_move alg_unparse
parsed_origin = refl

parse_move-IsSafe_example :
    IsSafe table opening (parse_move table (codes "e2e4") opening double_step queen).0
parse_move-IsSafe_example =
    parse_move-IsSafe table (codes "e2e4") opening double_step
      (parse_move table (codes "e2e4") opening double_step queen).0 queen
      (ap (λ o. ((parse_move table (codes "e2e4") opening double_step queen).0, o)) parsed)
