-- ===== src/Examples/Texts.antt =====
-- Positions written and read, and a move that is typed, made and taken back.
use docker_chessd.Prelude.{ℕ, false, ◌≡◌, ◌≤◌, ◌&&◌, refl, length, ltb, if◌then◌else◌, ap}
use docker_chessd.Prelude.Text.{codes}
use docker_chessd.Board.{queen}
use docker_chessd.Fen.{piece_to_char, print_row, print_rows, board_to_fen, fen_to_board}
use docker_chessd.Fen.RoundTrip.{fen_to_board-board_to_fen}
use docker_chessd.Fen.Length.{length-board_to_fen}
use docker_chessd.Execute.{execute_quiet}
use docker_chessd.Calculate.{move_calculate}
use docker_chessd.Calculate.Texts.{length-move_calculate}
use docker_chessd.ParseMove.{parse_move}
use docker_chessd.ParseMove.TakeBack.{parse_move-backup_move}
use docker_chessd.Backup.{entry, Game, backup_move}
use docker_chessd.Move.{Move, Outcome, move_ok}
use docker_chessd.Examples.{table, position, opening, double_step, parsed, parsed_origin}

written : board_to_fen opening ≡ codes "4k3/8/8/8/3p4/8/4P3/4K2R w"
unfolding board_to_fen print_row print_rows piece_to_char
written = refl

fen_to_board-board_to_fen_example :
    ((x y : ℕ)
      → (fen_to_board (board_to_fen opening) opening).board x y
        ≡ (if ltb y 8 && ltb x 8 then position x y else position x y))
    × ((fen_to_board (board_to_fen opening) opening).on_move ≡ opening.on_move)
fen_to_board-board_to_fen_example = fen_to_board-board_to_fen opening opening

length-board_to_fen_example : length (board_to_fen opening) ≤ 73
length-board_to_fen_example = length-board_to_fen opening

length-move_calculate_example :
    (length (move_calculate table opening double_step queen).0.move_string ≤ 7)
    × (length (move_calculate table opening double_step queen).0.alg_string ≤ 7)
length-move_calculate_example = length-move_calculate table opening double_step queen

-- The pawn's move, and the game in which it has been made.
abbrev typed : Move
typed = (parse_move table (codes "e2e4") opening double_step queen).0

abbrev game : Game
game = record {
  linked = false;
  num_half_moves = 1;
  move_list = λ n. entry (execute_quiet table opening typed).1;
  game_state = (execute_quiet table opening typed).0;
}

parse_move-backup_move_example :
    (after : Game) × (backup_move game ≡ (after, move_ok))
    × (after.num_half_moves ≡ 0)
    × (after.move_list ≡ game.move_list)
    × ((x y : ℕ) → after.game_state.board x y ≡ opening.board x y)
parse_move-backup_move_example =
    parse_move-backup_move table (codes "e2e4") opening double_step typed queen 4 1 game 0
      (ap (λ (o : Outcome). (typed, o)) parsed) parsed_origin (refl, refl, refl, refl)
