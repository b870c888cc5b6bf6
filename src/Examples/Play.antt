-- ===== src/Examples/Play.antt =====
-- Claims of draws and a flag on which the theorems on src/gameproc.c are applied.
use docker_chessd.Prelude.{
  ℕ, zero, suc, ◌%◌, ◌≤◌, ◌<◌, ◌≡◌, ◌↔◌, refl, ◌⊎◌, true, false, ◌==◌, if◌then◌else◌, some, arith,
}
use docker_chessd.Prelude.Int.{pos, negsuc}
use docker_chessd.Board.{GameState, white, black, toggle, nopiece, piece, rook, put}
use docker_chessd.Fen.{board_to_fen}
use docker_chessd.Pending.Counts.{IsCounted}
use docker_chessd.Draw.{History, get_fen_pos, repeated, fifty_moves, Seat, end_agreeddraw, com_draw}
use docker_chessd.Draw.Recurrence.{shift, Twice}
use docker_chessd.Draw.Repetition.{Recurs, repeated_iff}
use docker_chessd.Draw.Claims.{Offered, com_draw-IsCounted, com_draw_agrees}
use docker_chessd.Flag.{
  Clocks, Caller, flag_none, game_update_time, clock, is_out, end_flag, com_flag,
}
use docker_chessd.Flag.Wins.{HasMaterial, com_flag_wins}
use docker_chessd.Examples.{position, opening}
use docker_chessd.Examples.Offers.{
  block, no_lobby, no_lobby-IsCounted, one_offer, one_offer-IsCounted,
}

-- White's rook goes from h1 to h2 and back, with the other side to move after each of its moves.
abbrev other : GameState
other = record opening {
  board = put (put position 7 0 nopiece) 7 1 (piece white rook);
  on_move = black;
}

abbrev played : ℕ → GameState
played k = if k % 2 == 0 then opening else other

abbrev eight_moves : History
eight_moves = record {
  num_half_moves = 8;
  move_list_size = 8;
  fen_start_pos = board_to_fen (played 0);
  fen_pos = λ i. board_to_fen (played (suc i));
  last_irreversible = negsuc 0;
}

eight_moves_texts : (k : ℕ) → k ≤ 8 → get_fen_pos eight_moves (shift k) ≡ board_to_fen (played k)
unfolding get_fen_pos
eight_moves_texts zero l = refl
eight_moves_texts (suc k) l = ground (arith, l)

repeated_iff_example : (repeated eight_moves ≡ true) ↔ (
    (8 ≤ 8)
    × (Recurs played 0 8
        ⊎ ((8 < 8) × Twice (λ k. board_to_fen (played k) ≡ board_to_fen (played 9)) 0 8)))
repeated_iff_example =
    repeated_iff eight_moves played 0 refl (omega arith) (omega arith) eight_moves_texts

-- A player to whom a draw is offered, after two moves.
abbrev seat : Seat
seat = record {
  valid_and_active = true;
  is_playing = true;
  opponent = 1;
  opponent_color = black;
  simul_elsewhere = false;
  history = record eight_moves { num_half_moves = 2 };
}

com_draw-IsCounted_example : IsCounted (com_draw (block 200) 2 seat no_lobby).0
com_draw-IsCounted_example = com_draw-IsCounted (block 200) 2 seat no_lobby tt no_lobby-IsCounted

com_draw_agrees_example :
    ((com_draw (block 200) 2 seat one_offer).1 ≡ some (black, end_agreeddraw)) ↔ (
      (true ≡ true)
      × (true ≡ true)
      × (fifty_moves seat.history ≡ false)
      × (repeated seat.history ≡ false)
      × (false ≡ false)
      × Offered 1 2 one_offer)
com_draw_agrees_example = com_draw_agrees (block 200) 2 seat one_offer one_offer-IsCounted

-- White has ten seconds, Black's time is up.
abbrev clocks : Clocks
clocks = record {
  is_active = true;
  is_untimed = false;
  clock_stopped = false;
  move_num = 20;
  num_half_moves = 39;
  on_move = black;
  last_dec_time = pos 1000;
  w_time = pos 100;
  b_time = pos 30;
  w_real_time = pos 0;
  b_real_time = pos 0;
  flag_pending = flag_none;
}

abbrev caller : Caller
caller = record {
  player = 2;
  is_playing = true;
  my_color = white;
  my_timeseal = false;
  opp_timeseal = false;
}

com_flag_wins_example :
    ((com_flag (pos 1040) caller position clocks no_lobby).2 ≡ some (white, end_flag)) ↔ (
      (true ≡ true)
      × (false ≡ false)
      × (2 ≤ 39)
      × (is_out (clock false white (game_update_time (pos 1040) clocks)) ≡ false)
      × (is_out (clock false (toggle white) (game_update_time (pos 1040) clocks)) ≡ true)
      × HasMaterial position white)
com_flag_wins_example = com_flag_wins (pos 1040) caller position clocks no_lobby
