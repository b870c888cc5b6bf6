-- ===== src/Examples/Matches.antt =====
-- src/matchproc.c at concrete players: 5 and 6 start a game while an offer between 3 and 2 stands.
use docker_chessd.Prelude.{◌≡◌, ◌⊎◌, any, refl, true, false, none, some, [], arith}
use docker_chessd.Prelude.Int.{inc}
use docker_chessd.Board.{white}
use docker_chessd.Pending.{
  add_pending, check_current_pend, sweep, remove_request, dropped, delete_pending,
  do_decline_withdraw_offers, decline_of_partner, decline_withdraw_offers, unlink, behind,
}
use docker_chessd.Pending.Counts.{IsCounted}
use docker_chessd.Seeks.Kinds.{by_time, game_isblitz}
use docker_chessd.Matches.{
  Times, Habits, reverse, pick_colors, prepare_match, drop_offers, Hall, match_of, create_new_match,
}
use docker_chessd.Matches.Starts.{IsSeated, is_match_with, create_new_match-IsSeated}
use docker_chessd.Examples.Offers.{lobby, lobby-IsCounted}

abbrev habits : Habits
habits = record {
  last_black = λ p. false;
  num_white = λ p. 3;
  num_black = λ p. 2;
  is_private = λ p. false;
}

abbrev hall : Hall
hall = record {
  lobby = lobby;
  game = λ p. none;
  opponent = λ p. 0;
  side = λ p. white;
  garray = λ g. none;
}

abbrev five_minutes : Times
five_minutes = record { wt = 5; winc = 0; bt = 5; binc = 0 }

abbrev begun : Hall
begun = (create_new_match habits (some white) 0 5 6 five_minutes true [] [] (some 0) false hall).0

create_new_match-IsSeated_example :
    (IsSeated 0 5 6 begun ⊎ IsSeated 0 6 5 begun)
    × IsCounted begun.lobby
    × (any (is_match_with 5 6) begun.lobby.pendlist ≡ false)
unfolding add_pending inc check_current_pend sweep remove_request dropped delete_pending
    do_decline_withdraw_offers decline_of_partner decline_withdraw_offers unlink behind by_time
    game_isblitz reverse pick_colors prepare_match drop_offers match_of create_new_match
create_new_match-IsSeated_example =
    create_new_match-IsSeated habits (some white) 0 5 6 five_minutes true [] [] (some 0) false hall
      begun (λ e. omega (arith, e)) lobby-IsCounted refl
