-- ===== src/Draw.antt =====
-- src/gameproc.c: `draw`, with the draws by fifty moves and by repetition that it claims first. The
-- end of the game, `game_ended`, is the result; what follows it belongs to other components.
pub mod Recurrence
pub mod Repetition
pub mod Claims
use docker_chessd.Prelude.{
  ℕ, zero, suc, ◌+◌, ◌-◌, Bool, true, false, not, ◌&&◌, ◌||◌, ltb, leb, ◌==◌, if◌then◌else◌, Option,
  none, some, List, [], ◌∷◌,
}
use docker_chessd.Prelude.Text.{same_text}
use docker_chessd.Prelude.Int.{ℤ, pos, negsuc, inc}
use docker_chessd.Board.{Color}
use docker_chessd.Pending.{
  Pending, Lobby, delete_pending, find_pend, add_request, pend_all, do_decline,
  decline_withdraw_offers,
}

-- The moves of a game: `numHalfMoves`, `moveListSize`, `FENstartPos`, the field `FENpos` of the entries
-- of `moveList`, and `lastIrreversible`.
pub record History : Type 0 where
  pub num_half_moves : ℕ
  pub move_list_size : ℕ
  pub fen_start_pos : List ℕ
  pub fen_pos : ℕ → List ℕ
  pub last_irreversible : ℤ

-- The test of `Check50MoveRule`.
unfoldable pub fifty_moves : History → Bool
fifty_moves h = elim h.last_irreversible [
  | pos l ↦ ltb 99 (h.num_half_moves - l)
  | negsuc n ↦ ltb 99 h.num_half_moves
]

-- `GetFENpos`.
unfoldable pub get_fen_pos : History → ℤ → List ℕ
get_fen_pos h (negsuc n) = h.fen_start_pos
get_fen_pos h (pos i) =
    if leb h.move_list_size i then h.fen_pos (h.move_list_size - 1) else h.fen_pos i

abbrev pub bump_if : Bool → ℕ → ℕ
bump_if t flag = if t then flag + 1 else flag

-- The loop of `CheckRepetition` from `move_num` on, with its two flags.
unfoldable pub count_positions : History → List ℕ → List ℕ → ℕ → ℤ → ℕ → ℕ → ℕ × ℕ
unfolding same_text get_fen_pos inc
count_positions h pos1 pos2 zero move_num flag1 flag2 = (flag1, flag2)
count_positions h pos1 pos2 (suc rounds) move_num flag1 flag2 =
    let text = get_fen_pos h move_num in
    count_positions h pos1 pos2 rounds (inc move_num) (bump_if (same_text pos1 text) flag1)
      (bump_if (same_text pos2 text) flag2)

-- The rounds from `lastIrreversible` to `numHalfMoves` - 1.
abbrev pub rounds_from : ℤ → ℕ → ℕ
rounds_from (pos l) n = n - 1 - l
rounds_from (negsuc k) n = n + k

-- The test of `CheckRepetition`.
unfoldable pub repeated : History → Bool
unfolding count_positions get_fen_pos
repeated h =
    let n = h.num_half_moves in
    let flags =
      count_positions h (get_fen_pos h (pos (n - 1))) (get_fen_pos h (pos n))
        (rounds_from h.last_irreversible n) h.last_irreversible 1 1 in
    if ltb n 8 then false else leb 3 flags.0 || leb 3 flags.1

-- Why a game ends.
pub data Reason : Type 0 where
  end_50moverule : Reason
  end_repetition : Reason
  end_agreeddraw : Reason

-- What `com_draw` reads of the player and the game.
pub record Seat : Type 0 where
  pub valid_and_active : Bool
  pub is_playing : Bool
  pub opponent : ℕ
  pub opponent_color : Color
  pub simul_elsewhere : Bool
  pub history : History

abbrev pub pend_draw : ℕ
pend_draw = 1

-- An offer that is taken: it is deleted, and the others to the player are declined.
unfoldable pub take_offer : ℕ → Option Pending → Lobby → Lobby
unfolding delete_pending decline_withdraw_offers
take_offer p none s = s
take_offer p (some x) s = decline_withdraw_offers p none pend_all do_decline (delete_pending x s).1

-- The end of `com_draw`: an offer of the opponent is taken, or one is made. `new` is the block of
-- memory for a new offer.
unfoldable pub agree_or_ask :
    Pending → ℕ → Seat → Option Pending → Lobby → Lobby × Option (Color × Reason)
unfolding add_request take_offer
agree_or_ask new p seat none s = ((add_request new p seat.opponent pend_draw s).1, none)
agree_or_ask new p seat (some x) s =
    (take_offer p (some x) s, some (seat.opponent_color, end_agreeddraw))

-- `com_draw`: the state of the offers, and how the game ends, if it does.
unfoldable pub com_draw : Pending → ℕ → Seat → Lobby → Lobby × Option (Color × Reason)
unfolding find_pend take_offer agree_or_ask fifty_moves repeated
com_draw new p seat s =
    let offer = find_pend (some seat.opponent) (some p) (pos pend_draw) s in
    if not (seat.valid_and_active && seat.is_playing)
    then (s, none)
    else if fifty_moves seat.history
    then (s, some (seat.opponent_color, end_50moverule))
    else if repeated seat.history
    then (take_offer p offer s, some (seat.opponent_color, end_repetition))
    else if seat.simul_elsewhere
    then (s, none)
    else agree_or_ask new p seat offer s
