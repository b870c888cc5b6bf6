-- ===== src/Flag.antt =====
-- src/gameproc.c: `flag` with the mating material of the player, and src/gamedb.c: `game_update_time`.
-- Times are unbounded; the end of the game, `game_ended`, is the result.
pub mod Wins
use docker_chessd.Prelude.{
  ℕ, ◌+◌, Bool, true, false, not, ◌&&◌, ltb, ◌==◌, if◌then◌else◌, Option, none, some, List, [], ◌∷◌,
}
use docker_chessd.Prelude.Int.{ℤ, pos, negsuc, ◌-ℤ◌}
use docker_chessd.Board.{
  Color, white, black, toggle, color_eq, Square, nopiece, piece, pawn, knight, bishop, rook, queen,
  king, Board,
}
use docker_chessd.Pieces.{Pos, squares}
use docker_chessd.Pending.{Lobby, pend_all, do_decline, decline_withdraw_offers}

-- `case BISHOP: case KNIGHT:` with `iscolor`.
abbrev pub is_minor : Color → Square → Bool
is_minor c (piece d knight) = color_eq d c
is_minor c (piece d bishop) = color_eq d c
is_minor c _ = false

-- `default:` with `iscolor`.
abbrev pub is_heavy : Color → Square → Bool
is_heavy c (piece d pawn) = color_eq d c
is_heavy c (piece d rook) = color_eq d c
is_heavy c (piece d queen) = color_eq d c
is_heavy c _ = false

-- The loop of `player_has_mating_material` over some squares, with the minor pieces so far.
unfoldable pub mating_material : Board → Color → List Pos → ℕ → Bool
mating_material b c [] minor_pieces = ltb 1 minor_pieces
mating_material b c ((f, r) ∷ l) minor_pieces =
    let rest =
      mating_material b c l (if is_minor c (b f r) then minor_pieces + 1 else minor_pieces) in
    if is_heavy c (b f r) then true else rest

-- `player_has_mating_material`.
unfoldable pub player_has_mating_material : Board → Color → Bool
unfolding mating_material squares
player_has_mating_material b c = mating_material b c squares 0

pub data FlagPending : Type 0 where
  flag_none : FlagPending
  flag_called : FlagPending
  flag_checking : FlagPending
  flag_abort : FlagPending

-- The fields of `struct game` that these operations use.
pub record Clocks : Type 0 where
  pub is_active : Bool
  pub is_untimed : Bool
  pub clock_stopped : Bool
  pub move_num : ℕ
  pub num_half_moves : ℕ
  pub on_move : Color
  pub last_dec_time : ℤ
  pub w_time : ℤ
  pub b_time : ℤ
  pub w_real_time : ℤ
  pub b_real_time : ℤ
  pub flag_pending : FlagPending

-- `game_update_time` at the time `now`.
unfoldable pub game_update_time : ℤ → Clocks → Clocks
game_update_time now g =
    let timesince = now -ℤ g.last_dec_time in
    if g.is_active && (not (g.move_num == 1) && (not g.clock_stopped && not g.is_untimed))
    then (elim g.on_move [
      | white ↦ record g { w_time = g.w_time -ℤ timesince; last_dec_time = now }
      | black ↦ record g { b_time = g.b_time -ℤ timesince; last_dec_time = now }
    ])
    else g

-- The time of a player: as the server counts it, and with timeseal as the client does.
abbrev pub server_time : Color → Clocks → ℤ
server_time white g = g.w_time
server_time black g = g.b_time

abbrev pub real_time : Color → Clocks → ℤ
real_time white g = g.w_real_time
real_time black g = g.b_real_time

abbrev pub clock : Bool → Color → Clocks → ℤ
clock timeseal c g = if timeseal then real_time c g else server_time c g

-- `time <= 0`.
abbrev pub is_out : ℤ → Bool
is_out (pos n) = n == 0
is_out (negsuc n) = true

abbrev pub is_checking : FlagPending → Bool
is_checking flag_checking = true
is_checking _ = false

pub data FlagEnd : Type 0 where
  end_flag : FlagEnd
  end_flagnomaterial : FlagEnd
  end_bothflag : FlagEnd

-- The caller of the flag.
pub record Caller : Type 0 where
  pub player : ℕ
  pub is_playing : Bool
  pub my_color : Color
  pub my_timeseal : Bool
  pub opp_timeseal : Bool

-- The part of `com_flag` behind `game_update_time`: the clocks, the offers, and how the game ends, if
-- it does.
unfoldable pub call_flag :
    Caller → Board → Clocks → Lobby → Clocks × Lobby × Option (Color × FlagEnd)
unfolding player_has_mating_material decline_withdraw_offers
call_flag p b g s =
    let mine = clock p.my_timeseal p.my_color g in
    let yours = clock p.opp_timeseal (toggle p.my_color) g in
    let declined = decline_withdraw_offers p.player none pend_all do_decline s in
    if is_out mine && is_out yours
    then (g, declined, some (p.my_color, end_bothflag))
    else if not (is_out yours)
    then (if is_out (server_time (toggle p.my_color) g)
          && (not (color_eq g.on_move p.my_color) && not (is_checking g.flag_pending))
        then (record g { flag_pending = flag_called }, s, none)
        else (g, s, none))
    else if player_has_mating_material b p.my_color
    then (g, declined, some (p.my_color, end_flag))
    else (g, declined, some (p.my_color, end_flagnomaterial))

-- `com_flag`.
unfoldable pub com_flag :
    ℤ → Caller → Board → Clocks → Lobby → Clocks × Lobby × Option (Color × FlagEnd)
unfolding call_flag game_update_time
com_flag now p b g s =
    if not p.is_playing
    then (g, s, none)
    else if g.is_untimed
    then (g, s, none)
    else if ltb g.num_half_moves 2
    then (g, s, none)
    else call_flag p b (game_update_time now g) s
