-- ===== src/Matches.antt =====
-- src/matchproc.c: `create_new_match` with `pick_colors` and `prepare_match`. The names, the ratings, the
-- times of day, `promote` and the messages are not part of the model.
pub mod Starts
use docker_chessd.Prelude.{
  ℕ, ◌+◌, ◌*◌, Bool, true, false, not, ◌&&◌, ◌||◌, ◌==◌, if◌then◌else◌, Option, none, some, List,
}
use docker_chessd.Prelude.Int.{ℤ, pos, negsuc, ltℤ, minus}
use docker_chessd.Board.{Color, white, black}
use docker_chessd.Formula.Eval.{GameType, type_untimed, type_nonstandard}
use docker_chessd.Seeks.Kinds.{game_isblitz}
use docker_chessd.Pending.{
  Lobby, Wd, do_decline, do_withdraw, do_both, pend_match, remove_request, decline_withdraw_offers,
}

abbrev pub pend_simul : ℕ
pend_simul = 6

-- `wt`, `winc`, `bt` and `binc`.
pub record Times : Type 0 where
  pub wt : ℕ
  pub winc : ℕ
  pub bt : ℕ
  pub binc : ℕ

-- What is read of the players: PFLAG_LASTBLACK, `num_white`, `num_black` and PFLAG_PRIVATE.
pub record Habits : Type 0 where
  pub last_black : ℕ → Bool
  pub num_white : ℕ → ℕ
  pub num_black : ℕ → ℕ
  pub is_private : ℕ → Bool

abbrev pub same_flag : Bool → Bool → Bool
same_flag true b = b
same_flag false b = not b

-- `reverse` in `pick_colors`, for the `white` of the challenge: 0, 1, or `none` for -1.
unfoldable pub reverse : Habits → Option ℕ → Times → ℕ → ℕ → Bool
reverse h (some n) t wp bp = n == 0
reverse h none t wp bp =
    if t.wt == t.bt && t.winc == t.binc
    then (if same_flag (h.last_black wp) (h.last_black bp)
        then ltℤ (minus (h.num_white bp) (h.num_black bp)) (minus (h.num_white wp) (h.num_black wp))
        else not (h.last_black wp))
    else true

-- `pick_colors`: the players with white and with black.
unfoldable pub pick_colors : Habits → Option ℕ → Times → ℕ → ℕ → ℕ × ℕ
unfolding reverse
pick_colors h wish t wp bp = if reverse h wish t wp bp then (bp, wp) else (wp, bp)

-- The fields of `struct game` that `prepare_match` sets.
pub record NewGame : Type 0 where
  pub white_player : ℕ
  pub black_player : ℕ
  pub kind : GameType
  pub rated : Bool
  pub private : Bool
  pub w_time : ℕ
  pub w_init_time : ℕ
  pub w_increment : ℕ
  pub b_time : ℕ
  pub b_init_time : ℕ
  pub b_increment : ℕ
  pub num_half_moves : ℕ

abbrev pub is_untimed : GameType → Bool
is_untimed type_untimed = true
is_untimed _ = false

abbrev pub is_nonstandard : GameType → Bool
is_nonstandard type_nonstandard = true
is_nonstandard _ = false

-- A clock in tenths of a second: 0 x games start with 10 seconds.
abbrev pub start_time : GameType → ℕ → ℕ
start_time k minutes = if not (is_untimed k) && minutes == 0 then 100 else minutes * 60 * 10

abbrev pub is_black : Color → Bool
is_black black = true
is_black white = false

-- `prepare_match`, for the type of the game and the side that the board lets begin.
unfoldable pub prepare_match : Habits → GameType → Color → Times → ℕ → ℕ → Bool → NewGame
prepare_match h k first t wp bp rated = record {
  white_player = wp;
  black_player = bp;
  kind = k;
  rated = if is_untimed k || is_nonstandard k then false else rated;
  private = h.is_private wp || h.is_private bp;
  w_time = start_time k t.wt;
  w_init_time = t.wt * 60 * 10;
  w_increment = t.winc * 10;
  b_time = start_time k t.bt;
  b_init_time = t.bt * 60 * 10;
  b_increment = t.binc * 10;
  num_half_moves = if is_black first then 1 else 0;
}

-- The calls of `remove_request` and `decline_withdraw_offers`, with the two players as they are given and
-- by their colours; `negsuc 7` is -PEND_PARTNER.
unfoldable pub drop_offers : Bool → ℕ → ℕ → ℕ → ℕ → Lobby → Lobby
unfolding remove_request decline_withdraw_offers
drop_offers simul p p1 wp bp s =
    decline_withdraw_offers wp none (pos pend_simul) (if simul then do_withdraw else do_both) (
      decline_withdraw_offers bp none (pos pend_simul) do_both (
        decline_withdraw_offers bp none (pos pend_match) do_both (
          decline_withdraw_offers wp none (pos pend_match) do_both
            (remove_request p p1 (negsuc 7) s))))

-- The players' fields, the offers and the games; `none` for a game is -1.
pub record Hall : Type 0 where
  pub lobby : Lobby
  pub game : ℕ → Option ℕ
  pub opponent : ℕ → ℕ
  pub side : ℕ → Color
  pub garray : ℕ → Option NewGame

abbrev pub set_at {ℓ} : {A : Type ℓ} → ℕ → A → (ℕ → A) → ℕ → A
set_at p a f q = if q == p then a else f q

-- The players' fields of a game that has begun.
abbrev pub seat_players : ℕ → ℕ → ℕ → NewGame → Hall → Hall
seat_players g wp bp game s = record s {
  garray = set_at g (some game) s.garray;
  game = set_at bp (some g) (set_at wp (some g) s.game);
  opponent = set_at bp wp (set_at wp bp s.opponent);
  side = set_at bp black (set_at wp white s.side);
}

-- What `board_init` makes of the board's name: the side to begin, or a failure, which removes the game.
abbrev pub with_board : ℕ → ℕ → ℕ → (Color → NewGame) → Option Color → Hall → Hall × Bool
with_board g wp bp make none s = (record s { garray = set_at g none s.garray }, false)
with_board g wp bp make (some first) s = (seat_players g wp bp (make first) s, true)

-- `create_new_match` for the players with white and black.
unfoldable pub match_of :
    Habits
    → Option Color
    → ℕ
    → ℕ
    → ℕ
    → ℕ × ℕ
    → Times
    → Bool
    → List ℕ
    → List ℕ
    → Bool
    → Hall
    → Hall × Bool
unfolding drop_offers prepare_match game_isblitz
match_of h board g p p1 (wp, bp) t rated category name simul s =
    with_board g wp bp
      (λ first.
        prepare_match h
          (if simul then type_untimed else game_isblitz t.wt t.winc t.bt t.binc category name) first
          t wp bp rated)
      board (record s { lobby = drop_offers simul p p1 wp bp s.lobby })

-- `create_new_match`: the result says whether it is COM_OK.
unfoldable pub create_new_match :
    Habits
    → Option Color
    → ℕ
    → ℕ
    → ℕ
    → Times
    → Bool
    → List ℕ
    → List ℕ
    → Option ℕ
    → Bool
    → Hall
    → Hall × Bool
unfolding pick_colors match_of
create_new_match h board g p p1 t rated category name wish simul s =
    match_of h board g p p1 (pick_colors h wish t p p1) t rated category name simul s
