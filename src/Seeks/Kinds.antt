-- ===== src/Seeks/Kinds.antt =====
-- `game_isblitz` of src/gamedb.c and `GetRating` of src/playerdb.c.
use docker_chessd.Prelude.{ℕ, ◌+◌, ◌*◌, not, ◌||◌, leb, ltb, ◌==◌, if◌then◌else◌, List}
use docker_chessd.Prelude.Text.{codes, same_text}
use docker_chessd.Formula.Eval.{
  GameType, type_untimed, type_blitz, type_stand, type_nonstandard, type_wild, type_light,
  type_bughouse,
}
use docker_chessd.Seeks.{is_empty_text}

-- The end of `game_isblitz`, without a category.
unfoldable pub by_time : ℕ → ℕ → ℕ → ℕ → GameType
by_time wt winc bt binc =
    if wt == 0 || bt == 0
    then type_untimed
    else if not (wt == bt) || not (winc == binc)
    then type_nonstandard
    else if ltb (wt * 60 + winc * 40) 180
    then type_light
    else if leb 900 (wt * 60 + winc * 40)
    then type_stand
    else type_blitz

-- `game_isblitz`.
unfoldable pub game_isblitz : ℕ → ℕ → ℕ → ℕ → List ℕ → List ℕ → GameType
unfolding by_time same_text
game_isblitz wt winc bt binc cat board =
    if is_empty_text cat
    then by_time wt winc bt binc
    else if same_text cat (codes "bughouse")
    then type_bughouse
    else if is_empty_text board
    then by_time wt winc bt binc
    else if same_text cat (codes "wild")
    then type_wild
    else if not (same_text cat (codes "standard")) || not (same_text board (codes "standard"))
    then type_nonstandard
    else by_time wt winc bt binc

-- The statistics of a player that `GetRating` reads.
pub record Ratings : Type 0 where
  pub b_stats : ℕ
  pub s_stats : ℕ
  pub w_stats : ℕ
  pub l_stats : ℕ
  pub bug_stats : ℕ

-- `GetRating`.
unfoldable pub get_rating : Ratings → GameType → ℕ
get_rating r type_blitz = r.b_stats
get_rating r type_stand = r.s_stats
get_rating r type_wild = r.w_stats
get_rating r type_light = r.l_stats
get_rating r type_bughouse = r.bug_stats
get_rating r type_untimed = 0
get_rating r type_nonstandard = 0
