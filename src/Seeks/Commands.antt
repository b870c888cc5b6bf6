-- ===== src/Seeks/Commands.antt =====
-- src/seekproc.c: the commands `seek` and `unseek`, without the texts that they print. What other parts
-- of the server answer about the players is a parameter.
use docker_chessd.Prelude.{
  ℕ, Bool, true, false, not, ◌&&◌, ◌||◌, ◌==◌, if◌then◌else◌, Option, none, some, List, get_elem?,
  set_elem,
}
use docker_chessd.Prelude.Int.{ℤ}
use docker_chessd.Prelude.Text.{codes, same_text}
use docker_chessd.Seeks.{
  SeekTuple, max_player_seek, same, at_most, is_set, is_empty_text, seekclear, seekcount, is_duplet,
  seekisduplet, seekadd, seekremoveall, seekremovead,
}
use docker_chessd.Seeks.Matching.{Judges, seekmatch}
use docker_chessd.Seeks.Kinds.{game_isblitz, Ratings, get_rating}
use docker_chessd.Seeks.Words.{System, seek_words}

-- The game of a player, by its status.
pub data Busy : Type 0 where
  no_game : Busy
  game_active : Busy
  game_examine : Busy
  game_other : Busy

abbrev pub has_game : Busy → Bool
has_game no_game = false
has_game _ = true

abbrev pub is_active : Busy → Bool
is_active game_active = true
is_active _ = false

-- What the commands read of the players: fields of `struct player`, `in_list` for the lists L_NOPLAY,
-- L_CENSOR and L_COMPUTER, and `game_read` for an adjourned game.
pub record House : Type 0 where
  pub system : System
  pub judges : Judges
  pub game : ℕ → Busy
  pub registered : ℕ → Bool
  pub plays_rated : ℕ → Bool
  pub d_time : ℕ → ℕ
  pub d_inc : ℕ → ℕ
  pub stats : ℕ → Ratings
  pub censored : ℕ → ℕ → Bool
  pub noplay : ℕ → ℕ → Bool
  pub computer : ℕ → Bool
  pub adjourned : ℕ → ℕ → Bool

-- The results of `seek`.
pub data Sought : Type 0 where
  too_many : Sought
  is_busy : Sought
  unreadable : Sought
  too_large : Sought
  unregistered : Sought
  untimed_wild : Sought
  no_board : Sought
  ad_updated : ℕ → Sought
  ad_present : Sought
  plays : ℕ → Sought
  no_space : Sought
  posted : ℕ → Sought

abbrev pub or_else : Option ℕ → ℕ → ℕ
or_else none d = d
or_else (some n) d = n

abbrev pub one_if : Bool → ℕ
one_if true = 1
one_if false = 0

-- The tuple with the defaults, its type and the rating of its player.
unfoldable pub complete : House → ℕ → SeekTuple → SeekTuple
unfolding game_isblitz get_rating
complete h p s =
    let t = or_else s.time (h.d_time p) in
    let n = or_else s.inc (h.d_inc p) in
    let k = game_isblitz t n t n s.category s.board in
    record s {
      player = some p;
      ownrating = some (get_rating (h.stats p) k);
      time = some t;
      inc = some n;
      rated = some (or_else s.rated (one_if (h.plays_rated p)));
      kind = k;
      min_rating = some (or_else s.min_rating 0);
      max_rating = some (or_else s.max_rating 9999);
      formula = some (or_else s.formula 0);
    }

-- The tests of a complete tuple, in the source's order.
unfoldable pub objection : House → ℕ → SeekTuple → Option Sought
unfolding same_text
objection h p s =
    if not (at_most s.time (some 999)) || not (at_most s.inc (some 999))
    then some too_large
    else if is_set s.rated && not (h.registered p)
    then some unregistered
    else if not (is_empty_text s.category) && (same s.time (some 0) && same s.inc (some 0))
    then some untimed_wild
    else if same_text s.category (codes "wild")
        && not (System.board_exists h.system s.category s.board)
    then some no_board
    else none

abbrev pub told : Option (ℕ × List SeekTuple) → List SeekTuple → Sought × List SeekTuple
told none l = (no_space, l)
told (some (i, l')) l = (posted i, l')

unfoldable pub post : ℕ → SeekTuple → List SeekTuple → Sought × List SeekTuple
post now s l = told (seekadd now s l) l

-- Whether an ad of `p1` may be answered for `p` at once.
abbrev pub are_friendly : House → ℕ → ℕ → Bool
are_friendly h p p1 =
    not (h.censored p p1)
    && (not (h.censored p1 p)
        && (not (h.noplay p1 p) && (not (h.noplay p p1) && not (h.computer p1))))

abbrev pub friendly_of : House → ℕ → Option ℕ → Bool
friendly_of h p none = false
friendly_of h p (some p1) = are_friendly h p p1

abbrev pub friendly_ad : House → ℕ → Option SeekTuple → Bool
friendly_ad h p none = false
friendly_ad h p (some s1) = friendly_of h p s1.player

unfoldable pub answer_or_post :
    House → ℕ → ℕ → SeekTuple → List SeekTuple → Option ℕ → Sought × List SeekTuple
unfolding post
answer_or_post h p now s l none = post now s l
answer_or_post h p now s l (some i) =
    if friendly_ad h p (get_elem? l i) then (plays i, l) else post now s l

-- A duplet `s1` at the index `i`.
unfoldable pub update : SeekTuple → List SeekTuple → ℕ → Option SeekTuple → Sought × List SeekTuple
update s l i none = (ad_present, l)
update s l i (some s1) =
    if same s1.formula s.formula
    then (ad_present, l)
    else (ad_updated i, set_elem i (record s1 { formula = s.formula }) l)

unfoldable pub place :
    House → ℕ → ℕ → SeekTuple → List SeekTuple → Option ℕ → Sought × List SeekTuple
unfolding answer_or_post update seekmatch
place h p now s l (some i) = update s l i (get_elem? l i)
place h p now s l none = answer_or_post h p now s l (seekmatch h.judges s l)

unfoldable pub offer_or :
    House → ℕ → ℕ → SeekTuple → List SeekTuple → Option Sought → Sought × List SeekTuple
unfolding place is_duplet
offer_or h p now s l (some why) = (why, l)
offer_or h p now s l none = place h p now s l (seekisduplet s l)

unfoldable pub seek_tuple :
    House → ℕ → ℕ → List SeekTuple → Option SeekTuple → Sought × List SeekTuple
unfolding complete objection offer_or
seek_tuple h p now l none = (unreadable, l)
seek_tuple h p now l (some s) = offer_or h p now (complete h p s) l (objection h p (complete h p s))

-- `com_seek`; for `plays i` the command `play i` follows.
unfoldable pub com_seek : House → ℕ → ℕ → List (List ℕ) → List SeekTuple → Sought × List SeekTuple
unfolding seek_words seek_tuple
com_seek h p now words l =
    if seekcount p l == max_player_seek
    then (too_many, l)
    else if has_game (h.game p)
    then (is_busy, l)
    else seek_tuple h p now l (seek_words h.system words seekclear)

-- The results of `unseek`; `out_of_range` stands for an access outside the array.
pub data Unsought : Type 0 where
  no_ads : Unsought
  out_of_range : Unsought
  not_yours : Unsought
  ad_removed : Unsought
  all_removed : Unsought

abbrev pub removal : Option (Bool × List SeekTuple) → List SeekTuple → Unsought × List SeekTuple
removal none l = (out_of_range, l)
removal (some (true, l')) l = (ad_removed, l')
removal (some (false, l')) l = (not_yours, l')

abbrev pub unseek_some : ℕ → Option ℤ → ℕ → List SeekTuple → Unsought × List SeekTuple
unseek_some p none now l = (all_removed, seekremoveall p now l)
unseek_some p (some i) now l = removal (seekremovead p i now l) l

-- `com_unseek`.
unfoldable pub com_unseek : ℕ → Option ℤ → ℕ → List SeekTuple → Unsought × List SeekTuple
com_unseek p i now l = if seekcount p l == 0 then (no_ads, l) else unseek_some p i now l
