-- ===== src/Seeks/Answers.antt =====
-- src/seekproc.c: the command `play`, the filter of `sought`, and the calls that change `seekList`.
-- `create_new_match`, and `unexamine` for the opponent, are not part of the model.
use docker_chessd.Prelude.{
  ℕ, Bool, false, not, ◌&&◌, ◌||◌, ltb, ◌==◌, if◌then◌else◌, Option, none, some, List, [], ◌∷◌,
  get_elem?,
}
use docker_chessd.Prelude.Int.{ℤ, pos, negsuc}
use docker_chessd.Seeks.{SeekTuple, at_most, is_set, seekcount, seekfind, seekremoveall}
use docker_chessd.Seeks.Matching.{terms_of, formula_allows, own_formula_allows}
use docker_chessd.Seeks.Kinds.{get_rating}
use docker_chessd.Seeks.Commands.{has_game, is_active, House, Sought, plays, com_seek, com_unseek}

-- The parameter of `play`: what `player_find_part_login` finds for a word, or a number.
pub data Target : Type 0 where
  by_name : Option ℕ → Target
  by_index : ℤ → Target

-- The results of `play`. `started` has the opponent and the ad that `create_new_match` reads.
pub data Played : Type 0 where
  no_user : Played
  not_seeking : Played
  seeks_several : Played
  bad_index : Played
  own_ad : Played
  busy : Played
  bug_detected : Played
  adjourned_game : Played
  on_noplay : Played
  has_on_noplay : Played
  censored_by : Played
  censoring : Played
  unrated_only : Played
  rating_refused : Played
  formula_refused : Played
  started : ℕ → SeekTuple → Played

-- GetRating(p, s.type) within the range of the ad.
abbrev pub in_ad_range : House → ℕ → SeekTuple → Bool
in_ad_range h p s =
    let r = some (get_rating (h.stats p) s.kind) in at_most s.min_rating r && at_most r s.max_rating

-- The tests of `com_play` for an ad of `p1`, in the source's order, from whose ad it is.
unfoldable pub refusal : House → ℕ → ℕ → SeekTuple → Option Played
unfolding get_rating own_formula_allows
refusal h p p1 s =
    if p == p1
    then some own_ad
    else if has_game (h.game p)
    then some busy
    else if is_active (h.game p1)
    then some bug_detected
    else if h.adjourned p p1 || h.adjourned p1 p
    then some adjourned_game
    else if h.noplay p1 p
    then some on_noplay
    else if h.noplay p p1
    then some has_on_noplay
    else if h.censored p1 p
    then some censored_by
    else if h.censored p p1
    then some censoring
    else if is_set s.rated && not (h.registered p)
    then some unrated_only
    else if not (in_ad_range h p s)
    then some rating_refused
    else if not (own_formula_allows h.judges s (some p) (some p1) (terms_of s s s))
    then some formula_refused
    else none

abbrev pub start_or :
    ℕ → ℕ → ℕ → SeekTuple → List SeekTuple → Option Played → Played × List SeekTuple
start_or p p1 now s l (some why) = (why, l)
start_or p p1 now s l none = (started p1 s, seekremoveall p1 now (seekremoveall p now l))

unfoldable pub play_ad : House → ℕ → ℕ → ℕ → SeekTuple → List SeekTuple → Played × List SeekTuple
unfolding refusal
play_ad h p p1 now s l = start_or p p1 now s l (refusal h p p1 s)

abbrev pub play_of : House → ℕ → ℕ → SeekTuple → List SeekTuple → Option ℕ → Played × List SeekTuple
play_of h p now s l none = (bad_index, l)
play_of h p now s l (some p1) = play_ad h p p1 now s l

abbrev pub play_at : House → ℕ → ℕ → List SeekTuple → Option SeekTuple → Played × List SeekTuple
play_at h p now l none = (bad_index, l)
play_at h p now l (some s) = play_of h p now s l s.player

abbrev pub play_found : House → ℕ → ℕ → List SeekTuple → Option ℕ → Played × List SeekTuple
play_found h p now l none = (bad_index, l)
play_found h p now l (some i) = play_at h p now l (get_elem? l i)

-- `com_play`. The source goes on where a player with one ad is not found, which does not occur.
unfoldable pub com_play : House → ℕ → ℕ → Target → List SeekTuple → Played × List SeekTuple
unfolding play_ad
com_play h p now (by_name none) l = (no_user, l)
com_play h p now (by_name (some p1)) l =
    if seekcount p1 l == 0
    then (not_seeking, l)
    else if ltb 1 (seekcount p1 l)
    then (seeks_several, l)
    else play_found h p now l (seekfind p1 l)
com_play h p now (by_index (pos i)) l = play_at h p now l (get_elem? l i)
com_play h p now (by_index (negsuc i)) l = (bad_index, l)

-- `seek` with the `play` that it may call.
abbrev pub follow : House → ℕ → ℕ → Sought × List SeekTuple → List SeekTuple
follow h p now (plays i, l) = (com_play h p now (by_index (pos i)) l).1
follow h p now (_, l) = l

unfoldable pub seek_and_play : House → ℕ → ℕ → List (List ℕ) → List SeekTuple → List SeekTuple
unfolding com_seek com_play
seek_and_play h p now words l = follow h p now (com_seek h p now words l)

-- The calls that change `seekList`: the commands, and `seekremoveall` from the start of a match or the
-- end of a connection.
pub data Call : Type 0 where
  seeks : ℕ → List (List ℕ) → Call
  unseeks : ℕ → Option ℤ → Call
  answers : ℕ → Target → Call
  leaves : ℕ → Call

unfoldable pub step : House → ℕ → Call → List SeekTuple → List SeekTuple
unfolding seek_and_play com_unseek com_play
step h now (seeks p words) l = seek_and_play h p now words l
step h now (unseeks p i) l = (com_unseek p i now l).1
step h now (answers p target) l = (com_play h p now target l).1
step h now (leaves p) l = seekremoveall p now l

unfoldable pub run : List (House × ℕ × Call) → List SeekTuple → List SeekTuple
unfolding step
run [] l = l
run ((h, now, call) ∷ rest) l = run rest (step h now call l)

-- Whether `sought` shows an ad of `p1` to `p`: `filter` is 0 for `sought all`.
unfoldable pub shown : House → ℕ → Bool → SeekTuple → Bool
unfolding get_rating formula_allows own_formula_allows
shown h p filter s = elim s.player [
  | none ↦ false
  | some p1 ↦
      not filter
      || (not (h.censored p p1)
          && (not (h.censored p1 p)
              && (not (h.noplay p1 p)
                  && (not (h.noplay p p1)
                      && (in_ad_range h p s
                          && (formula_allows h.judges p1 p (terms_of s s s)
                              && own_formula_allows h.judges s (some p) (some p1)
                                  (terms_of s s s)))))))
]
