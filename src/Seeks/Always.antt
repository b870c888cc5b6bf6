-- ===== src/Seeks/Always.antt =====
-- src/seekproc.c: the calls of the commands, and the order of `seekList`.
use docker_chessd.Prelude.{
  ℕ, ltb, ◌≡◌, refl, inl, inr, Bool, true, false, ◌==◌, if◌then◌else◌, Option, none, some, List, [],
  ◌∷◌, get_elem?, Bool-cases,
}
use docker_chessd.Prelude.Int.{ℤ, pos, negsuc}
use docker_chessd.Seeks.{
  SeekTuple, max_player_seek, same, is_of, seekclear, seekcount, seekfind, seekisduplet, seekadd,
  seekremoveall, removed_at, seekinit,
}
use docker_chessd.Seeks.Matching.{seekmatch}
use docker_chessd.Seeks.Words.{seek_words}
use docker_chessd.Seeks.Commands.{
  House, has_game, Sought, plays, told, post, friendly_ad, answer_or_post, update, place, offer_or,
  seek_tuple, complete, objection, com_seek, removal, unseek_some, com_unseek,
}
use docker_chessd.Seeks.Answers.{
  Target, by_name, by_index, Played, refusal, start_or, play_ad, play_of, play_at, play_found,
  com_play, follow, seek_and_play, Call, seeks, unseeks, answers, leaves, step, run,
}
use docker_chessd.Seeks.Orderly.{IsPosted, IsOrderly}
use docker_chessd.Seeks.Changes.{
  IsOrderly-seekadd, IsOrderly-formula, IsOrderly-cleared, IsOrderly-seekremoveall,
  seekinit-IsOrderly,
}
use docker_chessd.Seeks.Ranges.{IsRanged, seek_words-IsRanged, complete-IsPosted}

if-IsOrderly :
    {A : Type 0} (b : Bool) (u v : A × List SeekTuple)
    → IsOrderly u.1
    → IsOrderly v.1
    → IsOrderly (if b then u else v).1
if-IsOrderly true u v h k = h
if-IsOrderly false u v h k = k

module _ (h : House) (p now : ℕ) (s : SeekTuple) (l : List SeekTuple) (ok : IsPosted s)
    (owner : s.player ≡ some p) (few : (seekcount p l == max_player_seek) ≡ false)
    (o : IsOrderly l) where
  post-IsOrderly : seekisduplet s l ≡ none → IsOrderly (post now s l).1
  unfolding post
  post-IsOrderly alone = at (seekadd now s l) refl
    where
      at : (r : Option (ℕ × List SeekTuple)) → seekadd now s l ≡ r → IsOrderly (told r l).1
      at none e = o
      at (some (i, l')) e = IsOrderly-seekadd now p s l l' i e ok owner few alone o

  answer_or_post-IsOrderly :
      (i : Option ℕ) → seekisduplet s l ≡ none → IsOrderly (answer_or_post h p now s l i).1
  unfolding answer_or_post
  answer_or_post-IsOrderly none alone = post-IsOrderly alone
  answer_or_post-IsOrderly (some i) alone =
      if-IsOrderly (friendly_ad h p (get_elem? l i)) _ _ o (post-IsOrderly alone)

  update-IsOrderly :
      (i : ℕ) (x : Option SeekTuple) → get_elem? l i ≡ x → IsOrderly (update s l i x).1
  unfolding update
  update-IsOrderly i none g = o
  update-IsOrderly i (some x) g =
      if-IsOrderly (same x.formula s.formula) _ _ o (IsOrderly-formula i s.formula x l g o)

  place-IsOrderly : (i : Option ℕ) → seekisduplet s l ≡ i → IsOrderly (place h p now s l i).1
  unfolding place
  place-IsOrderly none e = answer_or_post-IsOrderly (seekmatch h.judges s l) e
  place-IsOrderly (some i) e = update-IsOrderly i (get_elem? l i) refl

module _ (h : House) (p now : ℕ) (l : List SeekTuple) (o : IsOrderly l) where
  offer_or-IsOrderly :
      (few : (seekcount p l == max_player_seek) ≡ false) (s : SeekTuple) (r : Option Sought)
      → objection h p (complete h p s) ≡ r
      → IsRanged s
      → IsOrderly (offer_or h p now (complete h p s) l r).1
  unfolding offer_or complete
  offer_or-IsOrderly few s (some why) e ranged = o
  offer_or-IsOrderly few s none e ranged =
      place-IsOrderly h p now (complete h p s) l (complete-IsPosted h p s ranged e) refl few o
        (seekisduplet (complete h p s) l) refl

  seek_tuple-IsOrderly :
      (few : (seekcount p l == max_player_seek) ≡ false) (words : List (List ℕ))
      (r : Option SeekTuple)
      → seek_words h.system words seekclear ≡ r
      → IsOrderly (seek_tuple h p now l r).1
  unfolding seek_tuple
  seek_tuple-IsOrderly few words none e = o
  seek_tuple-IsOrderly few words (some s) e =
      offer_or-IsOrderly few s (objection h p (complete h p s)) refl
        (seek_words-IsRanged h.system words seekclear s (inl (refl, refl)) e)

  com_seek-IsOrderly : (words : List (List ℕ)) → IsOrderly (com_seek h p now words l).1
  unfolding com_seek
  com_seek-IsOrderly words = elim (Bool-cases (seekcount p l == max_player_seek)) [
    | inl e ↦ rw e o
    | inr e ↦ rw e (
        if-IsOrderly (has_game (h.game p)) _ _ o
          (seek_tuple-IsOrderly e words (seek_words h.system words seekclear) refl))
  ]

  start_or-IsOrderly :
      (p1 : ℕ) (s : SeekTuple) (r : Option Played) → IsOrderly (start_or p p1 now s l r).1
  start_or-IsOrderly p1 s (some why) = o
  start_or-IsOrderly p1 s none =
      IsOrderly-seekremoveall p1 now (seekremoveall p now l) (IsOrderly-seekremoveall p now l o)

  play_of-IsOrderly : (s : SeekTuple) (p1 : Option ℕ) → IsOrderly (play_of h p now s l p1).1
  unfolding play_ad
  play_of-IsOrderly s none = o
  play_of-IsOrderly s (some p1) = start_or-IsOrderly p1 s (refusal h p p1 s)

  play_at-IsOrderly : (x : Option SeekTuple) → IsOrderly (play_at h p now l x).1
  play_at-IsOrderly none = o
  play_at-IsOrderly (some s) = play_of-IsOrderly s s.player

  play_found-IsOrderly : (i : Option ℕ) → IsOrderly (play_found h p now l i).1
  play_found-IsOrderly none = o
  play_found-IsOrderly (some i) = play_at-IsOrderly (get_elem? l i)

  com_play-IsOrderly : (target : Target) → IsOrderly (com_play h p now target l).1
  unfolding com_play
  com_play-IsOrderly (by_name none) = o
  com_play-IsOrderly (by_name (some p1)) =
      if-IsOrderly (seekcount p1 l == 0) _ _ o
        (if-IsOrderly (ltb 1 (seekcount p1 l)) _ _ o (play_found-IsOrderly (seekfind p1 l)))
  com_play-IsOrderly (by_index (pos i)) = play_at-IsOrderly (get_elem? l i)
  com_play-IsOrderly (by_index (negsuc i)) = o

  removal-IsOrderly :
      (i : ℕ) (x : Option SeekTuple)
      → get_elem? l i ≡ x
      → IsOrderly (removal (removed_at p i now x l) l).1
  removal-IsOrderly i none g = o
  removal-IsOrderly i (some x) g = elim (Bool-cases (is_of p x)) [
    | inl e ↦ rw e (IsOrderly-cleared i now x l g o)
    | inr e ↦ rw e o
  ]

  unseek_some-IsOrderly : (i : Option ℤ) → IsOrderly (unseek_some p i now l).1
  unseek_some-IsOrderly none = IsOrderly-seekremoveall p now l o
  unseek_some-IsOrderly (some (pos i)) = removal-IsOrderly i (get_elem? l i) refl
  unseek_some-IsOrderly (some (negsuc i)) = o

  com_unseek-IsOrderly : (i : Option ℤ) → IsOrderly (com_unseek p i now l).1
  unfolding com_unseek
  com_unseek-IsOrderly i = if-IsOrderly (seekcount p l == 0) _ _ o (unseek_some-IsOrderly i)

follow-IsOrderly :
    (h : House) (p now : ℕ) (r : Sought × List SeekTuple)
    → IsOrderly r.1
    → IsOrderly (follow h p now r)
follow-IsOrderly h p now (plays i, l) o = com_play-IsOrderly h p now l o (by_index (pos i))
follow-IsOrderly h p now (_, l) o = o

-- Every call keeps `seekList` in order, whatever the players, the system and the time are.
step-IsOrderly :
    (h : House) (now : ℕ) (call : Call) (l : List SeekTuple)
    → IsOrderly l
    → IsOrderly (step h now call l)
unfolding step seek_and_play
step-IsOrderly h now (seeks p words) l o =
    follow-IsOrderly h p now (com_seek h p now words l) (com_seek-IsOrderly h p now l o words)
step-IsOrderly h now (unseeks p i) l o = com_unseek-IsOrderly h p now l o i
step-IsOrderly h now (answers p target) l o = com_play-IsOrderly h p now l o target
step-IsOrderly h now (leaves p) l o = IsOrderly-seekremoveall p now l o

run_from-IsOrderly :
    (calls : List (House × ℕ × Call)) (l : List SeekTuple) → IsOrderly l → IsOrderly (run calls l)
unfolding run
run_from-IsOrderly [] l o = o
run_from-IsOrderly ((h, now, call) ∷ rest) l o =
    run_from-IsOrderly rest (step h now call l) (step-IsOrderly h now call l o)

-- After any calls of `seek`, `unseek` and `play`, starts of matches and ends of connections, from the
-- start of the server on, `seekList` has its 2000 entries; no player has more than three ads, no two ads
-- are duplets, and each ad has a time and an increment of at most 999, a lowest rating below its
-- highest, and the type that game_isblitz gives its terms.
pub run-IsOrderly : (calls : List (House × ℕ × Call)) → IsOrderly (run calls seekinit)
run-IsOrderly calls = run_from-IsOrderly calls seekinit seekinit-IsOrderly
