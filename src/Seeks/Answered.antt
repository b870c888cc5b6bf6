-- ===== src/Seeks/Answered.antt =====
-- src/seekproc.c: when `seek` answers an ad.
use docker_chessd.Prelude.{
  ℕ, ◌≡◌, ◌≢◌, refl, ap, subst, ◌∙◌, inl, inr, true, false, ◌==◌, Option, none, some, List,
  get_elem?, arith, Bool-cases, else_taken,
}
use docker_chessd.Seeks.{
  SeekTuple, max_player_seek, same, seekclear, seekcount, seekisduplet, seekadd,
}
use docker_chessd.Seeks.Matching.{seekmatch}
use docker_chessd.Seeks.Words.{seek_words}
use docker_chessd.Seeks.Commands.{
  House, has_game, Sought, too_many, is_busy, plays, told, post, friendly_ad, answer_or_post,
  update, place, offer_or, seek_tuple, complete, objection, com_seek,
}

-- The ad that `seek` makes of the words, and the entry that it answers.
abbrev pub Answers : House → ℕ → SeekTuple → List SeekTuple → ℕ → Type 0
Answers h p s l i =
    (objection h p s ≡ none)
    × (seekmatch h.judges s l ≡ some i)
    × (friendly_ad h p (get_elem? l i) ≡ true)

module _ (h : House) (p now : ℕ) (l l' : List SeekTuple) (i : ℕ) where
  post-other : (s : SeekTuple) → post now s l ≢ (plays i, l')
  unfolding post
  post-other s = at (seekadd now s l)
    where
      at : (r : Option (ℕ × List SeekTuple)) → told r l ≢ (plays i, l')
      at none e = cc e
      at (some (k, l'')) e = cc e

  update-other : (s : SeekTuple) (k : ℕ) (x : Option SeekTuple) → update s l k x ≢ (plays i, l')
  unfolding update
  update-other s k none e = cc e
  update-other s k (some x) e = elim (Bool-cases (same x.formula s.formula)) [
    | inl t ↦ let q = rw t at e in cc q
    | inr t ↦ let q = rw t at e in cc q
  ]

  answer_or_post_lem :
      (s : SeekTuple) (k : Option ℕ)
      → answer_or_post h p now s l k ≡ (plays i, l')
      → (k ≡ some i) × (friendly_ad h p (get_elem? l i) ≡ true) × (l' ≡ l)
  unfolding answer_or_post
  answer_or_post_lem s none e = absurd (post-other s e)
  answer_or_post_lem s (some k) e = elim (Bool-cases (friendly_ad h p (get_elem? l k))) [
    | inl t ↦
        let q = rw t at e in
        let m = index q in
        (ap some m, subst (λ j. friendly_ad h p (get_elem? l j) ≡ true) m t, cc q)
    | inr t ↦ absurd (post-other s (rw t at e))
  ]
    where
      index : ◌≡◌ {A = Sought × List SeekTuple} (plays k, l) (plays i, l') → k ≡ i
      index q = cc q

  place_lem :
      (s : SeekTuple) (k : Option ℕ)
      → objection h p s ≡ none
      → place h p now s l k ≡ (plays i, l')
      → Answers h p s l i × (l' ≡ l)
  unfolding place
  place_lem s none e q =
      let (m, f, same_list) = answer_or_post_lem s (seekmatch h.judges s l) q in
      ((e, m, f), same_list)
  place_lem s (some k) e q = absurd (update-other s k (get_elem? l k) q)

  objection-other : (s : SeekTuple) → objection h p s ≢ some (plays i)
  unfolding objection
  objection-other s e = ground arith

  offer_or_lem :
      (s : SeekTuple) (r : Option Sought)
      → objection h p s ≡ r
      → offer_or h p now s l r ≡ (plays i, l')
      → Answers h p s l i × (l' ≡ l)
  unfolding offer_or
  offer_or_lem s (some why) e q = absurd (objection-other s (e ∙ ap some (cc q)))
  offer_or_lem s none e q = place_lem s (seekisduplet s l) e q

  seek_tuple_lem :
      (r : Option SeekTuple)
      → seek_tuple h p now l r ≡ (plays i, l')
      → (s : SeekTuple) × Answers h p (complete h p s) l i × (l' ≡ l)
  unfolding seek_tuple
  seek_tuple_lem none e = cc e
  seek_tuple_lem (some s) e =
      let (a, q) = offer_or_lem (complete h p s) (objection h p (complete h p s)) refl e in
      (s, a, q)

  pub com_seek_lem :
      (words : List (List ℕ))
      → com_seek h p now words l ≡ (plays i, l')
      → (s : SeekTuple) × Answers h p (complete h p s) l i
        × (l' ≡ l)
        × (has_game (h.game p) ≡ false)
  unfolding com_seek
  com_seek_lem words e =
      let (few, e1) =
        else_taken (seekcount p l == max_player_seek) (too_many, l) _ (plays i, l') (λ q. cc q) e in
      let (idle, e2) =
        else_taken (has_game (h.game p)) (is_busy, l) _ (plays i, l') (λ q. cc q) e1 in
      let (s, a, q) = seek_tuple_lem (seek_words h.system words seekclear) e2 in (s, a, q, idle)
