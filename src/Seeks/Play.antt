-- ===== src/Seeks/Play.antt =====
-- src/seekproc.c: the games that `play` starts.
use docker_chessd.Prelude.{
  ℕ, ltb, ◌≡◌, ◌≢◌, refl, sym, ap, ◌∙◌, ◌⊎◌, Bool, true, false, ◌&&◌, ◌||◌, not, ◌==◌,
  if◌then◌else◌, Option, none, some, List, get_elem?, arith, else_taken,
}
use docker_chessd.Prelude.Int.{pos, negsuc}
use docker_chessd.Seeks.{SeekTuple, same, is_set, seekcount, seekfind, seekremoveall}
use docker_chessd.Seeks.Matching.{terms_of, formula_allows, own_formula_allows}
use docker_chessd.Seeks.Commands.{House, has_game, is_active}
use docker_chessd.Seeks.Answers.{
  Target, by_name, by_index, Played, not_seeking, own_ad, busy, bug_detected, adjourned_game,
  on_noplay, has_on_noplay, censored_by, censoring, unrated_only, rating_refused, formula_refused,
  seeks_several, started, in_ad_range, refusal, start_or, play_ad, play_of, play_at, play_found,
  com_play,
}
use docker_chessd.Seeks.Table.{
  seekcount-seekremoveall, seekcount-seekremoveall_other, seekcount-seekremoveall-le,
}

-- A game between `p` and `p1` that an entry of the list lets start.
abbrev Starts : House → ℕ → ℕ → SeekTuple → List SeekTuple → Type 0
Starts h p p1 s l =
    ((i : ℕ) × (get_elem? l i ≡ some s)) × (s.player ≡ some p1) × (refusal h p p1 s ≡ none)

refusal-started : (h : House) (p p1 q : ℕ) (s x : SeekTuple) → refusal h p p1 s ≢ some (started q x)
unfolding refusal
refusal-started h p p1 q s x e = ground arith

module _ (h : House) (p now p1 : ℕ) (s : SeekTuple) (l l' : List SeekTuple) where
  abbrev Ends : Type 0
  Ends = l' ≡ seekremoveall p1 now (seekremoveall p now l)

  start_or_lem :
      (i q : ℕ) (x : SeekTuple) (r : Option Played)
      → get_elem? l i ≡ some x
      → x.player ≡ some q
      → refusal h p q x ≡ r
      → start_or p q now x l r ≡ (started p1 s, l')
      → Starts h p p1 s l × Ends
  start_or_lem i q x (some why) g owner e h' =
      absurd (refusal-started h p q p1 x s (e ∙ ap some (cc h')))
  start_or_lem i q x none g owner e h' =
      let a : q ≡ p1 = cc h' in
      let b : x ≡ s = cc h' in
      let c : l' ≡ seekremoveall q now (seekremoveall p now l) = cc h' in
      (
        (
          (i, g ∙ ap some b),
          ap SeekTuple.player (sym b) ∙ owner ∙ ap some a,
          ap (λ (z : ℕ). refusal h p z s) (sym a) ∙ ap (refusal h p q) (sym b) ∙ e,
        ),
        c ∙ ap (λ (z : ℕ). seekremoveall z now (seekremoveall p now l)) a,
      )

  play_of_lem :
      (i : ℕ) (x : SeekTuple) (q : Option ℕ)
      → get_elem? l i ≡ some x
      → x.player ≡ q
      → play_of h p now x l q ≡ (started p1 s, l')
      → Starts h p p1 s l × Ends
  unfolding play_ad
  play_of_lem i x none g owner e = cc e
  play_of_lem i x (some q) g owner e = start_or_lem i q x (refusal h p q x) g owner refl e

  play_at_lem :
      (i : ℕ) (x : Option SeekTuple)
      → get_elem? l i ≡ x
      → play_at h p now l x ≡ (started p1 s, l')
      → Starts h p p1 s l × Ends
  play_at_lem i none g e = cc e
  play_at_lem i (some x) g e = play_of_lem i x x.player g refl e

  play_found_lem :
      (i : Option ℕ) → play_found h p now l i ≡ (started p1 s, l') → Starts h p p1 s l × Ends
  play_found_lem none e = cc e
  play_found_lem (some i) e = play_at_lem i (get_elem? l i) refl e

  com_play_lem :
      (target : Target) → com_play h p now target l ≡ (started p1 s, l') → Starts h p p1 s l × Ends
  unfolding com_play
  com_play_lem (by_name none) e = cc e
  com_play_lem (by_name (some q)) e =
      let (a, e1) =
        else_taken (seekcount q l == 0) (not_seeking, l) _ (started p1 s, l') (λ k. cc k) e in
      let (b, e2) =
        else_taken (ltb 1 (seekcount q l)) (seeks_several, l) _ (started p1 s, l') (λ k. cc k) e1 in
      play_found_lem (seekfind q l) e2
  com_play_lem (by_index (pos i)) e = play_at_lem i (get_elem? l i) refl e
  com_play_lem (by_index (negsuc i)) e = cc e

-- What the tests of `play` have found.
abbrev pub IsFit : House → ℕ → ℕ → SeekTuple → Type 0
IsFit h p p1 s =
    (p ≢ p1)
    × (has_game (h.game p) ≡ false)
    × (is_active (h.game p1) ≡ false)
    × (h.adjourned p p1 ≡ false)
    × (h.adjourned p1 p ≡ false)
    × (h.noplay p1 p ≡ false)
    × (h.noplay p p1 ≡ false)
    × (h.censored p1 p ≡ false)
    × (h.censored p p1 ≡ false)
    × ((is_set s.rated && not (h.registered p)) ≡ false)
    × (in_ad_range h p s ≡ true)
    × ((same s.formula (some 1) ≡ false) ⊎ (formula_allows h.judges p p1 (terms_of s s s) ≡ true))

passed :
    (b : Bool) (why : Played) {r : Option Played}
    → (if b then some why else r) ≡ none
    → (b ≡ false) × (r ≡ none)
passed b why {r} e = else_taken b (some why) r none (λ q. cc q) e

refusal-IsFit : (h : House) (p p1 : ℕ) (s : SeekTuple) → refusal h p p1 s ≡ none → IsFit h p p1 s
unfolding refusal own_formula_allows
refusal-IsFit h p p1 s e =
    let (a, e1) = passed (p == p1) own_ad e in
    let (b, e2) = passed (has_game (h.game p)) busy e1 in
    let (c, e3) = passed (is_active (h.game p1)) bug_detected e2 in
    let (d, e4) = passed (h.adjourned p p1 || h.adjourned p1 p) adjourned_game e3 in
    let (f, e5) = passed (h.noplay p1 p) on_noplay e4 in
    let (g, e6) = passed (h.noplay p p1) has_on_noplay e5 in
    let (i, e7) = passed (h.censored p1 p) censored_by e6 in
    let (j, e8) = passed (h.censored p p1) censoring e7 in
    let (k, e9) = passed (is_set s.rated && not (h.registered p)) unrated_only e8 in
    let (m, e10) = passed (not (in_ad_range h p s)) rating_refused e9 in
    let (n, e11) =
      passed (not (own_formula_allows h.judges s (some p) (some p1) (terms_of s s s)))
        formula_refused {r = none} e10 in
    (
      (λ q. ground (arith, a, q)),
      b,
      c,
      ground (arith, d),
      ground (arith, d),
      f,
      g,
      i,
      j,
      k,
      ground (arith, m),
      ground (arith, n),
    )

-- Where `play` starts a game for `p` with an ad of `p1`, by a name or a number, the ad is one of the
-- list and not of `p`; `p` is in no game and `p1` in no active one, none is adjourned between them, no
-- list of either names the other, `p` is registered if the game is rated, the rating of `p` is in the
-- range of the ad, and the formula of `p1` allows the game if the ad asks for it. After it neither of
-- the two has an ad, and every other player has as many as before.
pub com_play-IsFit :
    (h : House) (p now p1 q : ℕ) (target : Target) (s : SeekTuple) (l l' : List SeekTuple)
    → com_play h p now target l ≡ (started p1 s, l')
    → q ≢ p
    → q ≢ p1
    → ((i : ℕ) × (get_elem? l i ≡ some s))
      × (s.player ≡ some p1)
      × IsFit h p p1 s
      × (seekcount p l' ≡ 0)
      × (seekcount p1 l' ≡ 0)
      × (seekcount q l' ≡ seekcount q l)
com_play-IsFit h p now p1 q target s l l' e np np1 =
    let ((at, owner, fit), ends) = com_play_lem h p now p1 s l l' target e in
    let l1 = seekremoveall p now l in
    (
      at,
      owner,
      refusal-IsFit h p p1 s fit,
      rw ends
          (ground (arith, seekcount-seekremoveall-le p1 p now l1, seekcount-seekremoveall p now l)),
      rw ends (seekcount-seekremoveall p1 now l1),
      rw ends (
          seekcount-seekremoveall_other p1 q now l1 np1
          ∙ seekcount-seekremoveall_other p q now l np),
    )
