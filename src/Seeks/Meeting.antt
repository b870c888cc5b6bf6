-- ===== src/Seeks/Meeting.antt =====
-- src/seekproc.c: an ad that `seek` answers at once, through `play`.
use docker_chessd.Prelude.{
  ℕ, ◌≡◌, refl, sym, ap, subst, ◌∙◌, true, false, ◌&&◌, not, ◌==◌, if◌then◌else◌, Option, none,
  some, List, get_elem?, arith, ==_iff, and-true_parts, not-true,
}
use docker_chessd.Prelude.Int.{pos}
use docker_chessd.Prelude.Text.{same_text}
use docker_chessd.Formula.Eval.{
  GameType, type_untimed, type_blitz, type_stand, type_nonstandard, type_wild, type_light,
  type_bughouse,
}
use docker_chessd.Seeks.{SeekTuple, number_of, same, at_most, is_set, seekremoveall}
use docker_chessd.Seeks.Matching.{
  Judges, colors_fit, terms_of, own_formula_allows, meets, seekmatch,
}
use docker_chessd.Seeks.Kinds.{get_rating}
use docker_chessd.Seeks.Commands.{
  House, has_game, is_active, plays, are_friendly, friendly_of, friendly_ad, complete, objection,
  com_seek,
}
use docker_chessd.Seeks.Answers.{
  by_index, started, refusal, start_or, play_ad, play_of, play_at, com_play,
}
use docker_chessd.Seeks.Table.{same_iff, find_index-some}
use docker_chessd.Seeks.Orderly.{==_sym}
use docker_chessd.Seeks.Answered.{Answers, com_seek_lem}

number_of-inj : (a b : GameType) → (number_of a == number_of b) ≡ true → a ≡ b
number_of-inj a b h = sym (back a) ∙ ap kind_of ((==_iff (number_of a) (number_of b)).0 h) ∙ back b
  where
    kind_of : ℕ → GameType
    kind_of n =
        if n == 0
        then type_untimed
        else if n == 1
        then type_blitz
        else if n == 2
        then type_stand
        else if n == 3
        then type_nonstandard
        else if n == 4
        then type_wild
        else if n == 5
        then type_light
        else type_bughouse

    back : (k : GameType) → kind_of (number_of k) ≡ k
    back type_untimed = refl
    back type_blitz = refl
    back type_stand = refl
    back type_nonstandard = refl
    back type_wild = refl
    back type_light = refl
    back type_bughouse = refl

objection-rated :
    (h : House) (p : ℕ) (s : SeekTuple)
    → objection h p s ≡ none
    → (is_set s.rated && not (h.registered p)) ≡ false
unfolding objection
objection-rated h p s e = ground arith

-- What a match of the new ad `s2` with `s1` says.
meets_parts :
    (j : Judges) (s2 s1 : SeekTuple)
    → meets j s2 s1 ≡ true
    → (same s1.player s2.player ≡ false)
      × (s1.time ≡ s2.time)
      × (s1.inc ≡ s2.inc)
      × (s1.rated ≡ s2.rated)
      × (s1.kind ≡ s2.kind)
      × (at_most s1.min_rating s2.ownrating ≡ true)
      × (at_most s2.ownrating s1.max_rating ≡ true)
      × (own_formula_allows j s1 s2.player s1.player (terms_of s2 s1 s1) ≡ true)
unfolding meets
meets_parts j s2 s1 m =
    let (a, m1) = and-true_parts (not (same s1.player s2.player)) _ m in
    let (b, m2) = and-true_parts _ _ m1 in
    let (c, m3) = and-true_parts _ _ m2 in
    let (d, m4) = and-true_parts _ _ m3 in
    let (e, m5) = and-true_parts _ _ m4 in
    let (f, m6) = and-true_parts (colors_fit s1.color s2.color) _ m5 in
    let (g, m7) = and-true_parts (at_most s2.min_rating s1.ownrating) _ m6 in
    let (k, m8) = and-true_parts (at_most s1.ownrating s2.max_rating) _ m7 in
    let (n, m9) = and-true_parts _ _ m8 in
    let (q, m10) = and-true_parts _ _ m9 in
    let (r, m11) = and-true_parts (same_text s1.category s2.category) _ m10 in
    let (t, m12) = and-true_parts (same_text s1.board s2.board) _ m11 in
    (
      not-true _ a,
      same_iff _ _ b,
      same_iff _ _ c,
      same_iff _ _ d,
      number_of-inj _ _ e,
      n,
      q,
      (and-true_parts (own_formula_allows j s1 s2.player s1.player (terms_of s2 s1 s1)) _ m12).0,
    )

own_formula_lem :
    (h : House) (p p1 : ℕ) (s x : SeekTuple)
    → x.player ≡ some p1
    → s.player ≡ some p
    → x.time ≡ s.time
    → x.inc ≡ s.inc
    → own_formula_allows h.judges x s.player x.player (terms_of s x x) ≡ true
    → own_formula_allows h.judges x (some p) (some p1) (terms_of x x x) ≡ true
unfolding own_formula_allows
own_formula_lem h p p1 s x owner mine t n e = rw (owner, mine, sym t, sym n) at e

-- What `play` tests, from a match of the tuple `s` that `seek` made with an ad `x` of `p1`.
meets-refusal :
    (h : House) (p p1 : ℕ) (s x : SeekTuple)
    → x.player ≡ some p1
    → s.player ≡ some p
    → s.ownrating ≡ some (get_rating (h.stats p) s.kind)
    → has_game (h.game p) ≡ false
    → is_active (h.game p1) ≡ false
    → h.adjourned p p1 ≡ false
    → h.adjourned p1 p ≡ false
    → objection h p s ≡ none
    → meets h.judges s x ≡ true
    → are_friendly h p p1 ≡ true
    → refusal h p p1 x ≡ none
unfolding refusal
meets-refusal h p p1 s x owner mine own idle free ad1 ad2 fine m f =
    let (ne, t, n, r, k, low, high, form) = meets_parts h.judges s x m in
    let rating = own ∙ ap (λ (g : GameType). some (get_rating (h.stats p) g)) (sym k) in
    let other = subst (λ (a : Option ℕ). same a s.player ≡ false) owner ne in
    let me = subst (λ (a : Option ℕ). same (some p1) a ≡ false) mine other in
    let range1 = subst (λ (a : Option ℕ). at_most x.min_rating a ≡ true) rating low in
    let range2 = subst (λ (a : Option ℕ). at_most a x.max_rating ≡ true) rating high in
    let (c1, f1) = and-true_parts (not (h.censored p p1)) _ f in
    let (c2, f2) = and-true_parts (not (h.censored p1 p)) _ f1 in
    let (n1, f3) = and-true_parts (not (h.noplay p1 p)) _ f2 in
    let (n2, f4) = and-true_parts (not (h.noplay p p1)) _ f3 in
    let rights =
      subst (λ (a : Option ℕ). (is_set a && not (h.registered p)) ≡ false) (sym r)
        (objection-rated h p s fine) in
    let formula : own_formula_allows h.judges x (some p) (some p1) (terms_of x x x) ≡ true =
      own_formula_lem h p p1 s x owner mine t n form in
    rw
      (
        ==_sym p p1 ∙ me,
        idle,
        free,
        ad1,
        ad2,
        not-true _ n1,
        not-true _ n2,
        not-true _ c2,
        not-true _ c1,
        rights,
        range1,
        range2,
        formula,
      )
      refl

-- What `seek` finds at the index is an ad that the new one meets, and its player is a friend.
found_ad :
    (h : House) (p p1 i : ℕ) (s x : SeekTuple) (l : List SeekTuple)
    → get_elem? l i ≡ some x
    → x.player ≡ some p1
    → Answers h p s l i
    → (meets h.judges s x ≡ true) × (are_friendly h p p1 ≡ true)
unfolding seekmatch
found_ad h p p1 i s x l g owner (fine, m, f) =
    let (y, g', e) = find_index-some (meets h.judges s) l i m in
    let f' = subst (λ (o : Option SeekTuple). friendly_ad h p o ≡ true) g f in
    (
      subst (λ (z : SeekTuple). meets h.judges s z ≡ true) {x = y} {y = x} (cc (g, g')) e,
      subst (λ (o : Option ℕ). friendly_of h p o ≡ true) owner f',
    )

-- Where `seek` answers an ad of `p1` that it finds at an index, nothing has changed and the `play` that
-- follows starts the game of that ad and takes away the ads of both players, unless `p1` is in a game
-- or there is an adjourned game between the two: none of the other tests of `play` refuses, also where
-- `p` has the account of a computer.
pub com_seek-plays :
    (h : House) (p p1 now i : ℕ) (words : List (List ℕ)) (x : SeekTuple) (l l' : List SeekTuple)
    → com_seek h p now words l ≡ (plays i, l')
    → get_elem? l i ≡ some x
    → x.player ≡ some p1
    → is_active (h.game p1) ≡ false
    → h.adjourned p p1 ≡ false
    → h.adjourned p1 p ≡ false
    → (l' ≡ l)
      × (com_play h p now (by_index (pos i)) l'
          ≡ (started p1 x, seekremoveall p1 now (seekremoveall p now l)))
unfolding com_play play_ad complete
com_seek-plays h p p1 now i words x l l' e g owner free ad1 ad2 =
    let (s, a, same_list, idle) = com_seek_lem h p now l l' i words e in
    let (m, f) = found_ad h p p1 i (complete h p s) x l g owner a in
    let r = meets-refusal h p p1 (complete h p s) x owner refl refl idle free ad1 ad2 a.0 m f in
    (
      same_list,
      subst
          (λ (m : List SeekTuple).
            com_play h p now (by_index (pos i)) m
            ≡ (started p1 x, seekremoveall p1 now (seekremoveall p now l)))
          (sym same_list)
          (ap (play_at h p now l) g
            ∙ ap (play_of h p now x l) owner
            ∙ ap (start_or p p1 now x l) r),
    )
