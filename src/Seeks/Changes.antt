-- ===== src/Seeks/Changes.antt =====
-- src/seekproc.c: the changes of entries of `seekList`, and its order.
use docker_chessd.Prelude.{
  ℕ, zero, suc, ◌+◌, ◌≡◌, ◌≢◌, ◌≤◌, refl, sym, ap, ◌∙◌, subst, inl, inr, Bool, true, false, ◌==◌,
  Option, none, some, List, [], ◌∷◌, map, length, set_elem, count_if, find_index, get_elem?, arith,
  Bool-cases,
}
use docker_chessd.Seeks.{
  SeekTuple, max_seek, max_player_seek, seekclear, cleared, is_of, seekcount, is_duplet,
  seekisduplet, is_free, put_at, seekadd, remove_of, seekremoveall, copies, seekinit,
}
use docker_chessd.Seeks.Table.{
  same_iff, find_index-some, find_index-none, get_elem?-set_elem, get_elem?-map, count_if-set_elem,
  seekcount-seekremoveall-le,
}
use docker_chessd.Seeks.Orderly.{IsPosted, IsEntry, IsOrderly, is_duplet-player, IsApart-set_elem}

length-set_elem : (i : ℕ) (s : SeekTuple) (l : List SeekTuple) → length (set_elem i s l) ≡ length l
length-set_elem i s [] = refl
length-set_elem zero s (x ∷ l) = refl
length-set_elem (suc i) s (x ∷ l) = ap suc (length-set_elem i s l)

length-map : (f : SeekTuple → SeekTuple) (l : List SeekTuple) → length (map f l) ≡ length l
length-map f [] = refl
length-map f (x ∷ l) = ap suc (length-map f l)

-- An entry is replaced by one in order.
IsOrderly-set_elem :
    (i : ℕ) (x s : SeekTuple) (l : List SeekTuple)
    → get_elem? l i ≡ some x
    → IsEntry s
    → ((p : ℕ)
        → is_of p s ≡ true
        → seekcount p l + 1 ≤ max_player_seek + count_if (is_of p) (x ∷ []))
    → ((k : ℕ) (z : SeekTuple)
        → i ≢ k
        → get_elem? l k ≡ some z
        → s.player ≢ none
        → is_duplet s z ≡ false)
    → IsOrderly l
    → IsOrderly (set_elem i s l)
IsOrderly-set_elem i x s l g ok room new (size, few, apart, entries) = (
  length-set_elem i s l ∙ size,
  (λ p. elim (Bool-cases (is_of p s)) [
    | inl e ↦ ground (arith, room p e, count_if-set_elem (is_of p) i x s l g)
    | inr e ↦ ground (arith, few p, count_if-set_elem (is_of p) i x s l g)
  ]),
  IsApart-set_elem i s l apart new,
  (λ j y h. elim (get_elem?-set_elem i s l j y h) [
    | inl e ↦ subst IsEntry (sym e.1) ok
    | inr e ↦ entries j y e.1
  ]),
)

-- An ad in a free place.
pub IsOrderly-seekadd :
    (now p : ℕ) (s : SeekTuple) (l l' : List SeekTuple) (i : ℕ)
    → seekadd now s l ≡ some (i, l')
    → IsPosted s
    → s.player ≡ some p
    → (seekcount p l == max_player_seek) ≡ false
    → seekisduplet s l ≡ none
    → IsOrderly l
    → IsOrderly l'
IsOrderly-seekadd now p s l l' i h ok owner few none_same o = at (find_index (is_free now) l) refl h
  where
    at :
        (r : Option ℕ) → find_index (is_free now) l ≡ r → put_at r s l ≡ some (i, l') → IsOrderly l'
    at none e q = cc
    at (some j) e q =
        let (x, g, free) = find_index-some (is_free now) l j e in
        subst IsOrderly (cc q) (
          IsOrderly-set_elem j x s l g (inr ok)
            (λ q e. ground (arith, o.1 q, same_iff s.player (some q) e, owner, few))
            (λ k z ne h posted. find_index-none (is_duplet s) l none_same k z h) o)

-- The formula of an ad is switched.
pub IsOrderly-formula :
    (i : ℕ) (f : Option ℕ) (x : SeekTuple) (l : List SeekTuple)
    → get_elem? l i ≡ some x
    → IsOrderly l
    → IsOrderly (set_elem i (record x { formula = f }) l)
unfolding is_duplet
IsOrderly-formula i f x l g o =
    IsOrderly-set_elem i x (record x { formula = f }) l g (o.3 i x g)
      (λ p e. ground (arith, o.1 p, e))
      (λ k z ne h posted. elim (Bool-cases (is_duplet x z)) [
        | inl e ↦ absurd (ne (o.2 i k x z g h posted e))
        | inr e ↦ e
      ])
      o

-- The end of one ad.
pub IsOrderly-cleared :
    (i now : ℕ) (x : SeekTuple) (l : List SeekTuple)
    → get_elem? l i ≡ some x
    → IsOrderly l
    → IsOrderly (set_elem i (cleared now) l)
IsOrderly-cleared i now x l g o =
    IsOrderly-set_elem i x (cleared now) l g (inl (refl, refl)) (λ p e. cc e)
      (λ k z ne h posted. absurd (posted refl)) o

-- The end of a player's ads.
pub IsOrderly-seekremoveall :
    (p now : ℕ) (l : List SeekTuple) → IsOrderly l → IsOrderly (seekremoveall p now l)
IsOrderly-seekremoveall p now l (size, few, apart, entries) = (
  length-map (remove_of p now) l ∙ size,
  (λ q. ground (arith, few q, seekcount-seekremoveall-le p q now l)),
  (λ i j x y gx gy posted d.
      let (u, gu, eu) = get_elem?-map (remove_of p now) l i x gx in
      let (v, gv, ev) = get_elem?-map (remove_of p now) l j y gy in
      let ku = kept x u eu posted in
      let kv = kept y v ev (λ q. posted (sym (is_duplet-player x y d) ∙ q)) in
      apart i j x y (gu ∙ ap some (sym ku)) (gv ∙ ap some (sym kv)) posted d),
  (λ i x h.
      let (y, g, e) = get_elem?-map (remove_of p now) l i x h in
      subst IsEntry (sym e) (stays y (entries i y g))),
)
  where
    kept : (y x : SeekTuple) → y ≡ remove_of p now x → y.player ≢ none → y ≡ x
    kept y x e posted = elim (Bool-cases (is_of p x)) [
      | inl t ↦ absurd (posted (ap SeekTuple.player (rw t at e)))
      | inr t ↦ rw t at e
    ]

    stays : (y : SeekTuple) → IsEntry y → IsEntry (remove_of p now y)
    stays y k = elim (Bool-cases (is_of p y)) [ inl e ↦ rw e (inl (refl, refl)) | inr e ↦ rw e k ]

length-copies : (n : ℕ) (s : SeekTuple) → length (copies n s) ≡ n
length-copies zero s = refl
length-copies (suc n) s = ap suc (length-copies n s)

count_if-copies :
    (t : SeekTuple → Bool) (n : ℕ) (s : SeekTuple) → t s ≡ false → count_if t (copies n s) ≡ 0
count_if-copies t zero s e = refl
count_if-copies t (suc n) s e = rw e (count_if-copies t n s e)

get_elem?-copies :
    (n : ℕ) (s : SeekTuple) (i : ℕ) (x : SeekTuple) → get_elem? (copies n s) i ≡ some x → x ≡ s
get_elem?-copies zero s i x h = cc
get_elem?-copies (suc n) s zero x h = cc
get_elem?-copies (suc n) s (suc i) x h = get_elem?-copies n s i x h

pub seekinit-IsOrderly : IsOrderly seekinit
unfolding seekinit
seekinit-IsOrderly = (
  length-copies max_seek seekclear,
  (λ p. ground (arith, count_if-copies (is_of p) max_seek seekclear refl)),
  (λ i j x y gx gy posted d.
      absurd (posted (ap SeekTuple.player (get_elem?-copies max_seek seekclear i x gx)))),
  (λ i x g. subst IsEntry (sym (get_elem?-copies max_seek seekclear i x g)) (inl (refl, refl))),
)
