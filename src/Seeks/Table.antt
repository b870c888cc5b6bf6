-- ===== src/Seeks/Table.antt =====
-- src/seekproc.c: the loops over `seekList`, and what the changes of an entry do to the number of ads.
use docker_chessd.Prelude.{
  ℕ, zero, suc, ◌+◌, ◌≡◌, ◌≢◌, ◌≤◌, refl, sym, ap, ◌⊎◌, inl, inr, Bool, true, false, Option, none,
  some, List, [], ◌∷◌, map, map_suc, find_index, set_elem, count_if, get_elem?, arith, Bool-cases,
  ==_iff,
}
use docker_chessd.Seeks.{SeekTuple, same, is_of, seekcount, remove_of, seekremoveall}

pub same_iff : (a b : Option ℕ) → (same a b ≡ true) → a ≡ b
same_iff none none h = refl
same_iff none (some b) h = cc
same_iff (some a) none h = cc
same_iff (some a) (some b) h = ap some ((==_iff a b).0 h)

pub same_refl : (a : Option ℕ) → same a a ≡ true
same_refl none = refl
same_refl (some a) = ground arith

pub same_sym : (a b : Option ℕ) → same a b ≡ same b a
same_sym none none = refl
same_sym none (some b) = refl
same_sym (some a) none = refl
same_sym (some a) (some b) = ground arith

module _ {A : Type 0} where
  pub find_index-some :
      (t : A → Bool) (l : List A) (i : ℕ)
      → find_index t l ≡ some i
      → (x : A) × (get_elem? l i ≡ some x) × (t x ≡ true)
  find_index-some t [] i h = cc
  find_index-some t (x ∷ l) i h = elim (Bool-cases (t x)) [
    | inl e ↦ at_head i e (rw (e, find_index) at h)
    | inr e ↦ further i (find_index t l) (find_index-some t l) (rw (e, find_index) at h)
  ]
    where
      at_head :
          (i : ℕ)
          → t x ≡ true
          → some 0 ≡ some i
          → (y : A) × (get_elem? (x ∷ l) i ≡ some y) × (t y ≡ true)
      at_head zero e q = (x, refl, e)
      at_head (suc i) e q = cc

      further :
          (i : ℕ) (o : Option ℕ)
          → ((j : ℕ) → o ≡ some j → (y : A) × (get_elem? l j ≡ some y) × (t y ≡ true))
          → map_suc o ≡ some i
          → (y : A) × (get_elem? (x ∷ l) i ≡ some y) × (t y ≡ true)
      further i none ih q = cc
      further zero (some j) ih q = cc
      further (suc i) (some j) ih q = ih i (cc)

  pub find_index-none :
      (t : A → Bool) (l : List A)
      → find_index t l ≡ none
      → (i : ℕ) (x : A) → get_elem? l i ≡ some x
      → t x ≡ false
  find_index-none t [] h i x g = cc
  find_index-none t (y ∷ l) h i x g = elim (Bool-cases (t y)) [
    | inl e ↦ let q = rw (e, find_index) at h in cc q
    | inr e ↦ later (find_index t l) (find_index-none t l) (rw (e, find_index) at h) i e g
  ]
    where
      later :
          (o : Option ℕ)
          → (o ≡ none → (i : ℕ) (x : A) → get_elem? l i ≡ some x → t x ≡ false)
          → map_suc o ≡ none
          → (i : ℕ) → t y ≡ false
          → get_elem? (y ∷ l) i ≡ some x
          → t x ≡ false
      later (some j) ih q i f g = cc
      later none ih q zero f g = cc
      later none ih q (suc i) f g = ih refl i x g

  pub find_index-found :
      (t : A → Bool) (l : List A) (i : ℕ) (x : A)
      → get_elem? l i ≡ some x
      → t x ≡ true
      → find_index t l ≢ none
  find_index-found t l i x g h q = cc (find_index-none t l q i x g)

  -- An entry after an assignment.
  pub get_elem?-set_elem :
      (i : ℕ) (y : A) (l : List A) (j : ℕ) (x : A)
      → get_elem? (set_elem i y l) j ≡ some x
      → ((i ≡ j) × (x ≡ y)) ⊎ ((i ≢ j) × (get_elem? l j ≡ some x))
  get_elem?-set_elem i y [] j x h = cc
  get_elem?-set_elem zero y (z ∷ l) zero x h = inl (refl, cc)
  get_elem?-set_elem zero y (z ∷ l) (suc j) x h = inr (λ q. cc q, h)
  get_elem?-set_elem (suc i) y (z ∷ l) zero x h = inr (λ q. cc q, h)
  get_elem?-set_elem (suc i) y (z ∷ l) (suc j) x h = elim (get_elem?-set_elem i y l j x h) [
    | inl e ↦ inl (ap suc e.0, e.1)
    | inr e ↦ inr (λ q. e.0 (omega (arith, q)), e.1)
  ]

  pub get_elem?-map :
      (f : A → A) (l : List A) (j : ℕ) (x : A)
      → get_elem? (map f l) j ≡ some x
      → (y : A) × (get_elem? l j ≡ some y) × (x ≡ f y)
  get_elem?-map f [] j x h = cc
  get_elem?-map f (z ∷ l) zero x h = (z, refl, cc)
  get_elem?-map f (z ∷ l) (suc j) x h = get_elem?-map f l j x h

  pub map-get_elem? :
      (f : A → A) (l : List A) (j : ℕ) (y : A)
      → get_elem? l j ≡ some y
      → get_elem? (map f l) j ≡ some (f y)
  map-get_elem? f [] j y h = cc
  map-get_elem? f (z ∷ l) zero y h = cc
  map-get_elem? f (z ∷ l) (suc j) y h = map-get_elem? f l j y h

  pub set_elem-get_elem? :
      (i : ℕ) (x y : A) (l : List A)
      → get_elem? l i ≡ some x
      → get_elem? (set_elem i y l) i ≡ some y
  set_elem-get_elem? i x y [] h = cc
  set_elem-get_elem? zero x y (z ∷ l) h = refl
  set_elem-get_elem? (suc i) x y (z ∷ l) h = set_elem-get_elem? i x y l h

  pub count_if-found :
      (t : A → Bool) (l : List A)
      → count_if t l ≢ 0
      → (i : ℕ) × (x : A) × (get_elem? l i ≡ some x) × (t x ≡ true)
  count_if-found t [] h = absurd (h refl)
  count_if-found t (x ∷ l) h = elim (Bool-cases (t x)) [
    | inl e ↦ (0, x, refl, e)
    | inr e ↦ let (i, y, g, k) = count_if-found t l (rw (e, count_if) at h) in (suc i, y, g, k)
  ]

  -- An assignment moves a count by what the old and the new entry contribute.
  pub count_if-set_elem :
      (t : A → Bool) (i : ℕ) (x y : A) (l : List A)
      → get_elem? l i ≡ some x
      → count_if t (set_elem i y l) + count_if t (x ∷ []) ≡ count_if t l + count_if t (y ∷ [])
  count_if-set_elem t i x y [] h = cc
  count_if-set_elem t zero x y (z ∷ l) h = ground arith
  count_if-set_elem t (suc i) x y (z ∷ l) h = ground (arith, count_if-set_elem t i x y l h)

  pub count_if-map-le :
      (t : A → Bool) (f : A → A) (l : List A)
      → ((x : A) → t (f x) ≡ true → t x ≡ true)
      → count_if t (map f l) ≤ count_if t l
  count_if-map-le t f [] h = omega arith
  count_if-map-le t f (x ∷ l) h = ground (arith, count_if-map-le t f l h, h x)

  pub count_if-map-eq :
      (t : A → Bool) (f : A → A) (l : List A)
      → ((x : A) → t (f x) ≡ t x)
      → count_if t (map f l) ≡ count_if t l
  count_if-map-eq t f [] h = refl
  count_if-map-eq t f (x ∷ l) h = ground (arith, count_if-map-eq t f l h, h x)

  pub count_if-zero : (t : A → Bool) (l : List A) → ((x : A) → t x ≡ false) → count_if t l ≡ 0
  count_if-zero t [] h = refl
  count_if-zero t (x ∷ l) h = ground (arith, count_if-zero t l h, h x)

  pub count_if-map-zero :
      (t : A → Bool) (f : A → A) (l : List A)
      → ((x : A) → t (f x) ≡ false)
      → count_if t (map f l) ≡ 0
  count_if-map-zero t f [] h = refl
  count_if-map-zero t f (x ∷ l) h = ground (arith, count_if-map-zero t f l h, h x)

-- `seekremoveall` takes the ads of one player and no others.
pub seekcount-seekremoveall :
    (p now : ℕ) (l : List SeekTuple) → seekcount p (seekremoveall p now l) ≡ 0
seekcount-seekremoveall p now l = count_if-map-zero (is_of p) (remove_of p now) l (λ x. gone x)
  where
    gone : (x : SeekTuple) → is_of p (remove_of p now x) ≡ false
    gone x = elim (Bool-cases (is_of p x)) [ inl e ↦ rw e refl | inr e ↦ rw e e ]

pub seekcount-seekremoveall_other :
    (p q now : ℕ) (l : List SeekTuple) → q ≢ p → seekcount q (seekremoveall p now l) ≡ seekcount q l
seekcount-seekremoveall_other p q now l ne = count_if-map-eq (is_of q) (remove_of p now) l kept
  where
    not_of : (x : SeekTuple) → is_of p x ≡ true → is_of q x ≡ false
    not_of x e = ground (arith, same_iff x.player (some p) e)

    kept : (x : SeekTuple) → is_of q (remove_of p now x) ≡ is_of q x
    kept x = elim (Bool-cases (is_of p x)) [ inl e ↦ rw e (sym (not_of x e)) | inr e ↦ rw e refl ]

pub seekcount-seekremoveall-le :
    (p q now : ℕ) (l : List SeekTuple) → seekcount q (seekremoveall p now l) ≤ seekcount q l
seekcount-seekremoveall-le p q now l = count_if-map-le (is_of q) (remove_of p now) l was
  where
    was : (x : SeekTuple) → is_of q (remove_of p now x) ≡ true → is_of q x ≡ true
    was x h = elim (Bool-cases (is_of p x)) [ inl e ↦ cc (rw e at h) | inr e ↦ rw e at h ]
