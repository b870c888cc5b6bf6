-- ===== src/Prelude/Lists.antt =====
-- Lists measured by native numbers, Boolean search through a list, and a membership that is a
-- type of positions.
use Prim.Native.Nat.{ℕ, zero, suc, ◌+◌, ◌≤◌}
use mathlib.Core.Path.{◌≡◌, refl, sym, ap, ◌∙◌}
use mathlib.Core.Logic.{◌↔◌, ◌⊎◌, inl, inr}
use mathlib.Core.Bool.{Bool, true, false}
use mathlib.Core.List.{List, [], ◌∷◌, ◌++◌}
use mathlib.Core.Option.{Option, none, some}
use native.Mathlib.Omega.{arith}
use docker_chessd.Prelude.Tests.{if◌then◌else◌, Bool-cases}

abbrev pub map_suc : Option ℕ → Option ℕ
map_suc none = none
map_suc (some i) = some (suc i)

module _ {ℓ} {A : Type ℓ} where
  abbrev pub length : List A → ℕ
  length [] = 0
  length (x ∷ xs) = suc (length xs)

  abbrev pub get_elem? : List A → ℕ → Option A
  get_elem? [] i = none
  get_elem? (x ∷ xs) zero = some x
  get_elem? (x ∷ xs) (suc i) = get_elem? xs i

  abbrev pub take : ℕ → List A → List A
  take zero xs = []
  take (suc n) [] = []
  take (suc n) (x ∷ xs) = x ∷ take n xs

  abbrev pub drop : ℕ → List A → List A
  drop zero xs = xs
  drop (suc n) [] = []
  drop (suc n) (x ∷ xs) = drop n xs

  -- A loop that returns 1 at the first element that passes a test, and 0 at the end.
  abbrev pub any : (A → Bool) → List A → Bool
  any p [] = false
  any p (x ∷ xs) = elim (p x) [ true ↦ true | false ↦ any p xs ]

  -- A loop that leaves (`goto found`) at the first element that passes a test.
  abbrev pub first : (A → Bool) → List A → Option A
  first p [] = none
  first p (x ∷ xs) = elim (p x) [ true ↦ some x | false ↦ first p xs ]

  -- The index of the first element that passes a test.
  abbrev pub find_index : (A → Bool) → List A → Option ℕ
  find_index p [] = none
  find_index p (x ∷ xs) = let rest = find_index p xs in if p x then some 0 else map_suc rest

  -- An assignment to an element; one that is out of range changes nothing.
  abbrev pub set_elem : ℕ → A → List A → List A
  set_elem i y [] = []
  set_elem zero y (x ∷ xs) = y ∷ xs
  set_elem (suc i) y (x ∷ xs) = x ∷ set_elem i y xs

  -- The number of elements that pass a test.
  abbrev pub count_if : (A → Bool) → List A → ℕ
  count_if p [] = 0
  count_if p (x ∷ xs) = let rest = count_if p xs in if p x then suc rest else rest

  -- A loop body that is skipped (`continue`) where a test fails.
  abbrev pub keep : (A → Bool) → List A → List A
  keep p [] = []
  keep p (x ∷ xs) = let rest = keep p xs in elim (p x) [ true ↦ x ∷ rest | false ↦ rest ]

  abbrev pub All {κ} : (A → Type κ) → List A → Type κ
  All P [] = Unit
  All P (x ∷ xs) = P x × All P xs

  pub length-append : (xs ys : List A) → length (xs ++ ys) ≡ length xs + length ys
  length-append [] ys = omega arith
  length-append (x ∷ xs) ys = omega (arith, length-append xs ys)

  pub length-if :
      (t : Bool) (a b : List A) (n : ℕ)
      → length a ≤ n
      → length b ≤ n
      → length (if t then a else b) ≤ n
  length-if true a b n h k = h
  length-if false a b n h k = k

  pub keep-cons_yes :
      (p : A → Bool) (x : A) (xs : List A) → p x ≡ true → keep p (x ∷ xs) ≡ x ∷ keep p xs
  keep-cons_yes p x xs h = rw (h, keep)

  pub keep-cons_no :
      (p : A → Bool) (x : A) (xs : List A) → p x ≡ false → keep p (x ∷ xs) ≡ keep p xs
  keep-cons_no p x xs h = rw (h, keep)

  pub length-keep-le : (p : A → Bool) (xs : List A) → length (keep p xs) ≤ length xs
  length-keep-le p [] = omega arith
  length-keep-le p (x ∷ xs) = ground (arith, length-keep-le p xs)

  pub All-append {κ} : (P : A → Type 0) (xs ys : List A) → All P xs → All P ys → All P (xs ++ ys)
  All-append P [] ys a b = b
  All-append P (x ∷ xs) ys a b = (a.0, All-append P xs ys a.1 b)

module _ {A : Type 0} where
  -- `x` stands in the list, at a position that is kept.
  abbrev pub In : A → List A → Type 0
  In x [] = ⊥
  In x (y ∷ ys) = (x ≡ y) ⊎ In x ys

  pub In-append_left : (x : A) (xs ys : List A) → In x xs → In x (xs ++ ys)
  In-append_left x [] ys h = absurd h
  In-append_left x (y ∷ xs) ys (inl e) = inl e
  In-append_left x (y ∷ xs) ys (inr h) = inr (In-append_left x xs ys h)

  pub In-append_right : (x : A) (xs ys : List A) → In x ys → In x (xs ++ ys)
  In-append_right x [] ys h = h
  In-append_right x (y ∷ xs) ys h = inr (In-append_right x xs ys h)

  pub In-append : (x : A) (xs ys : List A) → In x (xs ++ ys) → In x xs ⊎ In x ys
  In-append x [] ys h = inr h
  In-append x (y ∷ xs) ys (inl e) = inl (inl e)
  In-append x (y ∷ xs) ys (inr h) = elim (In-append x xs ys h) [
    | inl a ↦ inl (inr a)
    | inr b ↦ inr b
  ]

  pub All-In :
      (P : A → Type 0) (x : A) (xs : List A)
      → ((y : A) → x ≡ y → P y → P x)
      → All P xs
      → In x xs
      → P x
  All-In P x [] s a h = absurd h
  All-In P x (y ∷ ys) s a (inl e) = s y e a.0
  All-In P x (y ∷ ys) s a (inr h) = All-In P x ys s a.1 h

  pub any_witness :
      (p : A → Bool) (xs : List A) → any p xs ≡ true → (x : A) × In x xs × (p x ≡ true)
  any_witness p [] h = cc
  any_witness p (x ∷ xs) h = elim (Bool-cases (p x)) [
    | inl e ↦ (x, inl refl, e)
    | inr e ↦ let (y, m, t) = any_witness p xs (rw (e, any) at h) in (y, inr m, t)
  ]

  pub In-keep : (p : A → Bool) (x : A) (xs : List A) → In x xs → p x ≡ true → In x (keep p xs)
  In-keep p x [] m h = m
  In-keep p x (y ∷ ys) (inl e) h = rw (keep-cons_yes p y ys (ap p (sym e) ∙ h)) (inl e)
  In-keep p x (y ∷ ys) (inr m) h = elim (Bool-cases (p y)) [
    | inl e ↦ rw (keep-cons_yes p y ys e) (inr (In-keep p x ys m h))
    | inr e ↦ rw (keep-cons_no p y ys e) (In-keep p x ys m h)
  ]

  pub In-append_iff : (x : A) (xs ys : List A) → In x (xs ++ ys) ↔ (In x xs ⊎ In x ys)
  In-append_iff x xs ys = (
    In-append x xs ys,
    elim [ inl h ↦ In-append_left x xs ys h | inr h ↦ In-append_right x xs ys h ],
  )

  pub keep-In : (p : A → Bool) (x : A) (xs : List A) → In x (keep p xs) → In x xs × (p x ≡ true)
  keep-In p x [] m = absurd m
  keep-In p x (y ∷ ys) m = elim (Bool-cases (p y)) [
    | inl e ↦ elim (rw (keep-cons_yes p y ys e) at m) [
      | inl q ↦ (inl q, ap p q ∙ e)
      | inr w ↦ let h = keep-In p x ys w in (inr h.0, h.1)
    ]
    | inr e ↦ let h = keep-In p x ys (rw (keep-cons_no p y ys e) at m) in (inr h.0, h.1)
  ]

  pub any-true : (p : A → Bool) (x : A) (xs : List A) → In x xs → p x ≡ true → any p xs ≡ true
  any-true p x [] m h = absurd m
  any-true p x (y ∷ ys) (inl e) h = rw (ap p (sym e) ∙ h, any)
  any-true p x (y ∷ ys) (inr m) h = elim (Bool-cases (p y)) [
    | inl e ↦ rw (e, any)
    | inr e ↦ rw (e, any) (any-true p x ys m h)
  ]

  pub any-false : (p : A → Bool) (x : A) (xs : List A) → any p xs ≡ false → In x xs → p x ≡ false
  any-false p x xs h m = elim (Bool-cases (p x)) [ inl e ↦ cc (any-true p x xs m e) | inr e ↦ e ]

  pub first_holds :
      (p : A → Bool) (xs : List A) {x : A} → first p xs ≡ some x → In x xs × (p x ≡ true)
  first_holds p [] h = cc
  first_holds p (y ∷ ys) h = elim (Bool-cases (p y)) [
    | inl e ↦ let q = rw (e, first) at h in (inl (cc), cc)
    | inr e ↦ let m = first_holds p ys (rw (e, first) at h) in (inr m.0, m.1)
  ]
