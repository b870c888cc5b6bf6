-- ===== src/Pending/Counts.antt =====
-- src/pending.c: the players' counts of offers and the list. A walk that deletes offers leaves the
-- list without them and the counts in step with it.
use docker_chessd.Prelude.{
  ℕ, suc, ◌≡◌, ◌≢◌, refl, ap, sym, ◌∙◌, inl, inr, Bool, true, false, not, ◌==◌, if◌then◌else◌, List,
  [], ◌∷◌, ◌++◌, length, keep, keep-cons_yes, keep-cons_no, subst, arith, Bool-cases, ==_iff,
  ==_refl,
}
use docker_chessd.Prelude.Int.{ℤ, pos, dec}
use docker_chessd.Pending.{Pending, Lobby, change, unlink, delete_pending, sweep}

-- How many offers of a list pass a test.
abbrev pub count : (Pending → Bool) → List Pending → ℕ
count p xs = length (keep p xs)

-- No two offers of the list have one address.
abbrev pub IsFresh : ℕ → List Pending → Type 0
IsFresh a [] = Unit
IsFresh a (x ∷ xs) = (x.address ≢ a) × IsFresh a xs

abbrev pub IsDistinct : List Pending → Type 0
IsDistinct [] = Unit
IsDistinct (x ∷ xs) = IsFresh x.address xs × IsDistinct xs

-- The counts say how many offers a player has made and received, and addresses tell offers apart.
pub record Counted (l : List Pending) (f t : ℕ → ℤ) : Type 0 where
  pub distinct : IsDistinct l
  pub from : (q : ℕ) → f q ≡ pos (count (λ x. x.whofrom == q) l)
  pub to : (q : ℕ) → t q ≡ pos (count (λ x. x.whoto == q) l)

abbrev pub IsCounted : Lobby → Type 0
IsCounted s = Counted s.pendlist s.number_pend_from s.number_pend_to

pub count_cons :
    (p : Pending → Bool) (x : Pending) (xs : List Pending)
    → count p (x ∷ xs) ≡ (if p x then suc (count p xs) else count p xs)
count_cons p x xs = elim (Bool-cases (p x)) [ inl e ↦ rw (e, keep) | inr e ↦ rw (e, keep) ]

-- The offer `x` taken out from behind `pre`.
count_mid :
    (p : Pending → Bool) (pre : List Pending) (x : Pending) (xs : List Pending)
    → count p (pre ++ (x ∷ xs)) ≡ (if p x then suc (count p (pre ++ xs)) else count p (pre ++ xs))
count_mid p [] x xs = count_cons p x xs
count_mid p (y ∷ pre) x xs =
    ground
      (arith, count_mid p pre x xs, count_cons p y (pre ++ (x ∷ xs)), count_cons p y (pre ++ xs))

IsFresh-mid :
    (a : ℕ) (pre : List Pending) (x : Pending) (xs : List Pending)
    → IsFresh a (pre ++ (x ∷ xs))
    → (a ≢ x.address) × IsFresh a (pre ++ xs)
IsFresh-mid a [] x xs h = (λ e. h.0 (sym e), h.1)
IsFresh-mid a (y ∷ pre) x xs h = let r = IsFresh-mid a pre x xs h.1 in (r.0, (h.0, r.1))

differ : (a b : ℕ) → a ≢ b → (a == b) ≡ false
differ a b h = ground (arith, ==_iff a b)

unlink_mid :
    (pre : List Pending) (x : Pending) (xs : List Pending)
    → IsDistinct (pre ++ (x ∷ xs))
    → unlink x.address (pre ++ (x ∷ xs)) ≡ pre ++ xs
unfolding unlink
unlink_mid [] x xs d = rw (==_refl x.address)
unlink_mid (y ∷ pre) x xs d =
    rw (
      differ (y.address) (x.address) (IsFresh-mid y.address pre x xs d.0).0,
      unlink_mid pre x xs d.1,
    )

IsDistinct-mid :
    (pre : List Pending) (x : Pending) (xs : List Pending)
    → IsDistinct (pre ++ (x ∷ xs))
    → IsDistinct (pre ++ xs)
IsDistinct-mid [] x xs d = d.1
IsDistinct-mid (y ∷ pre) x xs d =
    ((IsFresh-mid y.address pre x xs d.0).1, IsDistinct-mid pre x xs d.1)

-- A counter that goes down with the offer.
change_down :
    (f : ℕ → ℤ) (p q : ℕ) (n m : ℕ)
    → f q ≡ pos n
    → n ≡ (if p == q then suc m else m)
    → change dec p f q ≡ pos m
unfolding dec
change_down f p q n m e h = elim (Bool-cases (p == q)) [
  | inl t ↦ let u : (q == p) ≡ true = ground arith in rw (u, e, h, t)
  | inr t ↦ let u : (q == p) ≡ false = ground arith in rw (u, e, h, t)
]

delete-Counted :
    (pre : List Pending) (x : Pending) (xs : List Pending) (f t : ℕ → ℤ)
    → Counted (pre ++ (x ∷ xs)) f t
    → Counted (pre ++ xs) (change dec x.whofrom f) (change dec x.whoto t)
delete-Counted pre x xs f t c = record {
  distinct = IsDistinct-mid pre x xs c.distinct;
  from = λ q. change_down f x.whofrom q _ _ (c.from q) (count_mid (λ y. y.whofrom == q) pre x xs);
  to = λ q. change_down t x.whoto q _ _ (c.to q) (count_mid (λ y. y.whoto == q) pre x xs);
}

append_assoc :
    (pre : List Pending) (x : Pending) (xs : List Pending)
    → (pre ++ (x ∷ [])) ++ xs ≡ pre ++ (x ∷ xs)
append_assoc [] x xs = refl
append_assoc (y ∷ pre) x xs = ap (λ (l : List Pending). y ∷ l) (append_assoc pre x xs)

delete-pendlist :
    (pre : List Pending) (x : Pending) (xs : List Pending) (s : Lobby)
    → s.pendlist ≡ pre ++ (x ∷ xs)
    → IsCounted s
    → (delete_pending x s).1.pendlist ≡ pre ++ xs
unfolding delete_pending
delete-pendlist pre x xs s e c =
    ap (unlink x.address) e ∙ unlink_mid pre x xs (subst IsDistinct e c.distinct)

pub delete-IsCounted :
    (pre : List Pending) (x : Pending) (xs : List Pending) (s : Lobby)
    → s.pendlist ≡ pre ++ (x ∷ xs)
    → IsCounted s
    → IsCounted (delete_pending x s).1
unfolding delete_pending
delete-IsCounted pre x xs s e c =
    subst
      (λ (l : List Pending).
        Counted l (change dec x.whofrom s.number_pend_from) (change dec x.whoto s.number_pend_to))
      (sym (delete-pendlist pre x xs s e c))
      (delete-Counted pre x xs s.number_pend_from s.number_pend_to
        (subst (λ (l : List Pending). Counted l s.number_pend_from s.number_pend_to) e c))

sweep_yes :
    (test : Pending → Bool) (x : Pending) (xs : List Pending) (s : Lobby)
    → test x ≡ true
    → sweep test (x ∷ xs) s ≡ sweep test xs (delete_pending x s).1
unfolding sweep
sweep_yes test x xs s t =
    ap (λ (b : Bool). sweep test xs (if b then (delete_pending x s).1 else s)) t

sweep_no :
    (test : Pending → Bool) (x : Pending) (xs : List Pending) (s : Lobby)
    → test x ≡ false
    → sweep test (x ∷ xs) s ≡ sweep test xs s
unfolding sweep
sweep_no test x xs s t =
    ap (λ (b : Bool). sweep test xs (if b then (delete_pending x s).1 else s)) t

abbrev pub Swept : (Pending → Bool) → List Pending → List Pending → Lobby → Type 0
Swept test pre xs s = (s.pendlist ≡ pre ++ keep (λ x. not (test x)) xs) × IsCounted s

-- The walk from behind `pre` on.
pub sweep-Swept :
    (test : Pending → Bool) (pre xs : List Pending) (s : Lobby)
    → s.pendlist ≡ pre ++ xs
    → IsCounted s
    → Swept test pre xs (sweep test xs s)
unfolding sweep
sweep-Swept test pre [] s e c = (e, c)
sweep-Swept test pre (x ∷ xs) s e c = elim (Bool-cases (test x)) [
  | inl t ↦
      let d = delete_pending x s in
      let l : d.1.pendlist ≡ pre ++ xs = delete-pendlist pre x xs s e c in
      let c1 : IsCounted d.1 = delete-IsCounted pre x xs s e c in
      let r = sweep-Swept test pre xs d.1 l c1 in
      subst (λ (u : Lobby). Swept test pre (x ∷ xs) u) (sym (sweep_yes test x xs s t))
        (
          r.0
              ∙ ap (λ (k : List Pending). pre ++ k)
                  (sym (keep-cons_no (λ y. not (test y)) x xs (rw t))),
          r.1,
        )
  | inr t ↦
      let r = sweep-Swept test (pre ++ (x ∷ [])) xs s (e ∙ sym (append_assoc pre x xs)) c in
      subst (λ (u : Lobby). Swept test pre (x ∷ xs) u) (sym (sweep_no test x xs s t))
        (
          r.0
              ∙ append_assoc pre x (keep (λ y. not (test y)) xs)
              ∙ ap (λ (k : List Pending). pre ++ k)
                  (sym (keep-cons_yes (λ y. not (test y)) x xs (rw t))),
          r.1,
        )
]
