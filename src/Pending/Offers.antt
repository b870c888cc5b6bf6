-- ===== src/Pending/Offers.antt =====
-- src/pending.c: what requests, declines, withdrawals and a new match do to the list of offers, and
-- that the commands find the offers they look for.
use docker_chessd.Prelude.{
  ℕ, zero, suc, ◌≡◌, refl, ap, sym, ◌∙◌, ◌⊎◌, inl, inr, Bool, true, false, not, ◌==◌, ◌&&◌, ◌||◌,
  if◌then◌else◌, List, [], ◌∷◌, keep, In, arith, Bool-cases, Option-cases, Option, none, some,
  first, keep-cons_yes, keep-cons_no, and-true_parts,
}
use docker_chessd.Prelude.Int.{ℤ, pos, negsuc, inc, is_zero}
use docker_chessd.Pending.{
  is_match_or_all, is_player, partner_of, pend_match, decline_of_partner, decline_withdraw_offers,
  Pending, Lobby, change, add_pending, check_current_pend, find_pend, remove_request, none_counted,
  nothing_to_do, taken_up, dropped, do_decline_withdraw_offers, Wd, do_decline, do_withdraw,
  do_both, joins, pend_join_match,
}
use docker_chessd.Pending.Counts.{count, count_cons, IsCounted, sweep-Swept, IsFresh}

-- The offers that a test does not take, and counts in step with them.
abbrev pub Keeps : (Pending → Bool) → Lobby → Lobby → Type 0
Keeps test s t = (t.pendlist ≡ keep (λ x. not (test x)) s.pendlist) × IsCounted t

-- Where the players' counts are in step with the list and addresses tell offers apart, removing
-- requests leaves, in their order, the offers that `check_current_pend` does not match, and the counts
-- stay in step.
pub remove_request-Keeps :
    (p p1 : ℕ) (type : ℤ) (s : Lobby)
    → IsCounted s
    → Keeps (check_current_pend (some p) (some p1) type) s (remove_request p p1 type s)
unfolding remove_request
remove_request-Keeps p p1 type s c =
    sweep-Swept (check_current_pend (some p) (some p1) type) [] s.pendlist s refl c

count_none :
    (p : Pending → Bool) (xs : List Pending) (x : Pending) → count p xs ≡ 0 → In x xs → p x ≡ false
count_none p [] x e m = absurd m
count_none p (y ∷ ys) x e (inl q) = elim (Bool-cases (p y)) [
  | inl t ↦ let r = rw (keep-cons_yes p y ys t) at e in ground arith
  | inr t ↦ ap p q ∙ t
]
count_none p (y ∷ ys) x e (inr m) = elim (Bool-cases (p y)) [
  | inl t ↦ let r = rw (keep-cons_yes p y ys t) at e in ground arith
  | inr t ↦ count_none p ys x (rw (keep-cons_no p y ys t) at e) m
]

-- Nothing passes a test: nothing is found, and nothing goes.
keep_all :
    (p : Pending → Bool) (xs : List Pending)
    → ((x : Pending) → In x xs → p x ≡ false)
    → keep (λ x. not (p x)) xs ≡ xs
keep_all p [] h = refl
keep_all p (x ∷ xs) h =
    keep-cons_yes (λ y. not (p y)) x xs (rw (h x (inl refl)))
    ∙ ap (λ (l : List Pending). x ∷ l) (keep_all p xs (λ y m. h y (inr m)))

first-none :
    (p : Pending → Bool) (xs : List Pending)
    → ((x : Pending) → In x xs → p x ≡ false)
    → first p xs ≡ none
first-none p [] h = refl
first-none p (x ∷ xs) h = rw (h x (inl refl), first) (first-none p xs (λ y m. h y (inr m)))

or_split : (a b : Bool) → (a || b) ≡ true → (a ≡ true) ⊎ (b ≡ true)
or_split a b h = ground arith

zero_count : (z : ℤ) (n : ℕ) → z ≡ pos n → is_zero z ≡ true → n ≡ 0
zero_count z zero e h = refl
zero_count z (suc n) e h = cc (ap is_zero e, h)

-- A count that stands at 0 says that no offer is from, or to, the player.
zero_from :
    (s : Lobby) (p p1 : Option ℕ) (type : ℤ) (x : Pending)
    → IsCounted s
    → none_counted p s.number_pend_from ≡ true
    → In x s.pendlist
    → check_current_pend p p1 type x ≡ false
unfolding check_current_pend
zero_from s none p1 type x c z m = cc
zero_from s (some q) p1 type x c z m =
    let w =
      count_none (λ y. y.whofrom == q) s.pendlist x
        (zero_count (s.number_pend_from q) _ (c.from q) z) m in
    ground arith

zero_to :
    (s : Lobby) (p p1 : Option ℕ) (type : ℤ) (x : Pending)
    → IsCounted s
    → none_counted p1 s.number_pend_to ≡ true
    → In x s.pendlist
    → check_current_pend p p1 type x ≡ false
unfolding check_current_pend
zero_to s p none type x c z m = cc
zero_to s p (some q) type x c z m =
    let w =
      count_none (λ y. y.whoto == q) s.pendlist x (zero_count (s.number_pend_to q) _ (c.to q) z)
        m in
    ground arith

-- The counts that `find_pend` looks at first hide nothing: where they are in step with the list, it
-- returns the first offer of the list that `check_current_pend` matches, or none where there is none.
pub find_pend-first :
    (p p1 : Option ℕ) (type : ℤ) (s : Lobby)
    → IsCounted s
    → find_pend p p1 type s ≡ first (check_current_pend p p1 type) s.pendlist
unfolding find_pend
find_pend-first p p1 type s c = elim (Bool-cases (none_counted p s.number_pend_from)) [
  | inl e ↦ rw e (sym (first-none _ s.pendlist (λ x m. zero_from s p p1 type x c e m)))
  | inr e ↦ elim (Bool-cases (none_counted p1 s.number_pend_to)) [
    | inl t ↦ rw (e, t) (sym (first-none _ s.pendlist (λ x m. zero_to s p p1 type x c t m)))
    | inr t ↦ rw (e, t)
  ]
]

-- Where the early returns are taken, no offer is.
idle-taken :
    (p p1 : Option ℕ) (offers : ℤ) (wd : Wd) (s : Lobby) (x : Pending)
    → IsCounted s
    → nothing_to_do p p1 wd s ≡ true
    → In x s.pendlist
    → taken_up p p1 offers wd x ≡ false
idle-taken p p1 offers do_decline s x c h m = elim (or_split _ _ h) [
  | inl a ↦ zero_to s p1 p offers x c a m
  | inr b ↦ zero_from s p1 p offers x c b m
]
idle-taken p p1 offers do_withdraw s x c h m = elim (or_split _ _ h) [
  | inl a ↦ zero_from s p p1 offers x c a m
  | inr b ↦ zero_to s p p1 offers x c b m
]
idle-taken p p1 offers do_both s x c h m = elim (or_split _ _ h) [
  | inl a ↦
      let d = and-true_parts _ _ a in
      rw (zero_to s p1 p offers x c d.0 m, zero_from s p p1 offers x c d.1 m)
  | inr b ↦
      let d = and-true_parts _ _ b in
      rw (zero_from s p1 p offers x c d.1 m, zero_to s p p1 offers x c d.0 m)
]

-- Where the players' counts are in step with the list and addresses tell offers apart, declining or
-- withdrawing offers, or both, leaves, in their order, those that are not of the kind and between the
-- players asked for (and, for partners, the matches that are not bughouse), early return or not, and
-- the counts stay in step.
pub do_decline_withdraw_offers-Keeps :
    (p p1 : Option ℕ) (offers : ℤ) (partners : Bool) (wd : Wd) (s : Lobby)
    → IsCounted s
    → Keeps
        (dropped p p1 offers partners wd)
        s
        (do_decline_withdraw_offers p p1 offers partners wd s)
unfolding do_decline_withdraw_offers dropped
do_decline_withdraw_offers-Keeps p p1 offers partners wd s c =
    elim (Bool-cases (nothing_to_do p p1 wd s)) [
      | inl e ↦
          rw e (sym (keep_all _ s.pendlist (λ x m. rw (idle-taken p p1 offers wd s x c e m))), c)
      | inr e ↦ rw e (sweep-Swept (dropped p p1 offers partners wd) [] s.pendlist s refl c)
    ]

abbrev no_offers : ℕ → ℕ → Lobby → Bool
no_offers p p1 s =
    is_zero (s.number_pend_from p)
    && (is_zero (s.number_pend_to p)
        && (is_zero (s.number_pend_from p1) && is_zero (s.number_pend_to p1)))

idle-joins :
    (p p1 : ℕ) (s : Lobby) (x : Pending)
    → IsCounted s
    → no_offers p p1 s ≡ true
    → In x s.pendlist
    → joins p p1 x ≡ false
unfolding joins
idle-joins p p1 s x c h m =
    let a = and-true_parts _ _ h in
    let b = and-true_parts _ _ a.1 in
    let d = and-true_parts _ _ b.1 in
    rw (
      zero_from s (some p) none (negsuc 7) x c a.0 m,
      zero_from s (some p1) none (negsuc 7) x c d.0 m,
      zero_to s none (some p) (negsuc 7) x c b.0 m,
      zero_to s none (some p1) (negsuc 7) x c d.1 m,
    )

-- Where the players' counts are in step with the list and addresses tell offers apart, a match that two
-- players join leaves, in their order, the offers that are from neither and to neither of them, and
-- those of partnership, and the counts stay in step.
pend_join_match-Keeps :
    (p p1 : ℕ) (s : Lobby) → IsCounted s → Keeps (joins p p1) s (pend_join_match p p1 s)
unfolding pend_join_match
pend_join_match-Keeps p p1 s c = elim (Bool-cases (no_offers p p1 s)) [
  | inl e ↦ rw e (sym (keep_all _ s.pendlist (λ x m. idle-joins p p1 s x c e m)), c)
  | inr e ↦ rw e (sweep-Swept (joins p p1) [] s.pendlist s refl c)
]

count-change_up :
    (f : ℕ → ℤ) (p q n : ℕ) → f q ≡ pos n → change inc p f q ≡ pos (if p == q then suc n else n)
unfolding inc
count-change_up f p q n e = elim (Bool-cases (p == q)) [
  | inl t ↦ let u : (q == p) ≡ true = ground arith in rw (u, t, e)
  | inr t ↦ let u : (q == p) ≡ false = ground arith in rw (u, t, e)
]

-- Where the players' counts are in step with the list and addresses tell offers apart, this stays so
-- when an offer is added whose address is not in the list.
pub add_pending-IsCounted :
    (new : Pending) (from to kind : ℕ) (s : Lobby)
    → IsFresh new.address s.pendlist
    → IsCounted s
    → IsCounted (add_pending new from to kind s).1
unfolding add_pending
add_pending-IsCounted new from to kind s d c = record {
  distinct = (d, c.distinct);
  from = λ q.
      count-change_up s.number_pend_from from q _ (c.from q)
      ∙ ap pos (
          sym (
            count_cons (λ x. x.whofrom == q)
              (record new { whofrom = from; whoto = to; kind = kind }) s.pendlist));
  to = λ q.
      count-change_up s.number_pend_to to q _ (c.to q)
      ∙ ap pos (
          sym (
            count_cons (λ x. x.whoto == q) (record new { whofrom = from; whoto = to; kind = kind })
              s.pendlist));
}

pub decline_of_partner-IsCounted :
    (p : ℕ) (p1 : Option ℕ) (type : ℤ) (wd : Wd) (s : Lobby)
    → IsCounted s
    → IsCounted (decline_of_partner p p1 type wd s)
unfolding decline_of_partner
decline_of_partner-IsCounted p p1 type wd s c = elim (Option-cases (s.partner p)) [
  | inl e ↦ rw (e, decline_of_partner) c
  | inr (q, e) ↦ elim (Bool-cases (is_match_or_all type && is_player (s.partner q) p)) [
    | inl t ↦
        rw (e, decline_of_partner, t)
          (do_decline_withdraw_offers-Keeps (some q) (partner_of p1 s) (pos pend_match) true wd s
            c).1
    | inr t ↦ rw (e, decline_of_partner, t) c
  ]
]

-- What is left of the offers that the same for a mutual partner has left.
pub decline_after_partner-Keeps :
    (p : ℕ) (p1 : Option ℕ) (type : ℤ) (wd : Wd) (s : Lobby)
    → IsCounted s
    → Keeps
        (dropped (some p) p1 type false wd)
        (decline_of_partner p p1 type wd s)
        (decline_withdraw_offers p p1 type wd s)
unfolding decline_withdraw_offers
decline_after_partner-Keeps p p1 type wd s c =
    do_decline_withdraw_offers-Keeps (some p) p1 type false wd (decline_of_partner p p1 type wd s)
      (decline_of_partner-IsCounted p p1 type wd s c)
