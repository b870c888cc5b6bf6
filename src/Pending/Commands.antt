-- ===== src/Pending/Commands.antt =====
-- src/pending.c: the commands `accept`, `decline` and `withdraw` read no null pointer.
use docker_chessd.Prelude.{
  ℕ, zero, suc, ◌≡◌, ◌≢◌, ap, sym, refl, subst, ◌∙◌, fun_ext, inl, inr, Bool, true, false, ◌==◌,
  if◌then◌else◌, leb, List, [], ◌∷◌, arith, Bool-cases, ==_iff, Option, none, some, first,
  keep-cons_yes, keep-cons_no,
}
use docker_chessd.Prelude.Int.{ℤ, pos, negsuc, is_zero}
use docker_chessd.Pending.{
  Pending, Lobby, check_current_pend, find_nth, find_nth_pendto, find_nth_pendfrom, pend_all,
  in_range, is_one, magnitude, Picked, refused, picked, null_pointer, surely, perhaps, com_accept,
  named_offer, decline_named, com_decline_withdraw, Param, param_none, param_number, param_type,
  param_player, param_unknown,
}
use docker_chessd.Pending.Counts.{count, IsCounted}
use docker_chessd.Pending.Offers.{find_pend-first}

to_player : (p : ℕ) → check_current_pend none (some p) pend_all ≡ (λ x. x.whoto == p)
unfolding check_current_pend
to_player p = fun_ext (λ x. ground arith)

from_player : (p : ℕ) → check_current_pend (some p) none pend_all ≡ (λ x. x.whofrom == p)
unfolding check_current_pend
from_player p = fun_ext (λ x. ground arith)

surely-some : (x : Pending) → surely (some x) ≢ null_pointer
surely-some x q = cc q

perhaps_lem : (r : Option Pending) → perhaps r ≢ null_pointer
perhaps_lem none q = cc q
perhaps_lem (some x) q = cc q

differ_zero : (k : ℕ) → (suc k == 0) ≡ false
differ_zero k = ground arith

-- The rest of the search at an offer that passes the test.
first_or_later :
    (test : Pending → Bool) (k : ℕ) (x : Pending) (xs : List Pending)
    → ((j : ℕ) → k ≡ suc j → surely (find_nth test k xs) ≢ null_pointer)
    → surely (if k == 0 then some x else find_nth test k xs) ≢ null_pointer
first_or_later test zero x xs later = surely-some x
first_or_later test (suc k) x xs later = rw (differ_zero k) (later k refl)

find_nth-surely :
    (test : Pending → Bool) (k : ℕ) (xs : List Pending)
    → leb (suc k) (count test xs) ≡ true
    → surely (find_nth test (suc k) xs) ≢ null_pointer
unfolding find_nth
find_nth-surely test k [] h = ground arith
find_nth-surely test k (x ∷ xs) h = elim (Bool-cases (test x)) [
  | inl e ↦
      let t = rw (keep-cons_yes test x xs e) at h in
      rw e (
        first_or_later test k x xs (λ j w.
          subst (λ (i : ℕ). surely (find_nth test i xs) ≢ null_pointer) (sym w)
            (find_nth-surely test j xs (ground arith))))
  | inr e ↦ rw e (find_nth-surely test k xs (rw (keep-cons_no test x xs e) at h))
]

first-surely :
    (test : Pending → Bool) (xs : List Pending)
    → count test xs ≡ 1
    → surely (first test xs) ≢ null_pointer
first-surely test [] h = ground arith
first-surely test (x ∷ xs) h = elim (Bool-cases (test x)) [
  | inl e ↦ rw (e, first) (λ q. cc q)
  | inr e ↦ rw (e, first) (first-surely test xs (rw (keep-cons_no test x xs e) at h))
]

-- A number that is in range of a count that stands at `n`.
in_range_lem :
    (m z : ℤ) (n : ℕ)
    → z ≡ pos n
    → in_range m z ≡ true
    → (k : ℕ) × (magnitude m ≡ suc k) × (leb (suc k) n ≡ true)
in_range_lem (pos zero) z n e h = cc
in_range_lem (pos (suc k)) z n e h = (k, refl, ap (in_range (pos (suc k))) (sym e) ∙ h)
in_range_lem (negsuc m) z n e h = cc

is_one_lem : (z : ℤ) (n : ℕ) → z ≡ pos n → is_one z ≡ true → n ≡ 1
is_one_lem z n e h = (==_iff n 1).0 (ap is_one (sym e) ∙ h)

-- A search for the offers of one player, of whom the count `z` is in step.
module _ (test : Pending → Bool) (xs : List Pending) (z : ℤ) (e : z ≡ pos (count test xs)) where
  numbered-surely :
      (m : ℤ) → in_range m z ≡ true → surely (find_nth test (magnitude m) xs) ≢ null_pointer
  numbered-surely m h =
      let (k, w, t) = in_range_lem m z (count test xs) e h in
      subst (λ (i : ℕ). surely (find_nth test i xs) ≢ null_pointer) (sym w)
        (find_nth-surely test k xs t)

  only-surely : is_one z ≡ true → surely (first test xs) ≢ null_pointer
  only-surely h = first-surely test xs (is_one_lem z (count test xs) e h)

  -- Under their tests, whatever the tests say.
  numbered_if :
      (m : ℤ)
      → (if in_range m z then surely (find_nth test (magnitude m) xs) else refused) ≢ null_pointer
  numbered_if m = elim (Bool-cases (in_range m z)) [
    | inl t ↦ rw t (numbered-surely m t)
    | inr t ↦ rw t (λ q. cc q)
  ]

  only_if : (if is_one z then surely (first test xs) else refused) ≢ null_pointer
  only_if = elim (Bool-cases (is_one z)) [ inl t ↦ rw t (only-surely t) | inr t ↦ rw t (λ q. cc q) ]

-- The counts in the words of `check_current_pend`.
to_count :
    (p : ℕ) (s : Lobby)
    → IsCounted s
    → s.number_pend_to p ≡ pos (count (check_current_pend none (some p) pend_all) s.pendlist)
to_count p s c = c.to p ∙ ap (λ (t : Pending → Bool). pos (count t s.pendlist)) (sym (to_player p))

from_count :
    (p : ℕ) (s : Lobby)
    → IsCounted s
    → s.number_pend_from p ≡ pos (count (check_current_pend (some p) none pend_all) s.pendlist)
from_count p s c =
    c.from p ∙ ap (λ (t : Pending → Bool). pos (count t s.pendlist)) (sym (from_player p))

-- Where the counts are in step with the list, `accept` finds the offer it acts on, or says why not:
-- it reads no null pointer, whatever its parameter is.
pub com_accept-finds :
    (p : ℕ) (param : Param) (s : Lobby) → IsCounted s → com_accept p param s ≢ null_pointer
unfolding com_accept find_nth_pendto
com_accept-finds p param_none s c = elim (Bool-cases (is_zero (s.number_pend_to p))) [
  | inl z ↦ rw z (λ q. cc q)
  | inr z ↦ rw z (only_if _ s.pendlist _ (to_count p s c))
]
com_accept-finds p (param_number n) s c = elim (Bool-cases (is_zero (s.number_pend_to p))) [
  | inl z ↦ rw z (λ q. cc q)
  | inr z ↦ rw z (numbered_if _ s.pendlist _ (to_count p s c) n)
]
com_accept-finds p (param_type t) s c = elim (Bool-cases (is_zero (s.number_pend_to p))) [
  | inl z ↦ rw z (λ q. cc q)
  | inr z ↦ rw z (perhaps_lem _)
]
com_accept-finds p (param_player o) s c = elim (Bool-cases (is_zero (s.number_pend_to p))) [
  | inl z ↦ rw z (λ q. cc q)
  | inr z ↦ rw z (perhaps_lem _)
]
com_accept-finds p param_unknown s c = elim (Bool-cases (is_zero (s.number_pend_to p))) [
  | inl z ↦ rw z (λ q. cc q)
  | inr z ↦ rw z (λ q. cc q)
]

named-finds :
    (p : ℕ) (param : Param) (to_p : Bool) (s : Lobby)
    → IsCounted s
    → named_offer p param to_p s ≢ null_pointer
unfolding named_offer find_nth_pendto find_nth_pendfrom
named-finds p param_none true s c =
    rw (find_pend-first none (some p) pend_all s c) (only_if _ s.pendlist _ (to_count p s c))
named-finds p param_none false s c =
    rw (find_pend-first (some p) none pend_all s c) (only_if _ s.pendlist _ (from_count p s c))
named-finds p (param_number n) true s c = numbered_if _ s.pendlist _ (to_count p s c) n
named-finds p (param_number n) false s c = numbered_if _ s.pendlist _ (from_count p s c) n
named-finds p (param_type t) to_p s c = λ q. cc q
named-finds p (param_player o) to_p s c = λ q. cc q
named-finds p param_unknown to_p s c = λ q. cc q

decline_named-some :
    (p : ℕ) (to_p : Bool) (r : Picked) (s : Lobby)
    → r ≢ null_pointer
    → decline_named p to_p r s ≢ none
decline_named-some p to_p refused s h = λ q. cc q
decline_named-some p to_p (picked x) s h = λ q. cc q
decline_named-some p to_p null_pointer s h = absurd (h refl)

guarded : (b : Bool) (r : Option Lobby) (s : Lobby) → r ≢ none → (if b then some s else r) ≢ none
guarded true r s h = λ q. cc q
guarded false r s h = h

guarded_some : (b : Bool) (t s : Lobby) → (if b then some s else some t) ≢ none
guarded_some b t s = guarded b (some t) s (λ q. cc q)

-- Where the counts are in step with the list, `decline` (`to_p` is true) and `withdraw` run to their
-- end: they read no null pointer, whatever their parameter is.
pub com_decline_withdraw-finds :
    (p : ℕ) (param : Param) (to_p : Bool) (s : Lobby)
    → IsCounted s
    → com_decline_withdraw p param to_p s ≢ none
unfolding com_decline_withdraw
com_decline_withdraw-finds p param_none to_p s c =
    guarded _ _ s (decline_named-some p to_p _ s (named-finds p param_none to_p s c))
com_decline_withdraw-finds p (param_number n) to_p s c =
    guarded _ _ s (decline_named-some p to_p _ s (named-finds p (param_number n) to_p s c))
com_decline_withdraw-finds p (param_type t) to_p s c = guarded_some _ _ s
com_decline_withdraw-finds p (param_player o) to_p s c = guarded_some _ _ s
com_decline_withdraw-finds p param_unknown to_p s c = guarded_some _ _ s
