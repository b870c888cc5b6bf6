-- ===== src/Draw/Claims.antt =====
-- src/gameproc.c: `draw` and the offers of src/pending.c.
use docker_chessd.Prelude.{
  ℕ, ◌≡◌, ◌↔◌, refl, sym, ap, ◌∙◌, inl, inr, Bool, true, false, ◌&&◌, ==_iff, Bool-cases,
  Option-cases, Option, none, some, List, [], ◌∷◌, ◌++◌, In, first, first_holds, arith,
}
use docker_chessd.Prelude.Int.{pos}
use docker_chessd.Pending.{
  Pending, Lobby, delete_pending, find_pend, check_current_pend, reuse_or_add, add_request,
  pend_all, do_decline,
}
use docker_chessd.Pending.Counts.{IsFresh, IsCounted, delete-IsCounted}
use docker_chessd.Pending.Offers.{
  find_pend-first, add_pending-IsCounted, decline_after_partner-Keeps,
}
use docker_chessd.Draw.{
  end_agreeddraw, Seat, pend_draw, fifty_moves, repeated, take_offer, agree_or_ask, com_draw,
}

-- A draw that the opponent offers.
pub record Offered (q p : ℕ) (s : Lobby) : Type 0 where
  pub offer : Pending
  pub listed : In offer s.pendlist
  pub from : offer.whofrom ≡ q
  pub to : offer.whoto ≡ p
  pub draw : offer.kind ≡ pend_draw

offer_iff :
    (q p : ℕ) (x : Pending)
    → (check_current_pend (some q) (some p) (pos pend_draw) x ≡ true)
      ↔ ((x.whofrom ≡ q) × (x.whoto ≡ p) × (x.kind ≡ pend_draw))
unfolding check_current_pend
offer_iff q p x =
    let a = ==_iff x.whofrom q in
    let b = ==_iff x.whoto p in
    let c = ==_iff x.kind pend_draw in
    let a' = ==_iff q x.whofrom in let b' = ==_iff p x.whoto in ground (arith, a, b, c, a', b')

first-In :
    (test : Pending → Bool) (x : Pending) (xs : List Pending)
    → In x xs
    → test x ≡ true
    → (y : Pending) × (first test xs ≡ some y)
first-In test x [] m h = absurd m
first-In test x (y ∷ ys) m h = elim (Bool-cases (test y)) [
  | inl e ↦ (y, rw (e, first) refl)
  | inr e ↦ elim m [
    | inl q ↦ cc (ap test q, e, h)
    | inr k ↦ let r = first-In test x ys k h in (r.0, rw (e, first) r.1)
  ]
]

-- Where the counts are in step, the search finds an offer exactly when there is one.
find-Offered :
    (q p : ℕ) (s : Lobby)
    → IsCounted s
    → ((x : Pending) × (find_pend (some q) (some p) (pos pend_draw) s ≡ some x)) ↔ Offered q p s
find-Offered q p s c = (
  λ f.
      let h =
        first_holds test s.pendlist
          (sym (find_pend-first (some q) (some p) (pos pend_draw) s c) ∙ f.1) in
      let k = (offer_iff q p f.0).0 h.1 in
      record { offer = f.0; listed = h.0; from = k.0; to = k.1; draw = k.2 },
  λ o.
      let r =
        first-In test o.offer s.pendlist o.listed
          ((offer_iff q p o.offer).1 (o.from, o.to, o.draw)) in
      (r.0, find_pend-first (some q) (some p) (pos pend_draw) s c ∙ r.1),
)
  where
    test : Pending → Bool
    test = check_current_pend (some q) (some p) (pos pend_draw)

In-split :
    (x : Pending) (xs : List Pending)
    → In x xs
    → (pre : List Pending) × (post : List Pending) × (xs ≡ pre ++ (x ∷ post))
In-split x [] m = absurd m
In-split x (y ∷ ys) (inl e) = ([], ys, ap (λ (z : Pending). z ∷ ys) (sym e))
In-split x (y ∷ ys) (inr m) =
    let r = In-split x ys m in (y ∷ r.0, r.1, ap (λ (l : List Pending). y ∷ l) r.2)

take_offer-IsCounted :
    (p : ℕ) (o : Option Pending) (s : Lobby)
    → ((x : Pending) → o ≡ some x → In x s.pendlist)
    → IsCounted s
    → IsCounted (take_offer p o s)
unfolding take_offer
take_offer-IsCounted p none s h c = c
take_offer-IsCounted p (some x) s h c =
    let (pre, post, e) = In-split x s.pendlist (h x refl) in
    (decline_after_partner-Keeps p none pend_all do_decline (delete_pending x s).1
      (delete-IsCounted pre x post s e c)).1

reuse_or_add-IsCounted :
    (new : Pending) (p p1 type : ℕ) (o : Option Pending) (s : Lobby)
    → IsFresh new.address s.pendlist
    → IsCounted s
    → IsCounted (reuse_or_add new p p1 type o s).1
unfolding reuse_or_add
reuse_or_add-IsCounted new p p1 type none s f c = add_pending-IsCounted new p p1 type s f c
reuse_or_add-IsCounted new p p1 type (some x) s f c = c

add_request-IsCounted :
    (new : Pending) (p p1 type : ℕ) (s : Lobby)
    → IsFresh new.address s.pendlist
    → IsCounted s
    → IsCounted (add_request new p p1 type s).1
unfolding add_request
add_request-IsCounted new p p1 type s f c = reuse_or_add-IsCounted new p p1 type _ s f c

agree_or_ask-IsCounted :
    (new : Pending) (p : ℕ) (seat : Seat) (o : Option Pending) (s : Lobby)
    → ((x : Pending) → o ≡ some x → In x s.pendlist)
    → IsFresh new.address s.pendlist
    → IsCounted s
    → IsCounted (agree_or_ask new p seat o s).0
unfolding agree_or_ask
agree_or_ask-IsCounted new p seat none s h f c =
    add_request-IsCounted new p seat.opponent pend_draw s f c
agree_or_ask-IsCounted new p seat (some x) s h f c = take_offer-IsCounted p (some x) s h c

-- `draw` leaves the players' counts in step with the list of offers, whether it ends the game, takes
-- the opponent's offer, makes one or does nothing, where the address of a new offer is not in the
-- list.
pub com_draw-IsCounted :
    (new : Pending) (p : ℕ) (seat : Seat) (s : Lobby)
    → IsFresh new.address s.pendlist
    → IsCounted s
    → IsCounted (com_draw new p seat s).0
unfolding com_draw
com_draw-IsCounted new p seat s f c =
    let offer = find_pend (some seat.opponent) (some p) (pos pend_draw) s in
    let found : (x : Pending) → offer ≡ some x → In x s.pendlist = λ x e.
      (first_holds (check_current_pend (some seat.opponent) (some p) (pos pend_draw)) s.pendlist
        (sym (find_pend-first (some seat.opponent) (some p) (pos pend_draw) s c) ∙ e)).0 in
    let taken = take_offer-IsCounted p offer s found c in
    let asked = agree_or_ask-IsCounted new p seat offer s found f c in
    elim (Bool-cases (seat.valid_and_active && seat.is_playing)) [
      | inr e ↦ rw e c
      | inl e ↦ elim (Bool-cases (fifty_moves seat.history)) [
        | inl k ↦ rw (e, k) c
        | inr k ↦ elim (Bool-cases (repeated seat.history)) [
          | inl m ↦ rw (e, k, m) taken
          | inr m ↦ elim (Bool-cases seat.simul_elsewhere) [
            | inl w ↦ rw (e, k, m, w) c
            | inr w ↦ rw (e, k, m, w) asked
          ]
        ]
      ]
    ]

-- `draw` ends an active game by agreement exactly when neither the fifty moves nor a repetition are
-- claimed first, the opponent is not at another board of a simul, and the list has an offer of a draw
-- from the opponent to the player; the players' counts are in step with the list.
pub com_draw_agrees :
    (new : Pending) (p : ℕ) (seat : Seat) (s : Lobby)
    → IsCounted s
    → ((com_draw new p seat s).1 ≡ some (seat.opponent_color, end_agreeddraw)) ↔ (
        (seat.valid_and_active ≡ true)
        × (seat.is_playing ≡ true)
        × (fifty_moves seat.history ≡ false)
        × (repeated seat.history ≡ false)
        × (seat.simul_elsewhere ≡ false)
        × Offered seat.opponent p s)
unfolding com_draw agree_or_ask
com_draw_agrees new p seat s c =
    let found = find-Offered seat.opponent p s c in
    elim (Option-cases (find_pend (some seat.opponent) (some p) (pos pend_draw) s)) [
      | inl e ↦
          let no : ¬ Offered seat.opponent p s = λ o. cc ((found.1 o).1, e) in
          rw e (ground (arith, no))
      | inr (x, e) ↦
          let yes : Offered seat.opponent p s = found.0 (x, e) in rw e (ground (arith, yes))
    ]
