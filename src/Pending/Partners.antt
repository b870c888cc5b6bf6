-- ===== src/Pending/Partners.antt =====
-- src/pending.c: `decline_withdraw_offers`, which also clears the match offers of a mutual partner.
use docker_chessd.Prelude.{
  ℕ, ◌≡◌, refl, sym, ap, subst, ◌∙◌, ◌⊎◌, inl, inr, Bool, true, false, not, ◌||◌, ◌&&◌, Option,
  none, some, List, [], ◌∷◌, keep, keep-cons_yes, keep-cons_no, Bool-cases, Option-cases, arith,
  and-true_parts,
}
use docker_chessd.Prelude.Int.{ℤ, pos, negsuc}
use docker_chessd.Pending.{
  Pending, Lobby, Wd, pend_match, pend_all, dropped, do_decline_withdraw_offers, partner_of,
  is_player, is_match_or_all, decline_of_partner, decline_withdraw_offers,
}
use docker_chessd.Pending.Counts.{IsCounted}
use docker_chessd.Pending.Offers.{
  Keeps, do_decline_withdraw_offers-Keeps, decline_after_partner-Keeps,
}

-- Two players who are each other's partner, and a call for match offers or for all.
abbrev pub Mutual : ℕ → ℤ → Lobby → ℕ → Type 0
Mutual p type s q =
    (s.partner p ≡ some q) × (s.partner q ≡ some p) × ((type ≡ pos pend_match) ⊎ (type ≡ pend_all))

-- The partner of a player, or anyone where the player is anyone.
abbrev pub partner_or_any : Option ℕ → Lobby → Option ℕ
partner_or_any none s = none
partner_or_any (some r) s = s.partner r

same_partner : (o : Option ℕ) (s : Lobby) → partner_of o s ≡ partner_or_any o s
same_partner none s = refl
same_partner (some r) s = refl

-- Two sweeps are one.
keep-keep :
    {A : Type 0} (f g : A → Bool) (xs : List A)
    → keep (λ x. not (g x)) (keep (λ x. not (f x)) xs) ≡ keep (λ x. not (f x || g x)) xs
keep-keep f g [] = refl
keep-keep f g (x ∷ xs) =
    let ih = keep-keep f g xs in
    elim (Bool-cases (f x)) [
      | inl e ↦
          ap (keep (λ y. not (g y))) (keep-cons_no (λ y. not (f y)) x xs (rw e refl))
          ∙ ih
          ∙ sym (keep-cons_no (λ y. not (f y || g y)) x xs (rw e refl))
      | inr e ↦ elim (Bool-cases (g x)) [
        | inl t ↦
            ap (keep (λ y. not (g y))) (keep-cons_yes (λ y. not (f y)) x xs (rw e refl))
            ∙ keep-cons_no (λ y. not (g y)) x (keep (λ y. not (f y)) xs) (rw t refl)
            ∙ ih
            ∙ sym (keep-cons_no (λ y. not (f y || g y)) x xs (rw (e, t) refl))
        | inr t ↦
            ap (keep (λ y. not (g y))) (keep-cons_yes (λ y. not (f y)) x xs (rw e refl))
            ∙ keep-cons_yes (λ y. not (g y)) x (keep (λ y. not (f y)) xs) (rw t refl)
            ∙ ap (λ l. x ∷ l) ih
            ∙ sym (keep-cons_yes (λ y. not (f y || g y)) x xs (rw (e, t) refl))
      ]
    ]

Keeps-Keeps :
    (f g : Pending → Bool) (s t u : Lobby) → Keeps f s t → Keeps g t u → Keeps (λ x. f x || g x) s u
Keeps-Keeps f g s t u a b = (b.0 ∙ ap (keep (λ x. not (g x))) a.0 ∙ keep-keep f g s.pendlist, b.1)

match_or_all_lem :
    (type : ℤ) → is_match_or_all type ≡ true → (type ≡ pos pend_match) ⊎ (type ≡ pend_all)
match_or_all_lem (pos t) e = inl (ap pos (ground arith))
match_or_all_lem (negsuc n) e = inr (ap negsuc (ground arith))

all_or_match_lem :
    (type : ℤ) → (type ≡ pos pend_match) ⊎ (type ≡ pend_all) → is_match_or_all type ≡ true
all_or_match_lem type (inl e) = rw e refl
all_or_match_lem type (inr e) = rw e refl

player_lem : (o : Option ℕ) (p : ℕ) → is_player o p ≡ true → o ≡ some p
player_lem none p e = cc e
player_lem (some q) p e = ap some (ground arith)

is_player_refl : (p : ℕ) → is_player (some p) p ≡ true
is_player_refl p = ground arith

-- No partner, or none that the call is for.
not-Mutual :
    (p : ℕ) (type : ℤ) (s : Lobby) (q : ℕ)
    → s.partner p ≡ some q
    → (is_match_or_all type && is_player (s.partner q) p) ≡ false
    → (r : ℕ) → ¬ Mutual p type s r
not-Mutual p type s q e f r (a, b, c) =
    let same : some q ≡ some r = sym e ∙ a in
    let w : q ≡ r = cc same in
    let back : s.partner q ≡ some p = ap s.partner w ∙ b in
    let x = rw (all_or_match_lem type c, back) at f in cc (is_player_refl p, x)

-- Where the players' counts are in step with the list and addresses tell offers apart, declining or
-- withdrawing the offers of a player leaves, in their order, those that are not of the kind and between
-- the players asked for. If the player has a partner whose partner is the player, and the call is for
-- match offers or for all, it also leaves out the bughouse match offers between that partner and the
-- partner of the other player, or anyone; otherwise no others. The counts stay in step.
pub decline_withdraw_offers-Keeps :
    (p : ℕ) (p1 : Option ℕ) (type : ℤ) (wd : Wd) (s : Lobby)
    → IsCounted s
    → ((q : ℕ) × Mutual p type s q
        × Keeps
            (λ x.
              dropped (some q) (partner_or_any p1 s) (pos pend_match) true wd x
              || dropped (some p) p1 type false wd x)
            s
            (decline_withdraw_offers p p1 type wd s))
      ⊎ (((q : ℕ) → ¬ Mutual p type s q)
          × Keeps (dropped (some p) p1 type false wd) s (decline_withdraw_offers p p1 type wd s))
unfolding decline_of_partner
decline_withdraw_offers-Keeps p p1 type wd s c =
    let after = decline_after_partner-Keeps p p1 type wd s c in
    elim (Option-cases (s.partner p)) [
      | inl e ↦
          let same : decline_of_partner p p1 type wd s ≡ s = rw (e, decline_of_partner) refl in
          inr (
            (λ q m. cc (e, m.0)),
            subst
                (λ (t : Lobby).
                  Keeps (dropped (some p) p1 type false wd) t
                    (decline_withdraw_offers p p1 type wd s))
                same after,
          )
      | inr (q, e) ↦ elim (Bool-cases (is_match_or_all type && is_player (s.partner q) p)) [
        | inl t ↦
            let parts = and-true_parts _ _ t in
            let u =
              do_decline_withdraw_offers (some q) (partner_of p1 s) (pos pend_match) true wd s in
            let same : decline_of_partner p p1 type wd s ≡ u = rw (e, decline_of_partner, t) refl in
            inl (
              q,
              (e, player_lem (s.partner q) p parts.1, match_or_all_lem type parts.0),
              Keeps-Keeps (dropped (some q) (partner_or_any p1 s) (pos pend_match) true wd)
                  (dropped (some p) p1 type false wd) s u (decline_withdraw_offers p p1 type wd s)
                  (subst (λ (o : Option ℕ). Keeps (dropped (some q) o (pos pend_match) true wd) s u)
                    (same_partner p1 s)
                    (do_decline_withdraw_offers-Keeps (some q) (partner_of p1 s) (pos pend_match)
                      true wd s c))
                  (subst
                    (λ (v : Lobby).
                      Keeps (dropped (some p) p1 type false wd) v
                        (decline_withdraw_offers p p1 type wd s))
                    same after),
            )
        | inr t ↦
            let same : decline_of_partner p p1 type wd s ≡ s = rw (e, decline_of_partner, t) refl in
            inr (
              not-Mutual p type s q e t,
              subst
                  (λ (v : Lobby).
                    Keeps (dropped (some p) p1 type false wd) v
                      (decline_withdraw_offers p p1 type wd s))
                  same after,
            )
      ]
    ]
