-- ===== src/ServerLists/Chains.antt =====
-- src/lists.c: what a search of `list_find1` takes out of a chain, and what a chain that is written
-- back changes.
use docker_chessd.Prelude.{
  ℕ, ◌≤◌, ◌<◌, ◌≡◌, ◌≢◌, refl, sym, ap, ◌∙◌, inl, inr, true, false, leb, ◌==◌, ==_iff, ==_refl,
  if◌then◌else◌, Bool-cases, Option, none, some, List, [], ◌∷◌, All, arith,
}
use docker_chessd.ServerLists.{
  Roster, Store, last_list, is_personal, starter, set_starter, Taken, missing, aborted, taken,
  behind_list, take_list,
}

-- The members of a list in a chain.
abbrev pub members_in : ℕ → List Roster → Option (List (List ℕ))
members_in k [] = none
members_in k (x ∷ xs) = let rest = members_in k xs in if k == x.which then some x.members else rest

-- The abstract view: the members of list `k` for player `q`.
abbrev pub view : Store → ℕ → ℕ → Option (List (List ℕ))
view s q k = members_in k (starter q k s)

-- The chain holds known lists only.
abbrev pub IsKnown : List Roster → Type 0
IsKnown l = All (λ (x : Roster). x.which < last_list) l

abbrev pub AllKnown : Store → Type 0
AllKnown s = IsKnown s.first_global_list × ((q : ℕ) → IsKnown (s.lists q))

-- A list that is taken out of a chain was the first of its kind; the others keep their members.
pub record Takes (lidx : ℕ) (l : List Roster) (x : Roster) (rest : List Roster) : Type 0 where
  pub kind : x.which ≡ lidx
  pub members : members_in lidx l ≡ some x.members
  pub others : (k : ℕ) → k ≢ lidx → members_in k rest ≡ members_in k l
  pub known : IsKnown l → IsKnown rest

-- What a search finds.
abbrev pub Search : ℕ → List Roster → Taken → Type 0
Search lidx l missing = members_in lidx l ≡ none
Search lidx l aborted = ¬ IsKnown l
Search lidx l (taken x rest) = Takes lidx l x rest

pub differ : (k n : ℕ) → k ≢ n → (k == n) ≡ false
differ k n h = ground (arith, h)

pub members_head :
    (k : ℕ) (x : Roster) (l : List Roster) → x.which ≡ k → members_in k (x ∷ l) ≡ some x.members
members_head k x l e = rw (e, ==_refl k) refl

pub members_tail :
    (k : ℕ) (x : Roster) (l : List Roster) → k ≢ x.which → members_in k (x ∷ l) ≡ members_in k l
members_tail k x l n = rw (differ k x.which n) refl

behind-Search :
    (lidx : ℕ) (y : Roster) (l : List Roster) (t : Taken)
    → lidx ≢ y.which
    → y.which < last_list
    → Search lidx l t
    → Search lidx (y ∷ l) (behind_list y t)
behind-Search lidx y l missing n o h = members_tail lidx y l n ∙ h
behind-Search lidx y l aborted n o h = λ k. h k.1
behind-Search lidx y l (taken x rest) n o h = record {
  kind = h.kind;
  members = members_tail lidx y l n ∙ h.members;
  others =
      λ k m. elim (Bool-cases (k == y.which)) [ inl e ↦ rw e refl | inr e ↦ rw e (h.others k m) ];
  known = λ k. (o, h.known k.1);
}

pub take_list-Search : (lidx : ℕ) (l : List Roster) → Search lidx l (take_list lidx l)
unfolding take_list
take_list-Search lidx [] = refl
take_list-Search lidx (x ∷ xs) = elim (Bool-cases (lidx == x.which)) [
  | inl e ↦
      let q : lidx ≡ x.which = (==_iff lidx x.which).0 e in
      rw e (record {
        kind = sym q;
        members = members_head lidx x xs (sym q);
        others = λ k m. sym (members_tail k x xs (λ w. m (w ∙ sym q)));
        known = λ k. k.1;
      })
  | inr e ↦ elim (Bool-cases (leb last_list x.which)) [
    | inl o ↦
        let w : last_list ≤ x.which = ground (arith, o) in rw (e, o) (λ k. omega (arith, k.0, w))
    | inr o ↦
        rw (e, o)
          (behind-Search lidx x xs (take_list lidx xs) (λ w. ground (arith, e, w))
            (ground (arith, o)) (take_list-Search lidx xs))
  ]
]

-- A chain that is written back is what its list is looked up in.
pub starter_same :
    (p lidx : ℕ) (l : List Roster) (s : Store) → starter p lidx (set_starter p lidx l s) ≡ l
starter_same p lidx l s = elim (Bool-cases (is_personal lidx)) [
  | inl e ↦ rw (e, ==_refl p) refl
  | inr e ↦ rw e refl
]

pub starter_others :
    (p lidx q k : ℕ) (l : List Roster) (s : Store)
    → members_in k l ≡ members_in k (starter p lidx s)
    → members_in k (starter q k (set_starter p lidx l s)) ≡ members_in k (starter q k s)
starter_others p lidx q k l s h = elim (Bool-cases (is_personal lidx)) [
  | inl e ↦ elim (Bool-cases (is_personal k)) [
    | inl f ↦ elim (Bool-cases (q == p)) [
      | inl g ↦
          rw (e, f, g) (rw e at h ∙ ap (λ n. members_in k (s.lists n)) (sym ((==_iff q p).0 g)))
      | inr g ↦ rw (e, f, g) refl
    ]
    | inr f ↦ rw (e, f) refl
  ]
  | inr e ↦ elim (Bool-cases (is_personal k)) [
    | inl f ↦ rw (e, f) refl
    | inr f ↦ rw (e, f) (rw e at h)
  ]
]

pub starter_apart :
    (p lidx q : ℕ) (l : List Roster) (s : Store)
    → is_personal lidx ≡ true
    → q ≢ p
    → starter q lidx (set_starter p lidx l s) ≡ starter q lidx s
starter_apart p lidx q l s e n = rw (e, differ q p n) refl

pub set_starter-AllKnown :
    (p lidx : ℕ) (l : List Roster) (s : Store)
    → IsKnown l
    → AllKnown s
    → AllKnown (set_starter p lidx l s)
set_starter-AllKnown p lidx l s h k = elim (Bool-cases (is_personal lidx)) [
  | inr e ↦ rw e (h, k.1)
  | inl e ↦ rw e (k.0, λ q. elim (Bool-cases (q == p)) [ inl g ↦ rw g h | inr g ↦ rw g (k.1 q) ])
]

pub starter-IsKnown : (p lidx : ℕ) (s : Store) → AllKnown s → IsKnown (starter p lidx s)
starter-IsKnown p lidx s k = elim (Bool-cases (is_personal lidx)) [
  | inl e ↦ rw e (k.1 p)
  | inr e ↦ rw e k.0
]
