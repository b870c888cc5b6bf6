-- ===== src/ServerLists/Removal.antt =====
-- src/lists.c: `list_sub` on a list in memory, and what it does to a manager.
use docker_chessd.Prelude.{
  ℕ, ◌<◌, ◌≡◌, refl, sym, ap, subst, ◌∙◌, ◌⊎◌, inl, inr, Bool, true, false, Option, none, some,
  List, [], ◌∷◌, ◌++◌, any, Bool-cases, arith,
}
use docker_chessd.Prelude.Text.{same_name}
use docker_chessd.ServerLists.{
  Roster, Store, last_list, starter, set_starter, list_find, kept_first, without_name, behind_first,
  put_members, sub_found, remove_member,
}
use docker_chessd.ServerLists.Managers.{
  Players, list_channel, manager_channel, demoted, leave_channel, list_sub,
}
use docker_chessd.ServerLists.Demotions.{Demotes, Tells, demoted-Tells}
use docker_chessd.ServerLists.Chains.{
  view, IsKnown, AllKnown, members_in, members_tail, starter_same,
}
use docker_chessd.ServerLists.Refines.{Changes, set_starter-Changes}
use docker_chessd.ServerLists.Lookup.{found_first}

Changes-trans :
    (p lidx : ℕ) (a b : List (List ℕ)) (s t u : Store)
    → Changes p lidx a s t
    → Changes p lidx b t u
    → Changes p lidx b s u
Changes-trans p lidx a b s t u c d = record {
  changed = d.changed;
  other_lists = λ q k n. d.other_lists q k n ∙ c.other_lists q k n;
  other_players = λ q e n. d.other_players q e n ∙ c.other_players q e n;
  known = d.known;
}

-- The members of a chain's first list are replaced.
put_first-Changes :
    (p lidx : ℕ) (x : Roster) (rest : List Roster) (s : Store) (ms : List (List ℕ))
    → x.which ≡ lidx
    → lidx < last_list
    → IsKnown rest
    → AllKnown s
    → starter p lidx s ≡ x ∷ rest
    → Changes p lidx ms s
        (set_starter p lidx (record x { members = ms } ∷ behind_first (starter p lidx s)) s)
put_first-Changes p lidx x rest s ms e l h k c =
    set_starter-Changes p lidx (record x { members = ms }) (behind_first (starter p lidx s)) s e l
      (subst IsKnown (sym (ap behind_first c)) h) k
      (λ j n.
        ap (λ (r : List Roster). members_in j (behind_first r)) c
        ∙ sym (members_tail j x rest (λ w. n (w ∙ e)))
        ∙ ap (members_in j) (sym c))

-- The names before the one that is removed, and those behind it.
abbrev pub Removed : List ℕ → List (List ℕ) → List (List ℕ) → Type 0
Removed member ms after =
    (pre : List (List ℕ)) × (m : List ℕ) × (post : List (List ℕ)) × (ms ≡ pre ++ (m ∷ post))
    × (after ≡ pre ++ post)
    × (same_name member m ≡ true)
    × (any (same_name member) pre ≡ false)

without_name-Removed :
    (member : List ℕ) (ms after : List (List ℕ))
    → without_name member ms ≡ some after
    → Removed member ms after
unfolding without_name
without_name-Removed member [] after e = cc
without_name-Removed member (m ∷ ms) after e = elim (Bool-cases (same_name member m)) [
  | inl t ↦ ([], m, ms, refl, cc (rw t at e), t, refl)
  | inr t ↦ later (without_name member ms) (without_name-Removed member ms) t (rw t at e)
]
  where
    later :
        (o : Option (List (List ℕ)))
        → ((ns : List (List ℕ)) → o ≡ some ns → Removed member ms ns)
        → same_name member m ≡ false
        → kept_first m o ≡ some after
        → Removed member (m ∷ ms) after
    later none ih t q = cc q
    later (some ns) ih t q =
        let (pre, n, post, a, b, y, z) = ih ns refl in
        let whole : after ≡ m ∷ ns = cc q in
        (
          m ∷ pre,
          n,
          post,
          ap (λ (l : List (List ℕ)). m ∷ l) a,
          whole ∙ ap (λ (l : List (List ℕ)). m ∷ l) b,
          y,
          rw (t, any) z,
        )

without_name-none :
    (member : List ℕ) (ms : List (List ℕ))
    → without_name member ms ≡ none
    → any (same_name member) ms ≡ false
unfolding without_name
without_name-none member [] e = refl
without_name-none member (m ∷ ms) e = elim (Bool-cases (same_name member m)) [
  | inl t ↦ let q = rw t at e in cc q
  | inr t ↦ rw (t, any) (later (without_name member ms) (without_name-none member ms) (rw t at e))
]
  where
    later :
        (o : Option (List (List ℕ)))
        → (o ≡ none → any (same_name member) ms ≡ false)
        → kept_first m o ≡ none
        → any (same_name member) ms ≡ false
    later none ih q = ih refl
    later (some ns) ih q = cc q

-- What `remove_member` leaves and returns.
abbrev pub Subtracts : ℕ → ℕ → List ℕ → List (List ℕ) → Store → Store × Bool → Type 0
Subtracts p lidx member ms s r =
    ((r.1 ≡ false) × (any (same_name member) ms ≡ false) × Changes p lidx ms s r.0)
    ⊎ ((r.1 ≡ true)
        × (after : List (List ℕ)) × Removed member ms after
        × Changes p lidx after s r.0)

remove_member-Subtracts :
    (limit p lidx : ℕ) (rows : List (List ℕ)) (member : List ℕ) (s : Store) (ms : List (List ℕ))
    → lidx < last_list
    → AllKnown s
    → view s p lidx ≡ some ms
    → (r : Store × Bool) × (remove_member limit p lidx rows member s ≡ some r)
      × Subtracts p lidx member ms s r
unfolding remove_member list_find sub_found
remove_member-Subtracts limit p lidx rows member s ms l k v =
    let (x, rest, e, q, w, h, c) = found_first p lidx s ms l k v in
    let t = set_starter p lidx (x ∷ rest) s in
    (
      put_members p lidx x t (without_name member x.members),
      rw e refl,
      decide x rest q w h c (without_name member x.members) refl,
    )
  where
    decide :
        (x : Roster) (rest : List Roster)
        → x.members ≡ ms
        → x.which ≡ lidx
        → IsKnown rest
        → Changes p lidx x.members s (set_starter p lidx (x ∷ rest) s)
        → (o : Option (List (List ℕ))) → without_name member x.members ≡ o
        → Subtracts p lidx member ms s (put_members p lidx x (set_starter p lidx (x ∷ rest) s) o)
    decide x rest q w h c none e = inl (
      refl,
      without_name-none member ms (ap (without_name member) (sym q) ∙ e),
      subst (λ n. Changes p lidx n s (set_starter p lidx (x ∷ rest) s)) q c,
    )
    decide x rest q w h c (some after) e =
        let t = set_starter p lidx (x ∷ rest) s in
        inr (
          refl,
          after,
          without_name-Removed member ms after (ap (without_name member) (sym q) ∙ e),
          Changes-trans p lidx x.members after s t _ c (
              put_first-Changes p lidx x rest t after w l h c.known
                (starter_same p lidx (x ∷ rest) s)),
        )

-- The list of channels of a player who loses the managers' channel.
abbrev pub LosesChannel : ℕ → List (List ℕ) → Store → Store → Type 0
LosesChannel q channels s t =
    ((any (same_name manager_channel) channels ≡ false) × Changes q list_channel channels s t)
    ⊎ ((after : List (List ℕ)) × Removed manager_channel channels after
        × Changes q list_channel after s t)

-- What `list_sub` leaves and returns.
abbrev pub Withdraws :
    Players → ℕ → ℕ → List ℕ → List (List ℕ) → (ℕ → List (List ℕ)) → Store → Store × Bool → Type 0
Withdraws players p lidx member ms channels s r =
    ((r.1 ≡ false) × (any (same_name member) ms ≡ false) × Changes p lidx ms s r.0)
    ⊎ ((r.1 ≡ true)
        × (after : List (List ℕ)) × (t : Store) × Removed member ms after
        × Changes p lidx after s t
        × (((q : ℕ) × Demotes players p lidx member q × LosesChannel q (channels q) t r.0)
            ⊎ (((q : ℕ) → ¬ Demotes players p lidx member q) × (r.0 ≡ t))))

-- After the member is gone, for what `demoted` tells.
leave_channel-Leaves :
    (limit : ℕ) (players : Players) (rows : ℕ → ℕ → List (List ℕ)) (p lidx : ℕ) (member : List ℕ)
    (o : Option ℕ) (channels : ℕ → List (List ℕ)) (s : Store)
    → AllKnown s
    → Tells players p lidx member o
    → ((q : ℕ) → Demotes players p lidx member q → view s q list_channel ≡ some (channels q))
    → (t : Store) × (leave_channel limit rows o s ≡ some (t, true))
      × (((q : ℕ) × Demotes players p lidx member q × LosesChannel q (channels q) s t)
          ⊎ (((q : ℕ) → ¬ Demotes players p lidx member q) × (t ≡ s)))
unfolding leave_channel
leave_channel-Leaves limit players rows p lidx member none channels s k d v =
    (s, refl, inr (d, refl))
leave_channel-Leaves limit players rows p lidx member (some q) channels s k d v =
    let (r, e, h) =
      remove_member-Subtracts limit q list_channel (rows q list_channel) manager_channel s
        (channels q) (omega arith) k (v q d) in
    (
      r.0,
      rw e refl,
      inl (q, d, elim h [ inl (a, b, c) ↦ inl (b, c) | inr (a, after, b, c) ↦ inr (after, b, c) ]),
    )

-- list_sub on a list that is in memory, with the members `ms`, where the chains hold known lists only and,
-- for the list of the managers, the list of channels of the manager named is in memory too: it does not
-- abort. If no member has the name, the case of letters apart, the result is 1 and no list changes;
-- otherwise the result is 0 and the list loses the first such member and keeps the others in their
-- order. If the list is that of the managers, the caller is registered and the first player who is logged
-- in under the name is not number 0, then this player's list of channels loses its first entry 254, where
-- it has one. No other list and no other player's list changes.
pub list_sub-Subtracts :
    (limit : ℕ) (players : Players) (rows : ℕ → ℕ → List (List ℕ)) (p lidx : ℕ) (member : List ℕ)
    (s : Store) (ms : List (List ℕ)) (channels : ℕ → List (List ℕ))
    → lidx < last_list
    → AllKnown s
    → view s p lidx ≡ some ms
    → ((q : ℕ) → Demotes players p lidx member q → view s q list_channel ≡ some (channels q))
    → (r : Store × Bool) × (list_sub limit players rows p lidx member s ≡ some r)
      × Withdraws players p lidx member ms channels s r
unfolding list_sub
list_sub-Subtracts limit players rows p lidx member s ms channels l k v ch =
    let (r, e, h) = remove_member-Subtracts limit p lidx (rows p lidx) member s ms l k v in
    elim h [
      | inl (a, b, c) ↦ ((r.0, false), rw (e, a) refl, inl (refl, b, c))
      | inr (a, after, b, c) ↦
          let (t, f, g) =
            leave_channel-Leaves limit players rows p lidx member (demoted players p lidx member)
              channels r.0 c.known (demoted-Tells players p lidx member)
              (λ q w.
                c.other_lists q list_channel (λ u. omega (arith, u, w.of_managers)) ∙ ch q w) in
          ((t, true), rw (e, a, f) refl, inr (refl, after, r.0, b, c, g))
    ]
