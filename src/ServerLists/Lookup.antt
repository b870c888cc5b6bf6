-- ===== src/ServerLists/Lookup.antt =====
-- src/lists.c: `in_list` on a list in memory.
use docker_chessd.Prelude.{
  ℕ, ◌<◌, ◌≡◌, ◌↔◌, refl, subst, Bool, true, some, List, ◌∷◌, In, any, any_witness, any-true,
}
use docker_chessd.ServerLists.{
  Roster, Store, last_list, starter, set_starter, Taken, missing, aborted, taken, take_list, found,
  to_front, list_find1, list_find, is_entry, in_list,
}
use docker_chessd.ServerLists.Chains.{
  IsKnown, view, AllKnown, Search, take_list-Search, starter-IsKnown,
}
use docker_chessd.ServerLists.Refines.{Changes, set_starter-Changes}

-- The answer of `in_list` on a list with the members `ms`, and a state in which no list has changed.
pub record Looks (p which : ℕ) (member : List ℕ) (ms : List (List ℕ)) (s : Store) (r : Bool × Store)
    : Type 0 where
  pub answer : (r.0 ≡ true) ↔ ((m : List ℕ) × In m ms × (is_entry which member m ≡ true))
  pub unchanged : Changes p which ms s r.1

-- The search on a list that is in memory, with the chain that it leaves.
pub found_first :
    (p lidx : ℕ) (s : Store) (ms : List (List ℕ))
    → lidx < last_list
    → AllKnown s
    → view s p lidx ≡ some ms
    → (x : Roster) × (rest : List Roster) × (list_find1 p lidx s
        ≡ found x (set_starter p lidx (x ∷ rest) s))
      × (x.members ≡ ms)
      × (x.which ≡ lidx)
      × IsKnown rest
      × Changes p lidx x.members s (set_starter p lidx (x ∷ rest) s)
unfolding list_find1
found_first p lidx s ms l k v =
    go (take_list lidx (starter p lidx s)) (take_list-Search lidx (starter p lidx s))
  where
    go :
        (w : Taken)
        → Search lidx (starter p lidx s) w
        → (x : Roster) × (rest : List Roster) × (to_front p lidx s w
            ≡ found x (set_starter p lidx (x ∷ rest) s))
          × (x.members ≡ ms)
          × (x.which ≡ lidx)
          × IsKnown rest
          × Changes p lidx x.members s (set_starter p lidx (x ∷ rest) s)
    go missing h = cc (h, v)
    go aborted h = absurd (h (starter-IsKnown p lidx s k))
    go (taken x rest) h = (
      x,
      rest,
      refl,
      cc (h.members, v),
      h.kind,
      h.known (starter-IsKnown p lidx s k),
      set_starter-Changes p lidx x rest s h.kind l (h.known (starter-IsKnown p lidx s k)) k
          h.others,
    )

-- in_list on a list that is in memory, with the members `ms`: it does not abort, it returns 1 exactly
-- when the name is one of the members, the case of letters apart, or for the list `filter` begins with
-- one of them, and no list of any player changes, though the search reorders a chain. The chains hold
-- known lists only.
pub in_list-Looks :
    (limit p which : ℕ) (rows : List (List ℕ)) (member : List ℕ) (s : Store) (ms : List (List ℕ))
    → which < last_list
    → AllKnown s
    → view s p which ≡ some ms
    → (r : Bool × Store) × (in_list limit p which rows member s ≡ some r)
      × Looks p which member ms s r
unfolding in_list list_find
in_list-Looks limit p which rows member s ms l k v =
    let (x, rest, e, q, w, h, c) = found_first p which s ms l k v in
    let t = set_starter p which (x ∷ rest) s in
    (
      (any (is_entry which member) ms, t),
      rw (e, q) refl,
      record {
        answer = (
          any_witness (is_entry which member) ms,
          λ w. any-true (is_entry which member) w.0 ms w.1 w.2,
        );
        unchanged = subst (λ n. Changes p which n s t) q c;
      },
    )
