-- ===== src/ServerLists/Refines.antt =====
-- src/lists.c: the chains, which every search reorders, are tables from a list to its members.
use docker_chessd.Prelude.{
  ℕ, ◌<◌, ◌≡◌, ◌≢◌, refl, sym, ap, subst, ◌∙◌, inl, inr, Bool, true, false, ◌&&◌, leb,
  if◌then◌else◌, Bool-cases, Option, none, some, List, [], ◌∷◌, ◌++◌, length,
}
use docker_chessd.Prelude.Text.{skip_space}
use docker_chessd.ServerLists.{
  Roster, Store, last_list, is_personal, starter, set_starter, Taken, missing, aborted, taken,
  take_list, first_word, add_member, list_add,
}
use docker_chessd.ServerLists.Chains.{
  members_in, view, IsKnown, AllKnown, Search, members_head, members_tail, take_list-Search,
  starter_same, starter_others, starter_apart, set_starter-AllKnown, starter-IsKnown,
}

-- What adding leaves: the members `after` for list `lidx` of the player, or of all where the list is
-- global, and every other list as it was.
pub record Changes (p lidx : ℕ) (after : List (List ℕ)) (s s' : Store) : Type 0 where
  pub changed : view s' p lidx ≡ some after
  pub other_lists : (q k : ℕ) → k ≢ lidx → view s' q k ≡ view s q k
  pub other_players : (q : ℕ) → is_personal lidx ≡ true → q ≢ p → view s' q lidx ≡ view s q lidx
  pub known : AllKnown s'

-- A chain that starts with the list and agrees with the old one on the others.
pub set_starter-Changes :
    (p lidx : ℕ) (x : Roster) (rest : List Roster) (s : Store)
    → x.which ≡ lidx
    → lidx < last_list
    → IsKnown rest
    → AllKnown s
    → ((k : ℕ) → k ≢ lidx → members_in k rest ≡ members_in k (starter p lidx s))
    → Changes p lidx x.members s (set_starter p lidx (x ∷ rest) s)
set_starter-Changes p lidx x rest s e l h k o = record {
  changed = ap (members_in lidx) (starter_same p lidx (x ∷ rest) s) ∙ members_head lidx x rest e;
  other_lists = λ q j n.
      starter_others p lidx q j (x ∷ rest) s (members_tail j x rest (λ w. n (w ∙ e)) ∙ o j n);
  other_players = λ q f n. ap (members_in lidx) (starter_apart p lidx q (x ∷ rest) s f n);
  known =
      set_starter-AllKnown p lidx (x ∷ rest) s (subst (λ (n : ℕ). n < last_list) (sym e) l, h) k;
}

-- `list_add` on the members of a list: the new ones, and whether the result is 0.
abbrev pub added : ℕ → ℕ → Option (List ℕ) → List (List ℕ) → List (List ℕ) × Bool
added limit lidx none ms = (ms, true)
added limit lidx (some t) ms =
    if is_personal lidx && leb limit (length ms)
    then (ms, false)
    else (ms ++ (first_word (skip_space t) ∷ []), true)

abbrev pub or_empty : Option (List (List ℕ)) → List (List ℕ)
or_empty none = []
or_empty (some ms) = ms

add_member-Changes :
    (limit p lidx : ℕ) (t : Option (List ℕ)) (x : Roster) (rest : List Roster) (s : Store)
    → x.which ≡ lidx
    → lidx < last_list
    → IsKnown rest
    → AllKnown s
    → ((k : ℕ) → k ≢ lidx → members_in k rest ≡ members_in k (starter p lidx s))
    → Changes p lidx (added limit lidx t x.members).0 s (add_member limit p lidx t x rest s).0
      × ((add_member limit p lidx t x rest s).1 ≡ (added limit lidx t x.members).1)
unfolding add_member
add_member-Changes limit p lidx none x rest s e l h k o =
    (set_starter-Changes p lidx x rest s e l h k o, refl)
add_member-Changes limit p lidx (some t) x rest s e l h k o =
    elim (Bool-cases (is_personal lidx && leb limit (length x.members))) [
      | inl f ↦ rw f (set_starter-Changes p lidx x rest s e l h k o, refl)
      | inr f ↦ rw f (
        set_starter-Changes p lidx
            (record x { members = x.members ++ (first_word (skip_space t) ∷ []) }) rest s e l h k o,
        refl,
      )
    ]

-- What `list_add` returns is what the abstract table says.
pub record Adds (limit p lidx : ℕ) (t : Option (List ℕ)) (s : Store) (r : Store × Bool)
    : Type 0 where
  pub changes : Changes p lidx (added limit lidx t (or_empty (view s p lidx))).0 s r.0
  pub answer : r.1 ≡ (added limit lidx t (or_empty (view s p lidx))).1

to-Adds :
    (limit p lidx : ℕ) (t : Option (List ℕ)) (s : Store) (ms : List (List ℕ)) (r : Store × Bool)
    → or_empty (view s p lidx) ≡ ms
    → Changes p lidx (added limit lidx t ms).0 s r.0 × (r.1 ≡ (added limit lidx t ms).1)
    → Adds limit p lidx t s r
to-Adds limit p lidx t s ms r e h = record {
  changes = subst (λ n. Changes p lidx (added limit lidx t n).0 s r.0) (sym e) h.0;
  answer = subst (λ n. r.1 ≡ (added limit lidx t n).1) (sym e) h.1;
}

-- list_add refines the table of lists: where the chains hold known lists only, it does not abort, the
-- list gets the first word of the text as its last member, unless the text is NULL or the list is a
-- personal one that is full, a list that was not there is there now, and no other list and no other
-- player's list changes, whatever the order of the chains is.
pub list_add_refines :
    (limit p lidx : ℕ) (t : Option (List ℕ)) (s : Store)
    → lidx < last_list
    → AllKnown s
    → (r : Store × Bool) × (list_add limit p lidx t s ≡ some r) × Adds limit p lidx t s r
unfolding list_add
list_add_refines limit p lidx t s l k =
    go (take_list lidx (starter p lidx s)) (take_list-Search lidx (starter p lidx s))
  where
    go :
        (w : Taken)
        → Search lidx (starter p lidx s) w
        → (r : Store × Bool) × (elim w [
          | missing ↦ some (
              add_member limit p lidx t
                (record { which = lidx; members = [] })
                (starter p lidx s)
                s)
          | aborted ↦ none
          | taken x rest ↦ some (add_member limit p lidx t x rest s)
        ]
            ≡ some r)
          × Adds limit p lidx t s r
    go missing h =
        let r =
          add_member limit p lidx t (record { which = lidx; members = [] }) (starter p lidx s) s in
        (
          r,
          refl,
          to-Adds limit p lidx t s [] r (ap or_empty h) (
              add_member-Changes limit p lidx t (record { which = lidx; members = [] })
                (starter p lidx s) s refl l (starter-IsKnown p lidx s k) k (λ j n. refl)),
        )
    go aborted h = absurd (h (starter-IsKnown p lidx s k))
    go (taken x rest) h =
        let r = add_member limit p lidx t x rest s in
        (
          r,
          refl,
          to-Adds limit p lidx t s x.members r (ap or_empty h.members) (
              add_member-Changes limit p lidx t x rest s h.kind l
                (h.known (starter-IsKnown p lidx s k)) k h.others),
        )
