-- ===== src/ServerLists/Demotions.antt =====
-- src/lists.c and src/playerdb.c: the player who loses the managers' channel.
use docker_chessd.Prelude.{
  ℕ, zero, suc, ◌+◌, ◌≤◌, ◌<◌, ◌≡◌, refl, ap, ◌∙◌, inl, inr, true, false, not, ◌&&◌, ◌==◌, Option,
  none, some, List, Bool-cases, arith, and-true_parts,
}
use docker_chessd.Prelude.Text.{same_name}
use docker_chessd.ServerLists.Managers.{
  Status, player_empty, player_login, player_password, player_other, is_unnamed, Account, Players,
  has_name, find_from, player_find_bylogin, list_manager, positive, demoted,
}

-- A player who is logged in under the name, the case of letters apart.
abbrev pub IsNamed : List ℕ → Account → Type 0
IsNamed name a = (a.status ≡ player_other) × (a.has_login ≡ true) × (same_name a.name name ≡ true)

-- The first such player, who is not number 0, is named by a registered player who changes the list of
-- the managers.
pub record Demotes (players : Players) (p lidx : ℕ) (member : List ℕ) (q : ℕ) : Type 0 where
  pub by_registered : (players.parray p).registered ≡ true
  pub of_managers : lidx ≡ list_manager
  pub not_zero : 1 ≤ q
  pub in_table : q < players.p_num
  pub is_named : IsNamed member (players.parray q)
  pub none_before : (i : ℕ) → i < q → ¬ IsNamed member (players.parray i)

status_lem : (s : Status) → not (is_unnamed s) ≡ true → s ≡ player_other
status_lem player_empty e = cc e
status_lem player_login e = cc e
status_lem player_password e = cc e
status_lem player_other e = refl

named_lem : (name : List ℕ) (a : Account) → has_name name a ≡ true → IsNamed name a
named_lem name a e =
    let h = and-true_parts (not (is_unnamed a.status)) _ e in
    let k = and-true_parts a.has_login (same_name a.name name) h.1 in
    (status_lem a.status h.0, k.0, k.1)

unnamed_lem : (name : List ℕ) (a : Account) → has_name name a ≡ false → ¬ IsNamed name a
unnamed_lem name a e (s, l, n) = let w = rw (s, l, n) at e in cc w

-- What the loop finds from `i` on.
abbrev Finds : (ℕ → Account) → List ℕ → ℕ → ℕ → Option ℕ → Type 0
Finds parray name left i none = (j : ℕ) → i ≤ j → j < i + left → has_name name (parray j) ≡ false
Finds parray name left i (some q) =
    (i ≤ q)
    × (q < i + left)
    × (has_name name (parray q) ≡ true)
    × ((j : ℕ) → i ≤ j → j < q → has_name name (parray j) ≡ false)

later-Finds :
    (parray : ℕ → Account) (name : List ℕ) (left i : ℕ) (o : Option ℕ)
    → has_name name (parray i) ≡ false
    → Finds parray name left (suc i) o
    → Finds parray name (suc left) i o
later-Finds parray name left i none e h = λ j l m. elim (Bool-cases (j == i)) [
  | inl t ↦ let w : j ≡ i = ground (arith, t) in ap (λ k. has_name name (parray k)) w ∙ e
  | inr t ↦ h j (ground (arith, t, l)) (omega (arith, m))
]
later-Finds parray name left i (some q) e (a, b, c, d) = (
  omega (arith, a),
  omega (arith, b),
  c,
  λ j l m. elim (Bool-cases (j == i)) [
    | inl t ↦ let w : j ≡ i = ground (arith, t) in ap (λ k. has_name name (parray k)) w ∙ e
    | inr t ↦ d j (ground (arith, t, l)) m
  ],
)

find_from-Finds :
    (parray : ℕ → Account) (name : List ℕ) (left i : ℕ)
    → Finds parray name left i (find_from parray name left i)
unfolding find_from
find_from-Finds parray name zero i = λ j l m. absurd (omega (arith, l, m))
find_from-Finds parray name (suc left) i = elim (Bool-cases (has_name name (parray i))) [
  | inl e ↦ rw e (omega arith, omega arith, e, λ j l m. absurd (omega (arith, l, m)))
  | inr e ↦ rw e (
      later-Finds parray name left i (find_from parray name left (suc i)) e
        (find_from-Finds parray name left (suc i)))
]

-- What `demoted` tells.
abbrev pub Tells : Players → ℕ → ℕ → List ℕ → Option ℕ → Type 0
Tells players p lidx member none = (q : ℕ) → ¬ Demotes players p lidx member q
Tells players p lidx member (some q) = Demotes players p lidx member q

positive-Tells :
    (players : Players) (p lidx : ℕ) (member : List ℕ) (o : Option ℕ)
    → (players.parray p).registered ≡ true
    → lidx ≡ list_manager
    → Finds players.parray member players.p_num 0 o
    → Tells players p lidx member (positive o)
positive-Tells players p lidx member none r m h = λ q d.
    unnamed_lem member (players.parray q) (h q (omega arith) (omega (arith, d.in_table))) d.is_named
positive-Tells players p lidx member (some zero) r m (a, b, c, e) =
    λ q d. d.none_before 0 d.not_zero (named_lem member (players.parray 0) c)
positive-Tells players p lidx member (some (suc n)) r m (a, b, c, e) = record {
  by_registered = r;
  of_managers = m;
  not_zero = omega arith;
  in_table = omega (arith, b);
  is_named = named_lem member (players.parray (suc n)) c;
  none_before = λ i l. unnamed_lem member (players.parray i) (e i (omega arith) l);
}

no-Demotes :
    (players : Players) (p lidx q : ℕ) (member : List ℕ)
    → ((players.parray p).registered && lidx == list_manager) ≡ false
    → ¬ Demotes players p lidx member q
no-Demotes players p lidx q member e d =
    let r = d.by_registered in let m = d.of_managers in absurd (ground (arith, e, r, m))

pub demoted-Tells :
    (players : Players) (p lidx : ℕ) (member : List ℕ)
    → Tells players p lidx member (demoted players p lidx member)
unfolding demoted player_find_bylogin
demoted-Tells players p lidx member =
    elim (Bool-cases ((players.parray p).registered && lidx == list_manager)) [
      | inl e ↦
          let h = and-true_parts (players.parray p).registered (lidx == list_manager) e in
          let m = h.1 in
          rw e (
            positive-Tells players p lidx member (find_from players.parray member players.p_num 0)
              h.0 (ground (arith, m)) (find_from-Finds players.parray member players.p_num 0))
      | inr e ↦ rw e (λ q d. no-Demotes players p lidx q member e d)
    ]
