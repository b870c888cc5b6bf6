-- ===== src/Formula/Clauses.antt =====
-- src/formula.c: `SetValidFormula` keeps the formulas of a player free of errors, and a match with
-- such formulas is decided by their value.
use docker_chessd.Prelude.{
  ℕ, zero, suc, ◌<◌, ◌≡◌, ◌≢◌, refl, sym, fun_ext, ◌∙◌, subst, inl, inr, Bool, true, false, ◌==◌,
  ==_iff, ==_refl, Bool-cases, List, Option, none, some, arith,
}
use docker_chessd.Formula.Eval.{World, Terms, Outcome, ran_out, trapped, failed, value}
use docker_chessd.Formula.Check.{
  check_line, Formulas, check_clause, check_formula, put_formula, is_value, new_formula,
  try_formula, set_valid_formula,
}
use docker_chessd.Formula.Shape.{Alike, EndAlike, Covered}
use docker_chessd.Formula.Independence.{
  Alike-check_line, Alike-check_clause, check_formula-Alike_flagged,
}

-- Every clause of the player has a value.
abbrev pub IsValid : World → Terms → Formulas → Type 0
IsValid w g fs = (c : ℕ) → is_value (check_formula w g fs c false) ≡ true

value-Alike : (a b : Outcome) → Alike false a b → is_value a ≡ is_value b
value-Alike trapped b h = cc h
value-Alike ran_out trapped h = refl
value-Alike (failed e) trapped h = refl
value-Alike (value v s) trapped h = cc h
value-Alike ran_out ran_out h = refl
value-Alike (failed e) (failed f) h = refl
value-Alike (value v s) (value x t) h = refl
value-Alike ran_out (failed f) h = absurd h
value-Alike ran_out (value x t) h = absurd h
value-Alike (failed e) ran_out h = absurd h
value-Alike (failed e) (value x t) h = absurd h
value-Alike (value v s) ran_out h = absurd h
value-Alike (value v s) (failed f) h = absurd h

values_EndAlike : (a b : Outcome) → is_value a ≡ true → is_value b ≡ true → EndAlike false a b
values_EndAlike ran_out b h k = cc
values_EndAlike trapped b h k = cc
values_EndAlike (failed e) b h k = cc
values_EndAlike (value v s) ran_out h k = cc
values_EndAlike (value v s) trapped h k = cc
values_EndAlike (value v s) (failed f) h k = cc
values_EndAlike (value v s) (value x t) h k = tt

module _ (w : World) (g : Terms) where
  -- The value of a lower clause, at any depth that allows it.
  IsValid-lower :
      (fs : Formulas) (k c : ℕ) (e : Bool)
      → Covered false e
      → c < k
      → is_value (check_formula w g fs c false) ≡ true
      → is_value (check_clause w g fs k c e) ≡ true
  unfolding check_formula
  IsValid-lower fs k c e ce l h =
      value-Alike (check_clause w g fs k c e) (check_clause w g fs (suc c) c false)
        (Alike-check_clause false w w g g fs k (suc c) c e false ce (λ q. q) l (omega arith))
      ∙ h

  -- A clause that is not written to stays valid, where the clauses below are valid before and after.
  unchanged-IsValid :
      (fs fs' : Formulas) (c : ℕ)
      → fs c ≡ fs' c
      → ((d : ℕ) → d < c → is_value (check_formula w g fs d false) ≡ true)
      → ((d : ℕ) → d < c → is_value (check_formula w g fs' d false) ≡ true)
      → is_value (check_formula w g fs c false) ≡ true
      → is_value (check_formula w g fs' c false) ≡ true
  unfolding check_formula check_clause
  unchanged-IsValid fs fs' c q before after h =
      subst (λ t. is_value (check_line w g (check_clause w g fs' c) c t false) ≡ true) q
        (sym (
            value-Alike (check_line w g (check_clause w g fs c) c (fs c) false)
              (check_line w g (check_clause w g fs' c) c (fs c) false)
              (Alike-check_line false w w g g (check_clause w g fs c) (check_clause w g fs' c) c
                (λ d e e' ce ce' l.
                  values_EndAlike _ _ (IsValid-lower fs c d e ce l (before d l))
                    (IsValid-lower fs' c d e' ce' l (after d l)))
                (fs c) false false (λ q. q) (λ q. q)))
          ∙ h)

  -- All clauses below `n` are valid after a change of one clause to a valid text.
  put_formula-IsValid :
      (fs fs' : Formulas) (clause n : ℕ)
      → ((d : ℕ) → d ≢ clause → fs d ≡ fs' d)
      → IsValid w g fs
      → is_value (check_formula w g fs' clause false) ≡ true
      → (c : ℕ) → c < n
      → is_value (check_formula w g fs' c false) ≡ true
  put_formula-IsValid fs fs' clause zero same valid new c l = absurd (omega (arith, l))
  put_formula-IsValid fs fs' clause (suc n) same valid new c l = elim (Bool-cases (c == clause)) [
    | inl e ↦
        subst (λ d. is_value (check_formula w g fs' d false) ≡ true) (sym ((==_iff c clause).0 e))
          new
    | inr e ↦
        unchanged-IsValid fs fs' c (same c (λ q. ground (arith, e, q))) (λ d k. valid d)
          (λ d k. put_formula-IsValid fs fs' clause n same valid new d (omega (arith, k, l)))
          (valid c)
  ]

-- What `SetValidFormula` leaves for its answer, where `t` is the new text or NULL.
pub record Set (w : World) (g : Terms) (clause : ℕ) (t : Option (List ℕ)) (fs fs' : Formulas)
    (answer : Bool) : Type 0 where
  pub others : (c : ℕ) → c ≢ clause → fs' c ≡ fs c
  pub taken :
      answer ≡ true → (fs' clause ≡ t) × (is_value (check_formula w g fs' clause false) ≡ true)
  pub refused : answer ≡ false → fs' clause ≡ fs clause

put_others :
    (fs : Formulas) (clause : ℕ) (t : Option (List ℕ)) (c : ℕ)
    → c ≢ clause
    → put_formula fs clause t c ≡ fs c
put_others fs clause t c n = ground (arith, n)

put_same : (fs : Formulas) (clause : ℕ) (t : Option (List ℕ)) → put_formula fs clause t clause ≡ t
put_same fs clause t = rw (==_refl clause) refl

null_value :
    (w : World) (g : Terms) (fs : Formulas) (c : ℕ)
    → fs c ≡ none
    → is_value (check_formula w g fs c false) ≡ true
unfolding check_formula check_clause check_line
null_value w g fs c e = rw e refl

try_formula-Set :
    (w : World) (g : Terms) (clause : ℕ) (t : Option (List ℕ)) (fs : Formulas)
    → Set w g clause t fs (try_formula w g clause t fs).0 (try_formula w g clause t fs).1
unfolding try_formula
try_formula-Set w g clause none fs = record {
  others = put_others fs clause none;
  taken = λ q.
      let e = put_same fs clause none in (e, null_value w g (put_formula fs clause none) clause e);
  refused = λ q. cc;
}
try_formula-Set w g clause (some s) fs =
    let fs' = put_formula fs clause (some s) in
    elim (Bool-cases (is_value (check_formula w g fs' clause false))) [
      | inl h ↦ rw h (record {
        others = put_others fs clause (some s);
        taken = λ q. (put_same fs clause (some s), h);
        refused = λ q. cc;
      })
      | inr h ↦ rw h (record {
        others = λ c n. put_others fs' clause (fs clause) c n ∙ put_others fs clause (some s) c n;
        taken = λ q. cc;
        refused = λ q. put_same fs' clause (fs clause);
      })
    ]

-- SetValidFormula writes to no clause but the one it is given. Where it returns 1, that clause holds
-- the text without the space before it, or NULL for none, and has a value; where it returns 0, the
-- clause is as it was.
set_valid_formula-Set :
    (w : World) (g : Terms) (clause : ℕ) (text : Option (List ℕ)) (fs : Formulas)
    → Set w g clause
        (new_formula text)
        fs
        (set_valid_formula w g clause text fs).0
        (set_valid_formula w g clause text fs).1
unfolding set_valid_formula
set_valid_formula-Set w g clause text fs = try_formula-Set w g clause (new_formula text) fs

-- Formulas without errors stay without errors, whatever text a player sets for whatever clause, at
-- the time and in the world of the call.
pub set_valid_formula-IsValid :
    (w w' : World) (g g' : Terms) (clause : ℕ) (text : Option (List ℕ)) (fs : Formulas)
    → IsValid w g fs
    → IsValid w g (set_valid_formula w' g' clause text fs).0
set_valid_formula-IsValid w w' g g' clause text fs valid c =
    let fs' = (set_valid_formula w' g' clause text fs).0 in
    let set = set_valid_formula-Set w' g' clause text fs in
    elim (Bool-cases (set_valid_formula w' g' clause text fs).1) [
      | inl e ↦
          put_formula-IsValid w g fs fs' clause (suc c) (λ d n. sym (set.others d n)) valid
            (value-Alike (check_formula w g fs' clause false) (check_formula w' g' fs' clause false)
                (check_formula-Alike_flagged false w w' g g' fs' clause false false (λ q. q)
                  (λ q. q))
              ∙ (set.taken e).1)
            c (omega arith)
      | inr e ↦
          subst (IsValid w g)
            (fun_ext (λ d. elim (Bool-cases (d == clause)) [
              | inl q ↦
                  subst (λ x. fs x ≡ fs' x) (sym ((==_iff d clause).0 q)) (sym (set.refused e))
              | inr q ↦ sym (set.others d (λ x. ground (arith, q, x)))
            ]))
            valid c
    ]
