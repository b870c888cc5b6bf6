-- ===== src/Formula/Independence.antt =====
-- src/formula.c: whether a formula has an error depends neither on the game nor on the players, nor on
-- `eval`.
use docker_chessd.Prelude.{
  not, ◌&&◌, ◌⊎◌, ℕ, zero, suc, ◌≤◌, ◌<◌, ◌≡◌, refl, sym, subst, inl, inr, Bool, true, false, ltb,
  Bool-cases, List, Option, none, some, length, arith,
}
use docker_chessd.Prelude.Int.{ℤ, negsuc, eqℤ, ◌/ℤ◌, of_bool, is_zero, is_int_min}
use docker_chessd.Formula.{
  Op, op_bad, op_none, op_rtparen, op_or, op_and, op_eq, op_neq, op_gt, op_ge, op_lt, op_le,
  op_plus, op_minus, op_mult, op_div, optype_none, op_type_of, scan_for_op,
}
use docker_chessd.Formula.Eval.{
  World, Terms, Checker, Lower, Outcome, ran_out, trapped, failed, value, and_then, scan_for_number,
}
use docker_chessd.Formula.Check.{
  apply_op, decided, eval_binary_op, operand, is_rtparen, leave, op_step, op_loop, check_text,
  check_line, Formulas, check_clause, check_formula,
}
use docker_chessd.Formula.Shape.{
  Alike, Covered, trapped_right, Alike-EndAlike, Alike-and_then, Alike-if, AlikeCheckers,
  AlikeLower, Alike-scan_for_number,
}

and_then-value : (a : Outcome) → a ≡ and_then a value
and_then-value ran_out = refl
and_then-value trapped = refl
and_then-value (failed e) = refl
and_then-value (value v s) = refl

-- A value, or a stop where `ok` allows it.
abbrev Plain : Bool → Outcome → List ℕ → Type 0
Plain ok o s = ((v : ℤ) × (o ≡ value v s)) ⊎ ((o ≡ trapped) × (ok ≡ true))

apply_op-value :
    (w : World) (op : Op) (a b : ℤ) (s : List ℕ)
    → 1 ≤ op_type_of op
    → Plain true (apply_op w op a b s) s
unfolding apply_op op_type_of
apply_op-value w op_bad a b s l = absurd (omega (arith, l))
apply_op-value w op_none a b s l = inl (_, refl)
apply_op-value w op_rtparen a b s l = inl (_, refl)
apply_op-value w op_or a b s l = inl (_, refl)
apply_op-value w op_and a b s l = inl (_, refl)
apply_op-value w op_eq a b s l = inl (_, refl)
apply_op-value w op_neq a b s l = inl (_, refl)
apply_op-value w op_gt a b s l = inl (_, refl)
apply_op-value w op_ge a b s l = inl (_, refl)
apply_op-value w op_lt a b s l = inl (_, refl)
apply_op-value w op_le a b s l = inl (_, refl)
apply_op-value w op_plus a b s l = inl (_, refl)
apply_op-value w op_minus a b s l = inl (_, refl)
apply_op-value w op_mult a b s l = inl (_, refl)
apply_op-value w op_div a b s l = elim (Bool-cases (is_zero b)) [
  | inl e ↦ inl (w.by_fudge a, rw e refl)
  | inr e ↦ elim (Bool-cases (is_int_min a && eqℤ b (negsuc 0))) [
    | inl t ↦ inr (rw (e, t) refl, refl)
    | inr t ↦ inl (a /ℤ b, rw (e, t) refl)
  ]
]

-- An operand is what a call of `CheckFormula` leaves, with another value.
record Passes (w : World) (check : Checker) (v : ℤ) (op : Op) (s : List ℕ) (eval : Bool)
    : Type 0 where
  evaluated : Bool
  then_value : ℤ → List ℕ → Outcome
  form : operand w check v op s eval ≡ and_then (check s (op_type_of op) evaluated) then_value
  asked : evaluated ≡ true → eval ≡ true
  plain : (x : ℤ) (r : List ℕ) → Plain eval (then_value x r) r

operand-Passes :
    (w : World) (check : Checker) (v : ℤ) (op : Op) (s : List ℕ) (eval : Bool)
    → 1 ≤ op_type_of op
    → Passes w check v op s eval
unfolding operand eval_binary_op
operand-Passes w check v op s false l = record {
  evaluated = false;
  then_value = value;
  form = and_then-value (check s (op_type_of op) false);
  asked = λ q. q;
  plain = λ x r. inl (x, refl);
}
operand-Passes w check v op s true l = elim (Bool-cases (decided op v)) [
  | inl e ↦ record {
    evaluated = false;
    then_value = λ x r. value (of_bool (not (is_zero v))) r;
    form = rw e refl;
    asked = λ q. refl;
    plain = λ x r. inl (of_bool (not (is_zero v)), refl);
  }
  | inr e ↦ record {
    evaluated = true;
    then_value = λ x r. apply_op w op v x r;
    form = rw e refl;
    asked = λ q. refl;
    plain = λ x r. apply_op-value w op v x r l;
  }
]

module _ (ok : Bool) where
  Alike-values :
      (a b : Outcome) (s : List ℕ) (e e' : Bool)
      → Covered ok e
      → Covered ok e'
      → Plain e a s
      → Plain e' b s
      → Alike ok a b
  Alike-values a b s e e' ce ce' (inl h) (inl k) =
      subst (λ x. Alike ok x b) (sym h.1) (subst (λ x. Alike ok (value h.0 s) x) (sym k.1) refl)
  Alike-values a b s e e' ce ce' (inr h) k = subst (λ x. Alike ok x b) (sym h.0) (ce h.1)
  Alike-values a b s e e' ce ce' (inl h) (inr k) =
      subst (λ x. Alike ok a x) (sym k.0) (trapped_right ok a (ce' k.1))

  Alike-leave :
      (op : Op) (last r : List ℕ) (v v' : ℤ) → Alike ok (leave op last r v) (leave op last r v')
  unfolding leave
  Alike-leave op_bad last r v v' = refl
  Alike-leave op_none last r v v' = refl
  Alike-leave op_rtparen last r v v' = refl
  Alike-leave _ last r v v' = refl

  module _ (w w' : World) (check check' : Checker) (alike : AlikeCheckers ok check check')
      (e e' : Bool) (ce : Covered ok e) (ce' : Covered ok e') where
    Alike-operand :
        (v v' : ℤ) (op : Op) (s : List ℕ)
        → 1 ≤ op_type_of op
        → Alike ok (operand w check v op s e) (operand w' check' v' op s e')
    Alike-operand v v' op s l =
        let h = operand-Passes w check v op s e l in
        let k = operand-Passes w' check' v' op s e' l in
        subst (λ x. Alike ok x (operand w' check' v' op s e')) (sym h.form)
          (subst (λ x. Alike ok (and_then (check s (op_type_of op) h.evaluated) h.then_value) x)
            (sym k.form)
            (Alike-and_then ok (check s (op_type_of op) h.evaluated)
              (check' s (op_type_of op) k.evaluated) h.then_value k.then_value
              (alike s (op_type_of op) h.evaluated k.evaluated (λ q. ce (h.asked q))
                (λ q. ce' (k.asked q)))
              (λ x y r.
                Alike-values (h.then_value x r) (k.then_value y r) r e e' ce ce' (h.plain x r)
                  (k.plain y r))))

    Alike-op_loop :
        (m : ℕ) (v v' : ℤ) (s : List ℕ) (op_type : ℕ)
        → Alike ok (op_loop w check m v s op_type e) (op_loop w' check' m v' s op_type e')
    unfolding op_loop op_step
    Alike-op_loop zero v v' s op_type = tt
    Alike-op_loop (suc m) v v' s op_type =
        let op = (scan_for_op s).0 in
        let r = (scan_for_op s).1 in
        elim (Bool-cases (ltb op_type (op_type_of op))) [
          | inl h ↦ rw h (
              Alike-if ok (is_rtparen op) _ _ _ _ refl (
                Alike-and_then ok (operand w check v op r e) (operand w' check' v' op r e')
                  (λ x t. op_loop w check m x t op_type e)
                  (λ x t. op_loop w' check' m x t op_type e')
                  (Alike-operand v v' op r (ground (arith, h)))
                  (λ x y t. Alike-op_loop m x y t op_type)))
          | inr h ↦ rw h (Alike-leave op s r v v')
        ]

  module _ (w w' : World) (g g' : Terms) (lower lower' : Lower) (clause : ℕ)
      (below : AlikeLower ok lower lower' clause) where
    Alike-check_text :
        (n : ℕ)
        → AlikeCheckers ok (check_text w g lower clause n) (check_text w' g' lower' clause n)
    unfolding check_text
    Alike-check_text zero s op_type e e' ce ce' = tt
    Alike-check_text (suc n) s op_type e e' ce ce' =
        let check = check_text w g lower clause n in
        let check' = check_text w' g' lower' clause n in
        let alike : AlikeCheckers ok check check' = Alike-check_text n in
        Alike-and_then ok (scan_for_number w g check lower clause s op_type e)
          (scan_for_number w' g' check' lower' clause s op_type e')
          (λ v r. op_loop w check (suc n) v r op_type e)
          (λ v r. op_loop w' check' (suc n) v r op_type e')
          (Alike-scan_for_number ok w w' g g' check check' alike e e' ce ce' lower lower' clause
            below s op_type)
          (λ v x r. Alike-op_loop w w' check check' alike e e' ce ce' (suc n) v x r op_type)

    -- A clause is read alike when the clauses below it end alike.
    pub Alike-check_line :
        (t : Option (List ℕ)) (e e' : Bool)
        → Covered ok e
        → Covered ok e'
        → Alike ok (check_line w g lower clause t e) (check_line w' g' lower' clause t e')
    unfolding check_line
    Alike-check_line none e e' ce ce' = refl
    Alike-check_line (some s) e e' ce ce' =
        Alike-check_text (suc (length s)) s optype_none e e' ce ce'

  -- The depth of references does not matter either, where it is above the number of the clause.
  pub Alike-check_clause :
      (w w' : World) (g g' : Terms) (fs : Formulas) (k k' c : ℕ) (e e' : Bool)
      → Covered ok e
      → Covered ok e'
      → c < k
      → c < k'
      → Alike ok (check_clause w g fs k c e) (check_clause w' g' fs k' c e')
  unfolding check_clause
  Alike-check_clause w w' g g' fs zero k' c e e' ce ce' l h = absurd (omega (arith, l))
  Alike-check_clause w w' g g' fs (suc k) zero c e e' ce ce' l h = absurd (omega (arith, h))
  Alike-check_clause w w' g g' fs (suc k) (suc k') c e e' ce ce' l h =
      Alike-check_line w w' g g' (check_clause w g fs k) (check_clause w' g' fs k') c
        (λ d x x' cx cx' q.
          Alike-EndAlike ok (check_clause w g fs k d x) (check_clause w' g' fs k' d x') (
            Alike-check_clause w w' g g' fs k k' d x x' cx cx' (omega (arith, l, q))
              (omega (arith, h, q))))
        (fs c) e e' ce ce'

-- A stop, where values are asked for.
abbrev pub Stops : Bool → Outcome → Type 0
Stops e trapped = e ≡ true
Stops e ran_out = Unit
Stops e (failed x) = Unit
Stops e (value v s) = Unit

Alike-Stops : (e : Bool) (a : Outcome) → Alike e a a → Stops e a
Alike-Stops e trapped h = h
Alike-Stops e ran_out h = tt
Alike-Stops e (failed x) h = tt
Alike-Stops e (value v s) h = tt

pub check_formula-Alike_flagged :
    (ok : Bool) (w w' : World) (g g' : Terms) (fs : Formulas) (c : ℕ) (e e' : Bool)
    → Covered ok e
    → Covered ok e'
    → Alike ok (check_formula w g fs c e) (check_formula w' g' fs c e')
unfolding check_formula
check_formula-Alike_flagged ok w w' g g' fs c e e' ce ce' =
    Alike-check_clause ok w w' g g' fs (suc c) (suc c) c e e' ce ce' (omega arith) (omega arith)

-- Whatever the game, the two players and their ratings are, and whether the value is asked for or
-- not: CheckFormula has the same error on a clause, or a value both times and the same text left,
-- unless one of the two is stopped in a division of INT_MIN by -1, which happens only where the value is
-- asked for.
pub check_formula-Alike :
    (w w' : World) (g g' : Terms) (fs : Formulas) (c : ℕ) (e e' : Bool)
    → Alike true (check_formula w g fs c e) (check_formula w' g' fs c e')
      × Stops e (check_formula w g fs c e)
      × Stops e' (check_formula w' g' fs c e')
check_formula-Alike w w' g g' fs c e e' = (
  check_formula-Alike_flagged true w w' g g' fs c e e' (λ q. refl) (λ q. refl),
  Alike-Stops e (check_formula w g fs c e)
      (check_formula-Alike_flagged e w w g g fs c e e (λ q. q) (λ q. q)),
  Alike-Stops e' (check_formula w' g' fs c e')
      (check_formula-Alike_flagged e' w' w' g' g' fs c e' e' (λ q. q) (λ q. q)),
)
