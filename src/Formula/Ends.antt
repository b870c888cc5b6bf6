-- ===== src/Formula/Ends.antt =====
-- src/formula.c: a number, a variable or an expression in parentheses is read to its end or to an
-- error, where the formulas inside are.
use docker_chessd.Prelude.{
  ℕ, suc, ◌-◌, ◌≤◌, ◌<◌, ◌≡◌, refl, inl, inr, Bool, ◌==◌, Bool-cases, List, [], ◌∷◌, Option, none,
  some, length, arith,
}
use docker_chessd.Prelude.Text.{codes, skip_space}
use docker_chessd.Formula.{
  move_index_past_string, first_text, optype_none, optype_paren, optype_unary, mymaxtime, maxtime,
  variables, Variable,
}
use docker_chessd.Formula.Eval.{
  World, Terms, Checker, Lower, close_paren, in_parens, get_number_inside_parens, found_variable,
  referred, clause_reference, named_variable, var_to_token, scan_for_number,
}
use docker_chessd.Formula.Reading.{
  Within, Ends, Within-and_then, Within-le, length-skip_space, length-move_index_past_string,
  length-first_text, variables_texts, Within-close_paren, Within-timed, Within-referred,
  Within-number, Within-unary,
}

-- What is known of the calls of `CheckFormula` on shorter texts, and of those on lower clauses.
abbrev pub Shrinks : Checker → ℕ → Type 0
Shrinks check n =
    (s : List ℕ) (op_type : ℕ) (eval : Bool)
    → length s < n
    → 1 ≤ op_type
    → Within (length s) (check s op_type eval)

abbrev pub LowerEnd : Lower → ℕ → Type 0
LowerEnd lower clause = (c : ℕ) (eval : Bool) → c < clause → Ends (lower c eval)

-- The parts of a text of at most `n` characters, when shorter ones are read to their ends.
module _ (check : Checker) (n : ℕ) (shrinks : Shrinks check n) where
  Within-in_parens :
      (m : ℕ) (o : Option (List ℕ)) (eval : Bool)
      → m ≤ n
      → ((r : List ℕ) → o ≡ some r → length r < m)
      → Within m (in_parens check o eval)
  unfolding in_parens
  Within-in_parens m none eval l h = tt
  Within-in_parens m (some r) eval l h =
      let q : length r < m = h r refl in
      Within-and_then m (check r optype_paren eval) close_paren
        (Within-le (length r) m _ (omega (arith, q))
          (shrinks r optype_paren eval (omega (arith, q, l)) (omega arith)))
        (λ v t k. Within-le (length t) m _ k (Within-close_paren v t))

  Within-get_number_inside_parens :
      (s : List ℕ) (eval : Bool)
      → length s ≤ n
      → Within (length s) (get_number_inside_parens check s eval)
  unfolding get_number_inside_parens
  Within-get_number_inside_parens s eval l =
      Within-in_parens (length s) (move_index_past_string (skip_space s) (codes "(")) eval l (λ r e.
        omega (
          arith,
          length-move_index_past_string (skip_space s) (codes "(") r e,
          length-skip_space s,
        ))

  Within-named_variable :
      (w : World) (g : Terms) (v : Variable) (s : List ℕ) (eval : Bool)
      → length s ≤ n
      → Within (length s) (named_variable w g check v s eval)
  unfolding named_variable
  Within-named_variable w g mymaxtime s eval l =
      Within-timed (length s) _ _ (Within-get_number_inside_parens s eval l)
  Within-named_variable w g maxtime s eval l =
      Within-timed (length s) _ _ (Within-get_number_inside_parens s eval l)
  Within-named_variable w g _ s eval l = omega arith

  module _ (w : World) (g : Terms) (lower : Lower) (clause : ℕ)
      (lower_ends : LowerEnd lower clause) where
    Within-clause_reference :
        (s : List ℕ) (eval : Bool) → Within (length s) (clause_reference lower clause s eval)
    unfolding clause_reference
    Within-clause_reference [] eval = tt
    Within-clause_reference (c ∷ []) eval = tt
    Within-clause_reference (c ∷ d ∷ s) eval =
        let h : d - b'1' < clause → Ends (lower (d - b'1') eval) = lower_ends (d - b'1') eval in
        let r : Ends (lower (d - b'1') eval)
            → Within (suc (suc (length s))) (referred (lower (d - b'1') eval) s) =
          λ k. Within-referred (suc (suc (length s))) (lower (d - b'1') eval) s k (omega arith) in
        ground (arith, h, r)

    Within-found_variable :
        (s : List ℕ) (o : Option (Variable × List ℕ)) (eval : Bool)
        → length s ≤ n
        → first_text variables s ≡ o
        → Within (length s) (found_variable w g check lower clause s o eval)
    unfolding found_variable
    Within-found_variable s none eval l e = Within-clause_reference s eval
    Within-found_variable s (some (v, r)) eval l e =
        let q = length-first_text variables s v r variables_texts e in
        Within-le (length r) (length s) _ (omega (arith, q))
          (Within-named_variable w g v r eval (omega (arith, q, l)))

    Within-var_to_token :
        (s : List ℕ) (eval : Bool)
        → length s ≤ n
        → Within (length s) (var_to_token w g check lower clause s eval)
    unfolding var_to_token
    Within-var_to_token s eval l = Within-found_variable s (first_text variables s) eval l refl

    pub Within-scan_for_number :
        (s : List ℕ) (op_type : ℕ) (eval : Bool)
        → length s ≤ n
        → Within (length s) (scan_for_number w g check lower clause s op_type eval)
    unfolding scan_for_number
    Within-scan_for_number [] op_type eval l = elim (Bool-cases (op_type == optype_none)) [
      | inl e ↦ rw e (omega arith)
      | inr e ↦ rw e tt
    ]
    Within-scan_for_number (c ∷ s) op_type eval l =
        let shorter : (o : ℕ)
            → Within (suc (length s)) (scan_for_number w g check lower clause s o eval) =
          λ o.
            Within-le (length s) (suc (length s)) _ (omega arith)
              (Within-scan_for_number s o eval (omega (arith, l))) in
        let ps = Within-get_number_inside_parens (c ∷ s) eval l in
        let us = Within-unary (suc (length s)) c s _ (shorter optype_unary) in
        let ns = Within-number (c ∷ s) in
        let vs = Within-var_to_token (c ∷ s) eval l in
        ground (arith, shorter op_type, ps, us, ns, vs)
