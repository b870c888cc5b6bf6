-- ===== src/Formula/Total.antt =====
-- src/formula.c: `CheckFormula` ends on every text, with the fuel that is given to it.
use docker_chessd.Prelude.{
  ℕ, zero, suc, ◌≤◌, ◌<◌, ◌≡◌, ◌≢◌, subst, inl, inr, Bool, true, false, ltb, Bool-cases, List,
  Option, none, some, length, arith,
}
use docker_chessd.Prelude.Text.{skip_space}
use docker_chessd.Prelude.Int.{ℤ}
use docker_chessd.Formula.{Op, op_bad, op_none, op_rtparen, optype_none, op_type_of, scan_for_op}
use docker_chessd.Formula.Eval.{
  World, Terms, Checker, Lower, Outcome, ran_out, trapped, failed, value, and_then, scan_for_number,
}
use docker_chessd.Formula.Check.{
  apply_op, decided, eval_binary_op, operand, is_rtparen, leave, op_step, op_loop, check_text,
  Formulas, check_line, check_clause, check_formula,
}
use docker_chessd.Formula.Reading.{
  Within, Ends, Within-and_then, Within-le, Within-Ends, length-skip_space, length-op_at,
}
use docker_chessd.Formula.Ends.{Shrinks, LowerEnd, Within-scan_for_number}

length-scan_for_op :
    (s : List ℕ)
    → (length (scan_for_op s).1 ≤ length s)
      × (is_rtparen (scan_for_op s).0 ≡ false
          → 2 ≤ op_type_of (scan_for_op s).0
          → length (scan_for_op s).1 < length s)
unfolding scan_for_op
length-scan_for_op s =
    let h = length-op_at (skip_space s) in
    let l = length-skip_space s in (omega (arith, h.0, l), λ p q. omega (arith, h.1 p q, l))

Within-leave :
    (n : ℕ) (op : Op) (last r : List ℕ) (v : ℤ)
    → length last ≤ n
    → length r ≤ n
    → Within n (leave op last r v)
unfolding leave
Within-leave n op_bad last r v l k = tt
Within-leave n op_none last r v l k = k
Within-leave n op_rtparen last r v l k = k
Within-leave n _ last r v l k = l

Within-apply_op :
    (w : World) (n : ℕ) (op : Op) (a b : ℤ) (s : List ℕ)
    → length s ≤ n
    → Within n (apply_op w op a b s)
unfolding apply_op
Within-apply_op w n op a b s l = ground arith

module _ (w : World) (check : Checker) (n : ℕ) (shrinks : Shrinks check n) where
  Within-operand :
      (v : ℤ) (op : Op) (s : List ℕ) (eval : Bool)
      → length s < n
      → 1 ≤ op_type_of op
      → Within (length s) (operand w check v op s eval)
  unfolding operand eval_binary_op
  Within-operand v op s false l o = shrinks s (op_type_of op) false l o
  Within-operand v op s true l o = elim (Bool-cases (decided op v)) [
    | inl e ↦
        rw e (Within-and_then (length s) _ _ (shrinks s (op_type_of op) false l o) (λ x r k. k))
    | inr e ↦ rw e (
        Within-and_then (length s) _ _ (shrinks s (op_type_of op) true l o)
          (λ x r k. Within-apply_op w (length s) op v x r k))
  ]

  Within-op_step :
      (rounds : ℤ → List ℕ → Outcome) (op : Op) (last r : List ℕ) (v : ℤ) (op_type : ℕ)
      (eval : Bool)
      → length last ≤ n
      → 1 ≤ op_type
      → length r ≤ length last
      → (is_rtparen op ≡ false → 2 ≤ op_type_of op → length r < length last)
      → ((x : ℤ) (t : List ℕ) → length t < length last → Within (length last) (rounds x t))
      → Within (length last) (op_step w check rounds op last r v op_type eval)
  unfolding op_step
  Within-op_step rounds op last r v op_type eval l o h k more =
      elim (Bool-cases (ltb op_type (op_type_of op))) [
        | inr e ↦ rw e (Within-leave (length last) op last r v (omega arith) h)
        | inl e ↦ elim (Bool-cases (is_rtparen op)) [
          | inl p ↦ rw (e, p) tt
          | inr p ↦
              let t : 2 ≤ op_type_of op = ground (arith, e, o) in
              let q : length r < length last = k p t in
              rw (e, p)
                (continue (operand w check v op r eval) q
                  (Within-operand v op r eval (omega (arith, q, l)) (omega (arith, t))))
        ]
      ]
    where
      continue :
          (a : Outcome)
          → length r < length last
          → Within (length r) a
          → Within (length last) (and_then a rounds)
      continue ran_out q z = z
      continue trapped q z = tt
      continue (failed e) q z = tt
      continue (value x t) q z = more x t (omega (arith, q, z))

  Within-op_loop :
      (m : ℕ) (v : ℤ) (s : List ℕ) (op_type : ℕ) (eval : Bool)
      → length s ≤ n
      → length s < m
      → 1 ≤ op_type
      → Within (length s) (op_loop w check m v s op_type eval)
  unfolding op_loop
  Within-op_loop zero v s op_type eval l k o = omega (arith, k)
  Within-op_loop (suc m) v s op_type eval l k o =
      let h = length-scan_for_op s in
      Within-op_step (λ x t. op_loop w check m x t op_type eval) (scan_for_op s).0 s
        (scan_for_op s).1 v op_type eval l o h.0 h.1
        (λ x t q.
          Within-le (length t) (length s) _ (omega (arith, q))
            (Within-op_loop m x t op_type eval (omega (arith, q, l)) (omega (arith, q, k)) o))

module _ (w : World) (g : Terms) (lower : Lower) (clause : ℕ)
    (lower_ends : LowerEnd lower clause) where
  Within-check_text :
      (n : ℕ) (s : List ℕ) (op_type : ℕ) (eval : Bool)
      → length s < n
      → 1 ≤ op_type
      → Within (length s) (check_text w g lower clause n s op_type eval)
  unfolding check_text
  Within-check_text zero s op_type eval l o = omega (arith, l)
  Within-check_text (suc n) s op_type eval l o =
      let check = check_text w g lower clause n in
      let shrinks : Shrinks check n = Within-check_text n in
      Within-and_then (length s) (scan_for_number w g check lower clause s op_type eval)
        (λ v r. op_loop w check (suc n) v r op_type eval)
        (Within-scan_for_number check n shrinks w g lower clause lower_ends s op_type eval
          (omega (arith, l)))
        (λ v r k. Within-le (length r) (length s) _ k (
          Within-op_loop w check n shrinks (suc n) v r op_type eval (omega (arith, k, l))
            (omega (arith, k, l)) o))

  Ends-check_line : (t : Option (List ℕ)) (eval : Bool) → Ends (check_line w g lower clause t eval)
  unfolding check_line
  Ends-check_line none eval = tt
  Ends-check_line (some s) eval =
      Within-Ends (length s) _
        (Within-check_text (suc (length s)) s optype_none eval (omega arith) (omega arith))

-- A clause is read when its depth is above its number.
pub Ends-check_clause :
    (w : World) (g : Terms) (fs : Formulas) (k c : ℕ) (eval : Bool)
    → c < k
    → Ends (check_clause w g fs k c eval)
unfolding check_clause
Ends-check_clause w g fs zero c eval l = omega (arith, l)
Ends-check_clause w g fs (suc k) c eval l =
    Ends-check_line w g (check_clause w g fs k) c
      (λ d e q. Ends-check_clause w g fs k d e (omega (arith, q, l))) (fs c) eval

-- The loops and the recursion of CheckFormula come to an end: with the fuel of one more than the length of
-- the text, and with as many levels of references as the number of the clause allows, every clause has a
-- value or an error, or the program is stopped in a division of INT_MIN by -1.
pub check_formula-ends :
    (w : World) (g : Terms) (fs : Formulas) (c : ℕ) (eval : Bool)
    → check_formula w g fs c eval ≢ ran_out
unfolding check_formula
check_formula-ends w g fs c eval e =
    subst Ends e (Ends-check_clause w g fs (suc c) c eval (omega arith))
