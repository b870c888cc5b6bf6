-- ===== src/Formula/Check.antt =====
-- src/formula.c: `EvalBinaryOp`, `CheckFormula`, `GameMatchesFormula` without the explanation that it
-- collects for the challenger, and `SetValidFormula`.
use docker_chessd.Prelude.{
  ℕ, zero, suc, Bool, true, false, ◌&&◌, ◌||◌, not, ltb, ◌==◌, if◌then◌else◌, List, [], ◌∷◌, Option,
  none, some, length,
}
use docker_chessd.Prelude.Text.{skip_space}
use docker_chessd.Prelude.Int.{
  ℤ, pos, negsuc, ◌+ℤ◌, ◌-ℤ◌, ◌*ℤ◌, ◌/ℤ◌, ltℤ, eqℤ, of_bool, is_zero, wrap32, is_int_min,
}
use docker_chessd.Formula.{
  Op, op_bad, op_none, op_rtparen, op_or, op_and, op_eq, op_neq, op_gt, op_ge, op_lt, op_le,
  op_plus, op_minus, op_mult, op_div, optype_none, op_type_of, scan_for_op,
}
use docker_chessd.Formula.Eval.{
  World, Terms, Checker, Lower, Outcome, ran_out, trapped, failed, value, and_then, err_badop,
  err_paren, scan_for_number,
}

-- The `switch` of `EvalBinaryOp`; a division by 0 divides by FUDGE_FACTOR, and that of INT_MIN by -1
-- has no result: the machine stops the program.
unfoldable pub apply_op : World → Op → ℤ → ℤ → List ℕ → Outcome
apply_op w op_bad a b s = failed err_badop
apply_op w op_none a b s = value a s
apply_op w op_rtparen a b s = value a s
apply_op w op_or a b s = value (of_bool (not (is_zero a) || not (is_zero b))) s
apply_op w op_and a b s = value (of_bool (not (is_zero a) && not (is_zero b))) s
apply_op w op_eq a b s = value (of_bool (eqℤ a b)) s
apply_op w op_neq a b s = value (of_bool (not (eqℤ a b))) s
apply_op w op_gt a b s = value (of_bool (ltℤ b a)) s
apply_op w op_ge a b s = value (of_bool (not (ltℤ a b))) s
apply_op w op_lt a b s = value (of_bool (ltℤ a b)) s
apply_op w op_le a b s = value (of_bool (not (ltℤ b a))) s
apply_op w op_plus a b s = value (wrap32 (a +ℤ b)) s
apply_op w op_minus a b s = value (wrap32 (a -ℤ b)) s
apply_op w op_mult a b s = value (wrap32 (a *ℤ b)) s
apply_op w op_div a b s =
    if is_zero b
    then value (World.by_fudge w a) s
    else if is_int_min a && eqℤ b (negsuc 0)
    then trapped
    else value (a /ℤ b) s

-- Where the left operand decides a disjunction or a conjunction.
abbrev pub decided : Op → ℤ → Bool
decided op_or a = not (is_zero a)
decided op_and a = is_zero a
decided _ a = false

-- `EvalBinaryOp`. A decided disjunction has the value 1, a decided conjunction the value 0 that the
-- left operand has already; the right operand is passed over.
unfoldable pub eval_binary_op : World → Checker → ℤ → Op → List ℕ → Outcome
unfolding apply_op op_type_of
eval_binary_op w check left op s =
    if decided op left
    then and_then (check s (op_type_of op) false)
        (λ right r. value (of_bool (not (is_zero left))) r)
    else and_then (check s (op_type_of op) true) (λ right r. apply_op w op left right r)

-- The operand behind an operator: with `eval` 0 it is passed over.
unfoldable pub operand : World → Checker → ℤ → Op → List ℕ → Bool → Outcome
unfolding eval_binary_op op_type_of
operand w check token op s eval =
    if not eval then check s (op_type_of op) false else eval_binary_op w check token op s

abbrev pub is_rtparen : Op → Bool
is_rtparen op_rtparen = true
is_rtparen _ = false

-- The end of `CheckFormula`, with the text at `lastPos` and the one behind the operator.
unfoldable pub leave : Op → List ℕ → List ℕ → ℤ → Outcome
leave op_bad last r token = failed err_badop
leave op_none last r token = value token r
leave op_rtparen last r token = value token r
leave op last r token = value token last

-- One round of the loop of `CheckFormula`: the operator, the text before and behind it, and the
-- further rounds.
unfoldable pub op_step :
    World → Checker → (ℤ → List ℕ → Outcome) → Op → List ℕ → List ℕ → ℤ → ℕ → Bool → Outcome
unfolding op_type_of operand leave
op_step w check rounds op last r token op_type eval =
    if ltb op_type (op_type_of op)
    then (if is_rtparen op
        then failed err_paren
        else and_then (operand w check token op r eval) rounds)
    else leave op last r token

-- The loop of `CheckFormula` over the operators, on fuel.
unfoldable pub op_loop : World → Checker → ℕ → ℤ → List ℕ → ℕ → Bool → Outcome
unfolding scan_for_op op_step
op_loop w check zero token s op_type eval = ran_out
op_loop w check (suc n) token s op_type eval =
    let found = scan_for_op s in
    op_step w check (λ v t. op_loop w check n v t op_type eval) found.0 s found.1 token op_type eval

-- `CheckFormula` on a text, on fuel.
unfoldable pub check_text : World → Terms → Lower → ℕ → ℕ → Checker
unfolding scan_for_number op_loop
check_text w g lower clause zero s op_type eval = ran_out
check_text w g lower clause (suc n) s op_type eval =
    and_then (scan_for_number w g (check_text w g lower clause n) lower clause s op_type eval)
      (λ token r. op_loop w (check_text w g lower clause n) (suc n) token r op_type eval)

-- The formulas of a player: `formulaLines` below 9, and `formula`.
abbrev pub Formulas : Type 0
Formulas = ℕ → Option (List ℕ)

abbrev pub max_formula : ℕ
max_formula = 9

-- `CheckFormula` at the start of a text, or on NULL.
unfoldable pub check_line : World → Terms → Lower → ℕ → Option (List ℕ) → Bool → Outcome
unfolding check_text
check_line w g lower clause none eval = value (pos 1) []
check_line w g lower clause (some s) eval =
    check_text w g lower clause (suc (length s)) s optype_none eval

-- A clause from its start, with the depth of references left. A clause refers to lower ones only.
unfoldable pub check_clause : World → Terms → Formulas → ℕ → Lower
unfolding check_line
check_clause w g fs zero c eval = ran_out
check_clause w g fs (suc k) c eval = check_line w g (check_clause w g fs k) c (fs c) eval

-- `CheckFormula` at the start of a clause.
unfoldable pub check_formula : World → Terms → Formulas → ℕ → Bool → Outcome
unfolding check_clause
check_formula w g fs c eval = check_clause w g fs (suc c) c eval

-- `GameMatchesFormula`; `none` where the program is stopped.
unfoldable pub game_matches_formula : World → Terms → Formulas → Option ℤ
unfolding check_formula
game_matches_formula w g fs = elim (check_formula w g fs max_formula true) [
  | value v s ↦ some v
  | trapped ↦ none
  | _ ↦ some (pos 0)
]

abbrev pub put_formula : Formulas → ℕ → Option (List ℕ) → Formulas
put_formula fs clause t c = if c == clause then t else fs c

abbrev pub is_value : Outcome → Bool
is_value (value v s) = true
is_value _ = false

-- `eatwhite`, and NULL for an empty text.
unfoldable pub new_formula : Option (List ℕ) → Option (List ℕ)
unfolding skip_space
new_formula none = none
new_formula (some s) = elim (skip_space s) [ [] ↦ none | c ∷ t ↦ some (c ∷ t) ]

-- `SetValidFormula` from where the new text or NULL is set, with the trial game.
unfoldable pub try_formula : World → Terms → ℕ → Option (List ℕ) → Formulas → Formulas × Bool
unfolding check_formula
try_formula w g clause none fs = (put_formula fs clause none, true)
try_formula w g clause (some s) fs =
    let fs' = put_formula fs clause (some s) in
    if is_value (check_formula w g fs' clause false)
    then (fs', true)
    else (put_formula fs' clause (fs clause), false)

-- `SetValidFormula`.
unfoldable pub set_valid_formula : World → Terms → ℕ → Option (List ℕ) → Formulas → Formulas × Bool
unfolding new_formula try_formula
set_valid_formula w g clause text fs = try_formula w g clause (new_formula text) fs
