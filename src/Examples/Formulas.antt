-- ===== src/Examples/Formulas.antt =====
-- Formulas on which the theorems on src/formula.c are applied.
use docker_chessd.Prelude.{ℕ, ◌≡◌, ◌≢◌, refl, Bool, true, false, List, none, some}
use docker_chessd.Prelude.Int.{pos, negsuc}
use docker_chessd.Prelude.Text.{codes, skip_space}
use docker_chessd.Formula.{move_index_past_string, first_text, op_at, scan_for_op, op_type_of}
use docker_chessd.Formula.Eval.{
  Terms, World, type_blitz, type_wild, ran_out, trapped, ten_secs, max_time, variable_value,
  close_paren, in_parens, get_number_inside_parens, clause_reference, named_variable,
  found_variable, var_to_token, read_digits, minutes, number, unary, scan_for_number,
}
use docker_chessd.Formula.Check.{
  apply_op, eval_binary_op, operand, leave, op_step, op_loop, check_text, Formulas, check_line,
  check_clause, check_formula, max_formula, game_matches_formula, new_formula, try_formula,
  set_valid_formula,
}
use docker_chessd.Formula.Total.{check_formula-ends}
use docker_chessd.Formula.Shape.{Alike}
use docker_chessd.Formula.Independence.{Stops, check_formula-Alike}
use docker_chessd.Formula.Clauses.{IsValid, set_valid_formula-IsValid}

-- A rated blitz game of five minutes between players that are rated 1500 and 1700.
abbrev five_minutes : Terms
five_minutes = record {
  w_init_time = pos 5;
  b_init_time = pos 5;
  w_increment = pos 0;
  b_increment = pos 0;
  is_rated = true;
  kind = type_blitz;
}

abbrev long_wild : Terms
long_wild = record five_minutes { w_init_time = pos 30; kind = type_wild }

abbrev pub world : World
world = record {
  you_registered = true;
  you_private = false;
  you_computer = false;
  you_abuser = false;
  you_timeseal = pos 1;
  you_rating = λ t. pos 1500;
  me_rating = λ t. pos 1700;
  loss_delta = λ t. negsuc 11;
  draw_delta = λ t. negsuc 3;
  win_delta = λ t. pos 4;
  by_fudge = λ a. a;
}

abbrev pub no_formulas : Formulas
no_formulas c = none

no_formulas-IsValid : IsValid world five_minutes no_formulas
unfolding check_formula check_clause check_line
no_formulas-IsValid c = refl

-- f1 is set, then the formula that refers to it.
abbrev with_clause : Formulas
with_clause =
    (set_valid_formula world five_minutes 0 (some (codes " blitz & time < 10 # quick"))
      no_formulas).0

with_clause-IsValid : IsValid world five_minutes with_clause
with_clause-IsValid =
    set_valid_formula-IsValid world world five_minutes five_minutes 0
      (some (codes " blitz & time < 10 # quick")) no_formulas no_formulas-IsValid

abbrev formulas : Formulas
formulas =
    (set_valid_formula world five_minutes max_formula
      (some (codes "f1 & (ratingdiff + 200 >= -1 | !rated)")) with_clause).0

abbrev accepted : ℕ → List ℕ → Formulas → Bool
accepted c s fs = (set_valid_formula world five_minutes c (some s) fs).1

first_accepted : accepted 0 (codes " blitz & time < 10 # quick") no_formulas ≡ true
unfolding skip_space move_index_past_string first_text op_at scan_for_op op_type_of ten_secs
    max_time variable_value close_paren in_parens get_number_inside_parens clause_reference
    named_variable found_variable var_to_token read_digits minutes number unary scan_for_number
    apply_op eval_binary_op operand leave op_step op_loop check_text check_line check_clause
    check_formula game_matches_formula new_formula try_formula set_valid_formula
first_accepted = refl

both_accepted :
    accepted max_formula (codes "f1 & (ratingdiff + 200 >= -1 | !rated)") with_clause ≡ true
unfolding skip_space move_index_past_string first_text op_at scan_for_op op_type_of ten_secs
    max_time variable_value close_paren in_parens get_number_inside_parens clause_reference
    named_variable found_variable var_to_token read_digits minutes number unary scan_for_number
    apply_op eval_binary_op operand leave op_step op_loop check_text check_line check_clause
    check_formula game_matches_formula new_formula try_formula set_valid_formula
both_accepted = refl

matches :
    (game_matches_formula world five_minutes formulas ≡ some (pos 1))
    × (game_matches_formula world long_wild formulas ≡ some (pos 0))
unfolding skip_space move_index_past_string first_text op_at scan_for_op op_type_of ten_secs
    max_time variable_value close_paren in_parens get_number_inside_parens clause_reference
    named_variable found_variable var_to_token read_digits minutes number unary scan_for_number
    apply_op eval_binary_op operand leave op_step op_loop check_text check_line check_clause
    check_formula game_matches_formula new_formula try_formula set_valid_formula
matches = (refl, refl)

-- A formula that is accepted and stops the program in a match.
abbrev int_min_formula : List ℕ
int_min_formula = codes "(0-2147483647-1)/-1"

abbrev with_int_min : Formulas
with_int_min =
    (set_valid_formula world five_minutes max_formula (some int_min_formula) no_formulas).0

stopped :
    (accepted max_formula int_min_formula no_formulas ≡ true)
    × (check_formula world five_minutes with_int_min max_formula true ≡ trapped)
    × (game_matches_formula world five_minutes with_int_min ≡ none)
unfolding skip_space move_index_past_string first_text op_at scan_for_op op_type_of ten_secs
    max_time variable_value close_paren in_parens get_number_inside_parens clause_reference
    named_variable found_variable var_to_token read_digits minutes number unary scan_for_number
    apply_op eval_binary_op operand leave op_step op_loop check_text check_line check_clause
    check_formula game_matches_formula new_formula try_formula set_valid_formula
stopped = (refl, refl, refl)

set_valid_formula-IsValid_example : IsValid world five_minutes formulas
set_valid_formula-IsValid_example =
    set_valid_formula-IsValid world world five_minutes five_minutes max_formula
      (some (codes "f1 & (ratingdiff + 200 >= -1 | !rated)")) with_clause with_clause-IsValid

check_formula-Alike_example :
    Alike true
      (check_formula world five_minutes formulas max_formula false)
      (check_formula world long_wild formulas max_formula true)
    × Stops false (check_formula world five_minutes formulas max_formula false)
    × Stops true (check_formula world long_wild formulas max_formula true)
check_formula-Alike_example =
    check_formula-Alike world world five_minutes long_wild formulas max_formula false true

check_formula-ends_example : check_formula world five_minutes formulas max_formula true ≢ ran_out
check_formula-ends_example = check_formula-ends world five_minutes formulas max_formula true
