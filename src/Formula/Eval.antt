-- ===== src/Formula/Eval.antt =====
-- src/formula.c: the evaluation of formulas. An `int` has 32 bits, and a result that does not fit wraps
-- around.
use docker_chessd.Prelude.{
  ℕ, ◌-◌, Bool, true, false, ◌&&◌, ◌||◌, not, leb, ltb, ◌==◌, if◌then◌else◌, List, [], ◌∷◌, Option,
  none, some,
}
use docker_chessd.Prelude.Int.{ℤ, pos, negate, ◌+ℤ◌, ◌-ℤ◌, ◌*ℤ◌, eqℤ, of_bool, is_zero, wrap32}
use docker_chessd.Prelude.Text.{codes, isspace, isdigit, tolower, skip_space, isalpha}
use docker_chessd.Formula.{
  move_index_past_string, first_text, optype_none, optype_paren, optype_unary, Variable, registered,
  ratingdiff, assessloss, assessdraw, assesswin, mymaxtime, timeseal, myrating, computer, standard,
  private, maxtime, abuser, rating, rated, nonstandard, lightning, bughouse, untimed, blitz, wild,
  time, increment, variables,
}

-- The kinds of games.
pub data GameType : Type 0 where
  type_untimed : GameType
  type_blitz : GameType
  type_stand : GameType
  type_nonstandard : GameType
  type_wild : GameType
  type_light : GameType
  type_bughouse : GameType

-- The fields of `struct game` that a formula reads.
pub record Terms : Type 0 where
  pub w_init_time : ℤ
  pub b_init_time : ℤ
  pub w_increment : ℤ
  pub b_increment : ℤ
  pub is_rated : Bool
  pub kind : GameType

-- What other parts of the server say of the two players (`me` was challenged by `you`), and the
-- result of dividing an `int` by FUDGE_FACTOR.
pub record World : Type 0 where
  pub you_registered : Bool
  pub you_private : Bool
  pub you_computer : Bool
  pub you_abuser : Bool
  pub you_timeseal : ℤ
  pub you_rating : GameType → ℤ
  pub me_rating : GameType → ℤ
  pub loss_delta : GameType → ℤ
  pub draw_delta : GameType → ℤ
  pub win_delta : GameType → ℤ
  pub by_fudge : ℤ → ℤ

-- The codes ERR_EOF to ERR_PAREN that the source returns.
pub data Err : Type 0 where
  err_eof : Err
  err_unary : Err
  err_badchar : Err
  err_badvar : Err
  err_badop : Err
  err_nonesense : Err
  err_paren : Err

-- A result: an error, or a value and the rest of the text. `trapped` is the end of the program at a
-- division that the machine refuses; `ran_out` is no result of the source.
pub data Outcome : Type 0 where
  ran_out : Outcome
  trapped : Outcome
  failed : Err → Outcome
  value : ℤ → List ℕ → Outcome

-- if (ret != ERR_NONE) return (ret).
abbrev pub and_then : Outcome → (ℤ → List ℕ → Outcome) → Outcome
and_then ran_out k = ran_out
and_then trapped k = trapped
and_then (failed e) k = failed e
and_then (value v s) k = k v s

abbrev pub is_untimed : GameType → Bool
is_untimed type_untimed = true
is_untimed _ = false

-- 10 * numPlayers for a clock that starts at 0 in a timed game.
unfoldable pub ten_secs : Terms → ℤ → ℤ
ten_secs g start = if not (is_untimed g.kind) && eqℤ start (pos 0) then pos 10 else pos 0

-- `Maxtime`, before the wrap-around.
unfoldable pub max_time : Terms → ℤ → ℕ → ℤ
unfolding ten_secs
max_time g moves players =
    if eqℤ g.b_init_time g.w_init_time && eqℤ g.b_increment g.w_increment
    then pos players *ℤ (pos 60 *ℤ g.w_init_time +ℤ moves *ℤ g.w_increment)
      +ℤ ten_secs g g.w_init_time *ℤ pos players
    else if players == 2
    then pos 60 *ℤ (g.w_init_time +ℤ g.b_init_time)
      +ℤ moves *ℤ (g.w_increment +ℤ g.b_increment)
      +ℤ ten_secs g g.w_init_time
      +ℤ ten_secs g g.b_init_time
    else pos 60 *ℤ g.b_init_time +ℤ moves *ℤ g.b_increment +ℤ ten_secs g g.b_init_time

-- The value of a variable that has no parentheses; the other two are read in `var_to_token`.
unfoldable pub variable_value : World → Terms → Variable → ℤ
variable_value w g registered = of_bool w.you_registered
variable_value w g ratingdiff = wrap32 (w.you_rating g.kind -ℤ w.me_rating g.kind)
variable_value w g assessloss = if g.is_rated then w.loss_delta g.kind else pos 0
variable_value w g assessdraw = if g.is_rated then w.draw_delta g.kind else pos 0
variable_value w g assesswin = if g.is_rated then w.win_delta g.kind else pos 0
variable_value w g mymaxtime = pos 0
variable_value w g timeseal = w.you_timeseal
variable_value w g myrating = w.me_rating g.kind
variable_value w g computer = of_bool w.you_computer
variable_value w g standard = elim g.kind [ type_stand ↦ pos 1 | _ ↦ pos 0 ]
variable_value w g private = of_bool w.you_private
variable_value w g maxtime = pos 0
variable_value w g abuser = of_bool w.you_abuser
variable_value w g rating = w.you_rating g.kind
variable_value w g rated = of_bool g.is_rated
variable_value w g nonstandard = elim g.kind [ type_nonstandard ↦ pos 1 | _ ↦ pos 0 ]
variable_value w g lightning = elim g.kind [ type_light ↦ pos 1 | _ ↦ pos 0 ]
variable_value w g bughouse = elim g.kind [ type_bughouse ↦ pos 1 | _ ↦ pos 0 ]
variable_value w g untimed = elim g.kind [ type_untimed ↦ pos 1 | _ ↦ pos 0 ]
variable_value w g blitz = elim g.kind [ type_blitz ↦ pos 1 | _ ↦ pos 0 ]
variable_value w g wild = elim g.kind [ type_wild ↦ pos 1 | _ ↦ pos 0 ]
variable_value w g time = g.w_init_time
variable_value w g increment = g.w_increment

-- The calls of `CheckFormula` on a text of the clause, with the precedence and `eval`, and on another
-- clause from its start.
abbrev pub Checker : Type 0
Checker = List ℕ → ℕ → Bool → Outcome

abbrev pub Lower : Type 0
Lower = ℕ → Bool → Outcome

-- The closing parenthesis.
unfoldable pub close_paren : ℤ → List ℕ → Outcome
unfolding move_index_past_string
close_paren v s = elim (move_index_past_string s (codes ")")) [
  | some rest ↦ value v rest
  | none ↦ failed err_paren
]

-- What follows the opening parenthesis, where there is one.
unfoldable pub in_parens : Checker → Option (List ℕ) → Bool → Outcome
unfolding close_paren
in_parens check none eval = failed err_badchar
in_parens check (some rest) eval = and_then (check rest optype_paren eval) close_paren

-- `GetNumberInsideParens`.
unfoldable pub get_number_inside_parens : Checker → List ℕ → Bool → Outcome
unfolding skip_space move_index_past_string in_parens
get_number_inside_parens check s eval =
    in_parens check (move_index_past_string (skip_space s) (codes "(")) eval

-- A number in parentheses that `VarToToken` reads: any error is a bad variable.
abbrev pub timed : Outcome → (ℤ → ℤ) → Outcome
timed ran_out f = ran_out
timed trapped f = trapped
timed (failed e) f = failed err_badvar
timed (value v s) f = value (f v) s

-- The value of another clause: an error there is a bad variable.
abbrev pub referred : Outcome → List ℕ → Outcome
referred ran_out s = ran_out
referred trapped s = trapped
referred (failed e) s = failed err_badvar
referred (value v t) s = value v s

-- `f` and a digit, for a clause below the one that is read.
unfoldable pub clause_reference : Lower → ℕ → List ℕ → Bool → Outcome
clause_reference lower clause [] eval = failed err_badvar
clause_reference lower clause (c ∷ []) eval = failed err_badvar
clause_reference lower clause (c ∷ d ∷ s) eval =
    elim (tolower c == b'f' && isdigit d && leb b'1' d && ltb (d - b'1') clause) [
      | true ↦ referred (lower (d - b'1') eval) s
      | false ↦ failed err_badvar
    ]

-- The value of a variable whose name has been read.
unfoldable pub named_variable : World → Terms → Checker → Variable → List ℕ → Bool → Outcome
unfolding get_number_inside_parens
named_variable w g check mymaxtime s eval =
    timed (get_number_inside_parens check s eval) (λ n. wrap32 (max_time g n 1))
named_variable w g check maxtime s eval =
    timed (get_number_inside_parens check s eval) (λ n. wrap32 (max_time g n 2))
named_variable w g check v s eval = value (variable_value w g v) s

-- What a match of a variable, or none, gives.
unfoldable pub found_variable :
    World → Terms → Checker → Lower → ℕ → List ℕ → Option (Variable × List ℕ) → Bool → Outcome
unfolding named_variable clause_reference
found_variable w g check lower clause s none eval = clause_reference lower clause s eval
found_variable w g check lower clause s (some (v, r)) eval = named_variable w g check v r eval

-- `VarToToken`, with ERR_BADVAR where it returns 0.
unfoldable pub var_to_token : World → Terms → Checker → Lower → ℕ → List ℕ → Bool → Outcome
unfolding first_text found_variable
var_to_token w g check lower clause s eval =
    found_variable w g check lower clause s (first_text variables s) eval

-- 10 * (*token) + string[(*i)++] - '0'.
abbrev pub next_digit : ℤ → ℕ → ℤ
next_digit v c = wrap32 (pos 10 *ℤ v +ℤ pos c -ℤ pos b'0')

-- The digits of a number, from its value so far.
unfoldable pub read_digits : ℤ → List ℕ → ℤ × List ℕ
read_digits v [] = (v, [])
read_digits v (c ∷ s) = elim (isdigit c) [
  | true ↦ read_digits (next_digit v c) s
  | false ↦ (v, c ∷ s)
]

-- if (MoveIndexPastString (string, i, "minutes")) *token *= 60.
unfoldable pub minutes : ℤ → List ℕ → Outcome
unfolding move_index_past_string
minutes v s = elim (move_index_past_string s (codes "minutes")) [
  | some rest ↦ value (wrap32 (v *ℤ pos 60)) rest
  | none ↦ value v s
]

-- A number, perhaps of minutes.
unfoldable pub number : List ℕ → Outcome
unfolding read_digits skip_space minutes
number s = let (v, r) = read_digits (pos 0) s in minutes v (skip_space r)

-- `-` and `!`, of which two in a row are an error.
unfoldable pub unary : ℕ → List ℕ → Outcome → Outcome
unary c [] o =
    and_then o (λ v r. value (if c == b'-' then wrap32 (negate v) else of_bool (is_zero v)) r)
unary c (d ∷ s) o =
    if c == d
    then failed err_unary
    else and_then o (λ v r. value (if c == b'-' then wrap32 (negate v) else of_bool (is_zero v)) r)

-- `ScanForNumber`.
unfoldable pub scan_for_number : World → Terms → Checker → Lower → ℕ → List ℕ → ℕ → Bool → Outcome
unfolding get_number_inside_parens var_to_token number unary
scan_for_number w g check lower clause [] op_type eval =
    if op_type == optype_none then value (pos 1) [] else failed err_eof
scan_for_number w g check lower clause (c ∷ s) op_type eval = elim (isspace c) [
  | true ↦ scan_for_number w g check lower clause s op_type eval
  | false ↦ elim (c == b'#') [
    | true ↦ if op_type == optype_none then value (pos 1) (c ∷ s) else failed err_eof
    | false ↦ elim (c == b')') [
      | true ↦ if op_type == optype_paren then value (pos 1) (c ∷ s) else failed err_paren
      | false ↦ elim (c == b'(') [
        | true ↦ get_number_inside_parens check (c ∷ s) eval
        | false ↦ elim (c == b'-' || c == b'!') [
          | true ↦ unary c s (scan_for_number w g check lower clause s optype_unary eval)
          | false ↦ elim (isdigit c) [
            | true ↦ number (c ∷ s)
            | false ↦ elim (isalpha c) [
              | true ↦ var_to_token w g check lower clause (c ∷ s) eval
              | false ↦ failed err_nonesense
            ]
          ]
        ]
      ]
    ]
  ]
]
