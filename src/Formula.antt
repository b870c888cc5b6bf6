-- ===== src/Formula.antt =====
-- src/formula.c and src/formula.h, the texts of formulas: characters, operators and variables. A
-- formula is the list of its characters; the index `*i` of the source is the part of the list that
-- is not read yet. Formula.Eval has the evaluation.
pub mod Eval
pub mod Check
pub mod Reading
pub mod Ends
pub mod Total
pub mod Shape
pub mod Independence
pub mod Clauses
use docker_chessd.Prelude.{
  ℕ, ◌+◌, Bool, true, false, ◌&&◌, ◌||◌, leb, ◌==◌, if◌then◌else◌, List, [], ◌∷◌, Option, none,
  some,
}
use docker_chessd.Prelude.Text.{codes, tolower, skip_space}

-- `MoveIndexPastString`, where the result `some` stands for 1 with the index moved.
unfoldable pub move_index_past_string : List ℕ → List ℕ → Option (List ℕ)
move_index_past_string s [] = some s
move_index_past_string [] (c ∷ t) = none
move_index_past_string (d ∷ s) (c ∷ t) = elim (tolower c == tolower d) [
  | true ↦ move_index_past_string s t
  | false ↦ none
]

-- The first of some texts that the string starts with, and the rest of the string.
unfoldable pub first_text {ℓ} : {A : Type ℓ} → List (List ℕ × A) → List ℕ → Option (A × List ℕ)
unfolding move_index_past_string
first_text [] s = none
first_text ((t, a) ∷ table) s = elim (move_index_past_string s t) [
  | some rest ↦ some (a, rest)
  | none ↦ first_text table s
]

-- The operators; OP_NEGATE and OP_NOT are used nowhere.
pub data Op : Type 0 where
  op_bad : Op
  op_none : Op
  op_rtparen : Op
  op_or : Op
  op_and : Op
  op_eq : Op
  op_neq : Op
  op_gt : Op
  op_ge : Op
  op_lt : Op
  op_le : Op
  op_plus : Op
  op_minus : Op
  op_mult : Op
  op_div : Op

-- The precedences.
abbrev pub optype_none : ℕ
optype_none = 1

abbrev pub optype_paren : ℕ
optype_paren = 3

abbrev pub optype_unary : ℕ
optype_unary = 10

-- `OpType`.
unfoldable pub op_type_of : Op → ℕ
op_type_of op_bad = 0
op_type_of op_none = optype_none
op_type_of op_rtparen = 2
op_type_of op_or = 4
op_type_of op_and = 5
op_type_of op_eq = 6
op_type_of op_neq = 6
op_type_of op_gt = 7
op_type_of op_ge = 7
op_type_of op_lt = 7
op_type_of op_le = 7
op_type_of op_plus = 8
op_type_of op_minus = 8
op_type_of op_mult = 9
op_type_of op_div = 9

-- The texts of `ScanForOp`, in its order.
abbrev pub operators : List (List ℕ × Op)
operators =
    (codes "and", op_and)
    ∷ (codes "or", op_or)
    ∷ (codes "||", op_or)
    ∷ (codes "&&", op_and)
    ∷ (codes "==", op_eq)
    ∷ (codes "!=", op_neq)
    ∷ (codes "<>", op_neq)
    ∷ (codes ">=", op_ge)
    ∷ (codes "=>", op_ge)
    ∷ (codes "<=", op_le)
    ∷ (codes "=<", op_le)
    ∷ (codes "|", op_or)
    ∷ (codes "&", op_and)
    ∷ (codes ">", op_gt)
    ∷ (codes "<", op_lt)
    ∷ (codes "=", op_eq)
    ∷ (codes "+", op_plus)
    ∷ (codes "-", op_minus)
    ∷ (codes "*", op_mult)
    ∷ (codes "/", op_div)
    ∷ []

-- What a match of an operator, or none, gives.
abbrev pub op_found : Option (Op × List ℕ) → List ℕ → Op × List ℕ
op_found (some found) s = found
op_found none s = (op_bad, s)

-- `ScanForOp` at a character that is no space.
unfoldable pub op_at : List ℕ → Op × List ℕ
unfolding first_text
op_at [] = (op_none, [])
op_at (c ∷ s) =
    if c == b'#'
    then (op_none, c ∷ s)
    else if c == b')'
    then (op_rtparen, c ∷ s)
    else op_found (first_text operators (c ∷ s)) (c ∷ s)

-- `ScanForOp`.
unfoldable pub scan_for_op : List ℕ → Op × List ℕ
unfolding skip_space op_at
scan_for_op s = op_at (skip_space s)

-- The variables but for f1 to f9.
pub data Variable : Type 0 where
  registered : Variable
  ratingdiff : Variable
  assessloss : Variable
  assessdraw : Variable
  assesswin : Variable
  mymaxtime : Variable
  timeseal : Variable
  myrating : Variable
  computer : Variable
  standard : Variable
  private : Variable
  maxtime : Variable
  abuser : Variable
  rating : Variable
  rated : Variable
  nonstandard : Variable
  lightning : Variable
  bughouse : Variable
  untimed : Variable
  blitz : Variable
  wild : Variable
  time : Variable
  increment : Variable

-- The names in `VarToToken`, in its order.
abbrev pub variables : List (List ℕ × Variable)
variables =
    (codes "registered", registered)
    ∷ (codes "ratingdiff", ratingdiff)
    ∷ (codes "assessloss", assessloss)
    ∷ (codes "assessdraw", assessdraw)
    ∷ (codes "assesswin", assesswin)
    ∷ (codes "mymaxtime", mymaxtime)
    ∷ (codes "timeseal", timeseal)
    ∷ (codes "myrating", myrating)
    ∷ (codes "computer", computer)
    ∷ (codes "standard", standard)
    ∷ (codes "private", private)
    ∷ (codes "maxtime", maxtime)
    ∷ (codes "abuser", abuser)
    ∷ (codes "rating", rating)
    ∷ (codes "rated", rated)
    ∷ (codes "nonstandard", nonstandard)
    ∷ (codes "lightning", lightning)
    ∷ (codes "bughouse", bughouse)
    ∷ (codes "untimed", untimed)
    ∷ (codes "blitz", blitz)
    ∷ (codes "wild", wild)
    ∷ (codes "time", time)
    ∷ (codes "inc", increment)
    ∷ []
