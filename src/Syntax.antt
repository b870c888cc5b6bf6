-- ===== src/Syntax.antt =====
-- The forms of a move that a player types: `is_move` of src/movecheck.c and `get_move_info` of
-- src/algcheck.c.
use docker_chessd.Prelude.{
  ℕ, ◌+◌, ◌-◌, Bool, true, false, ◌&&◌, ◌||◌, ltb, leb, ◌==◌, dist, if◌then◌else◌, Option, none,
  some, List, [], ◌∷◌, length,
}
use mathlib.Core.List.{reverse}
use docker_chessd.Board.{Kind, pawn, knight, bishop, rook, queen, king}

-- MS_NOTMOVE to MS_QCASTLE.
pub data MoveForm : Type 0 where
  not_move comp comp_dash alg short_castle long_castle : MoveForm

abbrev pub isrank : ℕ → Bool
isrank c = leb c b'8' && leb b'1' c

abbrev pub isfile : ℕ → Bool
isfile c = leb b'a' c && leb c b'h'

abbrev pub is_o : ℕ → Bool
is_o c = c == b'0' || (c == b'o' || c == b'O')

-- A part of the square that a move starts from: ALG_UNKNOWN, a coordinate, or ALG_DROP.
pub data Part : Type 0 where
  unknown : Part
  known : ℕ → Part
  dropped : Part

pub record Info : Type 0 where
  pub kind : Option Kind
  pub ff : Part
  pub fr : Part
  pub tf : Option ℕ
  pub tr : Option ℕ

abbrev no_info : Info
no_info = record { kind = none; ff = unknown; fr = unknown; tf = none; tr = none }

-- The letters of `case 'p'`, in either case.
abbrev lower : ℕ → ℕ
lower c = if leb b'A' c && leb c b'Z' then c + 32 else c

kind_of_letter : ℕ → Option Kind
kind_of_letter c =
    let l = lower c in
    if l == b'k'
    then some king
    else if l == b'q'
    then some queen
    else if l == b'r'
    then some rook
    else if l == b'b'
    then some bishop
    else if l == b'n'
    then some knight
    else if l == b'p'
    then some pawn
    else none

-- A place of a pattern: the letters f, r, p, x, @ and # of `alg_list`.
pub data Place : Type 0 where
  f r p x at hash : Place

-- The `switch` on one place, for the character that stands there; `none` is `goto nomatch`. The
-- first file and the first rank from the right are those of the target.
place_file : Info → ℕ → Info
place_file i v = elim i.tf [ none ↦ record i { tf = some v } | some w ↦ record i { ff = known v } ]

place_rank : Info → ℕ → Info
place_rank i v = elim i.tr [ none ↦ record i { tr = some v } | some w ↦ record i { fr = known v } ]

match_place : Place → ℕ → Info → Option Info
unfolding place_file place_rank kind_of_letter
match_place f c i = if isfile c then some (place_file i (c - b'a')) else none
match_place r c i = if isrank c then some (place_rank i (c - b'1')) else none
match_place p c i = elim (kind_of_letter c) [
  | none ↦ none
  | some k ↦ some (record i { kind = some k })
]
match_place x c i = if c == b'x' || c == b'X' then some i else none
match_place at c i =
    if c == b'@' || c == b'*' then some (record i { ff = dropped; fr = dropped }) else none
match_place hash c i = if c == b'#' then some (record i { ff = dropped; fr = dropped }) else none

-- The loop over the places, from the last to the first: pattern and text are given reversed.
match_places : List Place → List ℕ → Info → Option Info
unfolding match_place
match_places [] [] i = some i
match_places (q ∷ qs) (c ∷ cs) i = elim (match_place q c i) [
  | none ↦ none
  | some i' ↦ match_places qs cs i'
]
match_places _ _ i = none

-- A pawn that names its file and no rank captures on a neighbouring file.
pawn_files_ok : Info → Bool
pawn_files_ok i = elim i.fr [
  | unknown ↦ (elim i.ff [
    | known a ↦ (elim i.tf [ none ↦ false | some b ↦ dist a b == 1 ])
    | unknown ↦ true
    | dropped ↦ true
  ])
  | known a ↦ true
  | dropped ↦ true
]

-- The kind is a pawn where the pattern names none.
finish_match : Info → Option Info
unfolding pawn_files_ok
finish_match i = elim i.kind [
  | none ↦ if pawn_files_ok i then some (record i { kind = some pawn }) else none
  | some k ↦ (elim k [
    | pawn ↦ if pawn_files_ok i then some i else none
    | knight ↦ some i
    | bishop ↦ some i
    | rook ↦ some i
    | queen ↦ some i
    | king ↦ some i
  ])
]

match_pattern : List Place → List ℕ → Option Info
unfolding match_places finish_match
match_pattern q s = elim (match_places (reverse q) (reverse s) no_info) [
  | none ↦ none
  | some i ↦ finish_match i
]

-- `alg_list`.
abbrev pub alg_list : List (List Place)
alg_list =
    (f ∷ x ∷ f ∷ r ∷ [])
    ∷ (p ∷ x ∷ f ∷ r ∷ [])
    ∷ (f ∷ f ∷ r ∷ [])
    ∷ (p ∷ f ∷ r ∷ [])
    ∷ (p ∷ f ∷ f ∷ r ∷ [])
    ∷ (p ∷ f ∷ x ∷ f ∷ r ∷ [])
    ∷ (p ∷ r ∷ f ∷ r ∷ [])
    ∷ (p ∷ r ∷ x ∷ f ∷ r ∷ [])
    ∷ (f ∷ r ∷ [])
    ∷ (f ∷ f ∷ [])
    ∷ (f ∷ x ∷ f ∷ [])
    ∷ (p ∷ at ∷ f ∷ r ∷ [])
    ∷ (hash ∷ f ∷ r ∷ [])
    ∷ (hash ∷ p ∷ f ∷ r ∷ [])
    ∷ []

-- The loop over the patterns: the last match counts, and a second one is the `bishconfusion`.
pub record Match : Type 0 where
  pub info : Info
  pub confused : Bool

abbrev second_match : Option Match → Info → Match
second_match none i = record { info = i; confused = false }
second_match (some m) i = record { info = i; confused = true }

match_all : List (List Place) → List ℕ → Option Match → Option Match
match_all [] s m = m
match_all (q ∷ qs) s m =
    match_all qs s (elim (match_pattern q s) [ none ↦ m | some i ↦ some (second_match m i) ])

-- The text before the first check mark, and before the first promotion mark.
cut_at : ℕ → List ℕ → List ℕ
cut_at m [] = []
cut_at m (c ∷ cs) = let rest = cut_at m cs in if c == m then [] else c ∷ rest

unfoldable pub get_move_info : List ℕ → Option Match
unfolding match_all match_pattern cut_at
get_move_info s = match_all alg_list (cut_at b'=' (cut_at b'+' s)) none

abbrev pub alg_is_move : List ℕ → MoveForm
alg_is_move s = elim (get_move_info s) [ none ↦ not_move | some m ↦ alg ]

-- The castling words and the two computer notations, by the characters up to `len`.
short_form : List ℕ → Option MoveForm
short_form (a ∷ b ∷ []) = if is_o a && is_o b then some short_castle else none
short_form (a ∷ b ∷ c ∷ []) =
    if is_o a && (b == b'-' && is_o c)
    then some short_castle
    else if is_o a && (is_o b && is_o c)
    then some long_castle
    else none
short_form (a ∷ b ∷ c ∷ d ∷ []) =
    if isfile a && (isrank b && (isfile c && isrank d)) then some comp else none
short_form (a ∷ b ∷ c ∷ d ∷ e ∷ []) =
    if isfile a && (isrank b && (c == b'-' && (isfile d && isrank e)))
    then some comp_dash
    else if is_o a && (b == b'-' && (is_o c && (d == b'-' && is_o e)))
    then some long_castle
    else none
short_form _ = none

-- `len -= 2` for a text of more than three characters that has `=` before its last one.
without_promotion : List ℕ → List ℕ
without_promotion s = elim (reverse s) [
  | [] ↦ s
  | a ∷ t ↦ (elim t [
    | [] ↦ s
    | e ∷ front ↦ if ltb 3 (length s) && e == b'=' then reverse front else s
  ])
]

unfoldable pub is_move : List ℕ → MoveForm
unfolding without_promotion short_form
is_move s = elim (short_form (without_promotion s)) [ none ↦ alg_is_move s | some t ↦ t ]
