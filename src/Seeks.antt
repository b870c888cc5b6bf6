-- ===== src/Seeks.antt =====
-- src/seekproc.c: the ads for games in `seekList`. Of an `int` field `none` stands for NOVALUE, which is -1 and the least value that
-- a field has.
pub mod Kinds
pub mod Matching
pub mod Words
pub mod Commands
pub mod Answers
pub mod Table
pub mod Orderly
pub mod Changes
pub mod Ranges
pub mod Always
pub mod Play
pub mod Answered
pub mod Meeting
pub mod Reuse
use docker_chessd.Prelude.{
  ℕ, zero, suc, ◌+◌, ◌*◌, Bool, true, false, not, ◌&&◌, ◌||◌, leb, ltb, ◌==◌, if◌then◌else◌, Option,
  none, some, List, [], ◌∷◌, map, find_index, set_elem, count_if, get_elem?,
}
use docker_chessd.Prelude.Int.{ℤ, pos, negsuc, is_zero}
use docker_chessd.Prelude.Text.{codes, same_text}
use docker_chessd.Formula.Eval.{
  World, Terms, GameType, type_untimed, type_blitz, type_stand, type_nonstandard, type_wild,
  type_light, type_bughouse,
}
use docker_chessd.Formula.Check.{Formulas, game_matches_formula}

-- `SeekTuple`.
pub record SeekTuple : Type 0 where
  pub player : Option ℕ
  pub ownrating : Option ℕ
  pub time : Option ℕ
  pub inc : Option ℕ
  pub rated : Option ℕ
  pub color : Option ℕ
  pub kind : GameType
  pub min_rating : Option ℕ
  pub max_rating : Option ℕ
  pub formula : Option ℕ
  pub lastused : Option ℕ
  pub category : List ℕ
  pub board : List ℕ

abbrev pub max_seek : ℕ
max_seek = 2000

abbrev pub max_player_seek : ℕ
max_player_seek = 3

abbrev pub reuse_time : ℕ
reuse_time = 90

abbrev pub col_black : ℕ
col_black = 0

abbrev pub col_white : ℕ
col_white = 1

-- The values of `enum gametype`.
abbrev pub number_of : GameType → ℕ
number_of type_untimed = 0
number_of type_blitz = 1
number_of type_stand = 2
number_of type_nonstandard = 3
number_of type_wild = 4
number_of type_light = 5
number_of type_bughouse = 6

-- `a == b` and `a <= b` of two fields.
abbrev pub same : Option ℕ → Option ℕ → Bool
same none none = true
same none (some b) = false
same (some a) none = false
same (some a) (some b) = a == b

abbrev pub at_most : Option ℕ → Option ℕ → Bool
at_most none b = true
at_most (some a) none = false
at_most (some a) (some b) = leb a b

-- A field as an `int`, and as a condition.
abbrev pub to_int : Option ℕ → ℤ
to_int none = negsuc 0
to_int (some n) = pos n

abbrev pub is_set : Option ℕ → Bool
is_set none = true
is_set (some n) = not (n == 0)

abbrev pub is_empty_text : List ℕ → Bool
is_empty_text [] = true
is_empty_text (c ∷ s) = false

-- `seekclear`, and an ad that was in use until `now`.
abbrev pub seekclear : SeekTuple
seekclear = record {
  player = none;
  ownrating = none;
  time = none;
  inc = none;
  rated = none;
  color = none;
  kind = type_untimed;
  min_rating = none;
  max_rating = none;
  formula = none;
  lastused = none;
  category = [];
  board = [];
}

abbrev pub cleared : ℕ → SeekTuple
cleared now = record seekclear { lastused = some now }

-- seekList[i].player == p.
abbrev pub is_of : ℕ → SeekTuple → Bool
is_of p s = same s.player (some p)

-- `seekcount`, `seekfind`.
abbrev pub seekcount : ℕ → List SeekTuple → ℕ
seekcount p l = count_if (is_of p) l

abbrev pub seekfind : ℕ → List SeekTuple → Option ℕ
seekfind p l = find_index (is_of p) l

-- `seekisduplet`.
unfoldable pub is_duplet : SeekTuple → SeekTuple → Bool
unfolding same_text
is_duplet s2 s1 =
    same s1.player s2.player
    && (same s1.time s2.time
        && (same s1.inc s2.inc
            && (same s1.rated s2.rated
                && (same s1.color s2.color
                    && (number_of s1.kind == number_of s2.kind
                        && (same_text s1.category s2.category && same_text s1.board s2.board))))))

abbrev pub seekisduplet : SeekTuple → List SeekTuple → Option ℕ
seekisduplet s2 l = find_index (is_duplet s2) l

-- seekList[i].player == NOVALUE && seekList[i].lastused + REUSETIME < time(0).
abbrev pub is_free : ℕ → SeekTuple → Bool
is_free now s =
    same s.player none
    && (elim s.lastused [ none ↦ leb reuse_time now | some t ↦ ltb (t + reuse_time) now ])

-- `seekadd`: the index, or -1.
abbrev pub put_at : Option ℕ → SeekTuple → List SeekTuple → Option (ℕ × List SeekTuple)
put_at none s l = none
put_at (some i) s l = some (i, set_elem i s l)

abbrev pub seekadd : ℕ → SeekTuple → List SeekTuple → Option (ℕ × List SeekTuple)
seekadd now s l = put_at (find_index (is_free now) l) s l

-- `seekremoveall`.
abbrev pub remove_of : ℕ → ℕ → SeekTuple → SeekTuple
remove_of p now s = if is_of p s then cleared now else s

abbrev pub seekremoveall : ℕ → ℕ → List SeekTuple → List SeekTuple
seekremoveall p now l = map (remove_of p now) l

-- `seekremovead` for an index in the array; `none` for another.
abbrev pub removed_at :
    ℕ → ℕ → ℕ → Option SeekTuple → List SeekTuple → Option (Bool × List SeekTuple)
removed_at p i now none l = none
removed_at p i now (some s) l =
    if is_of p s then some (true, set_elem i (cleared now) l) else some (false, l)

abbrev pub seekremovead : ℕ → ℤ → ℕ → List SeekTuple → Option (Bool × List SeekTuple)
seekremovead p (pos i) now l = removed_at p i now (get_elem? l i) l
seekremovead p (negsuc i) now l = none

-- `seekinit`.
abbrev pub copies : ℕ → SeekTuple → List SeekTuple
copies zero s = []
copies (suc n) s = s ∷ copies n s

unfoldable pub seekinit : List SeekTuple
seekinit = copies max_seek seekclear
