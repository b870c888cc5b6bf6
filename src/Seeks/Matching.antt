-- ===== src/Seeks/Matching.antt =====
-- src/seekproc.c: `seekmatch`, with the formulas of the players.
use docker_chessd.Prelude.{
  ℕ, Bool, true, false, not, ◌&&◌, ◌||◌, ◌==◌, Option, none, some, List, find_index,
}
use docker_chessd.Prelude.Int.{ℤ, is_zero}
use docker_chessd.Prelude.Text.{same_text}
use docker_chessd.Formula.Eval.{World, Terms}
use docker_chessd.Formula.Check.{Formulas, game_matches_formula}
use docker_chessd.Seeks.{SeekTuple, number_of, same, at_most, to_int, is_set, col_black, col_white}

-- What the commands ask of the two players `w` and `b` of a game and of the formulas of `b`.
pub record Judges : Type 0 where
  pub world : ℕ → ℕ → World
  pub formulas : ℕ → Formulas

abbrev pub terms_of : SeekTuple → SeekTuple → SeekTuple → Terms
terms_of s2 s1 s = record {
  w_init_time = to_int s2.time;
  b_init_time = to_int s1.time;
  w_increment = to_int s2.inc;
  b_increment = to_int s1.inc;
  is_rated = is_set s.rated;
  kind = s.kind;
}

-- The result of `GameMatchesFormula` as a condition. A formula that stops the program, in a division of
-- INT_MIN by -1, counts as one that refuses.
abbrev pub is_allowed : Option ℤ → Bool
is_allowed none = false
is_allowed (some v) = not (is_zero v)

unfoldable pub formula_allows : Judges → ℕ → ℕ → Terms → Bool
unfolding game_matches_formula
formula_allows j w b g = is_allowed (game_matches_formula (j.world w b) g (j.formulas b))

-- `formula != 1 || GameMatchesFormula(...)` for an ad of `b`, answered by `w`. An ad that is compared
-- this far has a player.
unfoldable pub own_formula_allows : Judges → SeekTuple → Option ℕ → Option ℕ → Terms → Bool
unfolding formula_allows
own_formula_allows j s (some w) (some b) g = not (same s.formula (some 1)) || formula_allows j w b g
own_formula_allows j s none b g = not (same s.formula (some 1))
own_formula_allows j s (some w) none g = not (same s.formula (some 1))

-- Both colours are left open, or one player wants white and the other black.
abbrev pub colors_fit : Option ℕ → Option ℕ → Bool
colors_fit none none = true
colors_fit (some a) (some b) = a == col_white && b == col_black || a == col_black && b == col_white
colors_fit none (some b) = false
colors_fit (some a) none = false

-- The condition of `seekmatch` for a new ad `s2` and an ad of the list.
unfoldable pub meets : Judges → SeekTuple → SeekTuple → Bool
unfolding same_text own_formula_allows
meets j s2 s1 =
    not (same s1.player s2.player)
    && (same s1.time s2.time
        && (same s1.inc s2.inc
            && (same s1.rated s2.rated
                && (number_of s1.kind == number_of s2.kind
                    && (colors_fit s1.color s2.color
                        && (at_most s2.min_rating s1.ownrating
                            && (at_most s1.ownrating s2.max_rating
                                && (at_most s1.min_rating s2.ownrating
                                    && (at_most s2.ownrating s1.max_rating
                                        && (same_text s1.category s2.category
                                            && (same_text s1.board s2.board
                                                && (own_formula_allows j s1 s2.player s1.player
                                                      (terms_of s2 s1 s1)
                                                    && own_formula_allows j s2 s1.player s2.player
                                                        (terms_of s1 s2 s1)))))))))))))

-- `seekmatch`.
unfoldable pub seekmatch : Judges → SeekTuple → List SeekTuple → Option ℕ
unfolding meets
seekmatch j s2 l = find_index (meets j s2) l
