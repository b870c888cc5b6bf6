-- ===== src/Pieces.antt =====
-- The loops over the board of src/movecheck.c: the nested loop over files and ranks, and the pair
-- InitPieceLoop, NextPieceLoop.
pub mod Order
use docker_chessd.Prelude.{
  ℕ, zero, suc, ◌+◌, Bool, true, false, not, ◌&&◌, ltb, if◌then◌else◌, Option, none, some, List, [],
  ◌∷◌, ◌++◌,
}
use docker_chessd.Board.{Color, Board, is_empty, iscolor}

abbrev pub Pos : Type 0
Pos = ℕ × ℕ

-- The squares of a file from rank `r` on, `left` of them.
unfoldable pub for_ranks : ℕ → ℕ → ℕ → List Pos
for_ranks zero f r = []
for_ranks (suc left) f r = (f, r) ∷ for_ranks left f (r + 1)

unfoldable pub for_files : ℕ → ℕ → List Pos
unfolding for_ranks
for_files zero f = []
for_files (suc left) f = for_ranks 8 f 0 ++ for_files left (f + 1)

-- for (f = 0; f < 8; f++) for (r = 0; r < 8; r++)
unfoldable pub squares : List Pos
unfolding for_files
squares = for_files 8 0

-- `b[f][r] != NOPIECE && iscolor(b[f][r], color)`.
abbrev pub belongs : Board → Color → ℕ → ℕ → Bool
belongs b c f r = not (is_empty (b f r)) && iscolor (b f r) c

-- `NextPieceLoop` from file `f`, where `next` is the rank after `*r`; `none` is the result 0.
-- At most 65 rounds are made from the start, which InitPieceLoop sets to file 0 and rank -1.
unfoldable pub next_piece_loop : ℕ → Board → Color → ℕ → ℕ → Option Pos
next_piece_loop zero b c f next = none
next_piece_loop (suc fuel) b c f next =
    let stay = next_piece_loop fuel b c f (next + 1) in
    let wrapped = next_piece_loop fuel b c (f + 1) 1 in
    if ltb 7 next
    then (if ltb 7 (f + 1)
        then none
        else if belongs b c (f + 1) 0
        then some (f + 1, 0)
        else wrapped)
    else if belongs b c f next
    then some (f, next)
    else stay

abbrev visit : Option Pos → (ℕ → ℕ → List Pos) → List Pos
visit none go = []
visit (some (f, r)) go = (f, r) ∷ go f (r + 1)

-- The squares that `for (InitPieceLoop(...); NextPieceLoop(...);)` visits, in its order.
unfoldable pub loop_from : ℕ → Board → Color → ℕ → ℕ → List Pos
loop_from zero b c f next = []
loop_from (suc fuel) b c f next = visit (next_piece_loop 65 b c f next) (loop_from fuel b c)

unfoldable pub piece_loop : Board → Color → List Pos
unfolding loop_from
piece_loop b c = loop_from 65 b c 0 0
