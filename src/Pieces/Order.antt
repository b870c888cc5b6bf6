-- ===== src/Pieces/Order.antt =====
-- What the loops over the board visit.
use docker_chessd.Prelude.{
  sym, ap, ℕ, zero, suc, ◌+◌, ◌*◌, ◌≤◌, ◌<◌, true, false, ◌≡◌, refl, ◌↔◌, ◌∙◌, keep-cons_yes,
  keep-cons_no, inl, inr, Option, none, some, List, [], ◌∷◌, ◌++◌, arith, keep, In, In-keep,
  keep-In, Bool-cases, ltb,
}
use docker_chessd.Board.{Color, Board}
use docker_chessd.Pieces.{
  Pos, for_ranks, for_files, squares, belongs, next_piece_loop, loop_from, piece_loop, visit,
}

-- The squares still to come at file `f` and rank `r`: `a` of this file, and `d` whole files.
suffix : ℕ → ℕ → ℕ → ℕ → List Pos
suffix a d f r = for_ranks a f r ++ for_files d (f + 1)

abbrev kept : Board → Color → List Pos → List Pos
kept b c = keep (λ p. belongs b c p.0 p.1)

-- What a call of NextPieceLoop returns, for the squares that are still to come.
data Finds (m : ℕ) (b : Board) (c : Color) (l : List Pos) : Option Pos → Type 0 where
  ended : kept b c l ≡ [] → Finds m b c l none
  found :
      (a d f r : ℕ)
      → a + r ≡ 7
      → d + f ≡ 7
      → 8 * d + a < m
      → kept b c l ≡ (f, r) ∷ kept b c (suffix a d f (r + 1))
      → Finds m b c l (some (f, r))

-- A square that is not a piece of the colour is passed over.
Finds-skip :
    (k m : ℕ) (b : Board) (c : Color) (f r : ℕ) (l : List Pos) {o : Option Pos}
    → belongs b c f r ≡ false
    → k ≤ m
    → Finds k b c l o
    → Finds m b c ((f, r) ∷ l) o
Finds-skip k m b c f r l h hk (ended e) =
    ended (keep-cons_no (λ p. belongs b c p.0 p.1) (f, r) l h ∙ e)
Finds-skip k m b c f r l h hk (found a d f' r' p q s e) =
    found a d f' r' p q (omega arith) (keep-cons_no (λ p. belongs b c p.0 p.1) (f, r) l h ∙ e)

ltb_yes : (a b : ℕ) → a < b → ltb a b ≡ true
ltb_yes a b h = ground arith

ltb_no : (a b : ℕ) → b ≤ a → ltb a b ≡ false
ltb_no a b h = ground arith

next_piece_loop-Finds :
    (n : ℕ) (b : Board) (c : Color) (a d f r : ℕ)
    → a + r ≡ 8
    → d + f ≡ 7
    → 8 * d + a < n
    → Finds (8 * d + a) b c (suffix a d f r) (next_piece_loop n b c f r)
unfolding next_piece_loop suffix for_ranks for_files
next_piece_loop-Finds zero b c a d f r ha hd hn = elim hn [ ]
next_piece_loop-Finds (suc n) b c zero zero f r ha hd hn =
    rw (ltb_yes 7 r (omega arith)) (rw (ltb_yes 7 (f + 1) (omega arith)) (ended refl))
next_piece_loop-Finds (suc n) b c zero (suc d) f r ha hd hn = rw (ltb_yes 7 r (omega arith)) (
    rw (ltb_no 7 (f + 1) (omega arith)) (elim (Bool-cases (belongs b c (f + 1) 0)) [
      | inl h ↦ rw h (
          found 7 d (f + 1) 0 refl (omega arith) (omega arith)
            (keep-cons_yes (λ p. belongs b c p.0 p.1) (f + 1, 0) (suffix 7 d (f + 1) 1) h))
      | inr h ↦ rw h (
          Finds-skip (8 * d + 7) _ b c (f + 1) 0 (suffix 7 d (f + 1) 1) h (omega arith)
            (next_piece_loop-Finds n b c 7 d (f + 1) 1 refl (omega arith) (omega arith)))
    ]))
next_piece_loop-Finds (suc n) b c (suc a) d f r ha hd hn =
    rw (ltb_no 7 r (omega arith)) (elim (Bool-cases (belongs b c f r)) [
      | inl h ↦ rw h (
          found a d f r (omega arith) hd (omega arith)
            (keep-cons_yes (λ p. belongs b c p.0 p.1) (f, r) (suffix a d f (r + 1)) h))
      | inr h ↦ rw h (
          Finds-skip (8 * d + a) _ b c f r (suffix a d f (r + 1)) h (omega arith)
            (next_piece_loop-Finds n b c a d f (r + 1) (omega arith) hd (omega arith)))
    ])

visit-kept :
    (m n : ℕ) (b : Board) (c : Color) (l : List Pos) {o : Option Pos}
    → m ≤ n
    → Finds m b c l o
    → ((a d f r : ℕ)
        → a + r ≡ 8
        → d + f ≡ 7
        → 8 * d + a < n
        → loop_from n b c f r ≡ kept b c (suffix a d f r))
    → visit o (loop_from n b c) ≡ kept b c l
visit-kept m n b c l hm (ended e) ih = sym e
visit-kept m n b c l hm (found a d f r p q s e) ih =
    ap (λ t. (f, r) ∷ t) (ih a d f (r + 1) (omega arith) q (omega arith)) ∙ sym e

loop_from-kept :
    (n : ℕ) (b : Board) (c : Color) (a d f r : ℕ)
    → a + r ≡ 8
    → d + f ≡ 7
    → 8 * d + a < n
    → loop_from n b c f r ≡ kept b c (suffix a d f r)
unfolding loop_from
loop_from-kept zero b c a d f r ha hd hn = elim hn [ ]
loop_from-kept (suc n) b c a d f r ha hd hn =
    visit-kept (8 * d + a) n b c (suffix a d f r) (omega arith)
      (next_piece_loop-Finds 65 b c a d f r ha hd (omega arith)) (loop_from-kept n b c)

-- The loop from InitPieceLoop over NextPieceLoop visits, in the order of files and of ranks within a
-- file, the squares of the board that hold a piece of the colour, and no other.
pub piece_loop-keep :
    (b : Board) (c : Color) → piece_loop b c ≡ keep (λ p. belongs b c p.0 p.1) squares
unfolding piece_loop suffix for_files squares
piece_loop-keep b c = loop_from-kept 65 b c 8 7 0 0 refl refl (omega arith)

In-for_ranks :
    (n f r f' r' : ℕ) → In (f', r') (for_ranks n f r) ↔ ((f' ≡ f) × (r ≤ r') × (r' < r + n))
unfolding for_ranks
In-for_ranks zero f r f' r' = ground arith
In-for_ranks (suc n) f r f' r' = ground (arith, In-for_ranks n f (r + 1) f' r')

In-for_files : (n f f' r' : ℕ) → In (f', r') (for_files n f) ↔ ((f ≤ f') × (f' < f + n) × (r' < 8))
unfolding for_files
In-for_files zero f f' r' = ground arith
In-for_files (suc n) f f' r' = ground (arith, In-for_files n (f + 1) f' r')

-- The nested loops over files and ranks visit the squares of the board and no other.
pub In-squares : (f r : ℕ) → In (f, r) squares ↔ ((f < 8) × (r < 8))
unfolding squares
In-squares f r = ground (arith, In-for_files 8 0 f r)

-- A square is visited by the piece loop of a colour exactly when it lies on the board and holds a
-- piece of that colour.
pub In-piece_loop :
    (b : Board) (c : Color) (f r : ℕ)
    → In (f, r) (piece_loop b c) ↔ ((f < 8) × (r < 8) × (belongs b c f r ≡ true))
In-piece_loop b c f r = rw (piece_loop-keep b c) (
  (λ m.
      let h = keep-In (λ p. belongs b c p.0 p.1) (f, r) squares m in
      let i = (In-squares f r).0 h.0 in (i.0, i.1, h.1)),
  (λ h. In-keep (λ p. belongs b c p.0 p.1) (f, r) squares ((In-squares f r).1 (h.0, h.1)) h.2),
)
