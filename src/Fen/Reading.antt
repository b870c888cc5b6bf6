-- ===== src/Fen/Reading.antt =====
-- src/eco.c: how `FEN_to_board` reads the characters of one rank.
use docker_chessd.Prelude.{
  ℕ, zero, suc, ◌+◌, ◌≤◌, ◌<◌, ◌≡◌, refl, ap, ◌∙◌, true, false, ◌&&◌, leb, ltb, ◌==◌, if◌then◌else◌,
  List, [], ◌∷◌, length, arith,
}
use docker_chessd.Prelude.Int.{pos}
use docker_chessd.Prelude.Text.{digit, isalpha}
use docker_chessd.Board.{
  Color, white, black, Kind, pawn, knight, bishop, rook, queen, king, Square, nopiece, piece, Board,
  put,
}
use docker_chessd.Fen.{char_to_piece, piece_to_char, minus_zero, empty_run, read_char, read_row}

-- A letter of a piece is read as the piece that it was written for.
pub record Written (q : Square) : Type 0 where
  pub alpha : isalpha (piece_to_char q) ≡ true
  pub inked : (piece_to_char q == b' ') ≡ false
  pub back : char_to_piece (piece_to_char q) ≡ q

pub Written-piece : (c : Color) (k : Kind) → Written (piece c k)
unfolding piece_to_char char_to_piece
Written-piece white pawn = record { alpha = refl; inked = refl; back = refl }
Written-piece white knight = record { alpha = refl; inked = refl; back = refl }
Written-piece white bishop = record { alpha = refl; inked = refl; back = refl }
Written-piece white rook = record { alpha = refl; inked = refl; back = refl }
Written-piece white queen = record { alpha = refl; inked = refl; back = refl }
Written-piece white king = record { alpha = refl; inked = refl; back = refl }
Written-piece black pawn = record { alpha = refl; inked = refl; back = refl }
Written-piece black knight = record { alpha = refl; inked = refl; back = refl }
Written-piece black bishop = record { alpha = refl; inked = refl; back = refl }
Written-piece black rook = record { alpha = refl; inked = refl; back = refl }
Written-piece black queen = record { alpha = refl; inked = refl; back = refl }
Written-piece black king = record { alpha = refl; inked = refl; back = refl }

put_run :
    (b : Board) (f r k x y : ℕ)
    → (if y == r && (leb (f + 1) x && ltb x (f + 1 + k)) then nopiece else put b f r nopiece x y)
      ≡ (if y == r && (leb f x && ltb x (f + suc k)) then nopiece else b x y)
put_run b f r k x y = ground arith

-- The loop over empty squares writes `suc k` of them.
pub empty_run_lem :
    (fuel k f r : ℕ) (b : Board)
    → k < fuel
    → f + suc k ≤ 8
    → ((empty_run fuel (pos (suc k)) f r b).0 ≡ f + suc k)
      × ((x y : ℕ)
          → (empty_run fuel (pos (suc k)) f r b).1 x y
            ≡ (if y == r && (leb f x && ltb x (f + suc k)) then nopiece else b x y))
unfolding empty_run
empty_run_lem zero k f r b h g = elim h [ ]
empty_run_lem (suc fuel) zero f r b h g = (omega arith, λ x y. ground arith)
empty_run_lem (suc fuel) (suc k) f r b h g =
    let ih = empty_run_lem fuel k (f + 1) r (put b f r nopiece) (omega arith) (omega arith) in
    let e : ltb (f + 1) 8 ≡ true = ground arith in
    rw e (omega (arith, ih.0), λ x y. ih.1 x y ∙ put_run b f r (suc k) x y)

pub read_letter :
    (q : Square) (f r : ℕ) (b : Board)
    → Written q
    → read_char (piece_to_char q) f r b ≡ (f + 1, put b f r q)
unfolding read_char
read_letter q f r b w = rw (w.alpha, w.back)

pub read_digit :
    (k f r : ℕ) (b : Board)
    → k < 8
    → read_char (digit (suc k)) f r b ≡ empty_run 8 (pos (suc k)) f r b
unfolding read_char
read_digit k f r b h =
    let a : isalpha (digit (suc k)) ≡ false = ground arith in
    let s : (digit (suc k) == b'/') ≡ false = ground arith in
    let z : minus_zero (digit (suc k)) ≡ pos (suc k) = ground arith in rw (a, s, z)

put_same :
    (b q : Board) (f r x y : ℕ)
    → f < 8
    → (if y == r && (leb (f + 1) x && ltb x 8) then q x y else put b f r (q f r) x y)
      ≡ (if y == r && (leb f x && ltb x 8) then q x y else b x y)
put_same b q f r x y g = ground arith

-- One character, with more text behind it.
pub read_row_step :
    (c : ℕ) (t : List ℕ) (f r : ℕ) (b : Board)
    → 0 < length t
    → f < 8
    → read_row (c ∷ t) f r b ≡ read_row t (read_char c f r b).0 r (read_char c f r b).1
unfolding read_row
read_row_step c [] f r b h g = absurd (omega arith)
read_row_step c (d ∷ s) f r b h g = let e : ltb f 8 ≡ true = ground arith in rw e

-- The text, read from file `f` on, leaves `rest` and sets the squares up to file 7 as on board `q`.
abbrev pub Reads : List ℕ → ℕ → ℕ → Board → List ℕ → Board → Type 0
Reads t f r b rest q =
    ((read_row t f r b).0 ≡ rest)
    × ((x y : ℕ)
        → (read_row t f r b).1 x y ≡ (if y == r && (leb f x && ltb x 8) then q x y else b x y))

pub Reads-done :
    (d e : ℕ) (s : List ℕ) (r : ℕ) (b q : Board) → Reads (d ∷ e ∷ s) 8 r b (d ∷ e ∷ s) q
unfolding read_row
Reads-done d e s r b q = (refl, λ x y. ground arith)

-- A letter, which stands for the piece at `(f, r)` of `q`.
pub Reads-piece :
    (t rest : List ℕ) (f r : ℕ) (b q : Board)
    → 0 < length t
    → f < 8
    → Written (q f r)
    → Reads t (f + 1) r (put b f r (q f r)) rest q
    → Reads (piece_to_char (q f r) ∷ t) f r b rest q
Reads-piece t rest f r b q h g w n =
    let e : read_row (piece_to_char (q f r) ∷ t) f r b ≡ read_row t (f + 1) r (put b f r (q f r)) =
      read_row_step (piece_to_char (q f r)) t f r b h g
      ∙ ap (λ (p : ℕ × Board). read_row t p.0 r p.1) (read_letter (q f r) f r b w) in
    (ap (λ p. p.0) e ∙ n.0, λ x y. ap (λ p. p.1 x y) e ∙ (n.1 x y ∙ put_same b q f r x y g))

-- A digit, which stands for as many empty squares.
pub Reads-digit :
    (t rest : List ℕ) (k f r : ℕ) (b q : Board)
    → 0 < length t
    → f + suc k ≤ 8
    → ((x : ℕ) → f ≤ x → x < f + suc k → q x r ≡ nopiece)
    → Reads t (f + suc k) r (empty_run 8 (pos (suc k)) f r b).1 rest q
    → Reads (digit (suc k) ∷ t) f r b rest q
Reads-digit t rest k f r b q h g o n =
    let l = empty_run_lem 8 k f r b (omega arith) g in
    let e : read_row (digit (suc k) ∷ t) f r b
        ≡ read_row t (f + suc k) r (empty_run 8 (pos (suc k)) f r b).1 =
      read_row_step (digit (suc k)) t f r b h (omega arith)
      ∙ (ap (λ (p : ℕ × Board). read_row t p.0 r p.1) (read_digit k f r b (omega arith))
          ∙ ap (λ i. read_row t i r (empty_run 8 (pos (suc k)) f r b).1) l.0) in
    (ap (λ p. p.0) e ∙ n.0, λ x y. ap (λ p. p.1 x y) e ∙ (n.1 x y ∙ ground (arith, l.1 x y, o x)))
