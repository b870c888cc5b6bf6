-- ===== src/Fen/RoundTrip.antt =====
-- src/eco.c: `FEN_to_board` restores the position that `board_to_FEN` has written.
use docker_chessd.Prelude.{
  ℕ, zero, suc, ◌<◌, ◌≡◌, refl, ap, sym, ◌∙◌, subst, ◌&&◌, leb, ltb, ◌==◌, if◌then◌else◌, List, [],
  ◌∷◌, ◌++◌, length, length-append, arith,
}
use mathlib.Core.List.{append_assoc}
use docker_chessd.Board.{Color, white, black, Board, GameState}
use docker_chessd.Fen.{
  print_row, print_rows, board_to_fen, read_row, read_rows, read_char, read_side, fen_to_board,
  side_char,
}
use docker_chessd.Fen.Reading.{Reads, read_row_step}
use docker_chessd.Fen.Row.{row-Reads, Unwritten-none}

-- What stands behind a rank: a space after the last one, and `/` after the others.
abbrev separator : ℕ → ℕ
separator r = if r == 0 then b' ' else b'/'

-- The text from rank `n - 1` down.
abbrev below : ℕ → Board → ℕ → List ℕ
below n q c = print_rows n q ++ (c ∷ [])

below_cons : (n : ℕ) (q : Board) (c : ℕ) → (e : ℕ) × (s : List ℕ) × (below n q c ≡ e ∷ s)
below_cons n q c = split (print_rows n q)
  where
    split : (t : List ℕ) → (e : ℕ) × (s : List ℕ) × (t ++ (c ∷ []) ≡ e ∷ s)
    split [] = (c, [], refl)
    split (x ∷ t) = (x, t ++ (c ∷ []), refl)

below-suc :
    (r : ℕ) (q : Board) (c : ℕ)
    → below (suc r) q c ≡ print_row 8 q r 0 0 ++ (separator r ∷ below r q c)
unfolding print_rows
below-suc r q c = append_assoc (print_row 8 q r 0 0) (separator r ∷ print_rows r q) (c ∷ [])

below_pos : (n : ℕ) (q : Board) (c : ℕ) → 0 < length (below n q c)
below_pos n q c = omega (arith, length-append {0} (print_rows n q) (c ∷ []))

side_back : (c d : Color) → read_side (b' ' ∷ side_char c ∷ []) d ≡ c
side_back white d = refl
side_back black d = refl

-- The `/` before a rank is skipped.
read_slash :
    (t : List ℕ) (r : ℕ) (b : Board) → 0 < length t → read_row (b'/' ∷ t) 0 r b ≡ read_row t 0 r b
unfolding read_char
read_slash t r b h = read_row_step b'/' t 0 r b h (omega arith)

one_row :
    (r : ℕ) (q b : Board) (c : ℕ) → Reads (below (suc r) q c) 0 r b (separator r ∷ below r q c) q
one_row r q b c =
    let (e, s, h) = below_cons r q c in
    let k : separator r ∷ below r q c ≡ separator r ∷ e ∷ s = ap (λ t. separator r ∷ t) h in
    subst (λ (t : List ℕ). Reads t 0 r b (separator r ∷ below r q c) q) (sym (below-suc r q c))
      (subst (λ (t : List ℕ). Reads (print_row 8 q r 0 0 ++ t) 0 r b t q) (sym k)
        (row-Reads q r (separator r) e s 8 0 0 0 b (Unwritten-none q r 8 0 refl)))

merge :
    (q b : Board) (x y : ℕ)
    → (if y == 0 && (leb 0 x && ltb x 8) then q x y else b x y)
      ≡ (if ltb y 1 && ltb x 8 then q x y else b x y)
merge q b x y = ground arith

-- The `/` before the first rank of a text is skipped.
rows_slash :
    (r : ℕ) (t : List ℕ) (b : Board)
    → 0 < length t
    → read_rows (suc r) (b'/' ∷ t) b ≡ read_rows (suc r) t b
unfolding read_rows
rows_slash r t b h = ap (λ (p : List ℕ × Board). read_rows r p.0 p.1) (read_slash t r b h)

separator-suc : (r : ℕ) → separator (suc r) ≡ b'/'
separator-suc r = ground arith

-- The ranks below `suc r`.
rows_back :
    (r : ℕ) (q b : Board) (c : ℕ)
    → ((read_rows (suc r) (below (suc r) q c) b).0 ≡ b' ' ∷ c ∷ [])
      × ((x y : ℕ)
          → (read_rows (suc r) (below (suc r) q c) b).1 x y
            ≡ (if ltb y (suc r) && ltb x 8 then q x y else b x y))
unfolding read_rows print_rows
rows_back zero q b c = let n = one_row zero q b c in (n.0, λ x y. n.1 x y ∙ merge q b x y)
rows_back (suc r) q b c =
    let row = read_row (below (suc (suc r)) q c) 0 (suc r) b in
    let n = one_row (suc r) q b c in
    let e : read_rows (suc r) row.0 row.1 ≡ read_rows (suc r) (below (suc r) q c) row.1 =
      ap (λ t. read_rows (suc r) t row.1) (n.0 ∙ ap (λ i. i ∷ below (suc r) q c) (separator-suc r))
      ∙ rows_slash r (below (suc r) q c) row.1 (below_pos (suc r) q c) in
    let ih = rows_back r q row.1 c in
    (ap (λ p. p.0) e ∙ ih.0, λ x y. ap (λ p. p.1 x y) e ∙ (ih.1 x y ∙ ground (arith, n.1 x y)))

-- A position that is written and read again, into any state: the board is restored, no square off
-- the board is written, and the side to move is restored.
pub fen_to_board-board_to_fen :
    (gs gs' : GameState)
    → ((x y : ℕ)
        → (fen_to_board (board_to_fen gs) gs').board x y
          ≡ (if ltb y 8 && ltb x 8 then gs.board x y else gs'.board x y))
      × ((fen_to_board (board_to_fen gs) gs').on_move ≡ gs.on_move)
unfolding fen_to_board board_to_fen
fen_to_board-board_to_fen gs gs' =
    let n = rows_back 7 gs.board gs'.board (side_char gs.on_move) in
    (n.1, ap (λ t. read_side t gs'.on_move) n.0 ∙ side_back gs.on_move gs'.on_move)
