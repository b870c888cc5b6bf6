-- ===== src/Fen/Row.antt =====
-- src/eco.c: `FEN_to_board` reads a rank back that `board_to_FEN` has written.
use docker_chessd.Prelude.{
  ℕ, zero, suc, ◌+◌, ◌≤◌, ◌<◌, ◌≡◌, ◌≢◌, refl, ap, sym, ◌∙◌, subst, ◌⊎◌, inl, inr, true, false,
  ◌==◌, Bool-cases, ==_iff, List, [], ◌∷◌, ◌++◌, length, length-append, arith,
}
use docker_chessd.Prelude.Int.{pos}
use docker_chessd.Prelude.Text.{digit}
use docker_chessd.Board.{Color, Kind, Square, nopiece, piece, Board, put}
use docker_chessd.Fen.{piece_to_char, print_row, empty_run}
use docker_chessd.Fen.Reading.{Reads, Reads-done, Reads-piece, Reads-digit, Written-piece}

Square-cases : (q : Square) → (q ≡ nopiece) ⊎ ((c : Color) × (k : Kind) × (q ≡ piece c k))
Square-cases nopiece = inl refl
Square-cases (piece c k) = inr (c, k, refl)

-- What the loop over the files has put down: `count` empty squares before file `f` are pending.
pub record Unwritten (q : Board) (r left f g count : ℕ) : Type 0 where
  pub end : f + left ≡ 8
  pub start : g + count ≡ f
  pub none_left : left ≡ 0 → count ≡ 0
  pub free : (x : ℕ) → g ≤ x → x < f → q x r ≡ nopiece

inked :
    (q : Board) (f r : ℕ) (c : Color) (k : Kind)
    → q f r ≡ piece c k
    → (piece_to_char (q f r) == b' ') ≡ false
inked q f r c k o = rw o ((Written-piece c k).inked)

blank : (q : Board) (f r : ℕ) → q f r ≡ nopiece → (piece_to_char (q f r) == b' ') ≡ true
unfolding piece_to_char
blank q f r o = rw o

module _ (q : Board) (r : ℕ) where
  Unwritten-more :
      (left f g count : ℕ)
      → Unwritten q r (suc left) f g count
      → q f r ≡ nopiece
      → f ≢ 7
      → Unwritten q r left (f + 1) g (suc count)
  Unwritten-more left f g count p o h = record {
    end = omega (arith, p.end);
    start = omega (arith, p.start);
    none_left = λ z. omega (arith, p.end);
    free = λ x a l. elim (Bool-cases (x == f)) [
      | inl t ↦ ap (λ i. q i r) ((==_iff x f).0 t) ∙ o
      | inr t ↦ p.free x a (ground arith)
    ];
  }

  pub Unwritten-none : (left f : ℕ) → f + left ≡ 8 → Unwritten q r left f f 0
  Unwritten-none left f e = record {
    end = e;
    start = omega arith;
    none_left = λ z. refl;
    free = λ x a l. absurd (omega arith);
  }

print_none : (q : Board) (r f n : ℕ) → print_row 0 q r f n ≡ []
unfolding print_row
print_none q r f n = refl

print_piece :
    (q : Board) (r left f : ℕ) (c : Color) (k : Kind)
    → q f r ≡ piece c k
    → print_row (suc left) q r f 0 ≡ piece_to_char (q f r) ∷ print_row left q r (f + 1) 0
unfolding print_row
print_piece q r left f c k o = let w = inked q f r c k o in rw w

print_digit :
    (q : Board) (r left f n : ℕ) (c : Color) (k : Kind)
    → q f r ≡ piece c k
    → print_row (suc left) q r f (suc n)
      ≡ digit (suc n) ∷ piece_to_char (q f r) ∷ print_row left q r (f + 1) 0
unfolding print_row
print_digit q r left f n c k o =
    let w = inked q f r c k o in let z : (suc n == 0) ≡ false = ground arith in rw (w, z)

print_more :
    (q : Board) (r left f n : ℕ)
    → q f r ≡ nopiece
    → f ≢ 7
    → print_row (suc left) q r f n ≡ print_row left q r (f + 1) (suc n)
unfolding print_row
print_more q r left f n o h =
    let w = blank q f r o in
    let z : (f == 7) ≡ false = ground arith in let a : n + 1 ≡ suc n = omega arith in rw (w, z, a)

print_last :
    (q : Board) (r left f n : ℕ)
    → q f r ≡ nopiece
    → left ≡ 0
    → (f == 7) ≡ true
    → print_row (suc left) q r f n ≡ digit (suc n) ∷ []
unfolding print_row
print_last q r left f n o z last =
    let w = blank q f r o in
    let a : n + 1 ≡ suc n = omega arith in
    rw (w, last, a)
      (ap (λ i. digit (suc n) ∷ print_row i q r (f + 1) n) z
        ∙ ap (λ t. digit (suc n) ∷ t) (print_none q r (f + 1) n))

module _ (q : Board) (r d e : ℕ) (s : List ℕ) where
  tail_pos : (t : List ℕ) → 0 < length (t ++ (d ∷ e ∷ s))
  tail_pos t = omega (arith, length-append {0} t (d ∷ e ∷ s))

  -- A text that is read, found to be the text that was written.
  as_written :
      (t u : List ℕ) (g : ℕ) (b : Board)
      → t ≡ u
      → Reads (u ++ (d ∷ e ∷ s)) g r b (d ∷ e ∷ s) q
      → Reads (t ++ (d ∷ e ∷ s)) g r b (d ∷ e ∷ s) q
  as_written t u g b h =
      subst (λ (v : List ℕ). Reads (v ++ (d ∷ e ∷ s)) g r b (d ∷ e ∷ s) q) (sym h)

  -- The pending empty squares and the piece on file `f`, with the text behind it.
  piece-Reads :
      (left f g count : ℕ) (b : Board) (c : Color) (k : Kind)
      → Unwritten q r (suc left) f g count
      → q f r ≡ piece c k
      → ((b' : Board)
          → Reads (print_row left q r (f + 1) 0 ++ (d ∷ e ∷ s)) (f + 1) r b' (d ∷ e ∷ s) q)
      → Reads (print_row (suc left) q r f count ++ (d ∷ e ∷ s)) g r b (d ∷ e ∷ s) q
  piece-Reads left f g zero b c k p o next =
      let h : g ≡ f = omega (arith, p.start) in
      rw h (
        as_written _ _ f b (print_piece q r left f c k o) (
          Reads-piece _ _ f r b q (tail_pos _) (omega (arith, p.end)) (rw o (Written-piece c k))
            (next (put b f r (q f r)))))
  piece-Reads left f g (suc n) b c k p o next =
      as_written _ _ g b (print_digit q r left f n c k o) (
        Reads-digit _ _ n g r b q (omega arith) (omega (arith, p.end, p.start))
          (λ x a l. p.free x a (omega (arith, p.start)))
          (let h : g + suc n ≡ f = omega (arith, p.start) in
            let b' = (empty_run 8 (pos (suc n)) g r b).1 in
            subst
              (λ (i : ℕ).
                Reads (piece_to_char (q f r) ∷ print_row left q r (f + 1) 0 ++ (d ∷ e ∷ s)) i r b'
                  (d ∷ e ∷ s) q)
              (sym h)
              (Reads-piece _ _ f r b' q (tail_pos _) (omega (arith, p.end))
                (rw o (Written-piece c k)) (next (put b' f r (q f r))))))

  -- The empty squares up to the last file.
  last-Reads :
      (left f g count : ℕ) (b : Board)
      → Unwritten q r (suc left) f g count
      → q f r ≡ nopiece
      → (f == 7) ≡ true
      → Reads (print_row (suc left) q r f count ++ (d ∷ e ∷ s)) g r b (d ∷ e ∷ s) q
  last-Reads left f g count b p o last =
      let seven : f ≡ 7 = (==_iff f 7).0 last in
      let h : g + suc count ≡ 8 = omega (arith, p.start) in
      as_written _ _ g b (print_last q r left f count o (omega (arith, p.end)) last) (
        Reads-digit _ _ count g r b q (omega arith) (omega arith)
          (λ x a l. elim (Bool-cases (x == f)) [
            | inl t ↦ ap (λ i. q i r) ((==_iff x f).0 t) ∙ o
            | inr t ↦ p.free x a (ground (arith, p.start))
          ])
          (subst
            (λ (i : ℕ). Reads (d ∷ e ∷ s) i r (empty_run 8 (pos (suc count)) g r b).1 (d ∷ e ∷ s) q)
            (sym h) (Reads-done d e s r (empty_run 8 (pos (suc count)) g r b).1 q)))

  pub row-Reads :
      (left f g count : ℕ) (b : Board)
      → Unwritten q r left f g count
      → Reads (print_row left q r f count ++ (d ∷ e ∷ s)) g r b (d ∷ e ∷ s) q
  row-Reads zero f g count b p =
      let h : g ≡ 8 = omega (arith, p.end, p.start, p.none_left refl) in
      rw (h, print_none q r f count) (Reads-done d e s r b q)
  row-Reads (suc left) f g count b p = elim (Square-cases (q f r)) [
    | inl o ↦ elim (Bool-cases (f == 7)) [
      | inl last ↦ last-Reads left f g count b p o last
      | inr more ↦ as_written _ _ g b (print_more q r left f count o (ground arith)) (
          row-Reads left (f + 1) g (suc count) b
            (Unwritten-more q r left f g count p o (ground arith)))
    ]
    | inr (c, k, o) ↦ piece-Reads left f g count b c k p o (λ b'.
        row-Reads left (f + 1) (f + 1) 0 b'
          (Unwritten-none q r left (f + 1) (omega (arith, p.end))))
  ]
