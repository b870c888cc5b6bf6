-- ===== src/Draw/Repetition.antt =====
-- src/gameproc.c: `CheckRepetition` compares positions by their texts, which tell them apart.
use docker_chessd.Prelude.{
  ℕ, zero, suc, ◌+◌, ◌-◌, ◌≤◌, ◌<◌, ◌≡◌, ◌↔◌, refl, sym, ap, subst, ◌∙◌, ◌⊎◌, inl, inr, true, ltb,
  leb, if◌then◌else◌, ◌&&◌, Bool-cases, List, arith,
}
use docker_chessd.Prelude.Text.{same_text, same_text_iff}
use docker_chessd.Prelude.Int.{pos}
use docker_chessd.Board.{Board, GameState}
use docker_chessd.Fen.{print_row, print_rows, board_to_fen, fen_to_board}
use docker_chessd.Fen.RoundTrip.{fen_to_board-board_to_fen}
use docker_chessd.Draw.{History, get_fen_pos, rounds_from, repeated}
use docker_chessd.Draw.Recurrence.{Twice, tally, tally-Twice, shift, count_positions-tally}

-- The same pieces on the same squares, and the same side to move.
pub record SamePosition (a b : GameState) : Type 0 where
  pub squares : (x y : ℕ) → x < 8 → y < 8 → a.board x y ≡ b.board x y
  pub side : a.on_move ≡ b.on_move

print_row-same :
    (b c : Board) (r : ℕ)
    → ((x : ℕ) → x < 8 → b x r ≡ c x r)
    → (left f count : ℕ) → f + left ≡ 8
    → print_row left b r f count ≡ print_row left c r f count
unfolding print_row
print_row-same b c r h zero f count e = refl
print_row-same b c r h (suc left) f count e =
    let ih : (n : ℕ) → print_row left b r (f + 1) n ≡ print_row left c r (f + 1) n =
      λ n. print_row-same b c r h left (f + 1) n (omega (arith, e)) in
    rw (h f (omega (arith, e)), ih 0, ih count, ih (count + 1)) refl

print_rows-same :
    (b c : Board)
    → ((x y : ℕ) → x < 8 → y < 8 → b x y ≡ c x y)
    → (n : ℕ) → n ≤ 8
    → print_rows n b ≡ print_rows n c
unfolding print_rows
print_rows-same b c h zero l = refl
print_rows-same b c h (suc r) l =
    rw
      (
        print_row-same b c r (λ x k. h x r k (omega (arith, l))) 8 0 0 refl,
        print_rows-same b c h r (omega (arith, l)),
      )
      refl

on_board :
    (x y : ℕ) {A : Type 0} (p q : A) → x < 8 → y < 8 → (if ltb y 8 && ltb x 8 then p else q) ≡ p
on_board x y p q l k = ground (arith, l, k)

text-SamePosition : (a b : GameState) → board_to_fen a ≡ board_to_fen b → SamePosition a b
text-SamePosition a b e =
    let p = fen_to_board-board_to_fen a a in
    let q = fen_to_board-board_to_fen b a in
    record {
      squares = λ x y l k.
          sym (p.0 x y ∙ on_board x y (a.board x y) (a.board x y) l k)
          ∙ (ap (λ t. (fen_to_board t a).board x y) e
              ∙ (q.0 x y ∙ on_board x y (b.board x y) (a.board x y) l k));
      side = sym p.1 ∙ (ap (λ t. (fen_to_board t a).on_move) e ∙ q.1);
    }

-- Two positions have the same text exactly when they are the same.
pub board_to_fen_iff : (a b : GameState) → (board_to_fen a ≡ board_to_fen b) ↔ SamePosition a b
unfolding board_to_fen
board_to_fen_iff a b = (
  text-SamePosition a b,
  λ s. rw (print_rows-same a.board b.board s.squares 8 (omega arith), s.side) refl,
)

rounds_from-shift : (l n : ℕ) → rounds_from (shift l) n ≡ n - l
rounds_from-shift zero n = omega arith
rounds_from-shift (suc l) n = omega arith

at_current : (h : History) (n : ℕ) → 1 ≤ n → get_fen_pos h (pos (n - 1)) ≡ get_fen_pos h (shift n)
at_current h zero l = absurd (omega (arith, l))
at_current h (suc n) l = ap (λ k. get_fen_pos h (pos k)) (omega arith)

-- The text that the second flag counts: the current one, or an entry behind the moves of the game.
behind_moves :
    (h : History) (n : ℕ)
    → 1 ≤ n
    → n ≤ h.move_list_size
    → (get_fen_pos h (pos n) ≡ get_fen_pos h (shift n))
      ⊎ ((n < h.move_list_size) × (get_fen_pos h (pos n) ≡ h.fen_pos n))
unfolding get_fen_pos
behind_moves h zero l k = absurd (omega (arith, l))
behind_moves h (suc n) l k = elim (Bool-cases (leb h.move_list_size (suc n))) [
  | inr e ↦ inr (ground (arith, e), rw e refl)
  | inl e ↦ let z : h.move_list_size ≡ suc n = ground (arith, e, k) in inl (rw z (ground arith))
]

entry_behind : (h : History) (n : ℕ) → n < h.move_list_size → get_fen_pos h (pos n) ≡ h.fen_pos n
unfolding get_fen_pos
entry_behind h n l = ground (arith, l)

Twice-map : (P Q : ℕ → Type 0) (l n : ℕ) → ((k : ℕ) → k < n → P k → Q k) → Twice P l n → Twice Q l n
Twice-map P Q l n f t =
    (t.0, t.1, t.2, t.3, t.4, f t.0 (omega (arith, t.3, t.4)) t.5, f t.1 t.4 t.6)

-- A text counted by a flag that reaches 3.
counted :
    (h : History) (t : List ℕ) (l n : ℕ)
    → l ≤ n
    → (leb 3 (tally (λ k. same_text t (get_fen_pos h (shift k))) (n - l) l 1) ≡ true)
      ↔ Twice (λ k. t ≡ get_fen_pos h (shift k)) l n
counted h t l n e =
    let w =
      tally-Twice (λ k. same_text t (get_fen_pos h (shift k))) (λ k. t ≡ get_fen_pos h (shift k))
        (λ k. same_text_iff t (get_fen_pos h (shift k))) (n - l) l 1 in
    subst
      (λ m.
        (leb 3 (tally (λ k. same_text t (get_fen_pos h (shift k))) (n - l) l 1) ≡ true)
        ↔ Twice (λ k. t ≡ get_fen_pos h (shift k)) l m)
      (omega (arith, e)) (λ q. w.0 (ground (arith, q)), λ q. ground (arith, w.1 q))

repeated-counted :
    (h : History) (l : ℕ)
    → h.last_irreversible ≡ shift l
    → l ≤ h.num_half_moves
    → (repeated h ≡ true) ↔ (
        (8 ≤ h.num_half_moves)
        × (Twice
              (λ k. get_fen_pos h (pos (h.num_half_moves - 1)) ≡ get_fen_pos h (shift k))
              l
              h.num_half_moves
            ⊎ Twice
                (λ k. get_fen_pos h (pos h.num_half_moves) ≡ get_fen_pos h (shift k))
                l
                h.num_half_moves))
unfolding repeated
repeated-counted h l e q =
    let n = h.num_half_moves in
    let t1 = get_fen_pos h (pos (n - 1)) in
    let t2 = get_fen_pos h (pos n) in
    let c1 = counted h t1 l n q in
    let c2 = counted h t2 l n q in
    rw (e, rounds_from-shift l n, count_positions-tally h t1 t2 (n - l) l 1 1)
      (ground (arith, c1, c2))

-- The position number `n` stands at two earlier points from number `l` on.
abbrev pub Recurs : (ℕ → GameState) → ℕ → ℕ → Type 0
Recurs st l n = Twice (λ k. SamePosition (st k) (st n)) l n

-- CheckRepetition claims a draw in a game with the positions `st`, of which number 0 is the first and
-- number `n` the one on the board, exactly when eight half moves have been made and the position on
-- the board has been there at two earlier points from number `l` on, where `l` is one more than
-- lastIrreversible, or where the array of moves has an entry behind the moves of the game and the
-- text of that entry is the one of two points from `l` on. The texts of the moves of the game are
-- those that board_to_FEN writes.
pub repeated_iff :
    (h : History) (st : ℕ → GameState) (l : ℕ)
    → h.last_irreversible ≡ shift l
    → l ≤ h.num_half_moves
    → h.num_half_moves ≤ h.move_list_size
    → ((k : ℕ) → k ≤ h.num_half_moves → get_fen_pos h (shift k) ≡ board_to_fen (st k))
    → (repeated h ≡ true) ↔ (
        (8 ≤ h.num_half_moves)
        × (Recurs st l h.num_half_moves
            ⊎ ((h.num_half_moves < h.move_list_size)
                × Twice
                    (λ k. board_to_fen (st k) ≡ h.fen_pos h.num_half_moves)
                    l
                    h.num_half_moves)))
repeated_iff h st l e q z texts =
    let n = h.num_half_moves in
    let parts = repeated-counted h l e q in
    (
      λ r.
          let p = parts.0 r in
          (
            p.0,
            elim p.1 [
              | inl t ↦ inl (recurs (current (omega (arith, p.0))) t)
              | inr t ↦ elim (behind_moves h n (omega (arith, p.0)) z) [
                | inl c ↦ inl (recurs c t)
                | inr c ↦ inr (
                  c.0,
                  Twice-map _ (λ k. board_to_fen (st k) ≡ h.fen_pos n) l n
                      (λ k m w. sym (texts k (omega (arith, m))) ∙ (sym w ∙ c.1)) t,
                )
              ]
            ],
          ),
      λ r. parts.1 (
        r.0,
        elim r.1 [
          | inl t ↦ inl (Twice-map _ _ l n (λ k m w. same_as_current (omega (arith, r.0)) k m w) t)
          | inr t ↦ inr (
              Twice-map _ _ l n
                (λ k m w. entry_behind h n t.0 ∙ (sym w ∙ sym (texts k (omega (arith, m))))) t.1)
        ],
      ),
    )
  where
    current :
        1 ≤ h.num_half_moves
        → get_fen_pos h (pos (h.num_half_moves - 1)) ≡ get_fen_pos h (shift h.num_half_moves)
    current m = at_current h h.num_half_moves m

    recurs :
        {t : List ℕ}
        → t ≡ get_fen_pos h (shift h.num_half_moves)
        → Twice (λ k. t ≡ get_fen_pos h (shift k)) l h.num_half_moves
        → Recurs st l h.num_half_moves
    recurs c = Twice-map _ _ l h.num_half_moves (λ k m w.
        (board_to_fen_iff (st k) (st h.num_half_moves)).0
          (sym (texts k (omega (arith, m))) ∙ (sym w ∙ (c ∙ texts h.num_half_moves (omega arith)))))

    same_as_current :
        1 ≤ h.num_half_moves
        → (k : ℕ) → k < h.num_half_moves
        → SamePosition (st k) (st h.num_half_moves)
        → get_fen_pos h (pos (h.num_half_moves - 1)) ≡ get_fen_pos h (shift k)
    same_as_current i k m w =
        current i
        ∙ (texts h.num_half_moves (omega arith)
            ∙ (sym ((board_to_fen_iff (st k) (st h.num_half_moves)).1 w)
                ∙ sym (texts k (omega (arith, m)))))
