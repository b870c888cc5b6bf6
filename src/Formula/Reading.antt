-- ===== src/Formula/Reading.antt =====
-- src/formula.c: what the readers of characters, operators, numbers and variables take off a text.
use docker_chessd.Prelude.{
  ℕ, ◌+◌, ◌≤◌, ◌<◌, ◌≡◌, refl, ap, inl, inr, false, ◌==◌, Bool-cases, Option-cases, List, [], ◌∷◌,
  Option, none, some, length, All, arith,
}
use docker_chessd.Prelude.Int.{ℤ}
use docker_chessd.Prelude.Text.{codes, isdigit, skip_space}
use docker_chessd.Formula.{
  move_index_past_string, first_text, Op, op_type_of, operators, variables, op_at, op_found,
  Variable,
}
use docker_chessd.Formula.Eval.{
  Outcome, ran_out, trapped, failed, value, and_then, close_paren, timed, referred, read_digits,
  next_digit, minutes, number, unary,
}
use docker_chessd.Formula.Check.{is_rtparen}

-- The text was not read past its end, and what is left of it has at most `n` characters, where the
-- program goes on.
abbrev pub Within : ℕ → Outcome → Type 0
Within n ran_out = ⊥
Within n trapped = Unit
Within n (failed e) = Unit
Within n (value v r) = length r ≤ n

-- The clause has a result, or the program is stopped.
abbrev pub Ends : Outcome → Type 0
Ends ran_out = ⊥
Ends trapped = Unit
Ends (failed e) = Unit
Ends (value v r) = Unit

pub Within-and_then :
    (n : ℕ) (o : Outcome) (k : ℤ → List ℕ → Outcome)
    → Within n o
    → ((v : ℤ) (r : List ℕ) → length r ≤ n → Within n (k v r))
    → Within n (and_then o k)
Within-and_then n ran_out k h j = h
Within-and_then n trapped k h j = tt
Within-and_then n (failed e) k h j = tt
Within-and_then n (value v r) k h j = j v r h

pub Within-le : (n m : ℕ) (o : Outcome) → n ≤ m → Within n o → Within m o
Within-le n m ran_out l h = h
Within-le n m trapped l h = tt
Within-le n m (failed e) l h = tt
Within-le n m (value v r) l h = omega (arith, h, l)

pub Within-Ends : (n : ℕ) (o : Outcome) → Within n o → Ends o
Within-Ends n ran_out h = h
Within-Ends n trapped h = tt
Within-Ends n (failed e) h = tt
Within-Ends n (value v r) h = tt

pub length-skip_space : (s : List ℕ) → length (skip_space s) ≤ length s
unfolding skip_space
length-skip_space [] = omega arith
length-skip_space (c ∷ s) = ground (arith, length-skip_space s)

-- A text that is matched is taken off the string.
pub length-move_index_past_string :
    (s t r : List ℕ) → move_index_past_string s t ≡ some r → length r + length t ≤ length s
unfolding move_index_past_string
length-move_index_past_string s [] r e = ground arith
length-move_index_past_string [] (c ∷ t) r e = cc
length-move_index_past_string (d ∷ s) (c ∷ t) r e =
    ground (arith, length-move_index_past_string s t r)

-- So is the first text of a table that is found, a text that is not empty.
pub length-first_text :
    {A : Type 0} (table : List (List ℕ × A)) (s : List ℕ) (a : A) (r : List ℕ)
    → All (λ p. 1 ≤ length p.0) table
    → first_text table s ≡ some (a, r)
    → length r < length s
unfolding first_text
length-first_text [] s a r h e = cc
length-first_text {A = A} ((t, b) ∷ table) s a r h e =
    elim (Option-cases (move_index_past_string s t)) [
      | inl q ↦ length-first_text table s a r h.1 (rw (q, first_text) at e)
      | inr (x, q) ↦
          let z : ◌≡◌ {A = Option (A × List ℕ)} (some (b, x)) (some (a, r)) =
            rw (q, first_text) at e in
          let l : ◌≡◌ {A = List ℕ} x r = cc in
          omega (arith, length-move_index_past_string s t x q, h.0, ap length l)
    ]

operators_texts : All (λ (p : List ℕ × Op). 1 ≤ length p.0) operators
operators_texts = ground arith

pub variables_texts : All (λ (p : List ℕ × Variable). 1 ≤ length p.0) variables
variables_texts = ground arith

found_shorter :
    (s : List ℕ) (o : Option (Op × List ℕ))
    → first_text operators s ≡ o
    → length (op_found o s).1 ≤ length s
      × (2 ≤ op_type_of (op_found o s).0 → length (op_found o s).1 < length s)
unfolding op_type_of
found_shorter s none e = ground arith
found_shorter s (some (a, r)) e =
    ground (arith, length-first_text operators s a r operators_texts e)

-- An operator other than a right parenthesis is taken off the text.
pub length-op_at :
    (s : List ℕ)
    → (length (op_at s).1 ≤ length s)
      × (is_rtparen (op_at s).0 ≡ false
          → 2 ≤ op_type_of (op_at s).0
          → length (op_at s).1 < length s)
unfolding op_at op_type_of
length-op_at [] = ground arith
length-op_at (c ∷ s) = elim (Bool-cases (c == b'#')) [
  | inl h ↦ rw h (omega arith, λ p q. omega (arith, q))
  | inr h ↦ elim (Bool-cases (c == b')')) [
    | inl k ↦ rw (h, k) (omega arith, λ p q. cc)
    | inr k ↦
        let f = found_shorter (c ∷ s) (first_text operators (c ∷ s)) refl in
        rw (h, k) (f.0, λ p q. f.1 q)
  ]
]

pub Within-close_paren : (v : ℤ) (s : List ℕ) → Within (length s) (close_paren v s)
unfolding close_paren
Within-close_paren v s = elim (Option-cases (move_index_past_string s (codes ")"))) [
  | inl e ↦ rw e tt
  | inr (r, e) ↦ rw e (omega (arith, length-move_index_past_string s (codes ")") r e))
]

pub Within-timed : (n : ℕ) (o : Outcome) (f : ℤ → ℤ) → Within n o → Within n (timed o f)
Within-timed n ran_out f h = h
Within-timed n trapped f h = tt
Within-timed n (failed e) f h = tt
Within-timed n (value v r) f h = h

pub Within-referred :
    (n : ℕ) (o : Outcome) (s : List ℕ) → Ends o → length s ≤ n → Within n (referred o s)
Within-referred n ran_out s h l = h
Within-referred n trapped s h l = tt
Within-referred n (failed e) s h l = tt
Within-referred n (value v r) s h l = l

pub length-read_digits : (v : ℤ) (s : List ℕ) → length (read_digits v s).1 ≤ length s
unfolding read_digits
length-read_digits v [] = omega arith
length-read_digits v (c ∷ s) = elim (Bool-cases (isdigit c)) [
  | inl e ↦ rw (e, read_digits) (omega (arith, length-read_digits (next_digit v c) s))
  | inr e ↦ rw (e, read_digits) (omega arith)
]

pub Within-minutes : (v : ℤ) (s : List ℕ) → Within (length s) (minutes v s)
unfolding minutes
Within-minutes v s = elim (Option-cases (move_index_past_string s (codes "minutes"))) [
  | inl e ↦ rw e (omega arith)
  | inr (r, e) ↦ rw e (omega (arith, length-move_index_past_string s (codes "minutes") r e))
]

pub Within-number : (s : List ℕ) → Within (length s) (number s)
unfolding number
Within-number s =
    let d = read_digits (ℤ.pos 0) s in
    Within-le (length (skip_space d.1)) (length s) (number s)
      (omega (arith, length-read_digits (ℤ.pos 0) s, length-skip_space d.1))
      (Within-minutes d.0 (skip_space d.1))

pub Within-unary : (n c : ℕ) (s : List ℕ) (o : Outcome) → Within n o → Within n (unary c s o)
unfolding unary
Within-unary n c [] o h = Within-and_then n o _ h (λ v r l. l)
Within-unary n c (d ∷ s) o h = elim (Bool-cases (c == d)) [
  | inl e ↦ rw e tt
  | inr e ↦ rw e (Within-and_then n o _ h (λ v r l. l))
]
