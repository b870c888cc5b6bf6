-- ===== src/Draw/Recurrence.antt =====
-- src/gameproc.c: the loop of `CheckRepetition` counts the positions that recur.
use docker_chessd.Prelude.{
  ℕ, zero, suc, ◌+◌, ◌≤◌, ◌<◌, ◌≡◌, ◌↔◌, refl, ap, subst, ◌∙◌, inl, inr, Bool, true, false, ◌==◌,
  ==_iff, Bool-cases, List, arith,
}
use docker_chessd.Prelude.Text.{same_text}
use docker_chessd.Prelude.Int.{ℤ, pos, negsuc, inc}
use docker_chessd.Draw.{History, get_fen_pos, bump_if, count_positions}

-- A loop that counts hits from `i` on.
abbrev pub tally : (ℕ → Bool) → ℕ → ℕ → ℕ → ℕ
tally hit zero i flag = flag
tally hit (suc r) i flag = tally hit r (suc i) (bump_if (hit i) flag)

-- Two hits from `i` on, below `i + r`.
abbrev pub Twice : (ℕ → Type 0) → ℕ → ℕ → Type 0
Twice P i n = (j : ℕ) × (k : ℕ) × (i ≤ j) × (j < k) × (k < n) × P j × P k

abbrev Once : (ℕ → Type 0) → ℕ → ℕ → Type 0
Once P i n = (k : ℕ) × (i ≤ k) × (k < n) × P k

tally-le : (hit : ℕ → Bool) (r i flag : ℕ) → flag ≤ tally hit r i flag
tally-le hit zero i flag = omega arith
tally-le hit (suc r) i flag =
    let h = tally-le hit r (suc i) (bump_if (hit i) flag) in ground (arith, h)

module _ (hit : ℕ → Bool) (P : ℕ → Type 0) (means : (k : ℕ) → (hit k ≡ true) ↔ P k) where
  -- No hit at `i`: the position is a later one.
  later : (i k : ℕ) → hit i ≡ false → i ≤ k → P k → i < k
  later i k e l p = elim (Bool-cases (k == i)) [
    | inl q ↦ cc (e, (means i).1 (subst P ((==_iff k i).0 q) p))
    | inr q ↦ ground (arith, q, l)
  ]

  tally-Once : (r i flag : ℕ) → (suc flag ≤ tally hit r i flag) ↔ Once P i (i + r)
  tally-Once zero i flag = (λ e. absurd (omega (arith, e)), λ o. absurd (omega (arith, o.1, o.2)))
  tally-Once (suc r) i flag = elim (Bool-cases (hit i)) [
    | inl e ↦ (
      λ h. (i, omega arith, omega arith, (means i).0 e),
      λ o. rw e (omega (arith, tally-le hit r (suc i) (flag + 1))),
    )
    | inr e ↦
        let ih = tally-Once r (suc i) flag in
        (
          λ h. let o = ih.0 (rw e at h) in (o.0, omega (arith, o.1), omega (arith, o.2), o.3),
          λ o. rw e (ih.1 (o.0, omega (arith, later i o.0 e o.1 o.3), omega (arith, o.2), o.3)),
        )
  ]

  pub tally-Twice : (r i flag : ℕ) → (suc (suc flag) ≤ tally hit r i flag) ↔ Twice P i (i + r)
  tally-Twice zero i flag =
      (λ e. absurd (omega (arith, e)), λ o. absurd (omega (arith, o.2, o.3, o.4)))
  tally-Twice (suc r) i flag = elim (Bool-cases (hit i)) [
    | inl e ↦
        let once = tally-Once r (suc i) (flag + 1) in
        (
          λ h.
              let o = once.0 (omega (arith, rw e at h)) in
              (i, o.0, omega arith, omega (arith, o.1), omega (arith, o.2), (means i).0 e, o.3),
          λ o. rw e (omega (arith, once.1 (o.1, omega (arith, o.2, o.3), omega (arith, o.4), o.6))),
        )
    | inr e ↦
        let ih = tally-Twice r (suc i) flag in
        (
          λ h.
              let o = ih.0 (rw e at h) in
              (o.0, o.1, omega (arith, o.2), o.3, omega (arith, o.4), o.5, o.6),
          λ o. rw e (
              ih.1 (
                o.0,
                o.1,
                omega (arith, later i o.0 e o.2 o.5),
                o.3,
                omega (arith, o.4),
                o.5,
                o.6,
              )),
        )
  ]

-- The index of the position after `i` half moves, as the source counts.
abbrev pub shift : ℕ → ℤ
shift zero = negsuc 0
shift (suc i) = pos i

inc-shift : (i : ℕ) → inc (shift i) ≡ shift (suc i)
unfolding inc
inc-shift zero = refl
inc-shift (suc i) = refl

-- The two flags are two such loops.
pub count_positions-tally :
    (h : History) (pos1 pos2 : List ℕ) (r i flag1 flag2 : ℕ)
    → count_positions h pos1 pos2 r (shift i) flag1 flag2 ≡ (
      tally (λ k. same_text pos1 (get_fen_pos h (shift k))) r i flag1,
      tally (λ k. same_text pos2 (get_fen_pos h (shift k))) r i flag2,
    )
unfolding count_positions
count_positions-tally h pos1 pos2 zero i flag1 flag2 = refl
count_positions-tally h pos1 pos2 (suc r) i flag1 flag2 =
    ap
      (λ k.
        count_positions h pos1 pos2 r k (bump_if (same_text pos1 (get_fen_pos h (shift i))) flag1)
          (bump_if (same_text pos2 (get_fen_pos h (shift i))) flag2))
      (inc-shift i)
    ∙ count_positions-tally h pos1 pos2 r (suc i)
        (bump_if (same_text pos1 (get_fen_pos h (shift i))) flag1)
        (bump_if (same_text pos2 (get_fen_pos h (shift i))) flag2)
