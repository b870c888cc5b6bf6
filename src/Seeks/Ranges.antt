-- ===== src/Seeks/Ranges.antt =====
-- src/seekproc.c: what the words of `seek` and the defaults make of the tuple.
use docker_chessd.Prelude.{
  ℕ, ◌≡◌, ◌<◌, refl, subst, ◌⊎◌, inl, inr, Bool, true, false, ◌||◌, leb, if◌then◌else◌, Option,
  none, some, List, [], ◌∷◌, arith, Bool-cases,
}
use docker_chessd.Prelude.Int.{ℤ, pos, negsuc}
use docker_chessd.Seeks.{SeekTuple, same, is_empty_text, col_white, col_black}
use docker_chessd.Seeks.Words.{
  System, all_digits, isrange, Word, complaint, next, next_too, number_value, time_word,
  range_value, range_word, rated_word, color_word, formula_word, wild_word, board_word, wild_or,
  name_word, range_or, seek_word, go_on, seek_words,
}
use docker_chessd.Seeks.Commands.{House, or_else, complete, objection}
use docker_chessd.Seeks.Orderly.{IsPosted}

-- No range, or one whose lower end is below its upper end.
abbrev pub IsRanged : SeekTuple → Type 0
IsRanged s =
    ((s.min_rating ≡ none) × (s.max_rating ≡ none))
    ⊎ ((low : ℕ) × (high : ℕ) × (s.min_rating ≡ some low)
        × (s.max_rating ≡ some high)
        × (low < high))

unfoldable IsRangedWord : Word → Type 0
IsRangedWord complaint = Unit
IsRangedWord (next s) = IsRanged s
IsRangedWord (next_too s) = IsRanged s

silent : IsRangedWord complaint
unfolding IsRangedWord
silent = tt

if-Ranged :
    (b : Bool) (u v : Word) → IsRangedWord u → IsRangedWord v → IsRangedWord (if b then u else v)
if-Ranged true u v h k = h
if-Ranged false u v h k = k

number_value-Ranged : (s : SeekTuple) (z : ℤ) → IsRanged s → IsRangedWord (number_value s z)
unfolding IsRangedWord
number_value-Ranged s (pos n) h = if-Ranged (same s.time none) _ _ h h
number_value-Ranged s (negsuc n) h = tt

range_value-Ranged : (s : SeekTuple) (r : ℤ × ℤ) → IsRangedWord (range_value s r)
unfolding IsRangedWord
range_value-Ranged s (pos m, pos n) = elim (Bool-cases (leb n m)) [
  | inl e ↦ rw e tt
  | inr e ↦ rw e (inr (m, n, refl, refl, ground arith))
]
range_value-Ranged s (pos m, negsuc n) = tt
range_value-Ranged s (negsuc m, n) = tt

next-Ranged : (s : SeekTuple) → IsRanged s → IsRangedWord (next s)
unfolding IsRangedWord
next-Ranged s h = h

next_too-Ranged : (s : SeekTuple) → IsRanged s → IsRangedWord (next_too s)
unfolding IsRangedWord
next_too-Ranged s h = h

wild_word-Ranged :
    (o : System) (s : SeekTuple) (w : List ℕ) → IsRanged s → IsRangedWord (wild_word o s w)
unfolding wild_word
wild_word-Ranged o s w h = if-Ranged (is_empty_text s.category) _ _ (next-Ranged _ h) silent

board_word-Ranged :
    (o : System) (s : SeekTuple) (w : List ℕ) (b : Option (List ℕ))
    → IsRanged s
    → IsRangedWord (board_word o s w b)
unfolding board_word
board_word-Ranged o s w none h = silent
board_word-Ranged o s w (some b) h =
    if-Ranged _ _ _ (if-Ranged (is_empty_text s.category) _ _ (next_too-Ranged _ h) silent) silent

wild_or-Ranged :
    (o : System) (s : SeekTuple) (w : List ℕ) (b n1 n2 : Option (List ℕ))
    → IsRanged s
    → IsRangedWord (wild_or o s w b n1 n2)
wild_or-Ranged o s w b (some n) n2 h = wild_word-Ranged o s n h
wild_or-Ranged o s w b none (some n) h = wild_word-Ranged o s n h
wild_or-Ranged o s w b none none h = board_word-Ranged o s w b h

rated_word-Ranged : (r : ℕ) (s : SeekTuple) → IsRanged s → IsRangedWord (rated_word r s)
unfolding rated_word
rated_word-Ranged r s h = if-Ranged (same s.rated none) _ _ (next-Ranged _ h) silent

color_word-Ranged : (c : ℕ) (s : SeekTuple) → IsRanged s → IsRangedWord (color_word c s)
unfolding color_word
color_word-Ranged c s h = if-Ranged (same s.color none) _ _ (next-Ranged _ h) silent

formula_word-Ranged : (s : SeekTuple) → IsRanged s → IsRangedWord (formula_word s)
unfolding formula_word
formula_word-Ranged s h = if-Ranged (same s.formula none) _ _ (next-Ranged _ h) silent

name_word-Ranged :
    (o : System) (s : SeekTuple) (w : List ℕ) (b : Option (List ℕ))
    → IsRanged s
    → IsRangedWord (name_word o s w b)
unfolding name_word
name_word-Ranged o s w b h = if-Ranged _ _ _ (rated_word-Ranged 1 s h) (
    if-Ranged _ _ _ (rated_word-Ranged 0 s h) (
      if-Ranged _ _ _ (color_word-Ranged col_white s h) (
        if-Ranged _ _ _ (color_word-Ranged col_black s h)
          (if-Ranged _ _ _ (formula_word-Ranged s h) (wild_or-Ranged o s w b _ _ h)))))

range_or-Ranged :
    (o : System) (s : SeekTuple) (w : List ℕ) (b : Option (List ℕ)) (r : Option (ℤ × ℤ))
    → IsRanged s
    → IsRangedWord (range_or o s w b r)
unfolding range_word
range_or-Ranged o s w b none h = name_word-Ranged o s _ b h
range_or-Ranged o s w b (some r) h =
    if-Ranged (same s.min_rating none) _ _ (range_value-Ranged s r) silent

seek_word-Ranged :
    (o : System) (s : SeekTuple) (w : List ℕ) (b : Option (List ℕ))
    → IsRanged s
    → IsRangedWord (seek_word o s w b)
unfolding seek_word time_word
seek_word-Ranged o s w b h =
    if-Ranged (all_digits w) _ _
      (if-Ranged (same s.time none || same s.inc none) _ _ (number_value-Ranged s (o.atoi w) h)
        silent)
      (range_or-Ranged o s w b (isrange o w) h)

go_on-IsRanged :
    (w : Word) (one two : SeekTuple → Option SeekTuple) (s' : SeekTuple)
    → IsRangedWord w
    → ((s : SeekTuple) → IsRanged s → one s ≡ some s' → IsRanged s')
    → ((s : SeekTuple) → IsRanged s → two s ≡ some s' → IsRanged s')
    → go_on w one two ≡ some s'
    → IsRanged s'
unfolding IsRangedWord
go_on-IsRanged complaint one two s' h f g e = cc
go_on-IsRanged (next s) one two s' h f g e = f s h e
go_on-IsRanged (next_too s) one two s' h f g e = g s h e

ended-IsRanged : (s s' : SeekTuple) → IsRanged s → some s ≡ some s' → IsRanged s'
ended-IsRanged s s' h e = subst IsRanged {x = s} {y = s'} (cc e) h

pub seek_words-IsRanged :
    (o : System) (words : List (List ℕ)) (s s' : SeekTuple)
    → IsRanged s
    → seek_words o words s ≡ some s'
    → IsRanged s'
unfolding seek_words
seek_words-IsRanged o [] s s' h e = ended-IsRanged s s' h e
seek_words-IsRanged o (w ∷ []) s s' h e =
    go_on-IsRanged _ some some s' (seek_word-Ranged o s w none h) (λ u. ended-IsRanged u s')
      (λ u. ended-IsRanged u s') e
seek_words-IsRanged o (w ∷ v ∷ rest) s s' h e =
    go_on-IsRanged (seek_word o s w (some v)) _ _ s' (seek_word-Ranged o s w (some v) h)
      (λ u k q. seek_words-IsRanged o (v ∷ rest) u s' k q)
      (λ u k q. seek_words-IsRanged o rest u s' k q) e

-- A complete tuple against which nothing is said.
pub complete-IsPosted :
    (h : House) (p : ℕ) (s : SeekTuple)
    → IsRanged s
    → objection h p (complete h p s) ≡ none
    → IsPosted (complete h p s)
unfolding complete objection
complete-IsPosted h p s r none_said =
    let (low, high, a, b, lt) = ranged s r in
    (
      or_else s.time (h.d_time p),
      or_else s.inc (h.d_inc p),
      low,
      high,
      refl,
      refl,
      a,
      b,
      ground arith,
      ground arith,
      lt,
      refl,
    )
  where
    ranged :
        (s : SeekTuple)
        → IsRanged s
        → (low : ℕ) × (high : ℕ) × (some (or_else s.min_rating 0) ≡ some low)
          × (some (or_else s.max_rating 9999) ≡ some high)
          × (low < high)
    ranged s (inl e) = (0, 9999, rw (e.0) refl, rw (e.1) refl, omega arith)
    ranged s (inr (low, high, a, b, lt)) = (low, high, rw a refl, rw b refl, lt)
