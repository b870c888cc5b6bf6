-- ===== src/Seeks/Orderly.antt =====
-- src/seekproc.c: what holds of `seekList` at all times, and the changes of an entry that keep it.
use docker_chessd.Prelude.{
  ℕ, ◌≡◌, ◌≢◌, ◌≤◌, ◌<◌, refl, sym, ap, ◌∙◌, ◌⊎◌, inl, inr, true, false, ◌==◌, none, some, List, [],
  ◌∷◌, length, set_elem, get_elem?, arith, and-true_parts,
}
use docker_chessd.Prelude.Text.{same_text}
use docker_chessd.Seeks.{SeekTuple, max_seek, max_player_seek, number_of, seekcount, is_duplet}
use docker_chessd.Seeks.Kinds.{game_isblitz}
use docker_chessd.Seeks.Table.{same_iff, same_sym, get_elem?-set_elem}

-- An ad that is posted: a time control of at most 999, a range of ratings, and the type of its terms.
abbrev pub IsPosted : SeekTuple → Type 0
IsPosted x =
    (t : ℕ) × (n : ℕ) × (low : ℕ) × (high : ℕ) × (x.time ≡ some t)
    × (x.inc ≡ some n)
    × (x.min_rating ≡ some low)
    × (x.max_rating ≡ some high)
    × (t ≤ 999)
    × (n ≤ 999)
    × (low < high)
    × (x.kind ≡ game_isblitz t n t n x.category x.board)

-- An entry that is not in use, or an ad.
abbrev pub IsEntry : SeekTuple → Type 0
IsEntry x = ((x.player ≡ none) × (x.time ≡ none)) ⊎ IsPosted x

-- No two ads are duplets.
abbrev pub IsApart : List SeekTuple → Type 0
IsApart l =
    (i j : ℕ) (x y : SeekTuple)
    → get_elem? l i ≡ some x
    → get_elem? l j ≡ some y
    → x.player ≢ none
    → is_duplet x y ≡ true
    → i ≡ j

-- The array has its size, a player has at most three ads, no two are duplets, every ad is in order.
abbrev pub IsOrderly : List SeekTuple → Type 0
IsOrderly l =
    (length l ≡ max_seek)
    × ((p : ℕ) → seekcount p l ≤ max_player_seek)
    × IsApart l
    × ((i : ℕ) (x : SeekTuple) → get_elem? l i ≡ some x → IsEntry x)

same_text_sym : (s t : List ℕ) → same_text s t ≡ same_text t s
unfolding same_text
same_text_sym [] [] = refl
same_text_sym [] (d ∷ t) = refl
same_text_sym (c ∷ s) [] = refl
same_text_sym (c ∷ s) (d ∷ t) = ground (arith, same_text_sym s t)

pub ==_sym : (a b : ℕ) → (a == b) ≡ (b == a)
==_sym a b = ground arith

pub is_duplet_sym : (x y : SeekTuple) → is_duplet x y ≡ is_duplet y x
unfolding is_duplet
is_duplet_sym x y =
    rw
      (
        same_sym x.player y.player,
        same_sym x.time y.time,
        same_sym x.inc y.inc,
        same_sym x.rated y.rated,
        same_sym x.color y.color,
        ==_sym (number_of x.kind) (number_of y.kind),
        same_text_sym x.category y.category,
        same_text_sym x.board y.board,
      )
      refl

pub is_duplet-player : (x y : SeekTuple) → is_duplet x y ≡ true → y.player ≡ x.player
unfolding is_duplet
is_duplet-player x y h = same_iff y.player x.player (and-true_parts _ _ h).0

-- An assignment of a tuple that is a duplet of no other entry.
pub IsApart-set_elem :
    (i : ℕ) (s : SeekTuple) (l : List SeekTuple)
    → IsApart l
    → ((k : ℕ) (z : SeekTuple)
        → i ≢ k
        → get_elem? l k ≡ some z
        → s.player ≢ none
        → is_duplet s z ≡ false)
    → IsApart (set_elem i s l)
IsApart-set_elem i s l a new j k x y gx gy posted d = elim (get_elem?-set_elem i s l j x gx) [
  | inl e ↦ elim (get_elem?-set_elem i s l k y gy) [
    | inl f ↦ sym e.0 ∙ f.0
    | inr f ↦ cc (new k y f.0 f.1 (λ q. posted (ap SeekTuple.player e.1 ∙ q)), d, e.1)
  ]
  | inr e ↦ elim (get_elem?-set_elem i s l k y gy) [
    | inl f ↦ cc (
      new j x e.0 e.1 (λ q. posted (sym (is_duplet-player x y d) ∙ ap SeekTuple.player f.1 ∙ q)),
      is_duplet_sym x y,
      d,
      f.1,
    )
    | inr f ↦ a j k x y e.1 f.1 posted d
  ]
]
