-- ===== src/Seeks/Words.antt =====
-- src/seekproc.c: the words of the command `seek`. `atoi`, `sprintf` and the file system are parameters.
use docker_chessd.Prelude.{
  ℕ, Bool, true, false, not, ◌&&◌, ◌||◌, leb, ◌==◌, if◌then◌else◌, Option, none, some, List, [],
  ◌∷◌, ◌++◌, drop,
}
use docker_chessd.Prelude.Int.{ℤ, pos, negsuc}
use docker_chessd.Prelude.Text.{codes, isdigit, same_text, until, from}
use docker_chessd.Seeks.{SeekTuple, same, is_empty_text, col_white, col_black}

-- `atoi`, `%d`, and whether `BOARD_DIR` has a file for a category and a board.
pub record System : Type 0 where
  pub atoi : List ℕ → ℤ
  pub decimal : ℤ → List ℕ
  pub board_exists : List ℕ → List ℕ → Bool

-- `is_number`.
abbrev pub all_digits : List ℕ → Bool
all_digits [] = true
all_digits (c ∷ s) = let rest = all_digits s in if isdigit c then rest else false

abbrev pub is_dash : ℕ → Bool
is_dash c = c == b'-'

-- strtok(s, "-") for what is left of the text: the token and what is left behind it.
abbrev pub token_of : List ℕ → Option (List ℕ × List ℕ)
token_of [] = none
token_of (c ∷ s) = some (until is_dash (c ∷ s), drop 1 (from is_dash (c ∷ s)))

unfoldable pub strtok : List ℕ → Option (List ℕ × List ℕ)
unfolding until from
strtok s = token_of (from (λ c. not (is_dash c)) s)

-- The numbers of `isrange`.
abbrev pub third_token : System → List ℕ → List ℕ → Option (List ℕ × List ℕ) → Option (ℤ × ℤ)
third_token o n1 n2 none =
    if all_digits n1 && all_digits n2 then some (o.atoi n1, o.atoi n2) else none
third_token o n1 n2 (some n3) = none

unfoldable pub second_token : System → List ℕ → Option (List ℕ × List ℕ) → Option (ℤ × ℤ)
unfolding strtok
second_token o n1 none = none
second_token o n1 (some n2) = third_token o n1 n2.0 (strtok n2.1)

unfoldable pub first_token : System → Option (List ℕ × List ℕ) → Option (ℤ × ℤ)
unfolding strtok second_token
first_token o none = none
first_token o (some n1) = second_token o n1.0 (strtok n1.1)

unfoldable pub isrange : System → List ℕ → Option (ℤ × ℤ)
unfolding strtok first_token
isrange o s = first_token o (strtok s)

-- What `strtok` leaves of the word: it ends behind the first token.
unfoldable pub cut_word : List ℕ → List ℕ
unfolding until from
cut_word s = until (λ c. not (is_dash c)) s ++ until is_dash (from (λ c. not (is_dash c)) s)

-- A word of `seek`: a complaint, or the tuple, and with `next_too` the next word is used as well.
pub data Word : Type 0 where
  complaint : Word
  next : SeekTuple → Word
  next_too : SeekTuple → Word

-- A time control.
abbrev pub number_value : SeekTuple → ℤ → Word
number_value s (negsuc n) = complaint
number_value s (pos n) =
    if same s.time none then next (record s { time = some n }) else next (record s { inc = some n })

unfoldable pub time_word : System → SeekTuple → List ℕ → Word
time_word o s w =
    if same s.time none || same s.inc none then number_value s (o.atoi w) else complaint

-- A range of ratings.
abbrev pub range_value : SeekTuple → ℤ × ℤ → Word
range_value s (pos m, pos n) =
    if leb n m then complaint else next (record s { min_rating = some m; max_rating = some n })
range_value s (pos m, negsuc n) = complaint
range_value s (negsuc m, n) = complaint

unfoldable pub range_word : SeekTuple → ℤ × ℤ → Word
range_word s r = if same s.min_rating none then range_value s r else complaint

unfoldable pub rated_word : ℕ → SeekTuple → Word
rated_word r s = if same s.rated none then next (record s { rated = some r }) else complaint

unfoldable pub color_word : ℕ → SeekTuple → Word
color_word c s = if same s.color none then next (record s { color = some c }) else complaint

unfoldable pub formula_word : SeekTuple → Word
formula_word s = if same s.formula none then next (record s { formula = some 1 }) else complaint

-- A wild position by its number.
unfoldable pub wild_word : System → SeekTuple → List ℕ → Word
wild_word o s digits =
    if is_empty_text s.category
    then next (record s { category = codes "wild"; board = o.decimal (o.atoi digits) })
    else complaint

-- `wild` and the name of a board, if there is a next word.
unfoldable pub board_word : System → SeekTuple → List ℕ → Option (List ℕ) → Word
unfolding same_text
board_word o s w none = complaint
board_word o s w (some b) =
    if same_text w (codes "wild") && o.board_exists w b
    then (if is_empty_text s.category
        then next_too (record s { category = w; board = b })
        else complaint)
    else complaint

-- strncmp(w, name, strlen(name)) == 0, strlen(w) > strlen(name), and a number behind.
unfoldable pub numbered : List ℕ → List ℕ → Option (List ℕ)
numbered [] w = if not (is_empty_text w) && all_digits w then some w else none
numbered (c ∷ name) [] = none
numbered (c ∷ name) (d ∷ w) = let rest = numbered name w in if c == d then rest else none

abbrev pub is_word : List ℕ → List ℕ → List ℕ → Bool
is_word w long short = same_text w long || same_text w short

abbrev pub wild_or :
    System → SeekTuple → List ℕ → Option (List ℕ) → Option (List ℕ) → Option (List ℕ) → Word
wild_or o s w after (some digits) wild = wild_word o s digits
wild_or o s w after none (some digits) = wild_word o s digits
wild_or o s w after none none = board_word o s w after

-- The words that are neither a number nor a range.
unfoldable pub name_word : System → SeekTuple → List ℕ → Option (List ℕ) → Word
unfolding same_text rated_word color_word formula_word numbered wild_word board_word
name_word o s w after =
    if is_word w (codes "rated") (codes "r")
    then rated_word 1 s
    else if is_word w (codes "unrated") (codes "u")
    then rated_word 0 s
    else if is_word w (codes "white") (codes "w")
    then color_word col_white s
    else if is_word w (codes "black") (codes "b")
    then color_word col_black s
    else if is_word w (codes "formula") (codes "f")
    then formula_word s
    else wild_or o s w after (numbered (codes "w") w) (numbered (codes "wild") w)

abbrev pub range_or : System → SeekTuple → List ℕ → Option (List ℕ) → Option (ℤ × ℤ) → Word
range_or o s w after (some r) = range_word s r
range_or o s w after none = name_word o s (cut_word w) after

-- One round of the loop of `com_seek` over the words.
unfoldable pub seek_word : System → SeekTuple → List ℕ → Option (List ℕ) → Word
unfolding time_word range_word isrange cut_word name_word
seek_word o s w after = if all_digits w then time_word o s w else range_or o s w after (isrange o w)

-- What follows a word.
abbrev pub go_on :
    Word → (SeekTuple → Option SeekTuple) → (SeekTuple → Option SeekTuple) → Option SeekTuple
go_on complaint one two = none
go_on (next s) one two = one s
go_on (next_too s) one two = two s

-- The loop; `none` for a complaint.
unfoldable pub seek_words : System → List (List ℕ) → SeekTuple → Option SeekTuple
unfolding seek_word
seek_words o [] s = some s
seek_words o (w ∷ []) s = go_on (seek_word o s w none) some some
seek_words o (w ∷ v ∷ rest) s =
    go_on (seek_word o s w (some v)) (λ s'. seek_words o (v ∷ rest) s') (λ s'. seek_words o rest s')
