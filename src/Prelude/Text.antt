-- ===== src/Prelude/Text.antt =====
-- C strings as lists of character codes, without the final NUL.
use Prim.Native.Nat.{ℕ, ◌+◌}
use Prim.Native.Char.{code}
use Prim.Native.String.{String}
use mathlib.Core.Bool.{Bool, true, false, ◌&&◌, ◌||◌}
use mathlib.Core.List.{List, [], ◌∷◌}
use mathlib.Core.Path.{◌≡◌, refl, ap}
use mathlib.Core.Logic.{◌↔◌, inl, inr}
use mathlib.Core.List.{◌++◌}
use native.Mathlib.Omega.{arith}
use docker_chessd.Prelude.Tests.{leb, ◌==◌, if◌then◌else◌, ==_iff, Bool-cases}

-- The codes of a literal.
abbrev pub codes : String → List ℕ
codes String.[] = []
codes (String.◌∷◌ c s) = code c ∷ codes s

-- `%d` of a number below 10: the ranks 1 to 8.
abbrev pub digit : ℕ → ℕ
digit n = b'0' + n

-- `%c` of `file + 'a'`.
abbrev pub file_char : ℕ → ℕ
file_char f = f + b'a'

-- The characters that ctype.h knows in the C locale.
abbrev pub isspace : ℕ → Bool
isspace c = c == 32 || leb 9 c && leb c 13

abbrev pub isdigit : ℕ → Bool
isdigit c = leb b'0' c && leb c b'9'

abbrev pub tolower : ℕ → ℕ
tolower c = if leb b'A' c && leb c b'Z' then c + 32 else c

-- `eatwhite`, and while (isspace(string[*i])) (*i)++.
unfoldable pub skip_space : List ℕ → List ℕ
skip_space [] = []
skip_space (c ∷ s) = elim (isspace c) [ true ↦ skip_space s | false ↦ c ∷ s ]

abbrev pub isalpha : ℕ → Bool
isalpha c = leb b'a' c && leb c b'z' || leb b'A' c && leb c b'Z'

-- `!strcasecmp` and `!strncasecmp(member, text, strlen(text))`.
unfoldable pub same_name : List ℕ → List ℕ → Bool
same_name [] [] = true
same_name [] (d ∷ t) = false
same_name (c ∷ s) [] = false
same_name (c ∷ s) (d ∷ t) =
    let rest = same_name s t in if tolower c == tolower d then rest else false

unfoldable pub starts_with : List ℕ → List ℕ → Bool
starts_with s [] = true
starts_with [] (d ∷ t) = false
starts_with (c ∷ s) (d ∷ t) =
    let rest = starts_with s t in if tolower c == tolower d then rest else false

-- `!strcmp`.
unfoldable pub same_text : List ℕ → List ℕ → Bool
same_text [] [] = true
same_text [] (d ∷ t) = false
same_text (c ∷ s) [] = false
same_text (c ∷ s) (d ∷ t) = let rest = same_text s t in if c == d then rest else false

pub same_text_iff : (s t : List ℕ) → (same_text s t ≡ true) ↔ (s ≡ t)
unfolding same_text
same_text_iff [] [] = (λ e. refl, λ e. refl)
same_text_iff [] (d ∷ t) = (λ e. cc, λ e. cc)
same_text_iff (c ∷ s) [] = (λ e. cc, λ e. cc)
same_text_iff (c ∷ s) (d ∷ t) =
    let ih = same_text_iff s t in let e = ==_iff c d in ground (arith, ih, e)

-- The text before the first character that passes a test, and the text from it on.
unfoldable pub until : (ℕ → Bool) → List ℕ → List ℕ
until p [] = []
until p (c ∷ s) = let rest = until p s in if p c then [] else c ∷ rest

unfoldable pub from : (ℕ → Bool) → List ℕ → List ℕ
from p [] = []
from p (c ∷ s) = let rest = from p s in if p c then c ∷ s else rest

pub until-from : (p : ℕ → Bool) (s : List ℕ) → until p s ++ from p s ≡ s
unfolding until from
until-from p [] = refl
until-from p (c ∷ s) = elim (Bool-cases (p c)) [
  | inl e ↦ rw e refl
  | inr e ↦ rw e (ap (λ (l : List ℕ). c ∷ l) (until-from p s))
]
