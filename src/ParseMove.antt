-- ===== src/ParseMove.antt =====
-- Reading a typed move: `parse_move` of src/movecheck.c and `alg_parse_move` of src/algcheck.c.
pub mod Safety
pub mod TakeBack
use docker_chessd.Prelude.{
  ℕ, ◌+◌, ◌-◌, Bool, true, false, not, ◌&&◌, ◌||◌, ◌==◌, if◌then◌else◌, none, some, List, [], ◌∷◌,
  get_elem?,
}
use docker_chessd.Board.{
  Color, white, black, Kind, pawn, bishop, kind_eq, is_empty, iscolor, has_kind, Ep, no_ep, higher,
  lower, GameState,
}
use docker_chessd.Pieces.{Pos, piece_loop}
use docker_chessd.Legal.{Origin, from_square, from_holding}
use docker_chessd.Check.{legal_move}
use docker_chessd.Move.{Move, Garray, Outcome, illegal, ambiguous}
use docker_chessd.Calculate.{move_calculate, legal_andcheck_move}
use docker_chessd.Syntax.{
  MoveForm, not_move, comp, comp_dash, alg, short_castle, long_castle, Part, unknown, known,
  dropped, Match, get_move_info, is_move,
}

-- The three loops of `alg_parse_move` look for the one candidate in the piece loop; a second one
-- makes them return MOVE_AMBIGUOUS.
pub data Search : Type 0 where
  nothing many : Search
  one : Pos → Search

unfoldable pub search_one : (Pos → Bool) → Search → List Pos → Search
search_one test acc [] = acc
search_one test acc (q ∷ l) =
    search_one test
      (if test q then (elim acc [ nothing ↦ one q | many ↦ many | one q' ↦ many ]) else acc) l

-- `(ff == ALG_UNKNOWN) || (ff == f)`; ALG_DROP is no file.
abbrev pub fits : Part → ℕ → Bool
fits unknown x = true
fits (known y) x = y == x
fits dropped x = false

-- `ep_possible[..][ff] == tf - ff`.
abbrev pub ep_points : Ep → ℕ → ℕ → Bool
ep_points no_ep ff tf = tf == ff
ep_points higher ff tf = tf == ff + 1
ep_points lower ff tf = tf + 1 == ff

-- The rank in front of a pawn of the side to move.
abbrev pub rank_ahead : Color → ℕ → ℕ
rank_ahead white r = r + 1
rank_ahead black r = r - 1

-- A pawn on file `ff` that takes on file `tf`: the first loop, where the rank is not named.
unfoldable pub pawn_candidate : Garray → GameState → ℕ → ℕ → Pos → Bool
pawn_candidate g gs ff tf (f, r) =
    let tmpr = rank_ahead gs.on_move r in
    ff == f
    && (has_kind (gs.board f r) pawn
        && ((if is_empty (gs.board tf tmpr)
              then ep_points (gs.ep_possible gs.on_move ff) ff tf
              else not (iscolor (gs.board tf tmpr) gs.on_move))
            && legal_andcheck_move g gs (from_square f r) tf tmpr))

-- The second loop, for a text such as bxc4 that a pawn or a bishop may mean.
unfoldable pub confused_candidate : Garray → GameState → ℕ → ℕ → Pos → Bool
confused_candidate g gs tf tr (f, r) =
    (has_kind (gs.board f r) pawn || has_kind (gs.board f r) bishop)
    && (legal_andcheck_move g gs (from_square f r) tf tr
        && not (has_kind (gs.board f r) pawn && not (f == 1)))

-- The third loop, for a piece whose file or rank may be named.
unfoldable pub piece_candidate : Garray → GameState → Kind → Part → Part → ℕ → ℕ → Pos → Bool
piece_candidate g gs k ff fr tf tr (f, r) =
    fits ff f
    && (fits fr r
        && (has_kind (gs.board f r) k && legal_andcheck_move g gs (from_square f r) tf tr))

-- What `alg_parse_move` finds: the squares of the move, or the result of an early return.
pub data Squares : Type 0 where
  found : Origin → ℕ → ℕ → Squares
  refused : Outcome → Squares

abbrev pub to_squares : Search → (Pos → ℕ) → ℕ → Squares
to_squares nothing rank tf = refused illegal
to_squares many rank tf = refused ambiguous
to_squares (one q) rank tf = found (from_square q.0 q.1) tf (rank q)

abbrev pub is_unknown : Part → Bool
is_unknown unknown = true
is_unknown (known x) = false
is_unknown dropped = false

-- The branch with a target rank and one reading of the text.
unfoldable pub resolve_from : Garray → GameState → Kind → Part → Part → ℕ → ℕ → Squares
resolve_from g gs k ff fr tf tr =
    if is_unknown ff || is_unknown fr
    then to_squares
        (search_one (piece_candidate g gs k ff fr tf tr) nothing (piece_loop gs.board gs.on_move))
        (λ q. tr) tf
    else (elim ff [
      | dropped ↦
          if legal_andcheck_move g gs (from_holding k) tf tr
          then found (from_holding k) tf tr
          else refused illegal
      | known f ↦ refused illegal
      | unknown ↦ refused illegal
    ])

-- The branch where the target rank is not named.
unfoldable pub resolve_pawn : Garray → GameState → Kind → Part → ℕ → Squares
resolve_pawn g gs k ff tf = elim ff [
  | unknown ↦ refused ambiguous
  | dropped ↦ refused (if kind_eq k pawn then illegal else ambiguous)
  | known a ↦
      if kind_eq k pawn
      then to_squares
          (search_one (pawn_candidate g gs a tf) nothing (piece_loop gs.board gs.on_move))
          (λ q. rank_ahead gs.on_move q.1) tf
      else refused ambiguous
]

unfoldable pub resolve : Garray → GameState → Match → Squares
resolve g gs m = elim m.info.kind [
  | none ↦ refused illegal
  | some k ↦ (elim m.info.tf [
    | none ↦ refused ambiguous
    | some tf ↦ (elim m.info.tr [
      | none ↦ resolve_pawn g gs k m.info.ff tf
      | some tr ↦
          if m.confused
          then to_squares
              (search_one (confused_candidate g gs tf tr) nothing (piece_loop gs.board gs.on_move))
              (λ q. tr) tf
          else resolve_from g gs k m.info.ff m.info.fr tf tr
    ])
  ])
]

unfoldable pub alg_parse_move : Garray → List ℕ → GameState → Squares
alg_parse_move g s gs = elim (get_move_info s) [ none ↦ refused illegal | some m ↦ resolve g gs m ]

-- `mstr[i]`, for a text whose form is known to be long enough.
abbrev char_at : List ℕ → ℕ → ℕ
char_at s i = elim (get_elem? s i) [ none ↦ 0 | some c ↦ c ]

abbrev home_rank : Color → ℕ
home_rank white = 0
home_rank black = 7

-- The `switch` of `parse_move` on the form of the text.
unfoldable pub read_squares : Garray → MoveForm → List ℕ → GameState → Squares
read_squares g comp s gs =
    found (from_square (char_at s 0 - b'a') (char_at s 1 - b'1')) (char_at s 2 - b'a')
      (char_at s 3 - b'1')
read_squares g comp_dash s gs =
    found (from_square (char_at s 0 - b'a') (char_at s 1 - b'1')) (char_at s 3 - b'a')
      (char_at s 4 - b'1')
read_squares g short_castle s gs =
    found (from_square 4 (home_rank gs.on_move)) 6 (home_rank gs.on_move)
read_squares g long_castle s gs =
    found (from_square 4 (home_rank gs.on_move)) 2 (home_rank gs.on_move)
read_squares g alg s gs = alg_parse_move g s gs
read_squares g not_move s gs = refused illegal

-- The checks of `parse_move` on the squares that were read.
unfoldable pub accept : Garray → GameState → Move → Kind → Squares → Move × Outcome
accept g gs m promote (refused o) = (m, o)
accept g gs m promote (found o tf tr) =
    let m' = record m { origin = o; to_file = tf; to_rank = tr } in
    if legal_move gs o tf tr then move_calculate g gs m' promote else (m', illegal)

-- `parse_move`, with the move that it fills in.
unfoldable pub parse_move : Garray → List ℕ → GameState → Move → Kind → Move × Outcome
parse_move g s gs m promote =
    accept g gs (record m { color = gs.on_move }) promote (read_squares g (is_move s) s gs)
