-- ===== src/Notation.antt =====
-- src/algcheck.c: `alg_unparse`, the short algebraic notation of a move that is still to be made.
pub mod Length
use docker_chessd.Prelude.{
  ℕ, zero, suc, ◌+◌, Bool, not, ◌&&◌, ◌||◌, ◌==◌, if◌then◌else◌, List, [], ◌∷◌, ◌++◌,
}
use docker_chessd.Prelude.Text.{codes, digit, file_char}
use docker_chessd.Board.{
  toggle, Kind, pawn, knight, bishop, rook, queen, king, kind_eq, Square, nopiece, piece, is_empty,
  iscolor, has_kind, put, GameState,
}
use docker_chessd.Pieces.{Pos}
use docker_chessd.Legal.{Origin, from_square, from_holding}
use docker_chessd.Check.{in_check, legal_move}
use docker_chessd.Move.{Move, Garray}
use docker_chessd.Execute.{execute_quiet}

-- The squares by rank, and by file within a rank.
by_file : ℕ → ℕ → ℕ → List Pos
by_file zero f r = []
by_file (suc left) f r = (f, r) ∷ by_file left (f + 1) r

by_rank : ℕ → ℕ → List Pos
unfolding by_file
by_rank zero r = []
by_rank (suc left) r = by_file 8 0 r ++ by_rank left (r + 1)

-- The counters `ambig`, `r_ambig` and `f_ambig`.
pub record Ambiguity : Type 0 where
  pub ambig : ℕ
  pub r_ambig : ℕ
  pub f_ambig : ℕ

abbrev bump : Bool → ℕ → ℕ
bump test n = if test then n + 1 else n

-- Another piece of the kind, at `(f, r)`, that could go to the square of the move.
rivals : GameState → Move → Kind → ℕ → ℕ → ℕ → ℕ → Bool
rivals gs m k ff fr f r =
    not (is_empty (gs.board f r))
    && (iscolor (gs.board f r) gs.on_move
        && (has_kind (gs.board f r) k
            && ((not (f == ff) || not (r == fr))
                && legal_move gs (from_square f r) m.to_file m.to_rank)))

-- Would the side's king stay safe without the piece at `(f, r)`?
stays_safe : GameState → ℕ → ℕ → Bool
stays_safe gs f r =
    in_check (record gs { on_move = toggle gs.on_move })
    || not (in_check (record gs { board = put gs.board f r nopiece; on_move = toggle gs.on_move }))

count_rival : GameState → ℕ → ℕ → ℕ → ℕ → Ambiguity → Ambiguity
count_rival gs ff fr f r a = record {
  ambig = bump (r == fr) (bump (f == ff) (bump (stays_safe gs f r) a.ambig));
  r_ambig = bump (r == fr) a.r_ambig;
  f_ambig = bump (f == ff) a.f_ambig;
}

count_rivals : GameState → Move → Kind → ℕ → ℕ → List Pos → Ambiguity → Ambiguity
unfolding rivals stays_safe count_rival
count_rivals gs m k ff fr [] a = a
count_rivals gs m k ff fr ((f, r) ∷ l) a =
    count_rivals gs m k ff fr l (if rivals gs m k ff fr f r then count_rival gs ff fr f r a else a)

-- The file, the rank or both of the square that the move starts from.
disambiguate : Ambiguity → ℕ → ℕ → List ℕ
disambiguate a ff fr =
    if a.ambig == 0
    then []
    else if a.f_ambig == 0
    then file_char ff ∷ []
    else if a.r_ambig == 0
    then digit (fr + 1) ∷ []
    else file_char ff ∷ digit (fr + 1) ∷ []

abbrev letter : Kind → List ℕ
letter pawn = codes "P"
letter knight = codes "N"
letter bishop = codes "B"
letter rook = codes "R"
letter queen = codes "Q"
letter king = codes "K"

abbrev promotion_suffix : Square → List ℕ
promotion_suffix (piece c knight) = codes "=N"
promotion_suffix (piece c bishop) = codes "=B"
promotion_suffix (piece c rook) = codes "=R"
promotion_suffix (piece c queen) = codes "=Q"
promotion_suffix (piece c pawn) = codes "="
promotion_suffix (piece c king) = codes "="
promotion_suffix nopiece = []

-- The target square, with an `x` before it for a capture.
abbrev target : GameState → Move → List ℕ
target gs m =
    (if is_empty (gs.board m.to_file m.to_rank) then [] else codes "x")
    ++ file_char m.to_file ∷ digit (m.to_rank + 1) ∷ []

-- A piece other than a pawn.
abbrev unparse_piece : GameState → Move → Kind → ℕ → ℕ → List ℕ
unparse_piece gs m k ff fr =
    letter k
    ++ (disambiguate
          (count_rivals gs m k ff fr (by_rank 8 0) (record { ambig = 0; r_ambig = 0; f_ambig = 0 }))
          ff fr
        ++ target gs m)

-- A pawn, which names its file when it leaves it.
abbrev unparse_pawn : GameState → Move → ℕ → List ℕ
unparse_pawn gs m ff =
    (if ff == m.to_file
      then target gs m
      else file_char ff ∷ b'x' ∷ file_char m.to_file ∷ digit (m.to_rank + 1) ∷ [])
    ++ promotion_suffix m.promotion

-- The king's castling moves are named by the files alone.
abbrev unparse_king : GameState → Move → ℕ → ℕ → List ℕ
unparse_king gs m ff fr =
    if ff == 4 && m.to_file == 6
    then codes "O-O"
    else if ff == 4 && m.to_file == 2
    then codes "O-O-O"
    else unparse_piece gs m king ff fr

-- A move from a square, by the piece that stands there.
unparse_from : GameState → Move → Square → ℕ → ℕ → List ℕ
unfolding by_rank count_rivals disambiguate
unparse_from gs m nopiece ff fr = target gs m
unparse_from gs m (piece c pawn) ff fr = unparse_pawn gs m ff
unparse_from gs m (piece c king) ff fr = unparse_king gs m ff fr
unparse_from gs m (piece c k) ff fr = unparse_piece gs m k ff fr

unfoldable pub unparse_move : GameState → Move → Origin → List ℕ
unfolding unparse_from
unparse_move gs m (from_holding k) =
    letter k
    ++ b'@'
      ∷ file_char m.to_file
      ∷ digit (m.to_rank + 1)
      ∷ (if kind_eq k pawn then promotion_suffix m.promotion else [])
unparse_move gs m (from_square ff fr) = unparse_from gs m (gs.board ff fr) ff fr

-- `+` where the move gives check.
abbrev check_mark : GameState → List ℕ
check_mark gs = if in_check (record gs { on_move = toggle gs.on_move }) then codes "+" else []

-- `alg_unparse`. Its trial execution also fills the captured piece and the ep mark of the move.
unfoldable pub alg_unparse : Garray → GameState → Move → List ℕ × Move
alg_unparse g gs m =
    let (after, m') = execute_quiet g gs m in (unparse_move gs m m.origin ++ check_mark after, m')
