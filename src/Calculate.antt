-- ===== src/Calculate.antt =====
-- src/movecheck.c: `move_calculate` and `legal_andcheck_move`.
pub mod Safety
pub mod Texts
use docker_chessd.Prelude.{
  ℕ, ◌+◌, Bool, true, false, ◌&&◌, ◌||◌, ◌==◌, dist, if◌then◌else◌, none, some, List, [], ◌∷◌, ◌++◌,
}
use docker_chessd.Prelude.Text.{codes, digit, file_char}
use docker_chessd.Board.{
  Kind, pawn, knight, bishop, rook, queen, king, Square, nopiece, piece, has_kind, colorval, no_ep,
  GameState,
}
use docker_chessd.Legal.{Origin, from_square, from_holding}
use docker_chessd.Check.{in_check, legal_move}
use docker_chessd.Move.{Move, Garray, Outcome, move_ok, illegal}
use docker_chessd.Execute.{execute_quiet}
use docker_chessd.Notation.{alg_unparse}

-- `wpstring[piecetype(p)]`.
abbrev wpstring : Square → List ℕ
wpstring nopiece = codes " "
wpstring (piece c pawn) = codes "P"
wpstring (piece c knight) = codes "N"
wpstring (piece c bishop) = codes "B"
wpstring (piece c rook) = codes "R"
wpstring (piece c queen) = codes "Q"
wpstring (piece c king) = codes "K"

-- "%s/%c%d-%c%d", or the castling words, for the piece `p` on the square that the move leaves.
unfoldable pub square_string : Square → ℕ → ℕ → ℕ → ℕ → List ℕ
square_string p ff fr tf tr =
    if has_kind p king && (ff == 4 && tf == 2)
    then codes "o-o-o"
    else if has_kind p king && (ff == 4 && tf == 6)
    then codes "o-o"
    else wpstring p
      ++ b'/' ∷ file_char ff ∷ digit (fr + 1) ∷ b'-' ∷ file_char tf ∷ digit (tr + 1) ∷ []

-- "%s/%c%c-%c%d", for a drop.
unfoldable pub drop_string : Square → ℕ → ℕ → List ℕ
drop_string p tf tr = wpstring p ++ b'/' ∷ b'@' ∷ b'@' ∷ b'-' ∷ file_char tf ∷ digit (tr + 1) ∷ []

-- The block of `move_calculate` on the origin of the move.
unfoldable pub describe : GameState → Move → Kind → Origin → Move
describe gs m promote (from_holding k) = record m {
  promotion = nopiece;
  move_string = drop_string (piece gs.on_move k) m.to_file m.to_rank;
}
describe gs m promote (from_square ff fr) =
    let p = gs.board ff fr in
    record m {
      promotion =
          if has_kind p pawn && (m.to_rank == 0 || m.to_rank == 7)
          then piece (colorval p) promote
          else nopiece;
      double_pawn = if has_kind p pawn && dist fr m.to_rank == 2 then some ff else none;
      move_string = square_string p ff fr m.to_file m.to_rank;
    }

-- The move as it is described before its notation is made.
unfoldable pub fill_in : GameState → Move → Kind → Move
fill_in gs m promote =
    describe gs (record m { piece_captured = gs.board m.to_file m.to_rank; en_passant = no_ep })
      promote m.origin

-- The notation, which is made by a first trial execution.
unfoldable pub notate : Garray → GameState → Move → Move
notate g gs m = let (text, m') = alg_unparse g gs m in record m' { alg_string = text }

-- `move_calculate`, with the move that it leaves: a second trial execution, on a copy of the state,
-- tells whether the mover is left in check.
unfoldable pub move_calculate : Garray → GameState → Move → Kind → Move × Outcome
move_calculate g gs m promote =
    let (after, m') = execute_quiet g gs (notate g gs (fill_in gs m promote)) in
    (m', if in_check after then illegal else move_ok)

-- A `struct move_t` that is not initialised; every field that is read is written first.
abbrev blank : GameState → Origin → ℕ → ℕ → Move
blank gs o tf tr = record {
  color = gs.on_move;
  origin = o;
  to_file = tf;
  to_rank = tr;
  piece_captured = nopiece;
  promotion = nopiece;
  en_passant = no_ep;
  double_pawn = none;
  move_string = [];
  alg_string = [];
}

abbrev is_ok : Outcome → Bool
is_ok move_ok = true
is_ok _ = false

-- `legal_andcheck_move`: a pawn is taken to promote to a queen.
unfoldable pub legal_andcheck_move : Garray → GameState → Origin → ℕ → ℕ → Bool
legal_andcheck_move g gs o tf tr =
    if legal_move gs o tf tr then is_ok (move_calculate g gs (blank gs o tf tr) queen).1 else false
