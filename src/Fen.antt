-- ===== src/Fen.antt =====
-- src/eco.c: `board_to_FEN` and `FEN_to_board`, the notation of positions, with `CharToPiece` and
-- `PieceToChar` of src/gamedb.c. A text is the list of its characters; the index `pos` of the source
-- is the part of the text that is not read yet.
pub mod Reading
pub mod Row
pub mod RoundTrip
pub mod Length
use docker_chessd.Prelude.{
  ℕ, zero, suc, ◌+◌, ◌-◌, Bool, true, false, ◌&&◌, ◌||◌, not, leb, ltb, ◌==◌, if◌then◌else◌, List,
  [], ◌∷◌, ◌++◌,
}
use docker_chessd.Prelude.Int.{ℤ, pos, negsuc, dec, is_zero}
use docker_chessd.Prelude.Text.{digit, isalpha}
use docker_chessd.Board.{
  Color, white, black, Kind, pawn, knight, bishop, rook, queen, king, Square, nopiece, piece, Board,
  put, GameState,
}

-- `CharToPiece`.
unfoldable pub char_to_piece : ℕ → Square
char_to_piece c =
    if c == b'P'
    then piece white pawn
    else if c == b'p'
    then piece black pawn
    else if c == b'N'
    then piece white knight
    else if c == b'n'
    then piece black knight
    else if c == b'B'
    then piece white bishop
    else if c == b'b'
    then piece black bishop
    else if c == b'R'
    then piece white rook
    else if c == b'r'
    then piece black rook
    else if c == b'Q'
    then piece white queen
    else if c == b'q'
    then piece black queen
    else if c == b'K'
    then piece white king
    else if c == b'k'
    then piece black king
    else nopiece

-- `PieceToChar`, whose case for codes above KING is not met by a piece.
unfoldable pub piece_to_char : Square → ℕ
piece_to_char nopiece = b' '
piece_to_char (piece white pawn) = b'P'
piece_to_char (piece white knight) = b'N'
piece_to_char (piece white bishop) = b'B'
piece_to_char (piece white rook) = b'R'
piece_to_char (piece white queen) = b'Q'
piece_to_char (piece white king) = b'K'
piece_to_char (piece black pawn) = b'p'
piece_to_char (piece black knight) = b'n'
piece_to_char (piece black bishop) = b'b'
piece_to_char (piece black rook) = b'r'
piece_to_char (piece black queen) = b'q'
piece_to_char (piece black king) = b'k'

-- The inner loop of `board_to_FEN` from file `f` on, with `left` files to go.
unfoldable pub print_row : ℕ → Board → ℕ → ℕ → ℕ → List ℕ
print_row zero b r f count = []
print_row (suc left) b r f count =
    let c = piece_to_char (b f r) in
    let after_piece = print_row left b r (f + 1) 0 in
    let same = print_row left b r (f + 1) count in
    let more = print_row left b r (f + 1) (count + 1) in
    if not (c == b' ')
    then (if count == 0 then c ∷ after_piece else digit count ∷ c ∷ after_piece)
    else if f == 7
    then digit (count + 1) ∷ same
    else more

-- Its outer loop over the ranks below `n`. The last `/` is overwritten by a space.
unfoldable pub print_rows : ℕ → Board → List ℕ
print_rows zero b = []
print_rows (suc r) b = print_row 8 b r 0 0 ++ ((if r == 0 then b' ' else b'/') ∷ print_rows r b)

abbrev pub side_char : Color → ℕ
side_char white = b'w'
side_char black = b'b'

-- `board_to_FEN`.
unfoldable pub board_to_fen : GameState → List ℕ
unfolding print_row print_rows
board_to_fen gs = print_rows 8 gs.board ++ (side_char gs.on_move ∷ [])

-- `next - '0'`.
abbrev pub minus_zero : ℕ → ℤ
minus_zero c = if leb b'0' c then pos (c - b'0') else negsuc (b'0' - c - 1)

-- do board[f++][r] = NOPIECE; while ((--t) && (f < 8)): the new `f` and the board. Eight rounds are
-- enough.
unfoldable pub empty_run : ℕ → ℤ → ℕ → ℕ → Board → ℕ × Board
unfolding dec
empty_run zero t f r b = (f, b)
empty_run (suc fuel) t f r b =
    let rest = empty_run fuel (dec t) (f + 1) r (put b f r nopiece) in
    if not (is_zero (dec t)) && ltb (f + 1) 8 then rest else (f + 1, put b f r nopiece)

-- One character of a rank.
unfoldable pub read_char : ℕ → ℕ → ℕ → Board → ℕ × Board
unfolding empty_run char_to_piece
read_char c f r b =
    if isalpha c
    then (f + 1, put b f r (char_to_piece c))
    else if not (c == b'/')
    then empty_run 8 (minus_zero c) f r b
    else (f, b)

-- while ((f < 8) && (pos < (size - 1))): the text that is left, and the board.
unfoldable pub read_row : List ℕ → ℕ → ℕ → Board → List ℕ × Board
unfolding read_char
read_row [] f r b = ([], b)
read_row (c ∷ []) f r b = (c ∷ [], b)
read_row (c ∷ d ∷ s) f r b =
    let (f', b') = read_char c f r b in
    let rest = read_row (d ∷ s) f' r b' in if ltb f 8 then rest else (c ∷ d ∷ s, b)

-- The loop over the ranks below `n`.
unfoldable pub read_rows : ℕ → List ℕ → Board → List ℕ × Board
unfolding read_row
read_rows zero s b = (s, b)
read_rows (suc r) s b = let (s', b') = read_row s 0 r b in read_rows r s' b'

-- The side to move, from the text behind the board.
abbrev pub read_side : List ℕ → Color → Color
read_side [] c = c
read_side (x ∷ []) c = c
read_side (x ∷ y ∷ s) c = if y == b'w' then white else black

-- `FEN_to_board`.
unfoldable pub fen_to_board : List ℕ → GameState → GameState
unfolding read_rows
fen_to_board text gs =
    let (s, b) = read_rows 8 text gs.board in
    record gs { board = b; on_move = read_side s gs.on_move }
