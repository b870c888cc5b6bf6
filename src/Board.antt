-- ===== src/Board.antt =====
-- src/board.h and the state operations of src/board.c: pieces, the board, the state of a game.
-- `piece code` and `colour bit` of the source are the data types `Square` and `Color`; a square is
-- read and written by file and rank, both counted from 0 as in `board[file][rank]`.
use docker_chessd.Prelude.{
  ◌≡◌, refl, ◌⊎◌, inl, inr, ℕ, zero, suc, Bool, true, false, ◌&&◌, ltb, ◌==◌, if◌then◌else◌, Option,
  none,
}
use docker_chessd.Prelude.Int.{ℤ, pos, negsuc}

pub data Color : Type 0 where
  white black : Color

-- `CToggle`.
abbrev pub toggle : Color → Color
toggle white = black
toggle black = white

abbrev pub color_eq : Color → Color → Bool
color_eq white white = true
color_eq black black = true
color_eq _ _ = false

pub Color-cases : (c : Color) → (c ≡ white) ⊎ (c ≡ black)
Color-cases white = inl refl
Color-cases black = inr refl

-- PAWN to KING, the codes 1 to 6.
pub data Kind : Type 0 where
  pawn knight bishop rook queen king : Kind

abbrev pub kind_code : Kind → ℕ
kind_code pawn = 1
kind_code knight = 2
kind_code bishop = 3
kind_code rook = 4
kind_code queen = 5
kind_code king = 6

abbrev pub kind_eq : Kind → Kind → Bool
kind_eq a b = kind_code a == kind_code b

-- A piece code: NOPIECE, or a kind with its colour bit.
pub data Square : Type 0 where
  nopiece : Square
  piece : Color → Kind → Square

-- `p == NOPIECE`.
abbrev pub is_empty : Square → Bool
is_empty nopiece = true
is_empty (piece c k) = false

-- `colorval(p)`: the colour bit, which is that of WHITE in NOPIECE.
abbrev pub colorval : Square → Color
colorval nopiece = white
colorval (piece c k) = c

-- `iscolor(p, color)`.
abbrev pub iscolor : Square → Color → Bool
iscolor p c = color_eq (colorval p) c

-- `piecetype(p) == k`.
abbrev pub has_kind : Square → Kind → Bool
has_kind nopiece k = false
has_kind (piece c j) k = kind_eq j k

-- `p == q` for a piece `q`.
abbrev pub is_piece : Square → Color → Kind → Bool
is_piece nopiece c k = false
is_piece (piece d j) c k = color_eq d c && kind_eq j k

abbrev pub Board : Type 0
Board = ℕ → ℕ → Square

-- `board[f][r] = v`.
abbrev pub put : Board → ℕ → ℕ → Square → Board
put b f r v x y = if x == f && y == r then v else b x y

-- `ep_possible`: 0, 1 (capture towards the higher file) and -1 (towards the lower one).
pub data Ep : Type 0 where
  no_ep higher lower : Ep

-- `struct game_state_t`. The arrays of two are indexed by a colour: `holding[onMove != WHITE]`,
-- and `ep_possible[0]` for WHITE to capture. `game_num` is `none` where `gameNum` is negative.
pub record GameState : Type 0 where
  pub board : Board
  pub holding : Color → Kind → ℤ
  pub wkmoved : Bool
  pub wqrmoved : Bool
  pub wkrmoved : Bool
  pub bkmoved : Bool
  pub bqrmoved : Bool
  pub bkrmoved : Bool
  pub ep_possible : Color → ℕ → Ep
  pub last_irreversible : ℤ
  pub on_move : Color
  pub move_num : ℕ
  pub game_num : Option ℕ

-- `reset_board_vars`.
unfoldable pub reset_board_vars : GameState → GameState
reset_board_vars gs = record {
  board = gs.board;
  holding = λ c k. pos 0;
  wkmoved = false;
  wqrmoved = false;
  wkrmoved = false;
  bkmoved = false;
  bqrmoved = false;
  bkrmoved = false;
  ep_possible = λ c f. no_ep;
  last_irreversible = negsuc 0;
  on_move = white;
  move_num = 1;
  game_num = none;
}

-- `board_clear`.
unfoldable pub board_clear : GameState → GameState
unfolding reset_board_vars
board_clear gs = reset_board_vars (record gs { board = λ f r. nopiece })

-- The eight pieces of a back rank, by file.
abbrev pub back_rank : ℕ → Color → Square
back_rank zero c = piece c rook
back_rank (suc zero) c = piece c knight
back_rank (suc (suc zero)) c = piece c bishop
back_rank (suc (suc (suc zero))) c = piece c queen
back_rank (suc (suc (suc (suc zero)))) c = piece c king
back_rank (suc (suc (suc (suc (suc zero))))) c = piece c bishop
back_rank (suc (suc (suc (suc (suc (suc zero)))))) c = piece c knight
back_rank (suc (suc (suc (suc (suc (suc (suc zero))))))) c = piece c rook
back_rank _ c = nopiece

-- `board_standard`.
unfoldable pub board_standard : GameState → GameState
unfolding board_clear
board_standard gs =
    let b = λ (f : ℕ). λ (r : ℕ).
      if ltb 7 f
      then nopiece
      else if r == 0
      then back_rank f white
      else if r == 1
      then piece white pawn
      else if r == 6
      then piece black pawn
      else if r == 7
      then back_rank f black
      else nopiece in
    record (board_clear gs) { board = b }
