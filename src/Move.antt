-- ===== src/Move.antt =====
-- src/board.h: `struct move_t`, and the results of src/movecheck.h. The clock fields of a move and
-- its FENpos are filled by the callers in src/gameproc.c and are not part of the model.
use docker_chessd.Prelude.{ℕ, Bool, List, Option}
use docker_chessd.Board.{Color, Square, Ep}
use docker_chessd.Legal.{Origin}

pub record Move : Type 0 where
  pub color : Color
  pub origin : Origin
  pub to_file : ℕ
  pub to_rank : ℕ
  pub piece_captured : Square
  pub promotion : Square
  pub en_passant : Ep
  pub double_pawn : Option ℕ
  pub move_string : List ℕ
  pub alg_string : List ℕ

-- MOVE_OK to MOVE_NOMATERIAL.
pub data Outcome : Type 0 where
  move_ok illegal stalemate checkmate ambiguous no_material : Outcome

-- What the game table `garray` tells of a game: the length of its move list, and whether the game
-- is linked to another one (bughouse, `link >= 0`).
pub record GameInfo : Type 0 where
  pub num_half_moves : ℕ
  pub linked : Bool

abbrev pub Garray : Type 0
Garray = ℕ → GameInfo
