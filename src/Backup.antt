-- ===== src/Backup.antt =====
-- src/movecheck.c: `backup_move`, which takes the last move of a game back. The clocks of the game
-- are not part of the model.
pub mod Grants
pub mod Boards
pub mod RoundTrip
use docker_chessd.Prelude.{
  ℕ, zero, suc, ◌+◌, ◌-◌, Bool, true, false, not, ◌&&◌, ltb, ◌==◌, if◌then◌else◌, Option, none,
  some,
}
use docker_chessd.Board.{
  Color, white, black, toggle, color_eq, Kind, pawn, rook, king, Square, nopiece, piece, is_empty,
  has_kind, colorval, Board, put, Ep, no_ep, higher, lower, GameState,
}
use docker_chessd.Legal.{Origin, from_square, from_holding}
use docker_chessd.Move.{Move, Outcome, move_ok, illegal}
use docker_chessd.Execute.{ep_beside}

-- An entry of a move list. The first one of a simul has `toFile` -1: no move.
pub data Entry : Type 0 where
  no_entry : Entry
  entry : Move → Entry

-- The part of `struct game` that `backup_move` uses: `move_list` is `moveList` or, in an examined
-- game, `examMoveList`.
pub record Game : Type 0 where
  pub linked : Bool
  pub num_half_moves : ℕ
  pub move_list : ℕ → Entry
  pub game_state : GameState

-- `m1->fromFile == f && m1->fromRank == r`.
abbrev pub leaves : Entry → ℕ → ℕ → Bool
leaves no_entry f r = false
leaves (entry m) f r = elim m.origin [
  | from_square ff fr ↦ ff == f && fr == r
  | from_holding k ↦ false
]

-- for (i = ...; i < last; i += 2) with its `break`, and the test `i == last` behind it: no move
-- before the last one has left the square. The fuel is more than the rounds.
unfoldable pub first_to_leave : ℕ → (ℕ → Entry) → ℕ → ℕ → ℕ → ℕ → Bool
first_to_leave zero l f r last i = false
first_to_leave (suc fuel) l f r last i =
    let rest = first_to_leave fuel l f r last (i + 2) in
    if ltb i last then (if leaves (l i) f r then false else rest) else i == last

-- The scan for a square of white, which starts at the second white move, and of black.
abbrev pub white_scan : (ℕ → Entry) → ℕ → ℕ → ℕ → Bool
white_scan l last f r = first_to_leave (suc last) l f r last 2

abbrev pub black_scan : (ℕ → Entry) → ℕ → ℕ → ℕ → Bool
black_scan l last f r = first_to_leave (suc last) l f r last 3

-- `x = 0` under a test.
abbrev pub clear_if : Bool → Bool → Bool
clear_if test x = if test then false else x

-- The flags of a rook that goes back to `(ff, fr)`. The scans for black look for moves from rank 0,
-- as the source does.
unfoldable pub clear_rook : (ℕ → Entry) → ℕ → Color → ℕ → ℕ → GameState → GameState
clear_rook l last c ff fr gs = elim c [
  | white ↦ record gs {
    wqrmoved = clear_if (ff == 0 && (fr == 0 && white_scan l last 0 0)) gs.wqrmoved;
    wkrmoved = clear_if (ff == 7 && (fr == 0 && white_scan l last 7 0)) gs.wkrmoved;
  }
  | black ↦ record gs {
    bqrmoved = clear_if (ff == 0 && (fr == 7 && black_scan l last 0 0)) gs.bqrmoved;
    bkrmoved = clear_if (ff == 7 && (fr == 7 && black_scan l last 7 0)) gs.bkrmoved;
  }
]

-- The flags of a castling that is taken back.
unfoldable pub clear_castling : Bool → Color → GameState → GameState
clear_castling short white gs = record gs {
  wkmoved = false;
  wkrmoved = clear_if short gs.wkrmoved;
  wqrmoved = clear_if (not short) gs.wqrmoved;
}
clear_castling short black gs = record gs {
  bkmoved = false;
  bkrmoved = clear_if short gs.bkrmoved;
  bqrmoved = clear_if (not short) gs.bqrmoved;
}

-- The flag of a king that goes back to `(ff, fr)` otherwise.
unfoldable pub clear_king : (ℕ → Entry) → ℕ → Color → ℕ → ℕ → GameState → GameState
clear_king l last c ff fr gs = elim c [
  | white ↦ record gs {
    wkmoved = clear_if (ff == 4 && (fr == 0 && white_scan l last 4 0)) gs.wkmoved;
  }
  | black ↦ record gs {
    bkmoved = clear_if (ff == 4 && (fr == 7 && black_scan l last 4 7)) gs.bkmoved;
  }
]

-- The piece back on its square, a pawn again if it had promoted to `q`.
unfoldable pub put_back : Board → ℕ → ℕ → Square → ℕ → ℕ → Board
put_back b tf tr q ff fr =
    let b1 = put b ff fr (b tf tr) in
    if is_empty q then b1 else put b1 ff fr (piece (colorval (b1 ff fr)) pawn)

-- The rook of a castling back on file `from`, and file `to` empty, for the board with the king back.
abbrev pub hop_back : Board → ℕ → ℕ → ℕ → ℕ → Board
hop_back b ff fr from to = put (put b from fr (piece (colorval (b ff fr)) rook)) to fr nopiece

abbrev pub is_marked : Ep → Bool
is_marked no_ep = false
is_marked higher = true
is_marked lower = true

-- What stood on the target square, or the pawn that was taken en passant.
abbrev pub restore_taken : Board → Square → Ep → ℕ → ℕ → ℕ → ℕ → Board
restore_taken b took ep tf tr ff fr =
    if is_marked ep
    then put (put b tf fr (piece (toggle (colorval (b ff fr))) pawn)) tf tr nopiece
    else put b tf tr took

-- What is left to do on the board `b` with the piece back on its square, for a move that took `took`
-- and has the ep mark `ep`.
unfoldable pub restore_with : Board → Square → Ep → ℕ → ℕ → ℕ → ℕ → Board
restore_with b took ep tf tr ff fr =
    let b3 = put b tf tr took in
    if has_kind (b ff fr) king
    then (if tf == ff + 2
        then hop_back b3 ff fr 7 5
        else if ff == tf + 2
        then hop_back b3 ff fr 0 3
        else restore_taken b3 took ep tf tr ff fr)
    else restore_taken b took ep tf tr ff fr

-- The board of `backup_move`.
unfoldable pub take_back : Board → Move → ℕ → ℕ → Board
unfolding put_back restore_with
take_back b m ff fr =
    restore_with (put_back b m.to_file m.to_rank m.promotion ff fr) m.piece_captured m.en_passant
      m.to_file m.to_rank ff fr

-- Its castling flags.
unfoldable pub restore_flags : (ℕ → Entry) → ℕ → Move → ℕ → ℕ → Square → GameState → GameState
restore_flags l last m ff fr moved gs =
    let gs1 = if has_kind moved rook then clear_rook l last m.color ff fr gs else gs in
    if has_kind moved king
    then (if m.to_file == ff + 2
        then clear_castling true m.color gs1
        else if ff == m.to_file + 2
        then clear_castling false m.color gs1
        else clear_king l last m.color ff fr gs1)
    else gs1

-- The side to move and the number of the move.
unfoldable pub turn_back : GameState → GameState
turn_back gs = elim gs.on_move [
  | black ↦ record gs { on_move = white }
  | white ↦ record gs { on_move = black; move_num = gs.move_num - 1 }
]

-- The ep flags that the move before has left, set beside those that are there.
unfoldable pub restore_ep : Entry → GameState → GameState
restore_ep no_entry gs = gs
restore_ep (entry m1) gs = elim m1.origin [
  | from_holding k ↦ gs
  | from_square ff fr ↦
      if has_kind (gs.board m1.to_file m1.to_rank) pawn
      then (if m1.to_rank == fr + 2
          then record gs { ep_possible = ep_beside gs.board black 3 m1.to_file gs.ep_possible }
          else if fr == m1.to_rank + 2
          then record gs { ep_possible = ep_beside gs.board white 4 m1.to_file gs.ep_possible }
          else gs)
      else gs
]

-- The state after the last move, `m` from `(ff, fr)` at index `last`, is taken back.
unfoldable pub undo_state : (ℕ → Entry) → ℕ → Move → ℕ → ℕ → GameState → GameState
undo_state l last m ff fr gs =
    let moved = put_back gs.board m.to_file m.to_rank m.promotion ff fr ff fr in
    let gs1 = restore_flags l last m ff fr moved gs in
    let gs2 = turn_back (record gs1 { board = take_back gs.board m ff fr }) in
    elim last [ zero ↦ gs2 | suc before ↦ restore_ep (l before) gs2 ]

-- A drop stands in no list here: only linked games have drops, and they are refused first.
unfoldable pub undo_entry : Game → ℕ → Entry → Game × Outcome
unfolding undo_state
undo_entry gg last no_entry = (gg, illegal)
undo_entry gg last (entry m) = elim m.origin [
  | from_holding k ↦ (gg, illegal)
  | from_square ff fr ↦ (
    record gg {
      num_half_moves = last;
      game_state = undo_state gg.move_list last m ff fr gg.game_state;
    },
    move_ok,
  )
]

-- `backup_move`.
unfoldable pub backup_move : Game → Game × Outcome
unfolding undo_entry
backup_move gg = elim gg.num_half_moves [
  | zero ↦ (gg, illegal)
  | suc last ↦ if gg.linked then (gg, illegal) else undo_entry gg last (gg.move_list last)
]
