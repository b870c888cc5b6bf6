-- ===== src/Execute.antt =====
-- src/movecheck.c: `execute_move` up to its check of the game's end. Each block of the C body is a
-- function, and `make_move` runs them in order; `execute_quiet` is the call with
-- `check_game_status` 0.
pub mod State
pub mod Frame
pub mod EnPassant
use docker_chessd.Prelude.{ℕ, ◌+◌, ◌-◌, Bool, not, ◌&&◌, ◌||◌, ltb, ◌==◌, if◌then◌else◌, none, some}
use docker_chessd.Prelude.Int.{pos, dec}
use docker_chessd.Board.{
  Color, white, black, toggle, color_eq, Kind, pawn, rook, king, kind_eq, Square, nopiece, piece,
  is_empty, has_kind, is_piece, Board, put, Ep, no_ep, higher, lower, GameState,
}
use docker_chessd.Legal.{Origin, from_square, from_holding}
use docker_chessd.Move.{Move, Garray}

-- `p | color`, for a piece code with a colour bit of its own.
abbrev pub or_color : Square → Color → Square
or_color nopiece c = nopiece
or_color (piece white k) c = piece c k
or_color (piece black k) c = piece black k

-- `lastIrreversible = garray[gameNum].numHalfMoves`, in a game of the table.
unfoldable pub mark_irreversible : Garray → GameState → GameState
mark_irreversible g gs = elim gs.game_num [
  | none ↦ gs
  | some n ↦ record gs { last_irreversible = pos (g n).num_half_moves }
]

-- The branch of a drop.
unfoldable pub place_drop : Garray → GameState → Kind → ℕ → ℕ → GameState
place_drop g gs k tf tr = mark_irreversible g (record gs {
  holding =
      λ c j. if color_eq c gs.on_move && kind_eq j k then dec (gs.holding c j) else gs.holding c j;
  board = put gs.board tf tr (piece gs.on_move k);
})

-- The moving piece, or the one that it promotes to, goes from its square to the other.
abbrev pub lift_and_place : GameState → Move → ℕ → ℕ → Board
lift_and_place gs m ff fr =
    put
      (put gs.board m.to_file m.to_rank
        (if is_empty m.promotion then gs.board ff fr else or_color m.promotion gs.on_move))
      ff fr nopiece

-- A pawn that changes its file onto an empty square captures en passant.
abbrev pub is_en_passant : Square → Square → ℕ → ℕ → Bool
is_en_passant moved took ff tf = has_kind moved pawn && (not (ff == tf) && is_empty took)

unfoldable pub capture_en_passant : Square → Square → GameState → Move → ℕ → ℕ → GameState × Move
capture_en_passant moved took gs m ff fr =
    if is_en_passant moved took ff m.to_file
    then (
      record gs { board = put gs.board m.to_file fr nopiece },
      record m {
        piece_captured = piece (toggle gs.on_move) pawn;
        en_passant = if ltb m.to_file ff then lower else higher;
      },
    )
    else (gs, m)

-- `ep_possible[c][f] = v` under a condition.
abbrev pub set_ep : Bool → Color → ℕ → Ep → (Color → ℕ → Ep) → Color → ℕ → Ep
set_ep test c f v e d x = if test && (color_eq d c && x == f) then v else e d x

-- The flags of the side `c`, whose pawns on rank `r` stand beside the pawn that came to `tf`.
abbrev pub ep_beside : Board → Color → ℕ → ℕ → (Color → ℕ → Ep) → Color → ℕ → Ep
ep_beside b c r tf e =
    set_ep (ltb 0 tf && is_piece (b (tf - 1) r) c pawn) c (tf - 1) higher
      (set_ep (ltb tf 7 && is_piece (b (tf + 1) r) c pawn) c (tf + 1) lower e)

-- The flags are cleared, and set anew after a double step of a pawn of the side `mover`.
unfoldable pub ep_flags : Square → Color → Board → ℕ → ℕ → ℕ → Color → ℕ → Ep
ep_flags moved mover b fr tf tr =
    if has_kind moved pawn && (fr == tr + 2 || fr + 2 == tr)
    then (elim mover [
      | white ↦ ep_beside b black 3 tf (λ c f. no_ep)
      | black ↦ ep_beside b white 4 tf (λ c f. no_ep)
    ])
    else λ c f. no_ep

unfoldable pub update_ep : Square → GameState → ℕ → ℕ → ℕ → GameState
update_ep moved gs fr tf tr = record gs {
  ep_possible = ep_flags moved gs.on_move gs.board fr tf tr;
}

-- The castling flags: a rook that leaves a corner of its side, and the king.
unfoldable pub update_moved : Square → GameState → ℕ → ℕ → GameState
update_moved moved gs ff fr =
    let at_white = fr == 0 && color_eq gs.on_move white in
    let at_black = fr == 7 && color_eq gs.on_move black in
    record gs {
      wqrmoved = gs.wqrmoved || (has_kind moved rook && (ff == 0 && at_white));
      bqrmoved = gs.bqrmoved || (has_kind moved rook && (ff == 0 && at_black));
      wkrmoved = gs.wkrmoved || (has_kind moved rook && (ff == 7 && at_white));
      bkrmoved = gs.bkrmoved || (has_kind moved rook && (ff == 7 && at_black));
      wkmoved = gs.wkmoved || (has_kind moved king && color_eq gs.on_move white);
      bkmoved = gs.bkmoved || (has_kind moved king && color_eq gs.on_move black);
    }

-- The rook of a castling: from file `from` to file `to`, when the king goes from file 4 to `at`.
abbrev pub hop : Square → ℕ → ℕ → ℕ → ℕ → ℕ → ℕ → Board → Board
hop moved ff tf tr at from to b =
    if has_kind moved king && (ff == 4 && tf == at)
    then put (put b to tr (b from tr)) from tr nopiece
    else b

unfoldable pub hop_rook : Square → GameState → ℕ → ℕ → ℕ → GameState
hop_rook moved gs ff tf tr = record gs {
  board = hop moved ff tf tr 2 0 3 (hop moved ff tf tr 6 7 5 gs.board);
}

-- The branch of a move from a square.
unfoldable pub move_piece : Garray → GameState → Move → ℕ → ℕ → GameState × Move
move_piece g gs m ff fr =
    let moved = gs.board ff fr in
    let took = gs.board m.to_file m.to_rank in
    let gs1 = record gs { board = lift_and_place gs m ff fr } in
    let gs2 = if has_kind moved pawn || not (is_empty took) then mark_irreversible g gs1 else gs1 in
    let (gs3, m') = capture_en_passant moved took gs2 m ff fr in
    let gs4 = update_ep moved gs3 fr m.to_file m.to_rank in
    let gs5 = update_moved moved gs4 ff fr in (hop_rook moved gs5 ff m.to_file m.to_rank, m')

unfoldable pub move_from : Garray → GameState → Move → Origin → GameState × Move
move_from g gs m (from_holding k) = (place_drop g gs k m.to_file m.to_rank, m)
move_from g gs m (from_square ff fr) = move_piece g gs m ff fr

-- `if (gs->onMove == BLACK) gs->moveNum++;`
abbrev pub count_move : GameState → GameState
count_move gs = record gs {
  move_num = if color_eq gs.on_move black then gs.move_num + 1 else gs.move_num;
}

unfoldable pub make_move : Garray → GameState → Move → GameState × Move
make_move g gs m = let (gs', m') = move_from g gs m m.origin in (count_move gs', m')

-- `execute_move(gs, mt, 0)`.
unfoldable pub execute_quiet : Garray → GameState → Move → GameState × Move
execute_quiet g gs m =
    let (gs', m') = make_move g gs m in (record gs' { on_move = toggle gs'.on_move }, m')
