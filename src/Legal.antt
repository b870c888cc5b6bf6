-- ===== src/Legal.antt =====
-- src/movecheck.c: which moves a piece can make, without regard to check.
use docker_chessd.Prelude.{
  ℕ, zero, suc, ◌+◌, ◌-◌, Bool, true, false, not, ◌&&◌, ◌||◌, ltb, leb, ◌==◌, dist, if◌then◌else◌,
}
use docker_chessd.Prelude.Int.{is_zero}
use docker_chessd.Board.{
  Color, white, black, color_eq, Kind, pawn, knight, bishop, rook, queen, king, kind_eq, Square,
  nopiece, piece, is_empty, iscolor, is_piece, Board, Ep, no_ep, higher, lower, GameState,
}

-- Where a move starts: on a square, or from the holding (`fromFile == ALG_DROP`, the kind in
-- `fromRank`).
pub data Origin : Type 0 where
  from_square : ℕ → ℕ → Origin
  from_holding : Kind → Origin

-- The two ep tests of a colour: `ep_possible[..][ff]` points from `ff` to `tf`, and the enemy's
-- pawn stands beside `(ff, fr)`.
unfoldable pub ep_capture : Board → Color → Ep → ℕ → ℕ → ℕ → Bool
ep_capture b enemy no_ep ff fr tf = false
ep_capture b enemy higher ff fr tf = tf == ff + 1 && is_piece (b (ff + 1) fr) enemy pawn
ep_capture b enemy lower ff fr tf = tf + 1 == ff && is_piece (b (ff - 1) fr) enemy pawn

-- The branch `ff == tf`: one or two squares ahead.
unfoldable pub pawn_advance : GameState → ℕ → ℕ → ℕ → Bool
pawn_advance gs f fr tr = is_empty (gs.board f tr) && (elim gs.on_move [
  | white ↦ tr == fr + 1 || (fr == 1 && tr == fr + 2 && is_empty (gs.board f 2))
  | black ↦ fr == tr + 1 || (fr == 6 && fr == tr + 2 && is_empty (gs.board f 5))
])

-- The branch `ff != tf`: what a pawn may take, by the side to move ...
unfoldable pub takes_piece : GameState → ℕ → ℕ → ℕ → ℕ → Bool
takes_piece gs ff fr tf tr = elim gs.on_move [
  | white ↦
      leb fr tr
      && ((not (is_empty (gs.board tf tr)) && iscolor (gs.board tf tr) black)
          || ep_capture gs.board black (gs.ep_possible white ff) ff fr tf)
  | black ↦
      leb tr fr
      && ((not (is_empty (gs.board tf tr)) && iscolor (gs.board tf tr) white)
          || ep_capture gs.board white (gs.ep_possible black ff) ff fr tf)
]

-- ... and one square aside and one ahead.
unfoldable pub pawn_capture : GameState → ℕ → ℕ → ℕ → ℕ → Bool
pawn_capture gs ff fr tf tr = dist ff tf == 1 && (dist fr tr == 1 && takes_piece gs ff fr tf tr)

unfoldable pub legal_pawn_move : GameState → ℕ → ℕ → ℕ → ℕ → Bool
legal_pawn_move gs ff fr tf tr =
    if ff == tf then pawn_advance gs ff fr tr else pawn_capture gs ff fr tf tr

unfoldable pub legal_knight_move : ℕ → ℕ → ℕ → ℕ → Bool
legal_knight_move ff fr tf tr =
    (dist ff tf == 2 && dist fr tr == 1) || (dist fr tr == 2 && dist ff tf == 1)

-- `x += inc` for an increment of 1 or -1.
abbrev pub advance : Bool → ℕ → ℕ
advance true x = x + 1
advance false x = x - 1

-- The loop of `legal_bishop_move`: `count` squares from `(x, y)` on are empty.
unfoldable pub diagonal_clear : ℕ → Board → Bool → Bool → ℕ → ℕ → Bool
diagonal_clear zero b incx incy x y = true
diagonal_clear (suc count) b incx incy x y =
    is_empty (b x y) && diagonal_clear count b incx incy (advance incx x) (advance incy y)

-- The increment is -1 where the start is greater. For a start and an end on one square, which
-- `legal_move` excludes, the C loop would not end.
unfoldable pub legal_bishop_move : Board → ℕ → ℕ → ℕ → ℕ → Bool
legal_bishop_move b ff fr tf tr =
    let incx = not (ltb tf ff) in
    let incy = not (ltb tr fr) in
    dist ff tf == dist fr tr
    && (dist ff tf == 1
        || diagonal_clear (dist ff tf - 1) b incx incy (advance incx ff) (advance incy fr))

-- for (i = start; i <= stop; i++), with `left` rounds to go.
unfoldable pub file_clear : ℕ → Board → ℕ → ℕ → Bool
file_clear zero b f i = true
file_clear (suc left) b f i = is_empty (b f i) && file_clear left b f (i + 1)

unfoldable pub rank_clear : ℕ → Board → ℕ → ℕ → Bool
rank_clear zero b r i = true
rank_clear (suc left) b r i = is_empty (b i r) && rank_clear left b r (i + 1)

-- From `start` to `stop`, which is the greater end less 1.
unfoldable pub legal_rook_move : Board → ℕ → ℕ → ℕ → ℕ → Bool
legal_rook_move b ff fr tf tr =
    if ff == tf
    then dist fr tr == 1
      || (if ltb fr tr
          then file_clear (tr - (fr + 1)) b ff (fr + 1)
          else file_clear (fr - (tr + 1)) b ff (tr + 1))
    else if fr == tr
    then dist ff tf == 1
      || (if ltb ff tf
          then rank_clear (tf - (ff + 1)) b fr (ff + 1)
          else rank_clear (ff - (tf + 1)) b fr (tf + 1))
    else false

unfoldable pub legal_queen_move : Board → ℕ → ℕ → ℕ → ℕ → Bool
legal_queen_move b ff fr tf tr = legal_rook_move b ff fr tf tr || legal_bishop_move b ff fr tf tr

-- A test of `is_square_attacked`, for the square of a file and a rank.
abbrev pub Attacked : Type 0
Attacked = GameState → ℕ → ℕ → Bool

-- The king and the rook of colour `c` castle on their rank `home`: to the king's side ...
unfoldable pub castle_short : Attacked → GameState → Color → ℕ → Bool → Bool → ℕ → ℕ → ℕ → ℕ → Bool
castle_short attacked gs c home kmoved rmoved ff fr tf tr =
    fr == home
    && (tr == home
        && (ff == 4
            && (tf == 6
                && (not kmoved
                    && (not rmoved
                        && (is_empty (gs.board 5 home)
                            && (is_empty (gs.board 6 home)
                                && (is_piece (gs.board 7 home) c rook
                                    && (not (attacked gs 4 home)
                                        && not (attacked gs 5 home))))))))))

-- ... and to the queen's side.
unfoldable pub castle_long : Attacked → GameState → Color → ℕ → Bool → Bool → ℕ → ℕ → ℕ → ℕ → Bool
castle_long attacked gs c home kmoved rmoved ff fr tf tr =
    fr == home
    && (tr == home
        && (ff == 4
            && (tf == 2
                && (not kmoved
                    && (not rmoved
                        && (is_empty (gs.board 3 home)
                            && (is_empty (gs.board 2 home)
                                && (is_empty (gs.board 1 home)
                                    && (is_piece (gs.board 0 home) c rook
                                        && (not (attacked gs 4 home)
                                            && not (attacked gs 3 home)))))))))))

unfoldable pub king_castles : Attacked → GameState → ℕ → ℕ → ℕ → ℕ → Bool
unfolding castle_short castle_long
king_castles attacked gs ff fr tf tr = elim gs.on_move [
  | white ↦
      castle_short attacked gs white 0 gs.wkmoved gs.wkrmoved ff fr tf tr
      || castle_long attacked gs white 0 gs.wkmoved gs.wqrmoved ff fr tf tr
  | black ↦
      castle_short attacked gs black 7 gs.bkmoved gs.bkrmoved ff fr tf tr
      || castle_long attacked gs black 7 gs.bkmoved gs.bqrmoved ff fr tf tr
]

-- `legal_king_move`, over the test of attacked squares that it calls.
unfoldable pub legal_king_move : Attacked → GameState → ℕ → ℕ → ℕ → ℕ → Bool
unfolding king_castles
legal_king_move attacked gs ff fr tf tr =
    king_castles attacked gs ff fr tf tr || (leb (dist ff tf) 1 && leb (dist fr tr) 1)

-- The `switch` of `legal_move` on the kind of the moving piece.
unfoldable pub legal_piece_move : Attacked → GameState → Kind → ℕ → ℕ → ℕ → ℕ → Bool
unfolding legal_pawn_move legal_knight_move legal_bishop_move legal_rook_move legal_queen_move
    legal_king_move
legal_piece_move attacked gs pawn ff fr tf tr = legal_pawn_move gs ff fr tf tr
legal_piece_move attacked gs knight ff fr tf tr = legal_knight_move ff fr tf tr
legal_piece_move attacked gs bishop ff fr tf tr = legal_bishop_move gs.board ff fr tf tr
legal_piece_move attacked gs rook ff fr tf tr = legal_rook_move gs.board ff fr tf tr
legal_piece_move attacked gs queen ff fr tf tr = legal_queen_move gs.board ff fr tf tr
legal_piece_move attacked gs king ff fr tf tr = legal_king_move attacked gs ff fr tf tr

-- A drop: not of a king, of a piece that is held, on an empty square, no pawn on an end rank.
unfoldable pub legal_drop : GameState → Kind → ℕ → ℕ → Bool
legal_drop gs k tf tr = not (
    kind_eq k king
    || (is_zero (gs.holding gs.on_move k)
        || (not (is_empty (gs.board tf tr)) || (kind_eq k pawn && (tr == 0 || tr == 7)))))

-- The tests on the square that a move starts from, and the `switch`.
unfoldable pub legal_from : Attacked → GameState → Square → ℕ → ℕ → ℕ → ℕ → Bool
unfolding legal_piece_move
legal_from attacked gs nopiece ff fr tf tr = false
legal_from attacked gs (piece c k) ff fr tf tr =
    if not (color_eq c gs.on_move)
      || (not (is_empty (gs.board tf tr)) && iscolor (gs.board tf tr) gs.on_move
          || (ff == tf && fr == tr))
    then false
    else legal_piece_move attacked gs k ff fr tf tr

-- `legal_move`, over the test of attacked squares that a castling king needs.
unfoldable pub legal_move_with : Attacked → GameState → Origin → ℕ → ℕ → Bool
unfolding legal_from legal_drop
legal_move_with attacked gs (from_holding k) tf tr = legal_drop gs k tf tr
legal_move_with attacked gs (from_square ff fr) tf tr =
    legal_from attacked gs (gs.board ff fr) ff fr tf tr
