-- ===== src/Check/Recursion.antt =====
-- The mutual recursion of legal_move, is_square_attacked and in_check.
use docker_chessd.Prelude.{
  Bool, true, false, ℕ, arith, ◌≡◌, refl, ap, Option, none, some, any, first_holds, ap, fun_ext,
}
use docker_chessd.Board.{
  GameState, Square, nopiece, piece, is_empty, is_piece, put, toggle, king, Color, Kind, pawn,
  knight, bishop, rook, queen,
}
use docker_chessd.Pieces.{Pos, squares, piece_loop}
use docker_chessd.Legal.{
  Attacked, Origin, legal_move_with, legal_from, king_castles, legal_piece_move, legal_king_move,
}
use docker_chessd.Check.{
  find_king, check_loop, in_check_with, is_square_attacked_with, in_check, is_square_attacked,
  legal_move, unasked,
}

-- Castling asks for no attacked square where the king's target is occupied: its square is tested
-- first.
king_castles-occupied :
    (a b : Attacked) (gs : GameState) (ff fr tf tr : ℕ)
    → is_empty (gs.board tf tr) ≡ false
    → king_castles a gs ff fr tf tr ≡ king_castles b gs ff fr tf tr
unfolding king_castles
king_castles-occupied a b gs ff fr tf tr h = ground arith

legal_piece_move-occupied :
    (a b : Attacked) (gs : GameState) (k : Kind) (ff fr tf tr : ℕ)
    → is_empty (gs.board tf tr) ≡ false
    → legal_piece_move a gs k ff fr tf tr ≡ legal_piece_move b gs k ff fr tf tr
unfolding legal_piece_move legal_king_move
legal_piece_move-occupied a b gs pawn ff fr tf tr h = refl
legal_piece_move-occupied a b gs knight ff fr tf tr h = refl
legal_piece_move-occupied a b gs bishop ff fr tf tr h = refl
legal_piece_move-occupied a b gs rook ff fr tf tr h = refl
legal_piece_move-occupied a b gs queen ff fr tf tr h = refl
legal_piece_move-occupied a b gs king ff fr tf tr h =
    rw (king_castles-occupied a b gs ff fr tf tr h)

legal_from-occupied :
    (a b : Attacked) (gs : GameState) (s : Square) (ff fr tf tr : ℕ)
    → is_empty (gs.board tf tr) ≡ false
    → legal_from a gs s ff fr tf tr ≡ legal_from b gs s ff fr tf tr
unfolding legal_from
legal_from-occupied a b gs nopiece ff fr tf tr h = refl
legal_from-occupied a b gs (piece c k) ff fr tf tr h =
    rw (legal_piece_move-occupied a b gs k ff fr tf tr h)

is_piece-occupied : (s : Square) (c : Color) (k : Kind) → is_piece s c k ≡ true → is_empty s ≡ false
is_piece-occupied nopiece c k h = cc
is_piece-occupied (piece d j) c k h = refl

find_king-occupied :
    (gs : GameState) {f r : ℕ} → find_king gs ≡ some (f, r) → is_empty (gs.board f r) ≡ false
unfolding find_king
find_king-occupied gs {f} {r} h =
    let m = first_holds (λ p. is_piece (gs.board p.0 p.1) (toggle gs.on_move) king) squares h in
    is_piece-occupied (gs.board f r) (toggle gs.on_move) king m.1

check_loop-any :
    (a b : Attacked) (gs : GameState) (o : Option Pos)
    → ((f r : ℕ) → o ≡ some (f, r) → is_empty (gs.board f r) ≡ false)
    → check_loop a gs o ≡ check_loop b gs o
unfolding check_loop legal_move_with
check_loop-any a b gs none h = refl
check_loop-any a b gs (some (f, r)) h =
    ap (λ (t : Pos → Bool). any t (piece_loop gs.board gs.on_move))
      (fun_ext (λ p. legal_from-occupied a b gs (gs.board p.0 p.1) p.0 p.1 f r (h f r refl)))

-- in_check gives one answer whatever the test of attacked squares is: it never asks it.
pub in_check-any : (a b : Attacked) (gs : GameState) → in_check_with a gs ≡ in_check_with b gs
unfolding in_check_with
in_check-any a b gs = check_loop-any a b gs (find_king gs) (λ f r e. find_king-occupied gs e)

-- The recursive calls of the source: `in_check` calls `legal_move`, which calls
-- `is_square_attacked`, which calls `in_check`. The closed functions satisfy the three equations,
-- as equations between values; the order in which the source evaluates its tests is not part of them.
pub recursion_closed :
    (gs : GameState)
    → (in_check gs ≡ in_check_with is_square_attacked gs)
      × ((f r : ℕ)
          → is_square_attacked gs f r
            ≡ in_check (record gs {
              board = put (put gs.board 4 r nopiece) f r (piece gs.on_move king);
              on_move = toggle gs.on_move;
            }))
      × ((o : Origin) (f r : ℕ) → legal_move gs o f r ≡ legal_move_with is_square_attacked gs o f r)
unfolding in_check is_square_attacked is_square_attacked_with legal_move
recursion_closed gs = (in_check-any unasked is_square_attacked gs, λ f r. refl, λ o f r. refl)
