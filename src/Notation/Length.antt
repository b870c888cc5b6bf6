-- ===== src/Notation/Length.antt =====
-- src/algcheck.c: the length of what `alg_unparse` writes.
use docker_chessd.Prelude.{
  ℕ, ◌+◌, ◌≤◌, ◌==◌, ◌&&◌, if◌then◌else◌, [], ◌∷◌, ◌++◌, length, length-append, length-if, arith,
}
use docker_chessd.Prelude.Text.{digit, file_char}
use docker_chessd.Board.{
  GameState, Kind, kind_eq, pawn, knight, bishop, rook, queen, king, Square, nopiece, piece,
}
use docker_chessd.Legal.{Origin, from_square, from_holding}
use docker_chessd.Move.{Move, Garray}
use docker_chessd.Execute.{execute_quiet}
use docker_chessd.Notation.{
  Ambiguity, disambiguate, letter, promotion_suffix, target, unparse_piece, unparse_pawn,
  unparse_from, unparse_move, count_rivals, by_rank, check_mark, alg_unparse,
}

length-disambiguate : (a : Ambiguity) (ff fr : ℕ) → length (disambiguate a ff fr) ≤ 2
unfolding disambiguate
length-disambiguate a ff fr = ground arith

length-letter : (k : Kind) → length (letter k) ≤ 1
length-letter pawn = omega arith
length-letter knight = omega arith
length-letter bishop = omega arith
length-letter rook = omega arith
length-letter queen = omega arith
length-letter king = omega arith

length-promotion_suffix : (q : Square) → length (promotion_suffix q) ≤ 2
length-promotion_suffix nopiece = omega arith
length-promotion_suffix (piece c pawn) = omega arith
length-promotion_suffix (piece c knight) = omega arith
length-promotion_suffix (piece c bishop) = omega arith
length-promotion_suffix (piece c rook) = omega arith
length-promotion_suffix (piece c queen) = omega arith
length-promotion_suffix (piece c king) = omega arith

length-target : (gs : GameState) (m : Move) → length (target gs m) ≤ 3
length-target gs m = ground arith

length-unparse_piece :
    (gs : GameState) (m : Move) (k : Kind) (ff fr : ℕ) → length (unparse_piece gs m k ff fr) ≤ 6
length-unparse_piece gs m k ff fr =
    let a =
      count_rivals gs m k ff fr (by_rank 8 0) (record { ambig = 0; r_ambig = 0; f_ambig = 0 }) in
    omega (
      arith,
      length-append {0} (letter k) (disambiguate a ff fr ++ target gs m),
      length-append {0} (disambiguate a ff fr) (target gs m),
      length-letter k,
      length-disambiguate a ff fr,
      length-target gs m,
    )

length-unparse_pawn : (gs : GameState) (m : Move) (ff : ℕ) → length (unparse_pawn gs m ff) ≤ 6
length-unparse_pawn gs m ff =
    let t =
      if ff == m.to_file
      then target gs m
      else file_char ff ∷ b'x' ∷ file_char m.to_file ∷ digit (m.to_rank + 1) ∷ [] in
    omega (
      arith,
      length-append {0} t (promotion_suffix m.promotion),
      length-promotion_suffix m.promotion,
      length-if (ff == m.to_file) (target gs m)
          (file_char ff ∷ b'x' ∷ file_char m.to_file ∷ digit (m.to_rank + 1) ∷ []) 4
          (omega (arith, length-target gs m)) (omega arith),
    )

length-unparse_from :
    (gs : GameState) (m : Move) (s : Square) (ff fr : ℕ) → length (unparse_from gs m s ff fr) ≤ 6
unfolding unparse_from
length-unparse_from gs m nopiece ff fr = omega (arith, length-target gs m)
length-unparse_from gs m (piece c pawn) ff fr = length-unparse_pawn gs m ff
length-unparse_from gs m (piece c knight) ff fr = length-unparse_piece gs m knight ff fr
length-unparse_from gs m (piece c bishop) ff fr = length-unparse_piece gs m bishop ff fr
length-unparse_from gs m (piece c rook) ff fr = length-unparse_piece gs m rook ff fr
length-unparse_from gs m (piece c queen) ff fr = length-unparse_piece gs m queen ff fr
length-unparse_from gs m (piece c king) ff fr =
    length-if (ff == 4 && m.to_file == 6) _ _ 6 (omega arith) (
      length-if (ff == 4 && m.to_file == 2) _ _ 6 (omega arith)
        (length-unparse_piece gs m king ff fr))

length-unparse_move : (gs : GameState) (m : Move) (o : Origin) → length (unparse_move gs m o) ≤ 6
unfolding unparse_move
length-unparse_move gs m (from_square ff fr) = length-unparse_from gs m (gs.board ff fr) ff fr
length-unparse_move gs m (from_holding k) =
    let q = if kind_eq k pawn then promotion_suffix m.promotion else [] in
    omega (
      arith,
      length-append {0} (letter k) (b'@' ∷ file_char m.to_file ∷ digit (m.to_rank + 1) ∷ q),
      length-letter k,
      length-if (kind_eq k pawn) (promotion_suffix m.promotion) [] 2
          (length-promotion_suffix m.promotion) (omega arith),
    )

length-check_mark : (gs : GameState) → length (check_mark gs) ≤ 1
length-check_mark gs = ground arith

-- The notation of a move has at most 7 characters.
pub length-alg_unparse :
    (g : Garray) (gs : GameState) (m : Move) → length (alg_unparse g gs m).0 ≤ 7
unfolding alg_unparse
length-alg_unparse g gs m = omega (
  arith,
  length-append {0} (unparse_move gs m m.origin) (check_mark (execute_quiet g gs m).0),
  length-unparse_move gs m m.origin,
  length-check_mark (execute_quiet g gs m).0,
)
