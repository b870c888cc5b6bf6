-- ===== src/Calculate/Texts.antt =====
-- src/movecheck.c: the lengths of the two texts that `move_calculate` writes into a move.
use docker_chessd.Prelude.{
  ℕ, ◌≤◌, ◌≡◌, refl, sym, ◌∙◌, subst, inl, inr, Bool-cases, ◌==◌, ◌&&◌, List, length, length-append,
  length-if, arith,
}
use docker_chessd.Board.{
  GameState, Kind, pawn, knight, bishop, rook, queen, king, Square, nopiece, piece, has_kind,
}
use docker_chessd.Legal.{Origin, from_square, from_holding}
use docker_chessd.Move.{Move, Garray}
use docker_chessd.Execute.{
  capture_en_passant, is_en_passant, move_from, move_piece, make_move, execute_quiet,
}
use docker_chessd.Notation.{alg_unparse}
use docker_chessd.Notation.Length.{length-alg_unparse}
use docker_chessd.Calculate.{
  wpstring, square_string, drop_string, describe, fill_in, notate, move_calculate,
}

-- The texts of a move, which no execution touches.
record SameTexts (m n : Move) : Type 0 where
  pub move_string : m.move_string ≡ n.move_string
  pub alg_string : m.alg_string ≡ n.alg_string

capture_en_passant_texts :
    (moved took : Square) (gs : GameState) (m : Move) (ff fr : ℕ)
    → SameTexts (capture_en_passant moved took gs m ff fr).1 m
unfolding capture_en_passant
capture_en_passant_texts moved took gs m ff fr =
    elim (Bool-cases (is_en_passant moved took ff m.to_file)) [
      | inl h ↦ rw h (record { move_string = refl; alg_string = refl })
      | inr h ↦ rw h (record { move_string = refl; alg_string = refl })
    ]

move_from_texts :
    (g : Garray) (gs : GameState) (m : Move) (o : Origin) → SameTexts (move_from g gs m o).1 m
unfolding move_from move_piece
move_from_texts g gs m (from_holding k) = record { move_string = refl; alg_string = refl }
move_from_texts g gs m (from_square ff fr) = capture_en_passant_texts _ _ _ m ff fr

execute_quiet_texts :
    (g : Garray) (gs : GameState) (m : Move) → SameTexts (execute_quiet g gs m).1 m
unfolding execute_quiet make_move
execute_quiet_texts g gs m = move_from_texts g gs m m.origin

length-wpstring : (s : Square) → length (wpstring s) ≤ 1
length-wpstring nopiece = omega arith
length-wpstring (piece c pawn) = omega arith
length-wpstring (piece c knight) = omega arith
length-wpstring (piece c bishop) = omega arith
length-wpstring (piece c rook) = omega arith
length-wpstring (piece c queen) = omega arith
length-wpstring (piece c king) = omega arith

length-square_string : (p : Square) (ff fr tf tr : ℕ) → length (square_string p ff fr tf tr) ≤ 7
unfolding square_string
length-square_string p ff fr tf tr =
    length-if (has_kind p king && (ff == 4 && tf == 2)) _ _ 7 (omega arith) (
      length-if (has_kind p king && (ff == 4 && tf == 6)) _ _ 7 (omega arith)
        (omega (arith, length-append {0} (wpstring p) _, length-wpstring p)))

length-drop_string : (p : Square) (tf tr : ℕ) → length (drop_string p tf tr) ≤ 7
unfolding drop_string
length-drop_string p tf tr = omega (arith, length-append {0} (wpstring p) _, length-wpstring p)

length-describe :
    (gs : GameState) (m : Move) (k : Kind) (o : Origin) → length (describe gs m k o).move_string ≤ 7
unfolding describe
length-describe gs m k (from_holding j) =
    length-drop_string (piece gs.on_move j) m.to_file m.to_rank
length-describe gs m k (from_square ff fr) =
    length-square_string (gs.board ff fr) ff fr m.to_file m.to_rank

-- Both texts of a calculated move have at most 7 characters, so that with the final NUL they fit the 8
-- bytes of `moveString` and `algString`.
pub length-move_calculate :
    (g : Garray) (gs : GameState) (m : Move) (k : Kind)
    → (length (move_calculate g gs m k).0.move_string ≤ 7)
      × (length (move_calculate g gs m k).0.alg_string ≤ 7)
unfolding move_calculate notate fill_in alg_unparse
length-move_calculate g gs m k =
    let d = fill_in gs m k in
    let n = notate g gs d in
    let h = execute_quiet_texts g gs n in
    (
      subst (λ (t : List ℕ). length t ≤ 7)
          (sym (h.move_string ∙ (execute_quiet_texts g gs d).move_string))
          (length-describe gs _ k m.origin),
      subst (λ (t : List ℕ). length t ≤ 7) (sym h.alg_string) (length-alg_unparse g gs d),
    )
