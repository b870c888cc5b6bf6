-- ===== src/Backup/RoundTrip.antt =====
-- src/movecheck.c: `backup_move` restores the board that `execute_move` was given.
use docker_chessd.Prelude.{
  ℕ, ◌≡◌, refl, ap, sym, ◌∙◌, subst, fun_ext, inl, inr, Bool, true, false, ltb, if◌then◌else◌,
  Bool-cases, and-true_parts, ◌&&◌, arith, ◌==◌, not,
}
use docker_chessd.Board.{
  GameState, Board, Square, nopiece, piece, Color, toggle, Kind, pawn, king, kind_eq, has_kind,
  is_empty, Ep, no_ep, higher, lower,
}
use docker_chessd.Legal.{Origin, from_square, legal_from, legal_piece_move, legal_move_with}
use docker_chessd.Check.{legal_move, is_square_attacked}
use docker_chessd.Move.{Move, Garray}
use docker_chessd.Execute.{
  is_en_passant, capture_en_passant, move_from, move_piece, make_move, execute_quiet,
}
use docker_chessd.Execute.State.{SameMove, execute_quiet_fields}
use docker_chessd.Execute.Frame.{Moves, placed, execute_quiet-Moves}
use docker_chessd.Backup.{put_back, restore_with, take_back, is_marked}
use docker_chessd.Backup.Grants.{legal_from_own, king_move_cases, legal_ep_victim}
use docker_chessd.Backup.Boards.{
  Promotes, lifted_back, put_back-put, restore_plain, restore_en_passant, restore_castling,
  piece_eq,
}

-- What the executed move says of the captured piece.
pub record Marks (gs : GameState) (m m' : Move) (ff fr : ℕ) : Type 0 where
  pub taken :
      is_en_passant (gs.board ff fr) (gs.board m.to_file m.to_rank) ff m.to_file ≡ true
      → is_marked m'.en_passant ≡ true
  pub as_given :
      is_en_passant (gs.board ff fr) (gs.board m.to_file m.to_rank) ff m.to_file ≡ false
      → (m'.piece_captured ≡ m.piece_captured) × (m'.en_passant ≡ m.en_passant)

capture-marks :
    (moved took : Square) (gs : GameState) (m : Move) (ff fr : ℕ)
    → (is_en_passant moved took ff m.to_file ≡ true
        → is_marked (capture_en_passant moved took gs m ff fr).1.en_passant ≡ true)
      × (is_en_passant moved took ff m.to_file ≡ false
          → ((capture_en_passant moved took gs m ff fr).1.piece_captured ≡ m.piece_captured)
            × ((capture_en_passant moved took gs m ff fr).1.en_passant ≡ m.en_passant))
unfolding capture_en_passant
capture-marks moved took gs m ff fr =
    (λ e. rw e (marked_side (ltb m.to_file ff)), λ e. rw e (refl, refl))
  where
    marked_side : (b : Bool) → is_marked (if b then lower else higher) ≡ true
    marked_side true = refl
    marked_side false = refl

move_from-Marks :
    (g : Garray) (gs : GameState) (m : Move) (ff fr : ℕ) (o : Origin)
    → o ≡ from_square ff fr
    → Marks gs m (move_from g gs m o).1 ff fr
unfolding move_from move_piece
move_from-Marks g gs m ff fr o e =
    subst (λ (o' : Origin). Marks gs m (move_from g gs m o').1 ff fr) (sym e)
      (let c = capture-marks (gs.board ff fr) (gs.board m.to_file m.to_rank) _ m ff fr in
        record { taken = c.0; as_given = c.1 })

pub execute-Marks :
    (g : Garray) (gs : GameState) (m : Move) (ff fr : ℕ)
    → m.origin ≡ from_square ff fr
    → Marks gs m (execute_quiet g gs m).1 ff fr
unfolding execute_quiet make_move
execute-Marks g gs m ff fr e = move_from-Marks g gs m ff fr m.origin e

abbrev pub Noted : GameState → Square → Ep → ℕ → ℕ → ℕ → ℕ → Type 0
Noted gs took e ff fr tf tr =
    is_en_passant (gs.board ff fr) (gs.board tf tr) ff tf ≡ false
    → (took ≡ gs.board tf tr) × (e ≡ no_ep)

-- A move that is filled in as move_calculate does: the captured piece is noted, unless the capture is
-- en passant, and a promotion is that of a pawn to a piece of its side.
pub record IsFilled (gs : GameState) (m : Move) (ff fr : ℕ) : Type 0 where
  pub noted : Noted gs m.piece_captured m.en_passant ff fr m.to_file m.to_rank
  pub promotes : Promotes gs m.promotion ff fr

-- The values that `backup_move` reads from the executed move.
take_back-with :
    (b : Board) (m m' : Move) (ff fr : ℕ)
    → SameMove m' m
    → take_back b m' ff fr
      ≡ restore_with
          (put_back b m.to_file m.to_rank m.promotion ff fr)
          m'.piece_captured
          m'.en_passant
          m.to_file
          m.to_rank
          ff
          fr
unfolding take_back
take_back-with b m m' ff fr h i =
    restore_with (put_back b (h.to_file i) (h.to_rank i) (h.promotion i) ff fr) m'.piece_captured
      m'.en_passant (h.to_file i) (h.to_rank i) ff fr

kind_of : (c : Color) (j k : Kind) → kind_eq j k ≡ true → piece c j ≡ piece c k
kind_of c j k h = ground arith

pub kind_square : (s : Square) (k : Kind) → has_kind s k ≡ true → (c : Color) × (s ≡ piece c k)
kind_square nopiece k h = cc
kind_square (piece c j) k h = (c, kind_of c j k h)

en_passant_parts :
    (s took : Square) (ff tf : ℕ)
    → is_en_passant s took ff tf ≡ true
    → (c : Color) × (s ≡ piece c pawn) × ((ff == tf) ≡ false) × (is_empty took ≡ true)
en_passant_parts nopiece took ff tf h = cc
en_passant_parts (piece c k) took ff tf h =
    let p = and-true_parts (has_kind (piece c k) pawn) (not (ff == tf) && is_empty took) h in
    let n = and-true_parts (not (ff == tf)) (is_empty took) p.1 in
    (c, kind_of c k pawn p.0, ground arith, n.1)

module _ (gs : GameState) (ff fr tf tr : ℕ) (q : Square) (b : Board)
    (mv : Moves gs ff fr tf tr (placed gs q ff fr) b)
    (legal : legal_from is_square_attacked gs (gs.board ff fr) ff fr tf tr ≡ true) where
  -- What legal_move grants of the piece that stands on the square.
  own :
      (c : Color) (k : Kind)
      → gs.board ff fr ≡ piece c k
      → (c ≡ gs.on_move) × (legal_piece_move is_square_attacked gs k ff fr tf tr ≡ true)
  own c k p =
      legal_from_own gs c k ff fr tf tr
        (subst (λ (s : Square). legal_from is_square_attacked gs s ff fr tf tr ≡ true) p legal)

  restored_ep :
      (took : Square) (e : Ep)
      → is_marked e ≡ true
      → is_en_passant (gs.board ff fr) (gs.board tf tr) ff tf ≡ true
      → (x y : ℕ)
      → restore_with (lifted_back gs ff fr tf tr q b mv) took e tf tr ff fr x y ≡ gs.board x y
  unfolding legal_piece_move
  restored_ep took e h ep x y =
      let (c, p, ne, o) = en_passant_parts (gs.board ff fr) (gs.board tf tr) ff tf ep in
      let g = own c pawn p in
      restore_en_passant gs ff fr tf tr q b mv took e h ep
        (piece_eq (gs.board tf fr) (toggle gs.on_move) pawn
          (legal_ep_victim gs ff fr tf tr g.1 ne o))
        (p ∙ ap (λ (d : Color). piece d pawn) g.0) x y

  restored_plain :
      is_en_passant (gs.board ff fr) (gs.board tf tr) ff tf ≡ false
      → (x y : ℕ)
      → restore_with (lifted_back gs ff fr tf tr q b mv) (gs.board tf tr) no_ep tf tr ff fr x y
        ≡ gs.board x y
  unfolding legal_piece_move
  restored_plain ne x y = elim (Bool-cases (has_kind (gs.board ff fr) king)) [
    | inl k ↦
        let (c, p) = kind_square (gs.board ff fr) king k in
        let g = own c king p in
        elim (king_move_cases gs ff fr tf tr g.1) [
          | inl castles ↦
              restore_castling gs ff fr tf tr q b mv gs.on_move castles
                (p ∙ ap (λ (d : Color). piece d king) g.0) x y
          | inr far ↦ restore_plain gs ff fr tf tr q b mv ne (λ _. far) x y
        ]
    | inr k ↦ restore_plain gs ff fr tf tr q b mv ne (λ h. cc (h, k)) x y
  ]

-- A legal move from a square, filled in as move_calculate does and executed, is taken back: the board
-- is the one before the move, with a captured piece, a pawn taken en passant, a promoted pawn and the
-- rook of a castling on their squares again.
pub take_back-execute_quiet :
    (g : Garray) (gs : GameState) (m : Move) (ff fr : ℕ)
    → m.origin ≡ from_square ff fr
    → legal_move gs (from_square ff fr) m.to_file m.to_rank ≡ true
    → IsFilled gs m ff fr
    → (x y : ℕ)
    → take_back (execute_quiet g gs m).0.board (execute_quiet g gs m).1 ff fr x y ≡ gs.board x y
unfolding legal_move legal_move_with
take_back-execute_quiet g gs m ff fr e l fill x y =
    let tf = m.to_file in
    let tr = m.to_rank in
    let b = (execute_quiet g gs m).0.board in
    let m' = (execute_quiet g gs m).1 in
    let mv = execute_quiet-Moves g gs m ff fr e l in
    let marks = execute-Marks g gs m ff fr e in
    let back : put_back b tf tr m.promotion ff fr ≡ lifted_back gs ff fr tf tr m.promotion b mv =
      fun_ext
        (λ i. fun_ext (λ j. put_back-put gs ff fr tf tr m.promotion b mv fill.promotes i j)) in
    ap (λ (c : Board). c x y)
      (take_back-with b m m' ff fr (execute_quiet_fields g gs m)
        ∙ ap (λ (c : Board). restore_with c m'.piece_captured m'.en_passant tf tr ff fr) back)
    ∙ elim (Bool-cases (is_en_passant (gs.board ff fr) (gs.board tf tr) ff tf)) [
      | inl ep ↦
          restored_ep gs ff fr tf tr m.promotion b mv l m'.piece_captured m'.en_passant
            (marks.taken ep) ep x y
      | inr ne ↦
          let a = marks.as_given ne in
          let n = fill.noted ne in
          ap
            (λ (c : Square).
              restore_with (lifted_back gs ff fr tf tr m.promotion b mv) c m'.en_passant tf tr ff fr
                x y)
            (a.0 ∙ n.0)
          ∙ (ap
                (λ (c : Ep).
                  restore_with (lifted_back gs ff fr tf tr m.promotion b mv) (gs.board tf tr) c tf
                    tr ff fr x y)
                (a.1 ∙ n.1)
              ∙ restored_plain gs ff fr tf tr m.promotion b mv l ne x y)
    ]
