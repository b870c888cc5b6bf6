-- ===== src/Execute/Frame.antt =====
-- The board after a move from a square.
use docker_chessd.Prelude.{
  ℕ, Bool, true, false, ◌≡◌, ◌≢◌, refl, ap, ◌∙◌, ◌⊎◌, inl, inr, ◌||◌, not, arith, if◌then◌else◌,
  Bool-cases, Option-cases,
}
use docker_chessd.Board.{
  GameState, Board, Square, nopiece, piece, pawn, knight, bishop, rook, queen, king, has_kind,
  is_empty, put,
}
use docker_chessd.Legal.{
  Origin, from_square, legal_from, legal_piece_move, legal_pawn_move, pawn_advance, pawn_capture,
  legal_move_with,
}
use docker_chessd.Check.{legal_move, is_square_attacked}
use docker_chessd.Move.{Move, Garray}
use docker_chessd.Execute.{
  mark_irreversible, is_en_passant, update_ep, update_moved, hop_rook, hop, execute_quiet, or_color,
}
use docker_chessd.Execute.State.{
  lifted, captured_state, piece_state, executed, execute_quiet-executed,
}

mark_fields :
    (g : Garray) (gs : GameState)
    → ((mark_irreversible g gs).board ≡ gs.board) × ((mark_irreversible g gs).on_move ≡ gs.on_move)
unfolding mark_irreversible
mark_fields g gs = elim (Option-cases gs.game_num) [
  | inl e ↦ rw (e, mark_irreversible) (refl, refl)
  | inr (n, e) ↦ rw (e, mark_irreversible) (refl, refl)
]

-- A mark under a test keeps the board and the side to move.
pub marked_fields :
    (test : Bool) (g : Garray) (gs : GameState)
    → let s = if test then mark_irreversible g gs else gs in
      (s.board ≡ gs.board) × (s.on_move ≡ gs.on_move)
marked_fields true g gs = mark_fields g gs
marked_fields false g gs = (refl, refl)

pub captured_fields :
    (moved took : Square) (gs : GameState) (tf ff fr : ℕ)
    → let s = captured_state moved took gs tf ff fr in
      (s.board ≡ (if is_en_passant moved took ff tf then put gs.board tf fr nopiece else gs.board))
      × (s.on_move ≡ gs.on_move)
captured_fields moved took gs tf ff fr = elim (Bool-cases (is_en_passant moved took ff tf)) [
  | inl e ↦ rw e (refl, refl)
  | inr e ↦ rw e (refl, refl)
]

-- The writes to the board in their order, on the board `b`, for the placed piece `q'`.
abbrev pub written : Board → Square → Square → Square → ℕ → ℕ → ℕ → ℕ → Board
written b moved took q' tf tr ff fr =
    let b1 = put (put b tf tr q') ff fr nopiece in
    let b2 = if is_en_passant moved took ff tf then put b1 tf fr nopiece else b1 in
    hop moved ff tf tr 2 0 3 (hop moved ff tf tr 6 7 5 b2)

abbrev pub placed : GameState → Square → ℕ → ℕ → Square
placed gs q ff fr = if is_empty q then gs.board ff fr else or_color q gs.on_move

pub piece_state_board :
    (g : Garray) (gs : GameState) (tf tr : ℕ) (q : Square) (ff fr : ℕ)
    → (piece_state g gs tf tr q ff fr).board
      ≡ written gs.board (gs.board ff fr) (gs.board tf tr) (placed gs q ff fr) tf tr ff fr
unfolding piece_state hop_rook update_moved update_ep
piece_state_board g gs tf tr q ff fr =
    let moved = gs.board ff fr in
    let took = gs.board tf tr in
    let gs1 = record gs { board = lifted gs tf tr q ff fr } in
    let test = has_kind moved pawn || not (is_empty took) in
    let gs2 = if test then mark_irreversible g gs1 else gs1 in
    ap (λ (b : Board). hop moved ff tf tr 2 0 3 (hop moved ff tf tr 6 7 5 b))
      ((captured_fields moved took gs2 tf ff fr).0
        ∙ ap (λ (b : Board). if is_en_passant moved took ff tf then put b tf fr nopiece else b)
            (marked_fields test g gs1).0)

pub piece_state_on_move :
    (g : Garray) (gs : GameState) (tf tr : ℕ) (q : Square) (ff fr : ℕ)
    → (piece_state g gs tf tr q ff fr).on_move ≡ gs.on_move
unfolding piece_state hop_rook update_moved update_ep
piece_state_on_move g gs tf tr q ff fr =
    let moved = gs.board ff fr in
    let took = gs.board tf tr in
    let gs1 = record gs { board = lifted gs tf tr q ff fr } in
    let test = has_kind moved pawn || not (is_empty took) in
    let gs2 = if test then mark_irreversible g gs1 else gs1 in
    (captured_fields moved took gs2 tf ff fr).1 ∙ (marked_fields test g gs1).1

-- The square of a pawn that is captured en passant.
abbrev pub IsVictim : GameState → ℕ → ℕ → ℕ → ℕ → ℕ → ℕ → Type 0
IsVictim gs ff fr tf tr x y =
    (is_en_passant (gs.board ff fr) (gs.board tf tr) ff tf ≡ true) × (x ≡ tf) × (y ≡ fr)

-- The squares of the rook when the king goes from file 4 to file 6 or 2.
abbrev pub IsRookSquare : GameState → ℕ → ℕ → ℕ → ℕ → ℕ → ℕ → Type 0
IsRookSquare gs ff fr tf tr x y =
    (has_kind (gs.board ff fr) king ≡ true)
    × (ff ≡ 4)
    × (y ≡ tr)
    × (((tf ≡ 6) × ((x ≡ 5) ⊎ (x ≡ 7))) ⊎ ((tf ≡ 2) × ((x ≡ 3) ⊎ (x ≡ 0))))

-- The board `b` after the move of `gs` from `(ff, fr)` to `(tf, tr)` that places `q`.
pub record Moves (gs : GameState) (ff fr tf tr : ℕ) (q : Square) (b : Board) : Type 0 where
  pub source : b ff fr ≡ nopiece
  pub target : b tf tr ≡ q
  pub victim : (x y : ℕ) → IsVictim gs ff fr tf tr x y → b x y ≡ nopiece
  pub short_rook :
      has_kind (gs.board ff fr) king ≡ true
      → ff ≡ 4
      → tf ≡ 6
      → (b 5 tr ≡ gs.board 7 tr) × (b 7 tr ≡ nopiece)
  pub long_rook :
      has_kind (gs.board ff fr) king ≡ true
      → ff ≡ 4
      → tf ≡ 2
      → (b 3 tr ≡ gs.board 0 tr) × (b 0 tr ≡ nopiece)
  pub others :
      (x y : ℕ)
      → ¬ ((x ≡ ff) × (y ≡ fr))
      → ¬ ((x ≡ tf) × (y ≡ tr))
      → ¬ IsVictim gs ff fr tf tr x y
      → ¬ IsRookSquare gs ff fr tf tr x y
      → b x y ≡ gs.board x y

-- A castling rook's hop keeps every square but its two.
hop_other :
    (moved : Square) (ff tf tr at from to : ℕ) (b : Board) (x y : ℕ)
    → ¬ ((has_kind moved king ≡ true) × (ff ≡ 4) × (tf ≡ at) × (y ≡ tr) × ((x ≡ to) ⊎ (x ≡ from)))
    → hop moved ff tf tr at from to b x y ≡ b x y
hop_other moved ff tf tr at from to b x y h = ground arith

module _ (gs : GameState) (ff fr tf tr : ℕ) (q : Square) where
  lifted_off : Board
  lifted_off = put (put gs.board tf tr q) ff fr nopiece

  taken_off : Board
  taken_off =
      if is_en_passant (gs.board ff fr) (gs.board tf tr) ff tf
      then put lifted_off tf fr nopiece
      else lifted_off

  -- Where no rook goes, the writes are those before the hops.
  written_other :
      (x y : ℕ)
      → ¬ IsRookSquare gs ff fr tf tr x y
      → written gs.board (gs.board ff fr) (gs.board tf tr) q tf tr ff fr x y ≡ taken_off x y
  unfolding taken_off lifted_off
  written_other x y h =
      hop_other (gs.board ff fr) ff tf tr 2 0 3 (hop (gs.board ff fr) ff tf tr 6 7 5 taken_off) x y
        (λ k. h (k.0, k.1, k.3, inr (k.2, k.4)))
      ∙ hop_other (gs.board ff fr) ff tf tr 6 7 5 taken_off x y
          (λ k. h (k.0, k.1, k.3, inl (k.2, k.4)))

  taken_off_other :
      (x y : ℕ)
      → ¬ ((x ≡ ff) × (y ≡ fr))
      → ¬ ((x ≡ tf) × (y ≡ tr))
      → ¬ IsVictim gs ff fr tf tr x y
      → taken_off x y ≡ gs.board x y
  unfolding taken_off lifted_off
  taken_off_other x y a b c = ground arith

  taken_off_source : taken_off ff fr ≡ nopiece
  unfolding taken_off lifted_off
  taken_off_source = ground arith

  module _ (apart : ¬ ((ff ≡ tf) × (fr ≡ tr)))
      (climbs : has_kind (gs.board ff fr) pawn ≡ true → fr ≢ tr) where
    taken_off_target : taken_off tf tr ≡ q
    unfolding taken_off lifted_off
    taken_off_target = ground arith

    written-Moves :
        Moves gs ff fr tf tr q (written gs.board (gs.board ff fr) (gs.board tf tr) q tf tr ff fr)
    written-Moves = record {
      source = written_other ff fr (λ k. ground arith) ∙ taken_off_source;
      target = written_other tf tr (λ k. ground arith) ∙ taken_off_target;
      victim = λ x y v. ground arith;
      short_rook = λ k a b. ground arith;
      long_rook = λ k a b. ground arith;
      others = λ x y a b c d. written_other x y d ∙ taken_off_other x y a b c;
    }

-- Two facts that legal_move grants: the move leaves its square, and a pawn changes its rank.
legal_from_apart :
    (gs : GameState) (s : Square) (ff fr tf tr : ℕ)
    → legal_from is_square_attacked gs s ff fr tf tr ≡ true
    → ¬ ((ff ≡ tf) × (fr ≡ tr))
unfolding legal_from
legal_from_apart gs nopiece ff fr tf tr h = cc
legal_from_apart gs (piece c k) ff fr tf tr h = ground arith

legal_from_climbs :
    (gs : GameState) (s : Square) (ff fr tf tr : ℕ)
    → legal_from is_square_attacked gs s ff fr tf tr ≡ true
    → has_kind s pawn ≡ true
    → fr ≢ tr
unfolding legal_from legal_piece_move legal_pawn_move pawn_advance pawn_capture
legal_from_climbs gs nopiece ff fr tf tr h p = cc
legal_from_climbs gs (piece c pawn) ff fr tf tr h p = ground arith
legal_from_climbs gs (piece c knight) ff fr tf tr h p = cc
legal_from_climbs gs (piece c bishop) ff fr tf tr h p = cc
legal_from_climbs gs (piece c rook) ff fr tf tr h p = cc
legal_from_climbs gs (piece c queen) ff fr tf tr h p = cc
legal_from_climbs gs (piece c king) ff fr tf tr h p = cc

pub executed_board :
    (g : Garray) (gs : GameState) (m : Move) (ff fr : ℕ)
    → m.origin ≡ from_square ff fr
    → (execute_quiet g gs m).0.board
      ≡ written gs.board
          (gs.board ff fr)
          (gs.board m.to_file m.to_rank)
          (placed gs m.promotion ff fr)
          m.to_file
          m.to_rank
          ff
          fr
unfolding executed
executed_board g gs m ff fr e =
    ap (λ (s : GameState). s.board) (execute_quiet-executed g gs m)
    ∙ (ap (λ (o : Origin). (executed g gs o m.to_file m.to_rank m.promotion).board) e
        ∙ piece_state_board g gs m.to_file m.to_rank m.promotion ff fr)

-- The board after a legal move from a square: that square is empty, the target holds the moved
-- piece or the one that it promotes to, a pawn taken en passant is gone, a castling rook stands
-- beside its king, and every other square is as it was.
pub execute_quiet-Moves :
    (g : Garray) (gs : GameState) (m : Move) (ff fr : ℕ)
    → m.origin ≡ from_square ff fr
    → legal_move gs (from_square ff fr) m.to_file m.to_rank ≡ true
    → Moves gs ff fr m.to_file m.to_rank
        (placed gs m.promotion ff fr)
        (execute_quiet g gs m).0.board
unfolding legal_move legal_move_with
execute_quiet-Moves g gs m ff fr e h = rw (executed_board g gs m ff fr e) (
    written-Moves gs ff fr m.to_file m.to_rank (placed gs m.promotion ff fr)
      (legal_from_apart gs (gs.board ff fr) ff fr m.to_file m.to_rank h)
      (legal_from_climbs gs (gs.board ff fr) ff fr m.to_file m.to_rank h))
