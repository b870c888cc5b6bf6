-- ===== src/Backup/Grants.antt =====
-- What `legal_move` grants of castlings and of captures en passant, for src/movecheck.c: `backup_move`.
use docker_chessd.Prelude.{
  ℕ, ◌+◌, ◌-◌, ◌≡◌, ◌≢◌, refl, ◌⊎◌, inl, inr, Bool, true, false, ◌&&◌, ◌||◌, ◌==◌, ==_iff, arith,
  and-true_parts, dist,
}
use docker_chessd.Board.{
  GameState, Board, piece, Color, white, black, toggle, Kind, pawn, rook, is_empty, is_piece, Ep,
  no_ep, higher, lower,
}
use docker_chessd.Legal.{
  legal_from, legal_piece_move, legal_pawn_move, legal_king_move, king_castles, castle_short,
  castle_long, pawn_capture, takes_piece, ep_capture,
}
use docker_chessd.Check.{is_square_attacked}

-- What a castling grants, to either side: `rook_at` is the rook's file, and `beside` the file next to
-- the king's new one.
pub record Castles (b : Board) (c : Color) (ff fr tf tr to rook_at beside : ℕ) : Type 0 where
  pub king_file : ff ≡ 4
  pub same_rank : fr ≡ tr
  pub king_to : tf ≡ to
  pub rook_there : is_piece (b rook_at fr) c rook ≡ true
  pub free : is_empty (b beside fr) ≡ true

castle_short-Castles :
    (gs : GameState) (c : Color) (home : ℕ) (km rm : Bool) (ff fr tf tr : ℕ)
    → castle_short is_square_attacked gs c home km rm ff fr tf tr ≡ true
    → Castles gs.board c ff fr tf tr 6 7 5
unfolding castle_short
castle_short-Castles gs c home km rm ff fr tf tr h = ground arith

castle_long-Castles :
    (gs : GameState) (c : Color) (home : ℕ) (km rm : Bool) (ff fr tf tr : ℕ)
    → castle_long is_square_attacked gs c home km rm ff fr tf tr ≡ true
    → Castles gs.board c ff fr tf tr 2 0 3
unfolding castle_long
castle_long-Castles gs c home km rm ff fr tf tr h = ground arith

pub or_split : (a b : Bool) → (a || b) ≡ true → (a ≡ true) ⊎ (b ≡ true)
or_split a b h = ground arith

-- A castling to either side.
abbrev pub CastlesTo : Board → Color → ℕ → ℕ → ℕ → ℕ → Type 0
CastlesTo b c ff fr tf tr = Castles b c ff fr tf tr 6 7 5 ⊎ Castles b c ff fr tf tr 2 0 3

king_castles-Castles :
    (gs : GameState) (c : Color) (ff fr tf tr : ℕ)
    → gs.on_move ≡ c
    → king_castles is_square_attacked gs ff fr tf tr ≡ true
    → CastlesTo gs.board c ff fr tf tr
unfolding king_castles
king_castles-Castles gs white ff fr tf tr e h = elim (or_split _ _ (rw (e, king_castles) at h)) [
  | inl a ↦ inl (castle_short-Castles gs white 0 gs.wkmoved gs.wkrmoved ff fr tf tr a)
  | inr a ↦ inr (castle_long-Castles gs white 0 gs.wkmoved gs.wqrmoved ff fr tf tr a)
]
king_castles-Castles gs black ff fr tf tr e h = elim (or_split _ _ (rw (e, king_castles) at h)) [
  | inl a ↦ inl (castle_short-Castles gs black 7 gs.bkmoved gs.bkrmoved ff fr tf tr a)
  | inr a ↦ inr (castle_long-Castles gs black 7 gs.bkmoved gs.bqrmoved ff fr tf tr a)
]

-- What legal_move grants about a piece: it is the mover's, and a king that does not castle goes to a
-- neighbouring file.
pub legal_from_own :
    (gs : GameState) (c : Color) (k : Kind) (ff fr tf tr : ℕ)
    → legal_from is_square_attacked gs (piece c k) ff fr tf tr ≡ true
    → (c ≡ gs.on_move) × (legal_piece_move is_square_attacked gs k ff fr tf tr ≡ true)
unfolding legal_from
legal_from_own gs white k ff fr tf tr h = ground arith
legal_from_own gs black k ff fr tf tr h = ground arith

pub king_move_cases :
    (gs : GameState) (ff fr tf tr : ℕ)
    → legal_king_move is_square_attacked gs ff fr tf tr ≡ true
    → CastlesTo gs.board gs.on_move ff fr tf tr ⊎ ((tf ≢ ff + 2) × (ff ≢ tf + 2))
unfolding legal_king_move
king_move_cases gs ff fr tf tr h = elim (or_split _ _ h) [
  | inl a ↦ inl (king_castles-Castles gs gs.on_move ff fr tf tr refl a)
  | inr near ↦ inr (ground arith, ground arith)
]

ep_capture-pawn :
    (b : Board) (enemy : Color) (e : Ep) (ff fr tf : ℕ)
    → ep_capture b enemy e ff fr tf ≡ true
    → is_piece (b tf fr) enemy pawn ≡ true
unfolding ep_capture
ep_capture-pawn b enemy no_ep ff fr tf h = cc
ep_capture-pawn b enemy higher ff fr tf h =
    let p = and-true_parts (tf == ff + 1) (is_piece (b (ff + 1) fr) enemy pawn) h in
    rw ((==_iff tf (ff + 1)).0 p.0) p.1
ep_capture-pawn b enemy lower ff fr tf h =
    let p = and-true_parts (tf + 1 == ff) (is_piece (b (ff - 1) fr) enemy pawn) h in
    let q = (==_iff (tf + 1) ff).0 p.0 in let r : tf ≡ ff - 1 = omega arith in rw r p.1

takes_piece_empty :
    (gs : GameState) (c : Color) (ff fr tf tr : ℕ)
    → gs.on_move ≡ c
    → takes_piece gs ff fr tf tr ≡ true
    → is_empty (gs.board tf tr) ≡ true
    → ep_capture gs.board (toggle c) (gs.ep_possible c ff) ff fr tf ≡ true
unfolding takes_piece
takes_piece_empty gs white ff fr tf tr e h k = ground arith
takes_piece_empty gs black ff fr tf tr e h k = ground arith

-- A pawn that changes its file onto an empty square takes the pawn beside it.
pub legal_ep_victim :
    (gs : GameState) (ff fr tf tr : ℕ)
    → legal_pawn_move gs ff fr tf tr ≡ true
    → (ff == tf) ≡ false
    → is_empty (gs.board tf tr) ≡ true
    → is_piece (gs.board tf fr) (toggle gs.on_move) pawn ≡ true
unfolding legal_pawn_move pawn_capture
legal_ep_victim gs ff fr tf tr h ne e =
    let d =
      and-true_parts (dist ff tf == 1) (dist fr tr == 1 && takes_piece gs ff fr tf tr)
        (rw ne at h) in
    let t = and-true_parts (dist fr tr == 1) (takes_piece gs ff fr tf tr) d.1 in
    ep_capture-pawn gs.board (toggle gs.on_move) (gs.ep_possible gs.on_move ff) ff fr tf
      (takes_piece_empty gs gs.on_move ff fr tf tr refl t.1 e)
