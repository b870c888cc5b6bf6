-- ===== src/Backup/Boards.antt =====
-- src/movecheck.c: the boards that `backup_move` writes, set beside those that `execute_move` writes.
use docker_chessd.Prelude.{
  ℕ, ◌+◌, ◌≡◌, ◌≢◌, refl, ap, sym, ◌∙◌, ◌⊎◌, inl, inr, true, false, ◌&&◌, ◌==◌, Bool-cases, arith,
}
use docker_chessd.Board.{
  GameState, Board, Square, nopiece, piece, Color, white, black, toggle, Kind, pawn, rook, king,
  has_kind, is_empty, is_piece, colorval, put, Ep, no_ep,
}
use docker_chessd.Execute.{is_en_passant, or_color}
use docker_chessd.Execute.Frame.{Moves, placed, IsVictim, IsRookSquare}
use docker_chessd.Backup.{put_back, restore_with, is_marked}
use docker_chessd.Backup.Grants.{Castles, CastlesTo}

-- A promotion is that of a pawn of the side to move, to a piece of that side.
abbrev pub Promotes : GameState → Square → ℕ → ℕ → Type 0
Promotes gs q ff fr =
    (q ≡ nopiece)
    ⊎ ((k : Kind) × (gs.board ff fr ≡ piece gs.on_move pawn) × (q ≡ piece gs.on_move k))

-- The value of a board after a write, by what is known of the written square and of the others.
put_lem :
    (b : Board) (f r : ℕ) (v t : Square) (x y : ℕ)
    → ((x ≡ f) × (y ≡ r) → v ≡ t)
    → (¬ ((x ≡ f) × (y ≡ r)) → b x y ≡ t)
    → put b f r v x y ≡ t
put_lem b f r v t x y at off = elim (Bool-cases (x == f && y == r)) [
  | inl e ↦ rw e (at (ground arith))
  | inr e ↦ rw e (off (ground arith))
]

board_at : (b : Board) {f r x y : ℕ} → (x ≡ f) × (y ≡ r) → b f r ≡ b x y
board_at b e i = b (sym e.0 i) (sym e.1 i)

put_self : (b : Board) (f r : ℕ) (v : Square) → put b f r v f r ≡ v
put_self b f r v = put_lem b f r v v f r (λ e. refl) (λ n. absurd (n (refl, refl)))

put_twice :
    (b : Board) (f r : ℕ) (v w : Square) (x y : ℕ) → put (put b f r v) f r w x y ≡ put b f r w x y
put_twice b f r v w x y = ground arith

or_color_own : (c : Color) (k : Kind) → or_color (piece c k) c ≡ piece c k
or_color_own white k = refl
or_color_own black k = refl

pub empty_eq : (s : Square) → is_empty s ≡ true → s ≡ nopiece
empty_eq nopiece h = refl
empty_eq (piece c k) h = cc

pub piece_eq : (s : Square) (c : Color) (k : Kind) → is_piece s c k ≡ true → s ≡ piece c k
piece_eq nopiece c k h = cc
piece_eq (piece d j) c k h = ground arith

module _ (gs : GameState) (ff fr tf tr : ℕ) (q : Square) (b : Board)
    (mv : Moves gs ff fr tf tr (placed gs q ff fr) b) where
  -- The board with the piece on its square again; a pawn if it had promoted.
  pub lifted_back : Board
  lifted_back = put b ff fr (gs.board ff fr)

  pub put_back-put :
      Promotes gs q ff fr → (x y : ℕ) → put_back b tf tr q ff fr x y ≡ lifted_back x y
  unfolding lifted_back put_back
  put_back-put (inl e) x y =
      let t : b tf tr ≡ gs.board ff fr = mv.target ∙ rw e in
      rw (e, put_back) (ap (λ (v : Square). put b ff fr v x y) t)
  put_back-put (inr (k, p, e)) x y =
      let t : b tf tr ≡ piece gs.on_move k = mv.target ∙ rw e (or_color_own gs.on_move k) in
      let w : piece (colorval (put b ff fr (b tf tr) ff fr)) pawn ≡ gs.board ff fr =
        ap (λ (v : Square). piece (colorval v) pawn) (put_self b ff fr (b tf tr) ∙ t) ∙ sym p in
      rw (e, put_back) (put_twice b ff fr _ _ x y ∙ ap (λ (v : Square). put b ff fr v x y) w)

  -- Squares that the move has not touched.
  untouched :
      (x y : ℕ)
      → ¬ ((x ≡ tf) × (y ≡ tr))
      → ¬ IsVictim gs ff fr tf tr x y
      → ¬ IsRookSquare gs ff fr tf tr x y
      → lifted_back x y ≡ gs.board x y
  unfolding lifted_back
  untouched x y n v r =
      put_lem b ff fr (gs.board ff fr) (gs.board x y) x y (λ e. board_at gs.board e)
        (λ o. mv.others x y o n v r)

  -- Away from captures en passant and castling.
  plain :
      is_en_passant (gs.board ff fr) (gs.board tf tr) ff tf ≡ false
      → (has_kind (gs.board ff fr) king ≡ true → (tf ≢ ff + 2) × (ff ≢ tf + 2))
      → (x y : ℕ) → put lifted_back tf tr (gs.board tf tr) x y ≡ gs.board x y
  plain ne far x y =
      put_lem lifted_back tf tr _ (gs.board x y) x y (λ e. board_at gs.board e)
        (λ n. untouched x y n (λ v. cc (v.0, ne)) (λ r. let h = far r.0 in ground arith))

  -- A capture en passant.
  en_passant :
      is_en_passant (gs.board ff fr) (gs.board tf tr) ff tf ≡ true
      → gs.board tf fr ≡ piece (toggle gs.on_move) pawn
      → has_kind (gs.board ff fr) king ≡ false
      → (x y : ℕ)
      → put (put lifted_back tf fr (piece (toggle gs.on_move) pawn)) tf tr nopiece x y
        ≡ gs.board x y
  en_passant ep victim not_king x y =
      put_lem (put lifted_back tf fr (piece (toggle gs.on_move) pawn)) tf tr nopiece (gs.board x y)
        x y (λ e. sym (empty_eq (gs.board tf tr) (ground arith)) ∙ board_at gs.board e)
        (λ n.
          put_lem lifted_back tf fr _ (gs.board x y) x y (λ e. sym victim ∙ board_at gs.board e)
            (λ o. untouched x y n (λ v. o (v.1, v.2)) (λ r. cc (r.0, not_king))))

  -- A castling: the rook goes back from file `beside` to file `rook_at`.
  castling :
      (c : Color) (to rook_at beside : ℕ)
      → Castles gs.board c ff fr tf tr to rook_at beside
      → gs.board ff fr ≡ piece c king
      → ((to ≡ 6) × (rook_at ≡ 7) × (beside ≡ 5)) ⊎ ((to ≡ 2) × (rook_at ≡ 0) × (beside ≡ 3))
      → (x y : ℕ)
      → put
          (put (put lifted_back tf tr (gs.board tf tr)) rook_at fr (piece c rook))
          beside
          fr
          nopiece
          x
          y
        ≡ gs.board x y
  castling c to rook_at beside k p side x y =
      let b3 = put lifted_back tf tr (gs.board tf tr) in
      let b4 = put b3 rook_at fr (piece c rook) in
      put_lem b4 beside fr nopiece (gs.board x y) x y
        (λ e. sym (empty_eq (gs.board beside fr) k.free) ∙ board_at gs.board e)
        (λ n.
          put_lem b3 rook_at fr (piece c rook) (gs.board x y) x y
            (λ e. sym (piece_eq (gs.board rook_at fr) c rook k.rook_there) ∙ board_at gs.board e)
            (λ o.
              put_lem lifted_back tf tr (gs.board tf tr) (gs.board x y) x y
                (λ e. board_at gs.board e)
                (λ t. untouched x y t (λ v. cc (rw p at (v.0))) (λ r. ground arith))))

  source_back : lifted_back ff fr ≡ gs.board ff fr
  unfolding lifted_back
  source_back = put_self b ff fr (gs.board ff fr)

  -- What `backup_move` makes of the board, for each kind of move.
  pub restore_plain :
      is_en_passant (gs.board ff fr) (gs.board tf tr) ff tf ≡ false
      → (has_kind (gs.board ff fr) king ≡ true → (tf ≢ ff + 2) × (ff ≢ tf + 2))
      → (x y : ℕ) → restore_with lifted_back (gs.board tf tr) no_ep tf tr ff fr x y ≡ gs.board x y
  unfolding restore_with
  restore_plain ne far x y = elim (Bool-cases (has_kind (gs.board ff fr) king)) [
    | inl k ↦
        let s : (tf == ff + 2) ≡ false = ground (arith, (far k).0) in
        let l : (ff == tf + 2) ≡ false = ground (arith, (far k).1) in
        rw (source_back, k, s, l) (put_twice lifted_back tf tr _ _ x y ∙ plain ne far x y)
    | inr k ↦ rw (source_back, k) (plain ne far x y)
  ]

  pub restore_en_passant :
      (took : Square) (e : Ep)
      → is_marked e ≡ true
      → is_en_passant (gs.board ff fr) (gs.board tf tr) ff tf ≡ true
      → gs.board tf fr ≡ piece (toggle gs.on_move) pawn
      → gs.board ff fr ≡ piece gs.on_move pawn
      → (x y : ℕ) → restore_with lifted_back took e tf tr ff fr x y ≡ gs.board x y
  unfolding restore_with
  restore_en_passant took e h ep victim p x y =
      rw (source_back, p, h) (en_passant ep victim (rw p) x y)

  pub restore_castling :
      (c : Color)
      → CastlesTo gs.board c ff fr tf tr
      → gs.board ff fr ≡ piece c king
      → (x y : ℕ) → restore_with lifted_back (gs.board tf tr) no_ep tf tr ff fr x y ≡ gs.board x y
  unfolding restore_with
  restore_castling c (inl k) p x y =
      let s : (tf == ff + 2) ≡ true = ground (arith, k.king_file, k.king_to) in
      let n : (ff == tf) ≡ false = ground (arith, k.king_file, k.king_to) in
      rw (source_back, p, s, n) (castling c 6 7 5 k p (inl (refl, refl, refl)) x y)
  restore_castling c (inr k) p x y =
      let s : (tf == ff + 2) ≡ false = ground (arith, k.king_file, k.king_to) in
      let l : (ff == tf + 2) ≡ true = ground (arith, k.king_file, k.king_to) in
      let n : (ff == tf) ≡ false = ground (arith, k.king_file, k.king_to) in
      rw (source_back, p, s, l, n) (castling c 2 0 3 k p (inr (refl, refl, refl)) x y)
