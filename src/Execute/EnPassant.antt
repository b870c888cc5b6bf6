-- ===== src/Execute/EnPassant.antt =====
-- The flags for captures en passant after a move from a square.
use docker_chessd.Prelude.{
  ℕ, ◌+◌, ◌-◌, ◌<◌, true, false, ◌≡◌, ◌≢◌, refl, ap, sym, ◌∙◌, inl, inr, ◌&&◌, ◌||◌, not, arith,
  ◌==◌, dist, and-true_parts, if◌then◌else◌, Bool-cases, transport, ==_iff,
}
use docker_chessd.Board.{
  GameState, Board, Square, nopiece, piece, Color, white, black, toggle, pawn, knight, bishop, rook,
  queen, king, has_kind, is_empty, is_piece, put, Ep, no_ep, higher, lower,
}
use docker_chessd.Legal.{
  Origin, from_square, legal_from, legal_piece_move, legal_pawn_move, pawn_advance, pawn_capture,
  takes_piece, legal_move_with,
}
use docker_chessd.Check.{legal_move, is_square_attacked}
use docker_chessd.Move.{Move, Garray}
use docker_chessd.Execute.{
  mark_irreversible, is_en_passant, update_ep, update_moved, hop_rook, execute_quiet, ep_beside,
  ep_flags,
}
use docker_chessd.Execute.State.{
  lifted, captured_state, piece_state, executed, execute_quiet-executed,
}
use docker_chessd.Execute.Frame.{
  marked_fields, captured_fields, placed, written, executed_board, piece_state_on_move,
}

-- The rank of the pawns of a colour that may capture en passant, the rank that they go to, and the
-- rank where the captured pawn started.
abbrev ep_rank : Color → ℕ
ep_rank white = 4
ep_rank black = 3

abbrev ep_target : Color → ℕ
ep_target white = 5
ep_target black = 2

abbrev ep_start : Color → ℕ
ep_start white = 6
ep_start black = 1

-- A pawn of colour `c` at file `f` may capture the pawn at file `x`, which has just made a double
-- step: both stand on the rank of the capture, and the squares that the step passed are empty.
pub record MayTake (b : Board) (c : Color) (f x : ℕ) : Type 0 where
  pub taker : is_piece (b f (ep_rank c)) c pawn ≡ true
  pub victim : is_piece (b x (ep_rank c)) (toggle c) pawn ≡ true
  pub target : is_empty (b x (ep_target c)) ≡ true
  pub start : is_empty (b x (ep_start c)) ≡ true

pub record EpIsSound (gs : GameState) : Type 0 where
  pub to_higher :
      (c : Color) (f : ℕ)
      → gs.ep_possible c f ≡ higher
      → (c ≡ gs.on_move) × MayTake gs.board c f (f + 1)
  pub to_lower :
      (c : Color) (f : ℕ)
      → gs.ep_possible c f ≡ lower
      → (c ≡ gs.on_move) × (0 < f) × MayTake gs.board c f (f - 1)

abbrev taken_off : GameState → ℕ → ℕ → Square → ℕ → ℕ → Board
taken_off gs tf tr q ff fr =
    if is_en_passant (gs.board ff fr) (gs.board tf tr) ff tf
    then put (lifted gs tf tr q ff fr) tf fr nopiece
    else lifted gs tf tr q ff fr

piece_state_ep :
    (g : Garray) (gs : GameState) (tf tr : ℕ) (q : Square) (ff fr : ℕ)
    → (piece_state g gs tf tr q ff fr).ep_possible
      ≡ ep_flags (gs.board ff fr) gs.on_move (taken_off gs tf tr q ff fr) fr tf tr
unfolding piece_state hop_rook update_moved update_ep
piece_state_ep g gs tf tr q ff fr =
    let moved = gs.board ff fr in
    let took = gs.board tf tr in
    let gs1 = record gs { board = lifted gs tf tr q ff fr } in
    let test = has_kind moved pawn || not (is_empty took) in
    let gs2 = if test then mark_irreversible g gs1 else gs1 in
    let p = captured_fields moved took gs2 tf ff fr in
    let r = marked_fields test g gs1 in
    let b : (captured_state moved took gs2 tf ff fr).board ≡ taken_off gs tf tr q ff fr =
      p.0
      ∙ ap (λ (b : Board). if is_en_passant moved took ff tf then put b tf fr nopiece else b) r.0 in
    let c : (captured_state moved took gs2 tf ff fr).on_move ≡ gs.on_move = p.1 ∙ r.1 in
    λ i. ep_flags moved (c i) (b i) fr tf tr

single_step : (a b : ℕ) → (dist a b == 1) ≡ true → (a == b + 2 || a + 2 == b) ≡ false
single_step a b e = ground arith

capture_single :
    (gs : GameState) (ff fr tf tr : ℕ)
    → pawn_capture gs ff fr tf tr ≡ true
    → (fr == tr + 2 || fr + 2 == tr) ≡ false
unfolding pawn_capture
capture_single gs ff fr tf tr h =
    let d = and-true_parts (dist ff tf == 1) (dist fr tr == 1 && takes_piece gs ff fr tf tr) h in
    single_step fr tr (and-true_parts (dist fr tr == 1) (takes_piece gs ff fr tf tr) d.1).0

advance_double_white :
    (gs : GameState) (f fr tr : ℕ)
    → pawn_advance gs f fr tr ≡ true
    → gs.on_move ≡ white
    → (fr == tr + 2 || fr + 2 == tr) ≡ true
    → (fr ≡ 1) × (tr ≡ 3) × (is_empty (gs.board f 2) ≡ true)
unfolding pawn_advance
advance_double_white gs f fr tr h e d = ground arith

advance_double_black :
    (gs : GameState) (f fr tr : ℕ)
    → pawn_advance gs f fr tr ≡ true
    → gs.on_move ≡ black
    → (fr == tr + 2 || fr + 2 == tr) ≡ true
    → (fr ≡ 6) × (tr ≡ 4) × (is_empty (gs.board f 5) ≡ true)
unfolding pawn_advance
advance_double_black gs f fr tr h e d = ground arith

-- The flags beside a pawn on the rank of a capture, on any board.
ep_beside_higher :
    (b : Board) (c d : Color) (r tf f : ℕ)
    → ep_beside b c r tf (λ e x. no_ep) d f ≡ higher
    → (d ≡ c) × (tf ≡ f + 1) × (is_piece (b f r) c pawn ≡ true)
ep_beside_higher b white white r tf f h = ground arith
ep_beside_higher b black black r tf f h = ground arith
ep_beside_higher b white black r tf f h = ground arith
ep_beside_higher b black white r tf f h = ground arith

ep_beside-lower :
    (b : Board) (c d : Color) (r tf f : ℕ)
    → ep_beside b c r tf (λ e x. no_ep) d f ≡ lower
    → (d ≡ c) × (f ≡ tf + 1) × (is_piece (b f r) c pawn ≡ true)
ep_beside-lower b white white r tf f h = ground arith
ep_beside-lower b black black r tf f h = ground arith
ep_beside-lower b white black r tf f h = ground arith
ep_beside-lower b black white r tf f h = ground arith

-- The board after a double step of the other side of `c`, on file `tf`.
abbrev stepped : Board → Color → ℕ → Board
stepped b c tf = put (put b tf (ep_rank c) (piece (toggle c) pawn)) tf (ep_start c) nopiece

stepped-MayTake :
    (b : Board) (c : Color) (f tf : ℕ)
    → is_empty (b tf (ep_target c)) ≡ true
    → is_piece (stepped b c tf f (ep_rank c)) c pawn ≡ true
    → MayTake (stepped b c tf) c f tf
stepped-MayTake b white f tf e t = record {
  taker = t;
  victim = ground arith;
  target = ground arith;
  start = ground arith;
}
stepped-MayTake b black f tf e t = record {
  taker = t;
  victim = ground arith;
  target = ground arith;
  start = ground arith;
}

-- Soundness of flags `e` for the board `b` and the side `c` to move.
abbrev Sound : Board → Color → (Color → ℕ → Ep) → Type 0
Sound b c e =
    ((d : Color) (f : ℕ) → e d f ≡ higher → (d ≡ c) × MayTake b d f (f + 1))
    × ((d : Color) (f : ℕ) → e d f ≡ lower → (d ≡ c) × (0 < f) × MayTake b d f (f - 1))

no_ep-Sound : (b : Board) (c : Color) → Sound b c (λ d f. no_ep)
no_ep-Sound b c = (λ d f h. cc, λ d f h. cc)

stepped-Sound :
    (b : Board) (c : Color) (tf : ℕ)
    → is_empty (b tf (ep_target c)) ≡ true
    → Sound (stepped b c tf) c (ep_beside (stepped b c tf) c (ep_rank c) tf (λ d f. no_ep))
stepped-Sound b c tf e = (
  (λ d f h.
      let p = ep_beside_higher (stepped b c tf) c d (ep_rank c) tf f h in
      (p.0, rw p.0 (rw (sym p.1) (stepped-MayTake b c f tf e p.2)))),
  (λ d f h.
      let p = ep_beside-lower (stepped b c tf) c d (ep_rank c) tf f h in
      let q : f - 1 ≡ tf = omega arith in
      (p.0, omega arith, rw p.0 (rw q (stepped-MayTake b c f tf e p.2)))),
)

no_victim :
    (mover : Color) (took : Square) (f : ℕ) → is_en_passant (piece mover pawn) took f f ≡ false
no_victim mover took f = ground arith

-- What the move of a pawn along its file, with no promotion, leaves on the board and in the flags.
written_straight :
    (b : Board) (mover : Color) (took : Square) (f tr fr : ℕ)
    → written b (piece mover pawn) took (piece mover pawn) f tr f fr
      ≡ put (put b f tr (piece mover pawn)) f fr nopiece
written_straight b mover took f tr fr = rw (no_victim mover took f)

-- The flags and the board for the squares of a double step of `mover`.
abbrev StepSound : Board → Color → Square → ℕ → ℕ → ℕ → ℕ → Square → Type 0
StepSound b mover took ff fr tf tr q' =
    Sound (written b (piece mover pawn) took q' tf tr ff fr) (toggle mover) (
      ep_flags (piece mover pawn) mover
        (if is_en_passant (piece mover pawn) took ff tf
          then put (put (put b tf tr q') ff fr nopiece) tf fr nopiece
          else put (put b tf tr q') ff fr nopiece)
        fr tf tr)

step_sound :
    (b : Board) (mover : Color) (took : Square) (f : ℕ)
    → is_empty (b f (ep_target (toggle mover))) ≡ true
    → StepSound b mover took f
        (ep_start (toggle mover))
        f
        (ep_rank (toggle mover))
        (piece mover pawn)
unfolding ep_flags
step_sound b white took f e = rw (no_victim white took f) (stepped-Sound b black f e)
step_sound b black took f e = rw (no_victim black took f) (stepped-Sound b white f e)

placed_pawn :
    (gs : GameState) (q : Square) (ff fr : ℕ) (mover : Color)
    → gs.board ff fr ≡ piece mover pawn
    → q ≡ nopiece
    → placed gs q ff fr ≡ piece mover pawn
placed_pawn gs q ff fr mover p e = rw e p

-- The same where the squares and the placed piece are only known to be equal to those.
StepSound-at :
    (b : Board) (mover : Color) (took : Square) (ff fr tf tr : ℕ) (q' : Square)
    → tf ≡ ff
    → ep_start (toggle mover) ≡ fr
    → ep_rank (toggle mover) ≡ tr
    → piece mover pawn ≡ q'
    → is_empty (b tf (ep_target (toggle mover))) ≡ true
    → StepSound b mover took ff fr tf tr q'
StepSound-at b mover took ff fr tf tr q' a c d e h =
    transport (λ i. StepSound b mover took (a i) (c i) tf (d i) (e i))
      (step_sound b mover took tf h)

double_step-Sound :
    (gs : GameState) (c : Color) (ff fr tf tr : ℕ) (q : Square)
    → gs.board ff fr ≡ piece c pawn
    → gs.on_move ≡ c
    → ff ≡ tf
    → pawn_advance gs ff fr tr ≡ true
    → (fr == tr + 2 || fr + 2 == tr) ≡ true
    → (tr ≢ 0 → tr ≢ 7 → q ≡ nopiece)
    → StepSound gs.board c (gs.board tf tr) ff fr tf tr (placed gs q ff fr)
double_step-Sound gs white ff fr tf tr q p o s l d n =
    let h = advance_double_white gs ff fr tr l o d in
    let none = n (omega (arith, h.1)) (omega (arith, h.1)) in
    StepSound-at gs.board white (gs.board tf tr) ff fr tf tr (placed gs q ff fr) (sym s) (sym h.0)
      (sym h.1) (sym (placed_pawn gs q ff fr white p none)) (rw (sym s) h.2)
double_step-Sound gs black ff fr tf tr q p o s l d n =
    let h = advance_double_black gs ff fr tr l o d in
    let none = n (omega (arith, h.1)) (omega (arith, h.1)) in
    StepSound-at gs.board black (gs.board tf tr) ff fr tf tr (placed gs q ff fr) (sym s) (sym h.0)
      (sym h.1) (sym (placed_pawn gs q ff fr black p none)) (rw (sym s) h.2)

pawn-Sound :
    (gs : GameState) (c : Color) (ff fr tf tr : ℕ) (q : Square)
    → gs.board ff fr ≡ piece c pawn
    → gs.on_move ≡ c
    → legal_pawn_move gs ff fr tf tr ≡ true
    → (tr ≢ 0 → tr ≢ 7 → q ≡ nopiece)
    → StepSound gs.board c (gs.board tf tr) ff fr tf tr (placed gs q ff fr)
unfolding legal_pawn_move ep_flags
pawn-Sound gs c ff fr tf tr q p o l n = elim (Bool-cases (fr == tr + 2 || fr + 2 == tr)) [
  | inr step ↦ rw step (no_ep-Sound _ (toggle c))
  | inl d ↦ (elim (Bool-cases (ff == tf)) [
    | inr far ↦ cc (capture_single gs ff fr tf tr (rw far at l), d)
    | inl near ↦ double_step-Sound gs c ff fr tf tr q p o ((==_iff ff tf).0 near) (rw near at l) d n
  ])
]

legal_from_pawn :
    (gs : GameState) (c : Color) (ff fr tf tr : ℕ)
    → legal_from is_square_attacked gs (piece c pawn) ff fr tf tr ≡ true
    → (gs.on_move ≡ c) × (legal_pawn_move gs ff fr tf tr ≡ true)
unfolding legal_from legal_piece_move
legal_from_pawn gs white ff fr tf tr h = ground arith
legal_from_pawn gs black ff fr tf tr h = ground arith

-- The flags and the board after any move that legal_move accepts.
move-Sound :
    (gs : GameState) (s : Square) (ff fr tf tr : ℕ) (q : Square)
    → gs.board ff fr ≡ s
    → legal_from is_square_attacked gs s ff fr tf tr ≡ true
    → (tr ≢ 0 → tr ≢ 7 → q ≡ nopiece)
    → Sound
        (written gs.board s (gs.board tf tr) (placed gs q ff fr) tf tr ff fr)
        (toggle gs.on_move)
        (ep_flags s gs.on_move (taken_off gs tf tr q ff fr) fr tf tr)
unfolding ep_flags
move-Sound gs nopiece ff fr tf tr q p l n = no_ep-Sound _ _
move-Sound gs (piece c knight) ff fr tf tr q p l n = no_ep-Sound _ _
move-Sound gs (piece c bishop) ff fr tf tr q p l n = no_ep-Sound _ _
move-Sound gs (piece c rook) ff fr tf tr q p l n = no_ep-Sound _ _
move-Sound gs (piece c queen) ff fr tf tr q p l n = no_ep-Sound _ _
move-Sound gs (piece c king) ff fr tf tr q p l n = no_ep-Sound _ _
move-Sound gs (piece c pawn) ff fr tf tr q p l n =
    let h = legal_from_pawn gs c ff fr tf tr l in
    let lift = lifted gs tf tr q ff fr in
    transport
      (λ i.
        Sound (written gs.board (piece c pawn) (gs.board tf tr) (placed gs q ff fr) tf tr ff fr)
          (toggle (sym h.0 i))
          (ep_flags (piece c pawn) (sym h.0 i)
            (if is_en_passant (sym p i) (gs.board tf tr) ff tf
              then put lift tf fr nopiece
              else lift)
            fr tf tr))
      (pawn-Sound gs c ff fr tf tr q p h.0 h.1 n)

executed_ep :
    (g : Garray) (gs : GameState) (m : Move) (ff fr : ℕ)
    → m.origin ≡ from_square ff fr
    → (execute_quiet g gs m).0.ep_possible
      ≡ ep_flags
          (gs.board ff fr)
          gs.on_move
          (taken_off gs m.to_file m.to_rank m.promotion ff fr)
          fr
          m.to_file
          m.to_rank
unfolding executed
executed_ep g gs m ff fr e =
    ap (λ (s : GameState). s.ep_possible) (execute_quiet-executed g gs m)
    ∙ (ap (λ (o : Origin). (executed g gs o m.to_file m.to_rank m.promotion).ep_possible) e
        ∙ piece_state_ep g gs m.to_file m.to_rank m.promotion ff fr)

pub executed_on_move :
    (g : Garray) (gs : GameState) (m : Move) (ff fr : ℕ)
    → m.origin ≡ from_square ff fr
    → (execute_quiet g gs m).0.on_move ≡ toggle gs.on_move
unfolding executed
executed_on_move g gs m ff fr e =
    ap (λ (s : GameState). s.on_move) (execute_quiet-executed g gs m)
    ∙ (ap (λ (o : Origin). (executed g gs o m.to_file m.to_rank m.promotion).on_move) e
        ∙ ap toggle (piece_state_on_move g gs m.to_file m.to_rank m.promotion ff fr))

-- After a move from a square that legal_move accepts, with no promotion but on the end ranks, the
-- flags for captures en passant are sound whatever they were before: a flag is set only for the
-- side to move, its pawn and the pawn that it may take stand side by side, and both squares that
-- the double step left and passed are empty.
pub execute_quiet-EpIsSound :
    (g : Garray) (gs : GameState) (m : Move) (ff fr : ℕ)
    → m.origin ≡ from_square ff fr
    → legal_move gs (from_square ff fr) m.to_file m.to_rank ≡ true
    → (m.to_rank ≢ 0 → m.to_rank ≢ 7 → m.promotion ≡ nopiece)
    → EpIsSound (execute_quiet g gs m).0
unfolding legal_move legal_move_with
execute_quiet-EpIsSound g gs m ff fr e l n =
    let b = sym (executed_board g gs m ff fr e) in
    let o = sym (executed_on_move g gs m ff fr e) in
    let f = sym (executed_ep g gs m ff fr e) in
    let s =
      transport (λ i. Sound (b i) (o i) (f i))
        (move-Sound gs (gs.board ff fr) ff fr m.to_file m.to_rank m.promotion refl l n) in
    record { to_higher = s.0; to_lower = s.1 }
