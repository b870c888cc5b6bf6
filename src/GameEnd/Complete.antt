-- ===== src/GameEnd/Complete.antt =====
-- has_legal_move answers whether the side to move has a move.
use docker_chessd.Prelude.{
  ℕ, ◌<◌, Bool, true, false, ◌≡◌, refl, sym, subst, ◌∙◌, ◌⊎◌, inl, inr, ◌&&◌, ◌||◌, not, ◌++◌,
  arith, In, In-append_right, any-false, any_witness, List, [], ◌∷◌, Bool-cases,
}
use docker_chessd.Board.{
  GameState, Square, nopiece, piece, Color, Kind, pawn, knight, bishop, rook, queen, king, color_eq,
  is_empty, iscolor,
}
use docker_chessd.Pieces.{Pos, piece_loop, belongs}
use docker_chessd.Pieces.Order.{In-piece_loop}
use docker_chessd.Legal.{
  Attacked, from_square, legal_from, legal_piece_move, legal_king_move, king_castles,
  legal_move_with,
}
use docker_chessd.Check.{legal_move, is_square_attacked}
use docker_chessd.Move.{Garray}
use docker_chessd.Calculate.{legal_andcheck_move}
use docker_chessd.Calculate.Safety.{legal_andcheck_move_iff}
use docker_chessd.Possible.Jumps.{free_for, In-possible_knight_moves, In-possible_king_moves}
use docker_chessd.Possible.Sliders.{
  In-possible_rook_moves, In-possible_bishop_moves, In-possible_queen_moves,
}
use docker_chessd.Possible.Pawns.{In-possible_pawn_moves}
use docker_chessd.GameEnd.{possible_moves, can_go, try_pieces, has_legal_move, in_linked_game}

-- What legal_move has tested when it comes to the switch on the kind of the piece.
record Tested (gs : GameState) (c : Color) (f r x y : ℕ) : Type 0 where
  pub own : color_eq c gs.on_move ≡ true
  pub free : free_for gs.board gs.on_move x y ≡ true
  pub elsewhere : ¬ ((f ≡ x) × (r ≡ y))

legal_from-Tested :
    (a : Attacked) (gs : GameState) (c : Color) (k : Kind) (f r x y : ℕ)
    → legal_from a gs (piece c k) f r x y ≡ true
    → Tested gs c f r x y × (legal_piece_move a gs k f r x y ≡ true)
unfolding legal_from
legal_from-Tested a gs c k f r x y h = ground arith

module _ (a : Attacked) (gs : GameState) (f r x y : ℕ) (hf : f < 8) (hr : r < 8) (hx : x < 8)
    (hy : y < 8) (still : king_castles a gs f r x y ≡ false) where
  generated_piece :
      (c : Color) (k : Kind)
      → Tested gs c f r x y
      → legal_piece_move a gs k f r x y ≡ true
      → In (x, y) (possible_moves gs (piece c k) f r)
  unfolding possible_moves legal_piece_move legal_king_move
  generated_piece c pawn t h = In-possible_pawn_moves gs f r x y hf hr hx hy h
  generated_piece c knight t h = (In-possible_knight_moves gs f r x y).1 (hx, hy, h, t.free)
  generated_piece c bishop t h =
      (In-possible_bishop_moves gs f r x y hf hr).1 ((hx, hy, t.elsewhere, t.free), h)
  generated_piece c rook t h =
      (In-possible_rook_moves gs f r x y hf hr).1 ((hx, hy, t.elsewhere, t.free), h)
  generated_piece c queen t h =
      (In-possible_queen_moves gs f r x y hf hr).1 ((hx, hy, t.elsewhere, t.free), h)
  generated_piece c king t h = (In-possible_king_moves gs f r x y).1 (hx, hy, ground arith, t.free)

  -- A piece's move that legal_move accepts, castling apart, is generated for it.
  generated_from :
      (s : Square)
      → legal_from a gs s f r x y ≡ true
      → In (x, y) (possible_moves gs s f r) × ((not (is_empty s) && iscolor s gs.on_move) ≡ true)
  unfolding legal_from
  generated_from nopiece h = cc
  generated_from (piece c k) h =
      let p = legal_from-Tested a gs c k f r x y h in (generated_piece c k p.0 p.1, p.0.own)

try_pieces-cons :
    (g : Garray) (gs : GameState) (tried l : List Pos) (f r : ℕ)
    → try_pieces g gs tried ((f, r) ∷ l) ≡ (
        can_go g gs (f, r) (tried ++ possible_moves gs (gs.board f r) f r)
        || try_pieces g gs (tried ++ possible_moves gs (gs.board f r) f r) l)
unfolding try_pieces
try_pieces-cons g gs tried l f r = ground arith

or-false_parts : (a b : Bool) → (a || b) ≡ false → (a ≡ false) × (b ≡ false)
or-false_parts a b h = ground arith

-- A piece that the loop passes over has no move among the squares that are generated for it.
try_pieces-false :
    (g : Garray) (gs : GameState) (tried l : List Pos) (q : Pos) (x y : ℕ)
    → try_pieces g gs tried l ≡ false
    → In q l
    → In (x, y) (possible_moves gs (gs.board q.0 q.1) q.0 q.1)
    → legal_andcheck_move g gs (from_square q.0 q.1) x y ≡ false
unfolding can_go
try_pieces-false g gs tried [] q x y h m p = absurd m
try_pieces-false g gs tried ((f, r) ∷ l) q x y h m p =
    let parts = or-false_parts _ _ (sym (try_pieces-cons g gs tried l f r) ∙ h) in
    elim m [
      | inl e ↦
          let own = possible_moves gs (gs.board f r) f r in
          let p' : In (x, y) own =
            subst (λ (t : Pos). In (x, y) (possible_moves gs (gs.board t.0 t.1) t.0 t.1)) e p in
          subst (λ (t : Pos). legal_andcheck_move g gs (from_square t.0 t.1) x y ≡ false) (sym e)
            (any-false (λ t. legal_andcheck_move g gs (from_square f r) t.0 t.1) (x, y)
              (tried ++ own) parts.0 (In-append_right (x, y) tried own p'))
      | inr m' ↦
          try_pieces-false g gs (tried ++ possible_moves gs (gs.board f r) f r) l q x y parts.1 m' p
    ]

-- If a move from a square of the board to a square of the board is not a castling and
-- legal_andcheck_move accepts it, then has_legal_move says that there is a move.
pub has_legal_move_complete :
    (g : Garray) (gs : GameState) (f r x y : ℕ)
    → f < 8
    → r < 8
    → x < 8
    → y < 8
    → king_castles is_square_attacked gs f r x y ≡ false
    → legal_andcheck_move g gs (from_square f r) x y ≡ true
    → has_legal_move g gs ≡ true
unfolding has_legal_move legal_move legal_move_with
has_legal_move_complete g gs f r x y hf hr hx hy still h =
    let l = (legal_andcheck_move_iff g gs (from_square f r) x y).0 h in
    let m = generated_from is_square_attacked gs f r x y hf hr hx hy still (gs.board f r) l.0 in
    elim (Bool-cases (try_pieces g gs [] (piece_loop gs.board gs.on_move))) [
      | inl e ↦ rw e
      | inr e ↦ cc (
        h,
        try_pieces-false g gs [] (piece_loop gs.board gs.on_move) (f, r) x y e
            ((In-piece_loop gs.board gs.on_move f r).1 (hf, hr, m.1)) m.0,
      )
    ]

try_pieces-nil : (g : Garray) (gs : GameState) (tried : List Pos) → try_pieces g gs tried [] ≡ false
unfolding try_pieces
try_pieces-nil g gs tried = refl

or-true_split : (a b : Bool) → (a || b) ≡ true → (a ≡ true) ⊎ (b ≡ true)
or-true_split a b h = ground arith

try_pieces_witness :
    (g : Garray) (gs : GameState) (tried l : List Pos)
    → try_pieces g gs tried l ≡ true
    → (q : Pos) × (p : Pos) × In q l
      × (legal_andcheck_move g gs (from_square q.0 q.1) p.0 p.1 ≡ true)
unfolding can_go
try_pieces_witness g gs tried [] h = cc (h, try_pieces-nil g gs tried)
try_pieces_witness g gs tried ((f, r) ∷ l) h =
    elim (or-true_split _ _ (sym (try_pieces-cons g gs tried l f r) ∙ h)) [
      | inl e ↦
          let (p, m, t) =
            any_witness (λ t. legal_andcheck_move g gs (from_square f r) t.0 t.1)
              (tried ++ possible_moves gs (gs.board f r) f r) e in
          ((f, r), p, inl refl, t)
      | inr e ↦
          let (q, p, m, t) =
            try_pieces_witness g gs (tried ++ possible_moves gs (gs.board f r) f r) l e in
          (q, p, inr m, t)
    ]

-- Outside linked games, if has_legal_move says that there is a move, then a piece of the side to
-- move on the board has one that legal_andcheck_move accepts.
pub has_legal_move_sound :
    (g : Garray) (gs : GameState)
    → in_linked_game g gs.game_num ≡ false
    → has_legal_move g gs ≡ true
    → (q : Pos) × (p : Pos) × (q.0 < 8)
      × (q.1 < 8)
      × (belongs gs.board gs.on_move q.0 q.1 ≡ true)
      × (legal_andcheck_move g gs (from_square q.0 q.1) p.0 p.1 ≡ true)
unfolding has_legal_move
has_legal_move_sound g gs alone h =
    let (q, p, m, t) = try_pieces_witness g gs [] (piece_loop gs.board gs.on_move) (ground arith) in
    let i = (In-piece_loop gs.board gs.on_move q.0 q.1).0 m in (q, p, i.0, i.1, i.2, t)
