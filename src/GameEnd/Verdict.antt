-- ===== src/GameEnd/Verdict.antt =====
-- What the results of execute_move tell of the position.
use docker_chessd.Prelude.{
  ℕ, ◌+◌, ◌<◌, Bool, true, false, ◌≡◌, ◌↔◌, arith, any, List, [], ◌∷◌, Bool-cases, inl, inr,
}
use docker_chessd.Board.{GameState, Square, nopiece, piece, pawn, knight, bishop, rook, queen, king}
use docker_chessd.Pieces.{Pos, squares}
use docker_chessd.Legal.{from_square, king_castles}
use docker_chessd.Check.{in_check, is_square_attacked}
use docker_chessd.Move.{Move, Garray, checkmate, stalemate, no_material}
use docker_chessd.Execute.{make_move}
use docker_chessd.Calculate.{legal_andcheck_move}
use docker_chessd.GameEnd.{material, strength, game_status, execute_move, has_legal_move}
use docker_chessd.GameEnd.Complete.{has_legal_move_complete}

-- A piece that can give mate with its king alone, or promote to one.
abbrev major : Square → Bool
major (piece c pawn) = true
major (piece c rook) = true
major (piece c queen) = true
major _ = false

-- Knights and bishops on a list of squares.
abbrev minor_count : GameState → List Pos → ℕ
minor_count gs [] = 0
minor_count gs ((f, r) ∷ l) =
    (elim (gs.board f r) [
      | nopiece ↦ 0
      | piece c k ↦ (elim k [
        | knight ↦ 1
        | bishop ↦ 1
        | pawn ↦ 0
        | rook ↦ 0
        | queen ↦ 0
        | king ↦ 0
      ])
    ])
    + minor_count gs l

strength_lem :
    (gs : GameState) (n : ℕ) (l : List Pos)
    → (strength gs n l < 2)
      ↔ ((n + minor_count gs l < 2) × (any (λ p. major (gs.board p.0 p.1)) l ≡ false))
unfolding strength
strength_lem gs n [] = ground arith
strength_lem gs n ((f, r) ∷ l) = ground (arith, strength_lem gs (material (gs.board f r) n) l)

-- The state that execute_move leaves has the other side to move.
abbrev pub after_move : Garray → GameState → Move → GameState
after_move g gs m = (execute_move g gs m).0

-- The side to move has no move with a piece on the board, castling apart.
abbrev pub IsStuck : Garray → GameState → Type 0
IsStuck g gs =
    (f r x y : ℕ)
    → f < 8
    → r < 8
    → x < 8
    → y < 8
    → king_castles is_square_attacked gs f r x y ≡ false
    → legal_andcheck_move g gs (from_square f r) x y ≡ false

no_move-IsStuck : (g : Garray) (gs : GameState) → has_legal_move g gs ≡ false → IsStuck g gs
no_move-IsStuck g gs h f r x y hf hr hx hy still =
    elim (Bool-cases (legal_andcheck_move g gs (from_square f r) x y)) [
      | inl e ↦ cc (h, has_legal_move_complete g gs f r x y hf hr hx hy still e)
      | inr e ↦ e
    ]

-- Few pieces: no pawn, rook or queen on the board, and at most one knight or bishop.
abbrev pub IsBare : GameState → Type 0
IsBare gs = (minor_count gs squares < 2) × (any (λ p. major (gs.board p.0 p.1)) squares ≡ false)

IsBare-iff : (gs : GameState) → (strength gs 0 squares < 2) ↔ IsBare gs
IsBare-iff gs =
    let l = strength_lem gs 0 squares in
    (λ h. (omega (arith, l.0 h), (l.0 h).1), λ h. l.1 (omega (arith, h.0), h.1))

game_status_verdict :
    (g : Garray) (check : Bool) (gs : GameState)
    → ((game_status g check gs ≡ checkmate) ↔ ((check ≡ true) × (has_legal_move g gs ≡ false)))
      × ((game_status g check gs ≡ stalemate) ↔ ((check ≡ false) × (has_legal_move g gs ≡ false)))
      × ((game_status g check gs ≡ no_material)
          ↔ ((check ≡ false) × (has_legal_move g gs ≡ true) × (strength gs 0 squares < 2)))
unfolding game_status
game_status_verdict g check gs = (ground arith, ground arith, ground arith)

-- A move that execute_move reports as mate leaves the side to move in check, one that it reports as
-- stalemate leaves it out of check, and in both cases no piece on the board has a move that
-- legal_andcheck_move accepts, castling apart. A move is reported as leaving no mating material
-- only where no pawn, rook or queen is on the board and at most one knight or bishop, and always
-- where that is so, the side to move is not in check and has_legal_move finds a move for it.
pub execute_move_verdict :
    (g : Garray) (gs : GameState) (m : Move)
    → ((execute_move g gs m).2 ≡ checkmate
        → (in_check (make_move g gs m).0 ≡ true) × IsStuck g (after_move g gs m))
      × ((execute_move g gs m).2 ≡ stalemate
          → (in_check (make_move g gs m).0 ≡ false) × IsStuck g (after_move g gs m))
      × (((execute_move g gs m).2 ≡ no_material) ↔ (
          (in_check (make_move g gs m).0 ≡ false)
          × (has_legal_move g (after_move g gs m) ≡ true)
          × IsBare (after_move g gs m)))
unfolding execute_move
execute_move_verdict g gs m =
    let after = after_move g gs m in
    let v = game_status_verdict g (in_check (make_move g gs m).0) after in
    let bare = IsBare-iff after in
    (
      (λ e. let p = v.0.0 e in (p.0, no_move-IsStuck g after p.1)),
      (λ e. let p = v.1.0 e in (p.0, no_move-IsStuck g after p.1)),
      (λ e. let p = v.2.0 e in (p.0, p.1, bare.0 p.2), λ h. v.2.1 (h.0, h.1, bare.1 h.2)),
    )
