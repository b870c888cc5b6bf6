-- ===== src/ParseMove/TakeBack.antt =====
-- src/movecheck.c: a move that `parse_move` has read, executed and taken back.
use docker_chessd.Prelude.{
  ℕ, zero, suc, ◌+◌, false, ◌≡◌, refl, ap, sym, ◌∙◌, subst, transport, inl, inr, true, ◌||◌, ◌==◌,
  Bool-cases, List,
}
use docker_chessd.Board.{GameState, Kind, Square, piece, pawn, has_kind, no_ep, Color, white, black}
use docker_chessd.Legal.{Origin, from_square, from_holding, legal_from, legal_move_with}
use docker_chessd.Check.{legal_move, is_square_attacked}
use docker_chessd.Move.{Move, Garray, move_ok}
use docker_chessd.Execute.{execute_quiet}
use docker_chessd.Execute.State.{SameMove, execute_quiet_fields}
use docker_chessd.Notation.{alg_unparse}
use docker_chessd.Calculate.{describe, fill_in, notate, move_calculate}
use docker_chessd.Backup.{
  Entry, no_entry, entry, Game, take_back, restore_flags, turn_back, restore_ep, undo_state,
  undo_entry, backup_move,
}
use docker_chessd.Backup.Grants.{legal_from_own}
use docker_chessd.Backup.Boards.{Promotes}
use docker_chessd.Backup.RoundTrip.{
  Marks, execute-Marks, Noted, IsFilled, kind_square, take_back-execute_quiet,
}
use docker_chessd.Calculate.Safety.{notate_fields, move_calculate_squares}
use docker_chessd.ParseMove.{parse_move}
use docker_chessd.ParseMove.Safety.{parse_move-IsSafe, parse_move-calculated}

abbrev NotedMove : GameState → Move → ℕ → ℕ → Type 0
NotedMove gs m ff fr = Noted gs m.piece_captured m.en_passant ff fr m.to_file m.to_rank

-- An execution keeps what is noted.
keep-Noted :
    (gs : GameState) (m m' : Move) (ff fr : ℕ)
    → SameMove m' m
    → Marks gs m m' ff fr
    → NotedMove gs m ff fr
    → NotedMove gs m' ff fr
keep-Noted gs m m' ff fr h k n =
    let e = sym h.to_file in
    let r = sym h.to_rank in
    transport (λ i. Noted gs m'.piece_captured m'.en_passant ff fr (e i) (r i))
      (λ ne. let a = k.as_given ne in let p = n ne in (a.0 ∙ p.0, a.1 ∙ p.1))

execute-Noted :
    (g : Garray) (gs : GameState) (m : Move) (ff fr : ℕ)
    → m.origin ≡ from_square ff fr
    → NotedMove gs m ff fr
    → NotedMove gs (execute_quiet g gs m).1 ff fr
execute-Noted g gs m ff fr e =
    keep-Noted gs m (execute_quiet g gs m).1 ff fr (execute_quiet_fields g gs m)
      (execute-Marks g gs m ff fr e)

-- What the description of a move fills in.
record Described (gs : GameState) (tf tr : ℕ) (d : Move) (ff fr : ℕ) : Type 0 where
  origin : d.origin ≡ from_square ff fr
  to_file : d.to_file ≡ tf
  to_rank : d.to_rank ≡ tr
  taken : d.piece_captured ≡ gs.board tf tr
  unmarked : d.en_passant ≡ no_ep

describe-Described :
    (gs : GameState) (m : Move) (k : Kind) (ff fr : ℕ) (o : Origin)
    → m.origin ≡ from_square ff fr
    → m.piece_captured ≡ gs.board m.to_file m.to_rank
    → m.en_passant ≡ no_ep
    → Described gs m.to_file m.to_rank (describe gs m k o) ff fr
unfolding describe
describe-Described gs m k ff fr (from_holding j) e p n = record {
  origin = e;
  to_file = refl;
  to_rank = refl;
  taken = p;
  unmarked = n;
}
describe-Described gs m k ff fr (from_square a b) e p n = record {
  origin = e;
  to_file = refl;
  to_rank = refl;
  taken = p;
  unmarked = n;
}

-- The promotion of a described move from `(ff, fr)`.
describe-Promotes :
    (gs : GameState) (m : Move) (k : Kind) (ff fr : ℕ) (o : Origin)
    → o ≡ from_square ff fr
    → ((c : Color) → gs.board ff fr ≡ piece c pawn → c ≡ gs.on_move)
    → Promotes gs (describe gs m k o).promotion ff fr
unfolding describe
describe-Promotes gs m k ff fr o e own =
    subst (λ (o' : Origin). Promotes gs (describe gs m k o').promotion ff fr) (sym e)
      (elim (Bool-cases (has_kind (gs.board ff fr) pawn)) [
        | inl h ↦ elim (Bool-cases (m.to_rank == 0 || m.to_rank == 7)) [
          | inl t ↦
              let (c, p) = kind_square (gs.board ff fr) pawn h in
              let w = own c p in
              inr (
                k,
                p ∙ ap (λ (d : Color). piece d pawn) w,
                rw (h, t, p) (ap (λ (d : Color). piece d k) w),
              )
          | inr t ↦ inl (rw (h, t))
        ]
        | inr h ↦ inl (rw h)
      ])

-- The mover's pawn stands on a square that legal_move lets it leave.
own_pawn :
    (gs : GameState) (ff fr tf tr : ℕ)
    → legal_move gs (from_square ff fr) tf tr ≡ true
    → (c : Color) → gs.board ff fr ≡ piece c pawn
    → c ≡ gs.on_move
unfolding legal_move legal_move_with
own_pawn gs ff fr tf tr l c p =
    (legal_from_own gs c pawn ff fr tf tr
      (subst (λ (q : Square). legal_from is_square_attacked gs q ff fr tf tr ≡ true) p l)).0

-- A filled in move from a square, and the notation that is made for it.
notate-Noted :
    (g : Garray) (gs : GameState) (d : Move) (ff fr : ℕ)
    → d.origin ≡ from_square ff fr
    → NotedMove gs d ff fr
    → NotedMove gs (notate g gs d) ff fr
unfolding notate alg_unparse
notate-Noted g gs d ff fr e n = execute-Noted g gs d ff fr e n

fill_in-Described :
    (gs : GameState) (m : Move) (k : Kind) (ff fr : ℕ)
    → m.origin ≡ from_square ff fr
    → Described gs m.to_file m.to_rank (fill_in gs m k) ff fr
unfolding fill_in
fill_in-Described gs m k ff fr e =
    describe-Described gs
      (record m { piece_captured = gs.board m.to_file m.to_rank; en_passant = no_ep }) k ff fr
      m.origin e refl refl

Described-Noted :
    (gs : GameState) (tf tr : ℕ) (d : Move) (ff fr : ℕ)
    → Described gs tf tr d ff fr
    → NotedMove gs d ff fr
Described-Noted gs tf tr d ff fr h ne =
    (h.taken ∙ (λ i. gs.board (sym h.to_file i) (sym h.to_rank i)), h.unmarked)

filled-Promotes :
    (gs : GameState) (m : Move) (k : Kind) (ff fr : ℕ)
    → m.origin ≡ from_square ff fr
    → legal_move gs (from_square ff fr) m.to_file m.to_rank ≡ true
    → Promotes gs (fill_in gs m k).promotion ff fr
unfolding fill_in
filled-Promotes gs m k ff fr e l =
    describe-Promotes gs
      (record m { piece_captured = gs.board m.to_file m.to_rank; en_passant = no_ep }) k ff fr
      m.origin e (own_pawn gs ff fr m.to_file m.to_rank l)

pub move_calculate-IsFilled :
    (g : Garray) (gs : GameState) (m : Move) (k : Kind) (ff fr : ℕ)
    → m.origin ≡ from_square ff fr
    → legal_move gs (from_square ff fr) m.to_file m.to_rank ≡ true
    → IsFilled gs (move_calculate g gs m k).0 ff fr
unfolding move_calculate
move_calculate-IsFilled g gs m k ff fr e l =
    let d = fill_in gs m k in
    let n = notate g gs d in
    let h = fill_in-Described gs m k ff fr e in
    let s = notate_fields g gs d in
    let t = execute_quiet_fields g gs n in
    record {
      noted =
          execute-Noted g gs n ff fr (s.origin ∙ h.origin)
            (notate-Noted g gs d ff fr h.origin (Described-Noted gs m.to_file m.to_rank d ff fr h));
      promotes =
          subst (λ (q : Square). Promotes gs q ff fr) (sym (t.promotion ∙ s.promotion))
            (filled-Promotes gs m k ff fr e l);
    }

-- The board of `backup_move` after a move that `parse_move` has accepted and `execute_move` made.
take_back-parsed :
    (g : Garray) (s : List ℕ) (gs : GameState) (m m' : Move) (promote : Kind) (ff fr : ℕ)
    → parse_move g s gs m promote ≡ (m', move_ok)
    → m'.origin ≡ from_square ff fr
    → (x y : ℕ)
    → take_back (execute_quiet g gs m').0.board (execute_quiet g gs m').1 ff fr x y ≡ gs.board x y
take_back-parsed g s gs m m' promote ff fr e o =
    let (n, q, l) = parse_move-calculated g s gs m m' promote e in
    let sq = move_calculate_squares g gs n promote in
    let no : n.origin ≡ from_square ff fr =
      sym sq.origin ∙ (sym (ap (λ (w : Move). w.origin) q) ∙ o) in
    let nl : legal_move gs (from_square ff fr) n.to_file n.to_rank ≡ true =
      subst (λ (w : Origin). legal_move gs w n.to_file n.to_rank ≡ true) no l in
    let safe = parse_move-IsSafe g s gs m m' promote e in
    take_back-execute_quiet g gs m' ff fr o
      (subst (λ (w : Origin). legal_move gs w m'.to_file m'.to_rank ≡ true) o safe.legal)
      (subst (λ (w : Move). IsFilled gs w ff fr) (sym q)
        (move_calculate-IsFilled g gs n promote ff fr no nl))

-- The flags, the side to move and the ep flags leave the board alone.
turned_white : (gs : GameState) → gs.on_move ≡ white → (turn_back gs).board ≡ gs.board
unfolding turn_back
turned_white gs e = rw e refl

turned_black : (gs : GameState) → gs.on_move ≡ black → (turn_back gs).board ≡ gs.board
unfolding turn_back
turned_black gs e = rw e refl

turn_back-board : (gs : GameState) → (turn_back gs).board ≡ gs.board
turn_back-board gs = by_side gs.on_move refl
  where
    by_side : (c : Color) → gs.on_move ≡ c → (turn_back gs).board ≡ gs.board
    by_side white e = turned_white gs e
    by_side black e = turned_black gs e

restored_none : (gs : GameState) → (restore_ep no_entry gs).board ≡ gs.board
unfolding restore_ep
restored_none gs = refl

restored_drop :
    (m : Move) (gs : GameState) (k : Kind)
    → m.origin ≡ from_holding k
    → (restore_ep (entry m) gs).board ≡ gs.board
unfolding restore_ep
restored_drop m gs k o = rw o refl

restored_square :
    (m : Move) (gs : GameState) (ff fr : ℕ)
    → m.origin ≡ from_square ff fr
    → (restore_ep (entry m) gs).board ≡ gs.board
unfolding restore_ep
restored_square m gs ff fr o = elim (Bool-cases (has_kind (gs.board m.to_file m.to_rank) pawn)) [
  | inr e ↦ rw (o, e) refl
  | inl e ↦ elim (Bool-cases (m.to_rank == fr + 2)) [
    | inl t ↦ rw (o, e, t) refl
    | inr t ↦ elim (Bool-cases (fr == m.to_rank + 2)) [
      | inl u ↦ rw (o, e, t, u) refl
      | inr u ↦ rw (o, e, t, u) refl
    ]
  ]
]

restore_ep-board : (e : Entry) (gs : GameState) → (restore_ep e gs).board ≡ gs.board
restore_ep-board no_entry gs = restored_none gs
restore_ep-board (entry m1) gs = by_origin m1.origin refl
  where
    by_origin : (o : Origin) → m1.origin ≡ o → (restore_ep (entry m1) gs).board ≡ gs.board
    by_origin (from_holding k) o = restored_drop m1 gs k o
    by_origin (from_square ff fr) o = restored_square m1 gs ff fr o

undo_state-board :
    (l : ℕ → Entry) (last : ℕ) (m : Move) (ff fr : ℕ) (gs : GameState)
    → (undo_state l last m ff fr gs).board ≡ take_back gs.board m ff fr
unfolding undo_state
undo_state-board l zero m ff fr gs = turn_back-board _
undo_state-board l (suc before) m ff fr gs = restore_ep-board (l before) _ ∙ turn_back-board _

-- The game after a move from a square stands last in its list.
abbrev pub Made : Garray → GameState → Move → Game → ℕ → Type 0
Made g gs m' gg last =
    (gg.linked ≡ false)
    × (gg.num_half_moves ≡ suc last)
    × (gg.move_list last ≡ entry (execute_quiet g gs m').1)
    × (gg.game_state ≡ (execute_quiet g gs m').0)

backup_lem :
    (gg : Game) (last : ℕ) (x : Move) (ff fr : ℕ)
    → gg.linked ≡ false
    → gg.num_half_moves ≡ suc last
    → gg.move_list last ≡ entry x
    → x.origin ≡ from_square ff fr
    → backup_move gg ≡ (
      record gg {
        num_half_moves = last;
        game_state = undo_state gg.move_list last x ff fr gg.game_state;
      },
      move_ok,
    )
unfolding backup_move undo_entry take_back restore_flags
backup_lem gg last x ff fr alone count listed from = rw (count, alone, listed, from) refl

-- In a game that is not linked, a move from a square that parse_move accepts, and that execute_move makes
-- and puts at the end of the move list, is taken back by backup_move: it returns MOVE_OK, the list is one
-- move shorter and otherwise the same, and the board is the one before the move, so that a captured
-- piece, a pawn taken en passant, a promoted pawn and the rook of a castling are on their squares again.
pub parse_move-backup_move :
    (g : Garray) (s : List ℕ) (gs : GameState) (m m' : Move) (promote : Kind) (ff fr : ℕ)
    (gg : Game) (last : ℕ)
    → parse_move g s gs m promote ≡ (m', move_ok)
    → m'.origin ≡ from_square ff fr
    → Made g gs m' gg last
    → (after : Game) × (backup_move gg ≡ (after, move_ok))
      × (after.num_half_moves ≡ last)
      × (after.move_list ≡ gg.move_list)
      × ((x y : ℕ) → after.game_state.board x y ≡ gs.board x y)
parse_move-backup_move g s gs m m' promote ff fr gg last e o made =
    let (alone, count, listed, state) = made in
    let x = (execute_quiet g gs m').1 in
    let from : x.origin ≡ from_square ff fr = (execute_quiet_fields g gs m').origin ∙ o in
    (
      record gg {
        num_half_moves = last;
        game_state = undo_state gg.move_list last x ff fr gg.game_state;
      },
      backup_lem gg last x ff fr alone count listed from,
      refl,
      refl,
      λ a b.
          ap (λ (f : ℕ → ℕ → Square). f a b)
            (undo_state-board gg.move_list last x ff fr gg.game_state
              ∙ ap (λ (t : GameState). take_back t.board x ff fr) state)
          ∙ take_back-parsed g s gs m m' promote ff fr e o a b,
    )
