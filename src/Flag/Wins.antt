-- ===== src/Flag/Wins.antt =====
-- src/gameproc.c: when `flag` wins the game.
use docker_chessd.Prelude.{
  ℕ, ◌+◌, ◌≤◌, ◌≡◌, ◌↔◌, ◌≢◌, refl, sym, ◌∙◌, ap, Option, none, ◌⊎◌, inl, inr, Bool, true, false,
  not, ltb, if◌then◌else◌, Bool-cases, List, [], ◌∷◌, some, In, keep, length, arith,
}
use docker_chessd.Prelude.Int.{ℤ}
use docker_chessd.Board.{Board, Color, toggle}
use docker_chessd.Pieces.{Pos, squares}
use docker_chessd.Pending.{Lobby}
use docker_chessd.Flag.{
  is_minor, is_heavy, mating_material, player_has_mating_material, Clocks, game_update_time, clock,
  is_out, end_flag, FlagEnd, Caller, call_flag, com_flag,
}

-- A pawn, rook or queen of the colour, or two of its knights and bishops, on some squares.
abbrev pub CanMate : Board → Color → List Pos → ℕ → Type 0
CanMate b c l minor_pieces =
    ((p : Pos) × In p l × (is_heavy c (b p.0 p.1) ≡ true))
    ⊎ (2 ≤ minor_pieces + length (keep (λ p. is_minor c (b p.0 p.1)) l))

-- A square that is passed, in the count so far and in the count of all.
minors :
    (b : Board) (c : Color) (f r : ℕ) (l : List Pos) (n : ℕ)
    → (if is_minor c (b f r) then n + 1 else n) + length (keep (λ p. is_minor c (b p.0 p.1)) l)
      ≡ n + length (keep (λ (p : Pos). is_minor c (b p.0 p.1)) ((f, r) ∷ l))
minors b c f r l n = elim (Bool-cases (is_minor c (b f r))) [
  | inl e ↦ rw (e, keep) (omega arith)
  | inr e ↦ rw (e, keep) (omega arith)
]

mating_material_iff :
    (b : Board) (c : Color) (l : List Pos) (n : ℕ)
    → (mating_material b c l n ≡ true) ↔ CanMate b c l n
unfolding mating_material
mating_material_iff b c [] n =
    (λ e. inr (ground (arith, e)), elim [ inl h ↦ absurd h.1 | inr h ↦ ground (arith, h) ])
mating_material_iff b c ((f, r) ∷ l) n = elim (Bool-cases (is_heavy c (b f r))) [
  | inl e ↦ (λ h. inl ((f, r), inl refl, e), λ h. rw e refl)
  | inr e ↦
      let m = if is_minor c (b f r) then n + 1 else n in
      let ih = mating_material_iff b c l m in
      let same = minors b c f r l n in
      (
        λ h. elim (ih.0 (rw e at h)) [
          | inl q ↦ inl (q.0, inr q.1, q.2)
          | inr q ↦ inr (omega (arith, q, same))
        ],
        elim [
          | inl (q, inl k, t) ↦ cc (ap (λ (p : Pos). is_heavy c (b p.0 p.1)) k, t, e)
          | inl (q, inr k, t) ↦ rw e (ih.1 (inl (q, k, t)))
          | inr q ↦ rw e (ih.1 (inr (omega (arith, q, same))))
        ],
      )
]

-- The player has a pawn, a rook or a queen on the board, or at least two knights and bishops.
abbrev pub HasMaterial : Board → Color → Type 0
HasMaterial b c = CanMate b c squares 0

player_has_mating_material_iff :
    (b : Board) (c : Color) → (player_has_mating_material b c ≡ true) ↔ HasMaterial b c
unfolding player_has_mating_material
player_has_mating_material_iff b c = mating_material_iff b c squares 0

call_flag_wins :
    (p : Caller) (b : Board) (g : Clocks) (s : Lobby)
    → ((call_flag p b g s).2 ≡ some (p.my_color, end_flag)) ↔ (
        (is_out (clock p.my_timeseal p.my_color g) ≡ false)
        × (is_out (clock p.opp_timeseal (toggle p.my_color) g) ≡ true)
        × HasMaterial b p.my_color)
unfolding call_flag
call_flag_wins p b g s =
    let m = player_has_mating_material_iff b p.my_color in
    elim (Bool-cases (is_out (clock p.my_timeseal p.my_color g))) [
      | inl e ↦ elim (Bool-cases (is_out (clock p.opp_timeseal (toggle p.my_color) g))) [
        | inl k ↦ rw (e, k) (ground arith)
        | inr k ↦ rw (e, k) (ground arith)
      ]
      | inr e ↦ elim (Bool-cases (is_out (clock p.opp_timeseal (toggle p.my_color) g))) [
        | inl k ↦ elim (Bool-cases (player_has_mating_material b p.my_color)) [
          | inl h ↦ rw (e, k, h) (λ q. (refl, refl, m.0 h), λ q. refl)
          | inr h ↦ rw (e, k, h) (λ q. cc, λ t. cc (m.1 t.2, h))
        ]
        | inr k ↦ rw (e, k) (ground arith)
      ]
    ]

-- Three refusals in a row, before something else.
gate :
    {A : Type 0} (play untimed early : Bool) (x y w : A)
    → x ≢ w
    → ((if not play then x else if untimed then x else if early then x else y) ≡ w)
      ↔ ((play ≡ true) × (untimed ≡ false) × (early ≡ false) × (y ≡ w))
gate false untimed early x y w n = (λ q. absurd (n q), λ t. cc (t.0))
gate true true early x y w n = (λ q. absurd (n q), λ t. cc (t.1))
gate true false true x y w n = (λ q. absurd (n q), λ t. cc (t.2))
gate true false false x y w n = (λ q. (refl, refl, refl, q), λ t. t.3)

-- `flag` wins the game for the player who calls it exactly when that player is in a timed game, both
-- sides have moved, the player's own clock is not out and the opponent's is, once the time since the
-- last move has been taken off, and the player has a pawn, a rook or a queen, or at least two knights
-- and bishops. A clock is the one of timeseal where its player has that.
pub com_flag_wins :
    (now : ℤ) (p : Caller) (b : Board) (g : Clocks) (s : Lobby)
    → ((com_flag now p b g s).2 ≡ some (p.my_color, end_flag)) ↔ (
        (p.is_playing ≡ true)
        × (g.is_untimed ≡ false)
        × (2 ≤ g.num_half_moves)
        × (is_out (clock p.my_timeseal p.my_color (game_update_time now g)) ≡ false)
        × (is_out (clock p.opp_timeseal (toggle p.my_color) (game_update_time now g)) ≡ true)
        × HasMaterial b p.my_color)
unfolding com_flag
com_flag_wins now p b g s =
    let w = call_flag_wins p b (game_update_time now g) s in
    let end : ◌≡◌ {A = Option (Color × FlagEnd)} (com_flag now p b g s).2 (
        if not p.is_playing
        then none
        else if g.is_untimed
        then none
        else if ltb g.num_half_moves 2
        then none
        else (call_flag p b (game_update_time now g) s).2) =
      pick p.is_playing g.is_untimed (ltb g.num_half_moves 2) (g, s, none)
        (call_flag p b (game_update_time now g) s) in
    let h =
      gate p.is_playing g.is_untimed (ltb g.num_half_moves 2) none
        (call_flag p b (game_update_time now g) s).2 (some (p.my_color, end_flag)) (λ q. cc) in
    (
      λ q.
          let t = h.0 (sym end ∙ q) in
          let r = w.0 t.3 in (t.0, t.1, ground (arith, t.2), r.0, r.1, r.2),
      λ t. end ∙ h.1 (t.0, t.1, ground (arith, t.2), w.1 (t.3, t.4, t.5)),
    )
  where
    pick :
        (a u e : Bool) (x y : Clocks × Lobby × Option (Color × FlagEnd))
        → (if not a then x else if u then x else if e then x else y).2
          ≡ (if not a then x.2 else if u then x.2 else if e then x.2 else y.2)
    pick false u e x y = refl
    pick true true e x y = refl
    pick true false true x y = refl
    pick true false false x y = refl
