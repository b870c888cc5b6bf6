-- ===== src/Matches/Starts.antt =====
-- src/matchproc.c: a game that `create_new_match` starts.
use docker_chessd.Prelude.{
  ℕ, ◌≡◌, ◌≢◌, refl, sym, ap, subst, ◌∙◌, ◌⊎◌, inl, inr, Bool, true, false, not, ◌&&◌, ◌==◌,
  if◌then◌else◌, Option, none, some, List, In, keep-In, arith, any, any_witness, and-true_parts,
  ◌||◌, Bool-cases, Option-cases, ==_refl, not-true,
}
use docker_chessd.Prelude.Int.{ℤ, pos, negsuc}
use docker_chessd.Board.{Color, white, black}
use docker_chessd.Pending.{
  Pending, Lobby, Wd, do_both, do_withdraw, pend_match, check_current_pend, remove_request, dropped,
  do_decline_withdraw_offers, decline_of_partner, is_player, is_match_or_all,
  decline_withdraw_offers,
}
use docker_chessd.Pending.Counts.{IsCounted}
use docker_chessd.Pending.Offers.{
  Keeps, remove_request-Keeps, do_decline_withdraw_offers-Keeps, decline_after_partner-Keeps,
}
use docker_chessd.Formula.Eval.{type_untimed}
use docker_chessd.Seeks.Kinds.{game_isblitz}
use docker_chessd.Matches.{
  pend_simul, Times, Habits, reverse, pick_colors, NewGame, prepare_match, drop_offers, Hall,
  set_at, seat_players, match_of, create_new_match,
}

-- The list has lost offers at most.
abbrev Shrinks : Lobby → Lobby → Type 0
Shrinks s t = (x : Pending) → In x t.pendlist → In x s.pendlist

Keeps-Shrinks : (test : Pending → Bool) (s t : Lobby) → Keeps test s t → Shrinks s t
Keeps-Shrinks test s t k x m =
    (keep-In (λ y. not (test y)) x s.pendlist (subst (λ (l : List Pending). In x l) k.0 m)).0

partner-Shrinks :
    (p : ℕ) (type : ℤ) (wd : Wd) (s : Lobby)
    → IsCounted s
    → Shrinks s (decline_of_partner p none type wd s)
unfolding decline_of_partner
partner-Shrinks p type wd s c = elim (Option-cases (s.partner p)) [
  | inl e ↦ rw (e, decline_of_partner) (λ x m. m)
  | inr (q, e) ↦ elim (Bool-cases (is_match_or_all type && is_player (s.partner q) p)) [
    | inl t ↦
        rw (e, decline_of_partner, t)
          (Keeps-Shrinks _ s (do_decline_withdraw_offers (some q) none (pos pend_match) true wd s)
            (do_decline_withdraw_offers-Keeps (some q) none (pos pend_match) true wd s c))
    | inr t ↦ rw (e, decline_of_partner, t) (λ x m. m)
  ]
]

-- One call of `decline_withdraw_offers` for a player.
declined :
    (p k : ℕ) (wd : Wd) (s : Lobby)
    → IsCounted s
    → IsCounted (decline_withdraw_offers p none (pos k) wd s)
      × ((x : Pending)
          → In x (decline_withdraw_offers p none (pos k) wd s).pendlist
          → In x s.pendlist × (dropped (some p) none (pos k) false wd x ≡ false))
declined p k wd s c =
    let (same_list, counted) = decline_after_partner-Keeps p none (pos k) wd s c in
    (
      counted,
      (λ x m.
          let (was, stays) =
            keep-In (λ y. not (dropped (some p) none (pos k) false wd y)) x
              (decline_of_partner p none (pos k) wd s).pendlist
              (subst (λ (l : List Pending). In x l) same_list m) in
          (partner-Shrinks p (pos k) wd s c x was, not-true _ stays)),
    )

-- An offer of a kind that the call for both directions leaves is not the player's.
others :
    (p k : ℕ) (x : Pending)
    → dropped (some p) none (pos k) false do_both x ≡ false
    → (x.kind == k) ≡ true
    → (x.whofrom ≢ p) × (x.whoto ≢ p)
unfolding dropped check_current_pend
others p k x d e = ground arith

-- What the offers of a kind must not be after the call for both directions.
abbrev Clear : ℕ → ℕ → Lobby → Type 0
Clear p k s =
    (x : Pending) → In x s.pendlist → (x.kind == k) ≡ true → (x.whofrom ≢ p) × (x.whoto ≢ p)

declined-Clear :
    (p k : ℕ) (s : Lobby)
    → IsCounted s
    → Clear p k (decline_withdraw_offers p none (pos k) do_both s)
declined-Clear p k s c x m e = others p k x ((declined p k do_both s c).1 x m).1 e

still-Clear :
    (p k q j : ℕ) (wd : Wd) (s : Lobby)
    → IsCounted s
    → Clear p k s
    → Clear p k (decline_withdraw_offers q none (pos j) wd s)
still-Clear p k q j wd s c h x m e = h x ((declined q j wd s c).1 x m).0 e

drop_offers-Clear :
    (simul : Bool) (p p1 wp bp : ℕ) (s : Lobby)
    → IsCounted s
    → IsCounted (drop_offers simul p p1 wp bp s)
      × Clear wp pend_match (drop_offers simul p p1 wp bp s)
      × Clear bp pend_match (drop_offers simul p p1 wp bp s)
unfolding drop_offers
drop_offers-Clear simul p p1 wp bp s c =
    let s1 = remove_request p p1 (negsuc 7) s in
    let c1 = (remove_request-Keeps p p1 (negsuc 7) s c).1 in
    let s2 = decline_withdraw_offers wp none (pos pend_match) do_both s1 in
    let c2 = (declined wp pend_match do_both s1 c1).0 in
    let s3 = decline_withdraw_offers bp none (pos pend_match) do_both s2 in
    let c3 = (declined bp pend_match do_both s2 c2).0 in
    let s4 = decline_withdraw_offers bp none (pos pend_simul) do_both s3 in
    let c4 = (declined bp pend_simul do_both s3 c3).0 in
    let wd = if simul then do_withdraw else do_both in
    let white_clear = declined-Clear wp pend_match s1 c1 in
    let black_clear = declined-Clear bp pend_match s2 c2 in
    (
      (declined wp pend_simul wd s4 c4).0,
      still-Clear wp pend_match wp pend_simul wd s4 c4 (
          still-Clear wp pend_match bp pend_simul do_both s3 c3
            (still-Clear wp pend_match bp pend_match do_both s2 c2 white_clear)),
      still-Clear bp pend_match wp pend_simul wd s4 c4
          (still-Clear bp pend_match bp pend_simul do_both s3 c3 black_clear),
    )

-- A game `g` of the two players, with the colours and the fields that go with it.
abbrev pub IsSeated : ℕ → ℕ → ℕ → Hall → Type 0
IsSeated g wp bp s =
    ((x : NewGame) × (s.garray g ≡ some x) × (x.white_player ≡ wp) × (x.black_player ≡ bp))
    × (s.game wp ≡ some g)
    × (s.game bp ≡ some g)
    × (s.opponent wp ≡ bp)
    × (s.opponent bp ≡ wp)
    × (s.side wp ≡ white)
    × (s.side bp ≡ black)

set_at_here : {A : Type 0} (p : ℕ) (a : A) (f : ℕ → A) → set_at p a f p ≡ a
set_at_here p a f = rw (==_refl p) refl

set_at_other : {A : Type 0} (p q : ℕ) (a : A) (f : ℕ → A) → (q == p) ≡ false → set_at p a f q ≡ f q
set_at_other p q a f e = rw e refl

match_of-IsSeated :
    (h : Habits) (board : Option Color) (g p p1 : ℕ) (c : ℕ × ℕ) (t : Times) (rated : Bool)
    (category name : List ℕ) (simul : Bool) (s s' : Hall)
    → (c.0 == c.1) ≡ false
    → match_of h board g p p1 c t rated category name simul s ≡ (s', true)
    → IsSeated g c.0 c.1 s' × (s'.lobby ≡ drop_offers simul p p1 c.0 c.1 s.lobby)
unfolding match_of prepare_match
match_of-IsSeated h none g p p1 (wp, bp) t rated category name simul s s' ne e = cc e
match_of-IsSeated h (some first) g p p1 (wp, bp) t rated category name simul s s' ne e =
    let k = if simul then type_untimed else game_isblitz t.wt t.winc t.bt t.binc category name in
    let made = prepare_match h k first t wp bp rated in
    let start = record s { lobby = drop_offers simul p p1 wp bp s.lobby } in
    let q : seat_players g wp bp made start ≡ s' = cc e in
    (
      subst (IsSeated g wp bp) q (
        (made, set_at_here g (some made) s.garray, refl, refl),
        set_at_other bp wp (some g) (set_at wp (some g) s.game) ne ∙ set_at_here wp (some g) s.game,
        set_at_here bp (some g) (set_at wp (some g) s.game),
        set_at_other bp wp wp (set_at wp bp s.opponent) ne ∙ set_at_here wp bp s.opponent,
        set_at_here bp wp (set_at wp bp s.opponent),
        set_at_other bp wp black (set_at wp white s.side) ne ∙ set_at_here wp white s.side,
        set_at_here bp black (set_at wp white s.side),
      ),
      sym (ap Hall.lobby q),
    )

colors_lem :
    (h : Habits) (wish : Option ℕ) (t : Times) (p p1 : ℕ)
    → (pick_colors h wish t p p1 ≡ (p, p1)) ⊎ (pick_colors h wish t p p1 ≡ (p1, p))
unfolding pick_colors
colors_lem h wish t p p1 = elim (Bool-cases (reverse h wish t p p1)) [
  | inl e ↦ inr (rw e refl)
  | inr e ↦ inl (rw e refl)
]

-- A match offer from or to one of the two players.
abbrev pub is_match_with : ℕ → ℕ → Pending → Bool
is_match_with p p1 x =
    x.kind == pend_match && (x.whofrom == p || (x.whoto == p || (x.whofrom == p1 || x.whoto == p1)))

none_with :
    (p p1 : ℕ) (s : Lobby)
    → Clear p pend_match s
    → Clear p1 pend_match s
    → any (is_match_with p p1) s.pendlist ≡ false
none_with p p1 s a b = elim (Bool-cases (any (is_match_with p p1) s.pendlist)) [
  | inl e ↦
      let (x, m, t) = any_witness (is_match_with p p1) s.pendlist e in
      let k = (and-true_parts _ _ t).0 in
      let (from, to) = a x m k in
      let (from1, to1) = b x m k in absurd (ground (arith, from, to, from1, to1))
  | inr e ↦ e
]

-- Where the counts of offers are in step with the list, a game that create_new_match starts for two players
-- has one of them as white and the other as black; both have it as their game, each other as opponents and
-- these colours as their sides. The counts are still in step, and no offer of a match that is left is from
-- or to one of the two.
pub create_new_match-IsSeated :
    (h : Habits) (board : Option Color) (g p p1 : ℕ) (t : Times) (rated : Bool)
    (category name : List ℕ) (wish : Option ℕ) (simul : Bool) (s s' : Hall)
    → p ≢ p1
    → IsCounted s.lobby
    → create_new_match h board g p p1 t rated category name wish simul s ≡ (s', true)
    → (IsSeated g p p1 s' ⊎ IsSeated g p1 p s')
      × IsCounted s'.lobby
      × (any (is_match_with p p1) s'.lobby.pendlist ≡ false)
unfolding create_new_match
create_new_match-IsSeated h board g p p1 t rated category name wish simul s s' ne c e =
    elim (colors_lem h wish t p p1) [
      | inl q ↦
          let (seated, l) =
            match_of-IsSeated h board g p p1 (p, p1) t rated category name simul s s'
              (ground (arith, ne))
              (ap (λ (r : ℕ × ℕ). match_of h board g p p1 r t rated category name simul s) (sym q)
                ∙ e) in
          let (counted, a, b) = drop_offers-Clear simul p p1 p p1 s.lobby c in
          (
            inl seated,
            subst IsCounted (sym l) counted,
            ap (λ (v : Lobby). any (is_match_with p p1) v.pendlist) l
                ∙ none_with p p1 (drop_offers simul p p1 p p1 s.lobby) a b,
          )
      | inr q ↦
          let (seated, l) =
            match_of-IsSeated h board g p p1 (p1, p) t rated category name simul s s'
              (ground (arith, ne))
              (ap (λ (r : ℕ × ℕ). match_of h board g p p1 r t rated category name simul s) (sym q)
                ∙ e) in
          let (counted, a, b) = drop_offers-Clear simul p p1 p1 p s.lobby c in
          (
            inr seated,
            subst IsCounted (sym l) counted,
            ap (λ (v : Lobby). any (is_match_with p p1) v.pendlist) l
                ∙ none_with p p1 (drop_offers simul p p1 p1 p s.lobby) b a,
          )
    ]
