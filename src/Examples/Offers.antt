-- ===== src/Examples/Offers.antt =====
-- A list of two offers on which the theorems on src/pending.c are applied.
use docker_chessd.Prelude.{
  ℕ, ◌≢◌, ◌⊎◌, ◌||◌, ◌==◌, if◌then◌else◌, refl, true, false, none, some, [], arith,
}
use docker_chessd.Prelude.Int.{pos}
use docker_chessd.Pending.{
  Pending, Lobby, add_pending, pend_all, do_decline, dropped, do_decline_withdraw_offers,
  decline_withdraw_offers, null_pointer, com_accept, com_decline_withdraw, param_number,
}
use docker_chessd.Pending.Counts.{IsCounted, IsFresh}
use docker_chessd.Pending.Offers.{Keeps, do_decline_withdraw_offers-Keeps, add_pending-IsCounted}
use docker_chessd.Pending.Partners.{Mutual, partner_or_any, decline_withdraw_offers-Keeps}
use docker_chessd.Pending.Commands.{com_accept-finds, com_decline_withdraw-finds}

abbrev pub no_lobby : Lobby
no_lobby = record {
  pendlist = [];
  number_pend_from = λ q. pos 0;
  number_pend_to = λ q. pos 0;
  partner = λ q. none;
}

-- A block of memory, with what happened to be in it.
abbrev pub block : ℕ → Pending
block a = record { address = a; kind = 7; whoto = 9; whofrom = 9; bughouse = false }

-- Player 1 offers a draw to 2, and 3 a match to 2.
abbrev pub one_offer : Lobby
one_offer = (add_pending (block 100) 1 2 1 no_lobby).1

abbrev pub lobby : Lobby
lobby = (add_pending (block 200) 3 2 0 one_offer).1

pub no_lobby-IsCounted : IsCounted no_lobby
no_lobby-IsCounted = record { distinct = tt; from = λ q. refl; to = λ q. refl }

pub one_offer-IsCounted : IsCounted one_offer
one_offer-IsCounted = add_pending-IsCounted (block 100) 1 2 1 no_lobby tt no_lobby-IsCounted

apart : IsFresh 200 one_offer.pendlist
unfolding add_pending
apart = (λ e. omega (arith, e), tt)

pub lobby-IsCounted : IsCounted lobby
lobby-IsCounted = add_pending-IsCounted (block 200) 3 2 0 one_offer apart one_offer-IsCounted

do_decline_withdraw_offers-Keeps_example :
    Keeps
      (dropped (some 2) none pend_all false do_decline)
      lobby
      (do_decline_withdraw_offers (some 2) none pend_all false do_decline lobby)
do_decline_withdraw_offers-Keeps_example =
    do_decline_withdraw_offers-Keeps (some 2) none pend_all false do_decline lobby lobby-IsCounted

com_accept-finds_example : com_accept 2 (param_number (pos 2)) lobby ≢ null_pointer
com_accept-finds_example = com_accept-finds 2 (param_number (pos 2)) lobby lobby-IsCounted

com_decline_withdraw-finds_example : com_decline_withdraw 2 (param_number (pos 2)) true lobby ≢ none
com_decline_withdraw-finds_example =
    com_decline_withdraw-finds 2 (param_number (pos 2)) true lobby lobby-IsCounted

-- Players 2 and 4 are partners.
abbrev partners : Lobby
partners = record lobby {
  partner = λ q. if q == 2 then some 4 else if q == 4 then some 2 else none;
}

partners-IsCounted : IsCounted partners
partners-IsCounted = record {
  distinct = lobby-IsCounted.distinct;
  from = lobby-IsCounted.from;
  to = lobby-IsCounted.to;
}

decline_withdraw_offers-Keeps_example :
    ((q : ℕ) × Mutual 2 (pos 0) partners q
      × Keeps
          (λ x.
            dropped (some q) (partner_or_any (some 3) partners) (pos 0) true do_decline x
            || dropped (some 2) (some 3) (pos 0) false do_decline x)
          partners
          (decline_withdraw_offers 2 (some 3) (pos 0) do_decline partners))
    ⊎ (((q : ℕ) → ¬ Mutual 2 (pos 0) partners q)
        × Keeps
            (dropped (some 2) (some 3) (pos 0) false do_decline)
            partners
            (decline_withdraw_offers 2 (some 3) (pos 0) do_decline partners))
decline_withdraw_offers-Keeps_example =
    decline_withdraw_offers-Keeps 2 (some 3) (pos 0) do_decline partners partners-IsCounted
