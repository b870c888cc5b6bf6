-- ===== src/Examples/Rosters.antt =====
-- A store of lists on which the theorems on src/lists.c are applied.
use docker_chessd.Prelude.{
  ℕ, ◌≡◌, refl, Bool, true, false, some, [], ◌∷◌, ◌==◌, if◌then◌else◌, arith,
}
use docker_chessd.Prelude.Text.{codes, skip_space, same_name}
use docker_chessd.ServerLists.{Store, take_list, first_word, add_member, list_add, in_list}
use docker_chessd.ServerLists.Managers.{
  player_empty, player_password, player_other, Players, find_from, player_find_bylogin,
  list_channel, list_manager, demoted, list_sub,
}
use docker_chessd.ServerLists.Chains.{AllKnown}
use docker_chessd.ServerLists.Lookup.{Looks, in_list-Looks}
use docker_chessd.ServerLists.Removal.{Withdraws, list_sub-Subtracts}
use docker_chessd.ServerLists.Refines.{Adds, list_add_refines}

abbrev list_censor : ℕ
list_censor = 21

abbrev list_notify : ℕ
list_notify = 24

-- Player 3 has two lists; there is one global list, L_COMPUTER.
abbrev store : Store
store = record {
  first_global_list = record { which = 19; members = codes "crafty" ∷ [] } ∷ [];
  lists = λ q.
      record { which = list_notify; members = codes "ana" ∷ [] }
      ∷ record { which = list_censor; members = codes "bob" ∷ [] }
      ∷ [];
}

store-AllKnown : AllKnown store
store-AllKnown = ((omega arith, tt), λ q. (omega arith, (omega arith, tt)))

abbrev after : Store
after = record store {
  lists = λ q.
      if q == 3
      then record { which = list_censor; members = codes "bob" ∷ codes "eve" ∷ [] }
        ∷ record { which = list_notify; members = codes "ana" ∷ [] }
        ∷ []
      else store.lists q;
}

censored : list_add 10 3 list_censor (some (codes " eve here")) store ≡ some (after, true)
unfolding list_add take_list add_member first_word skip_space
censored = refl

list_add_refines_example :
    (r : Store × Bool) × (list_add 10 3 list_censor (some (codes " eve here")) store ≡ some r)
    × Adds 10 3 list_censor (some (codes " eve here")) store r
list_add_refines_example =
    list_add_refines 10 3 list_censor (some (codes " eve here")) store (omega arith) store-AllKnown

in_list-Looks_example :
    (r : Bool × Store) × (in_list 10 3 list_censor [] (codes "BOB") store ≡ some r)
    × Looks 3 list_censor (codes "BOB") (codes "bob" ∷ []) store r
in_list-Looks_example =
    in_list-Looks 10 3 list_censor [] (codes "BOB") store (codes "bob" ∷ []) (omega arith)
      store-AllKnown refl

-- Player 3 is registered; players 4 and 5 are ana, who has not given her password, and ana.
abbrev players : Players
players = record {
  p_num = 6;
  parray = λ q.
      if q == 3
      then record { registered = true; status = player_other; has_login = true; name = codes "adm" }
      else if q == 4
      then record {
        registered = true;
        status = player_password;
        has_login = true;
        name = codes "ana";
      }
      else if q == 5
      then record { registered = true; status = player_other; has_login = true; name = codes "Ana" }
      else record { registered = false; status = player_empty; has_login = false; name = [] };
}

-- The managers are bob and ana, and all players listen to channels 1 and 254.
abbrev managed : Store
managed = record {
  first_global_list =
      record { which = list_manager; members = codes "bob" ∷ codes "ana" ∷ [] } ∷ [];
  lists = λ q. record { which = list_channel; members = codes "1" ∷ codes "254" ∷ [] } ∷ [];
}

managed-AllKnown : AllKnown managed
managed-AllKnown = ((omega arith, tt), λ q. (omega arith, tt))

ana_is_demoted : demoted players 3 list_manager (codes "ANA") ≡ some 5
unfolding demoted player_find_bylogin find_from same_name
ana_is_demoted = refl

list_sub-Subtracts_example :
    (r : Store × Bool) × (list_sub 10 players (λ q k. []) 3 list_manager (codes "ANA") managed
      ≡ some r)
    × Withdraws players 3 list_manager
        (codes "ANA")
        (codes "bob" ∷ codes "ana" ∷ [])
        (λ q. codes "1" ∷ codes "254" ∷ [])
        managed
        r
list_sub-Subtracts_example =
    list_sub-Subtracts 10 players (λ q k. []) 3 list_manager (codes "ANA") managed
      (codes "bob" ∷ codes "ana" ∷ []) (λ q. codes "1" ∷ codes "254" ∷ []) (omega arith)
      managed-AllKnown refl (λ q e. refl)
