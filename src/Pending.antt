-- ===== src/Pending.antt =====
-- src/pending.c: the list of pending offers and the players' counts of them. The texts that the
-- operations print are not part of the model, and of `struct pending` the fields that only the callers
-- read. A player is a number, `none` the -1 that stands for any player.
pub mod Counts
pub mod Offers
pub mod Partners
pub mod Commands
use docker_chessd.Prelude.{
  ℕ, zero, suc, Bool, true, false, not, ◌&&◌, ◌||◌, ◌==◌, if◌then◌else◌, leb, Option, none, some,
  List, [], ◌∷◌, first,
}
use docker_chessd.Prelude.Int.{ℤ, pos, negsuc, inc, dec, is_zero}

-- `struct pending` with the address that tells it from the others.
pub record Pending : Type 0 where
  pub address : ℕ
  pub kind : ℕ
  pub whoto : ℕ
  pub whofrom : ℕ
  pub bughouse : Bool

-- `pendlist` and the counts of `struct player`.
pub record Lobby : Type 0 where
  pub pendlist : List Pending
  pub number_pend_from : ℕ → ℤ
  pub number_pend_to : ℕ → ℤ
  pub partner : ℕ → Option ℕ

-- `PEND_MATCH` and `PEND_ALL`; below, `negsuc 7` is -PEND_PARTNER.
abbrev pub pend_match : ℕ
pend_match = 0

abbrev pub pend_all : ℤ
pend_all = negsuc 0

-- A counter of a player set to what `f` makes of it.
abbrev pub change : (ℤ → ℤ) → ℕ → (ℕ → ℤ) → ℕ → ℤ
change f p count q = if q == p then f (count q) else count q

-- `add_pending`, where `new` is the block of memory that `malloc` gives.
unfoldable pub add_pending : Pending → ℕ → ℕ → ℕ → Lobby → Pending × Lobby
add_pending new from to kind s =
    let added = record new { whofrom = from; whoto = to; kind = kind } in
    (
      added,
      record s {
        pendlist = added ∷ s.pendlist;
        number_pend_from = change inc from s.number_pend_from;
        number_pend_to = change inc to s.number_pend_to;
      },
    )

-- The list without the offer at an address, and what stands behind that offer.
unfoldable pub unlink : ℕ → List Pending → List Pending
unlink a [] = []
unlink a (x ∷ xs) = let rest = unlink a xs in if x.address == a then xs else x ∷ rest

unfoldable pub behind : ℕ → List Pending → List Pending
behind a [] = []
behind a (x ∷ xs) = let rest = behind a xs in if x.address == a then xs else rest

-- `delete_pending`, for an offer that is not NULL: the next item, and the new state.
unfoldable pub delete_pending : Pending → Lobby → List Pending × Lobby
delete_pending x s = (
  behind x.address s.pendlist,
  record s {
    pendlist = unlink x.address s.pendlist;
    number_pend_from = change dec x.whofrom s.number_pend_from;
    number_pend_to = change dec x.whoto s.number_pend_to;
  },
)

-- `destruct_pending`.
unfoldable pub destruct_pending : List Pending → Lobby → Lobby
destruct_pending [] s = s
destruct_pending (x ∷ xs) s = destruct_pending xs (delete_pending x s).1

abbrev pub concerns : Option ℕ → ℕ → Bool
concerns none q = true
concerns (some p) q = q == p

-- `type == PEND_ALL || current->type == type || (type < 0 && current->type != -type)`.
abbrev pub wanted : ℤ → ℕ → Bool
wanted (pos t) k = k == t
wanted (negsuc zero) k = true
wanted (negsuc (suc n)) k = not (k == suc (suc n))

-- `check_current_pend`.
unfoldable pub check_current_pend : Option ℕ → Option ℕ → ℤ → Pending → Bool
check_current_pend p p1 type x = concerns p x.whofrom && (concerns p1 x.whoto && wanted type x.kind)

-- `p != -1 && !count[p]`.
abbrev pub none_counted : Option ℕ → (ℕ → ℤ) → Bool
none_counted none count = false
none_counted (some p) count = is_zero (count p)

-- `find_pend`.
unfoldable pub find_pend : Option ℕ → Option ℕ → ℤ → Lobby → Option Pending
find_pend p p1 type s =
    if none_counted p s.number_pend_from || none_counted p1 s.number_pend_to
    then none
    else first (check_current_pend p p1 type) s.pendlist

-- The end of `add_request`: an offer that is there already, or a new one.
unfoldable pub reuse_or_add : Pending → ℕ → ℕ → ℕ → Option Pending → Lobby → Pending × Lobby
unfolding add_pending
reuse_or_add new p p1 type none s = add_pending new p p1 type s
reuse_or_add new p p1 type (some x) s = (x, s)

-- `add_request`; the result says which offer it is.
unfoldable pub add_request : Pending → ℕ → ℕ → ℕ → Lobby → Pending × Lobby
unfolding find_pend reuse_or_add
add_request new p p1 type s =
    let found =
      if not (is_zero (s.number_pend_from p)) && not (is_zero (s.number_pend_to p1))
      then find_pend (some p) (some p1) (pos type) s
      else none in
    reuse_or_add new p p1 type found s

-- A walk through the list that deletes what passes a test. `next` is read before the deletion, or is
-- what `delete_pending` returns.
unfoldable pub sweep : (Pending → Bool) → List Pending → Lobby → Lobby
unfolding delete_pending
sweep test [] s = s
sweep test (x ∷ xs) s = sweep test xs (if test x then (delete_pending x s).1 else s)

-- `remove_request`.
unfoldable pub remove_request : ℕ → ℕ → ℤ → Lobby → Lobby
unfolding sweep
remove_request p p1 type s = sweep (check_current_pend (some p) (some p1) type) s.pendlist s

-- `DO_DECLINE`, `DO_WITHDRAW` and both.
pub data Wd : Type 0 where
  do_decline do_withdraw do_both : Wd

-- The early returns of `do_decline_withdraw_offers`.
abbrev pub nothing_to_do : Option ℕ → Option ℕ → Wd → Lobby → Bool
nothing_to_do p p1 do_both s =
    (none_counted p s.number_pend_to && none_counted p s.number_pend_from)
    || (none_counted p1 s.number_pend_to && none_counted p1 s.number_pend_from)
nothing_to_do p p1 do_decline s =
    none_counted p s.number_pend_to || none_counted p1 s.number_pend_from
nothing_to_do p p1 do_withdraw s =
    none_counted p s.number_pend_from || none_counted p1 s.number_pend_to

-- The offers that the loop of `do_decline_withdraw_offers` takes up.
abbrev pub taken_up : Option ℕ → Option ℕ → ℤ → Wd → Pending → Bool
taken_up p p1 offers do_decline x = check_current_pend p1 p offers x
taken_up p p1 offers do_withdraw x = check_current_pend p p1 offers x
taken_up p p1 offers do_both x =
    check_current_pend p1 p offers x || check_current_pend p p1 offers x

-- Those that it deletes: of the match offers of partners only the ones of bughouse.
unfoldable pub dropped : Option ℕ → Option ℕ → ℤ → Bool → Wd → Pending → Bool
unfolding check_current_pend
dropped p p1 offers partners wd x =
    taken_up p p1 offers wd x && (not (x.kind == pend_match && partners) || x.bughouse)

-- `do_decline_withdraw_offers`.
unfoldable pub do_decline_withdraw_offers : Option ℕ → Option ℕ → ℤ → Bool → Wd → Lobby → Lobby
unfolding sweep dropped
do_decline_withdraw_offers p p1 offers partners wd s =
    if nothing_to_do p p1 wd s then s else sweep (dropped p p1 offers partners wd) s.pendlist s

-- `p1 == -1 ? -1 : parray[p1].partner`.
abbrev pub partner_of : Option ℕ → Lobby → Option ℕ
partner_of none s = none
partner_of (some q) s = s.partner q

abbrev pub is_player : Option ℕ → ℕ → Bool
is_player none p = false
is_player (some q) p = q == p

abbrev pub is_match_or_all : ℤ → Bool
is_match_or_all (pos t) = t == pend_match
is_match_or_all (negsuc n) = n == 0

-- The offers of the partner, where the partnership is mutual.
unfoldable pub decline_of_partner : ℕ → Option ℕ → ℤ → Wd → Lobby → Lobby
unfolding do_decline_withdraw_offers
decline_of_partner p p1 offer_type wd s = elim (s.partner p) [
  | none ↦ s
  | some q ↦
      if is_match_or_all offer_type && is_player (s.partner q) p
      then do_decline_withdraw_offers (some q) (partner_of p1 s) (pos pend_match) true wd s
      else s
]

-- `decline_withdraw_offers`.
unfoldable pub decline_withdraw_offers : ℕ → Option ℕ → ℤ → Wd → Lobby → Lobby
unfolding decline_of_partner do_decline_withdraw_offers
decline_withdraw_offers p p1 offer_type wd s =
    do_decline_withdraw_offers (some p) p1 offer_type false wd
      (decline_of_partner p p1 offer_type wd s)

-- The loop of `find_nth_pendfrom` and `find_nth_pendto`, for `num` at least 1; `none` where it would
-- run off the end of the list.
unfoldable pub find_nth : (Pending → Bool) → ℕ → List Pending → Option Pending
find_nth test num [] = none
find_nth test zero (x ∷ xs) = some x
find_nth test (suc left) (x ∷ xs) =
    let rest = find_nth test left xs in
    let same = find_nth test (suc left) xs in
    if test x then (if left == 0 then some x else rest) else same

unfoldable pub find_nth_pendfrom : ℕ → ℕ → Lobby → Option Pending
unfolding find_nth check_current_pend
find_nth_pendfrom p num s = find_nth (check_current_pend (some p) none pend_all) num s.pendlist

unfoldable pub find_nth_pendto : ℕ → ℕ → Lobby → Option Pending
unfolding find_nth check_current_pend
find_nth_pendto p num s = find_nth (check_current_pend none (some p) pend_all) num s.pendlist

-- The offers that `pend_join_match` deletes: those from or to either player, but for partnership.
unfoldable pub joins : ℕ → ℕ → Pending → Bool
unfolding check_current_pend
joins p p1 x =
    check_current_pend (some p) none (negsuc 7) x
    || (check_current_pend (some p1) none (negsuc 7) x
        || (check_current_pend none (some p) (negsuc 7) x
            || check_current_pend none (some p1) (negsuc 7) x))

-- `pend_join_match`.
unfoldable pub pend_join_match : ℕ → ℕ → Lobby → Lobby
unfolding sweep joins
pend_join_match p p1 s =
    if is_zero (s.number_pend_from p)
      && (is_zero (s.number_pend_to p)
          && (is_zero (s.number_pend_from p1) && is_zero (s.number_pend_to p1)))
    then s
    else sweep (joins p p1) s.pendlist s

-- The parameter of `accept`, `decline` and `withdraw`; a word is what `WordToOffer` makes of it.
pub data Param : Type 0 where
  param_none : Param
  param_number : ℤ → Param
  param_type : ℤ → Param
  param_player : ℕ → Param
  param_unknown : Param

-- `n < 1 || n > number` fails.
abbrev pub in_range : ℤ → ℤ → Bool
in_range (pos zero) number = false
in_range (pos (suc k)) (pos n) = leb (suc k) n
in_range (pos (suc k)) (negsuc n) = false
in_range (negsuc n) number = false

abbrev pub is_one : ℤ → Bool
is_one (pos n) = n == 1
is_one (negsuc n) = false

-- What a command does: nothing but a text, its work on an offer, or a step through a null pointer.
pub data Picked : Type 0 where
  refused : Picked
  picked : Pending → Picked
  null_pointer : Picked

-- The offer that a search of the source is sure to find, and one that it may miss.
abbrev pub surely : Option Pending → Picked
surely none = null_pointer
surely (some x) = picked x

abbrev pub perhaps : Option Pending → Picked
perhaps none = refused
perhaps (some x) = picked x

abbrev pub magnitude : ℤ → ℕ
magnitude (pos n) = n
magnitude (negsuc n) = suc n

-- The offer that `com_accept` acts on.
unfoldable pub com_accept : ℕ → Param → Lobby → Picked
unfolding find_pend find_nth_pendto
com_accept p param s =
    let number = s.number_pend_to p in
    let found : Picked = elim param [
      | param_none ↦ if is_one number then surely (find_pend none (some p) pend_all s) else refused
      | param_number n ↦
          if in_range n number then surely (find_nth_pendto p (magnitude n) s) else refused
      | param_type t ↦ perhaps (find_pend none (some p) t s)
      | param_player q ↦ perhaps (find_pend (some q) (some p) pend_all s)
      | param_unknown ↦ refused
    ] in
    if is_zero number then refused else found

-- The offer that `com_decline` or `com_withdraw` names by its number, or as the only one there is.
unfoldable pub named_offer : ℕ → Param → Bool → Lobby → Picked
unfolding find_pend find_nth_pendto find_nth_pendfrom
named_offer p param to_p s =
    let number = if to_p then s.number_pend_to p else s.number_pend_from p in
    elim param [
      | param_none ↦
          if is_one number
          then surely (
              if to_p
              then find_pend none (some p) pend_all s
              else find_pend (some p) none pend_all s)
          else refused
      | param_number n ↦
          if in_range n number
          then surely (
              if to_p
              then find_nth_pendto p (magnitude n) s
              else find_nth_pendfrom p (magnitude n) s)
          else refused
      | _ ↦ refused
    ]

-- The work of the two commands on the offer.
abbrev pub decline_named : ℕ → Bool → Picked → Lobby → Option Lobby
decline_named p to_p refused s = some s
decline_named p to_p null_pointer s = none
decline_named p to_p (picked x) s = some (
    decline_withdraw_offers p (some (if to_p then x.whofrom else x.whoto)) (pos x.kind)
      (if to_p then do_decline else do_withdraw) s)

-- `com_decline` (`to_p` is true) and `com_withdraw`; `none` where a null pointer is read.
unfoldable pub com_decline_withdraw : ℕ → Param → Bool → Lobby → Option Lobby
unfolding decline_withdraw_offers named_offer
com_decline_withdraw p param to_p s =
    let number = if to_p then s.number_pend_to p else s.number_pend_from p in
    let wd = if to_p then do_decline else do_withdraw in
    let named = decline_named p to_p (named_offer p param to_p s) s in
    let done : Option Lobby = elim param [
      | param_type t ↦ some (decline_withdraw_offers p none t wd s)
      | param_player q ↦ some (decline_withdraw_offers p (some q) pend_all wd s)
      | param_unknown ↦ some s
      | _ ↦ named
    ] in
    if is_zero number then some s else done
