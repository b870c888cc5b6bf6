-- ===== src/ServerLists.antt =====
-- src/lists.c: the lists of names in memory, the personal ones of the players and the global ones.
-- The writes to the database are not part of the model.
pub mod Chains
pub mod Refines
pub mod Lookup
pub mod Managers
pub mod Demotions
pub mod Removal
use docker_chessd.Prelude.{
  ℕ, ◌+◌, Bool, true, false, ◌&&◌, ◌||◌, leb, ◌==◌, if◌then◌else◌, Option, none, some, List, [],
  ◌∷◌, ◌++◌, length, any,
}
use docker_chessd.Prelude.Text.{tolower, skip_space, same_name, starts_with}

-- `struct List` without the link to the next.
pub record Roster : Type 0 where
  pub which : ℕ
  pub members : List (List ℕ)

-- `firstGlobalList`, and the field `lists` of the players.
pub record Store : Type 0 where
  pub first_global_list : List Roster
  pub lists : ℕ → List Roster

-- `L_LASTLIST`.
abbrev pub last_list : ℕ
last_list = 33

-- `ListArray[lidx].rights == P_PERSONAL`: L_CENSOR to L_FOLLOW.
abbrev pub is_personal : ℕ → Bool
is_personal lidx = leb 21 lidx && leb lidx 26

-- `*starter`, and its replacement.
abbrev pub starter : ℕ → ℕ → Store → List Roster
starter p lidx s = if is_personal lidx then s.lists p else s.first_global_list

abbrev pub set_starter : ℕ → ℕ → List Roster → Store → Store
set_starter p lidx l s =
    if is_personal lidx
    then record s { lists = λ q. if q == p then l else s.lists q }
    else record s { first_global_list = l }

-- The search of `list_find1`: the list taken out of the chain, or the call of `abort`.
pub data Taken : Type 0 where
  missing : Taken
  aborted : Taken
  taken : Roster → List Roster → Taken

abbrev pub behind_list : Roster → Taken → Taken
behind_list y missing = missing
behind_list y aborted = aborted
behind_list y (taken x l) = taken x (y ∷ l)

unfoldable pub take_list : ℕ → List Roster → Taken
take_list lidx [] = missing
take_list lidx (x ∷ xs) =
    let rest = take_list lidx xs in
    if lidx == x.which
    then taken x xs
    else if leb last_list x.which
    then aborted
    else behind_list x rest

-- `list_find1`: the list, which is now the first of its chain, or `none`; `abort` ends the program.
pub data Found : Type 0 where
  no_list : Found
  abort : Found
  found : Roster → Store → Found

abbrev pub to_front : ℕ → ℕ → Store → Taken → Found
to_front p lidx s missing = no_list
to_front p lidx s aborted = abort
to_front p lidx s (taken x rest) = found x (set_starter p lidx (x ∷ rest) s)

unfoldable pub list_find1 : ℕ → ℕ → Store → Found
unfolding take_list
list_find1 p lidx s = to_front p lidx s (take_list lidx (starter p lidx s))

-- strndup(s, strcspn(s, " \t\r\n")).
unfoldable pub first_word : List ℕ → List ℕ
first_word [] = []
first_word (c ∷ s) =
    let rest = first_word s in if c == 32 || (c == 9 || (c == 13 || c == 10)) then [] else c ∷ rest

-- The rest of `list_add` on the list `gl` at the front of the chain `gl ∷ rest`: the new state, and
-- whether the result is 0. `limit` is `max_user_list_size`.
unfoldable pub add_member :
    ℕ → ℕ → ℕ → Option (List ℕ) → Roster → List Roster → Store → Store × Bool
unfolding skip_space first_word
add_member limit p lidx none gl rest s = (set_starter p lidx (gl ∷ rest) s, true)
add_member limit p lidx (some t) gl rest s =
    if is_personal lidx && leb limit (length gl.members)
    then (set_starter p lidx (gl ∷ rest) s, false)
    else (
      set_starter p lidx
          (record gl { members = gl.members ++ (first_word (skip_space t) ∷ []) } ∷ rest) s,
      true,
    )

-- `list_add`: the search of `list_find1`, with the list at the front of its chain, or a new list;
-- `none` for `abort`.
unfoldable pub list_add : ℕ → ℕ → ℕ → Option (List ℕ) → Store → Option (Store × Bool)
unfolding take_list add_member
list_add limit p lidx t s = elim (take_list lidx (starter p lidx s)) [
  | missing ↦
      some (add_member limit p lidx t (record { which = lidx; members = [] }) (starter p lidx s) s)
  | aborted ↦ none
  | taken x rest ↦ some (add_member limit p lidx t x rest s)
]

-- The rows of the database, each added by `list_add`.
unfoldable pub add_rows : ℕ → ℕ → ℕ → List (List ℕ) → Store → Option Store
unfolding list_add
add_rows limit p lidx [] s = some s
add_rows limit p lidx (row ∷ rows) s = elim (list_add limit p lidx (some row) s) [
  | none ↦ none
  | some r ↦ add_rows limit p lidx rows r.0
]

-- `list_find` for a list that `list_find1` has not found: it is made and filled with the rows; without
-- any the result is NULL. The list and the state; `none` for `abort`.
unfoldable pub load_list : ℕ → ℕ → ℕ → List (List ℕ) → Store → Option (Option Roster × Store)
unfolding list_find1 list_add add_rows
load_list limit p lidx rows s = elim (list_add limit p lidx none s) [
  | none ↦ none
  | some made ↦ elim (add_rows limit p lidx rows made.0) [
    | none ↦ none
    | some full ↦ elim rows [
      | [] ↦ some (none, full)
      | row ∷ more ↦ elim (list_find1 p lidx full) [
        | no_list ↦ some (none, full)
        | abort ↦ none
        | found x t ↦ some (some x, t)
      ]
    ]
  ]
]

-- A list that is in memory, or what is loaded.
abbrev pub found_or : Option (Option Roster × Store) → Found → Option (Option Roster × Store)
found_or loaded no_list = loaded
found_or loaded abort = none
found_or loaded (found x t) = some (some x, t)

-- `list_find`, where `rows` are what the database has for the list.
unfoldable pub list_find : ℕ → ℕ → ℕ → List (List ℕ) → Store → Option (Option Roster × Store)
unfolding list_find1 load_list
list_find limit p lidx rows s = found_or (load_list limit p lidx rows s) (list_find1 p lidx s)

-- `L_FILTER`, whose entries are beginnings.
abbrev pub list_filter : ℕ
list_filter = 2

unfoldable pub is_entry : ℕ → List ℕ → List ℕ → Bool
unfolding starts_with same_name
is_entry which member m = if which == list_filter then starts_with member m else same_name member m

-- The loop of `in_list` over the members of the list that `list_find` gives.
abbrev pub answer_of : ℕ → List ℕ → Option (Option Roster × Store) → Option (Bool × Store)
answer_of which member none = none
answer_of which member (some (none, t)) = some (false, t)
answer_of which member (some (some gl, t)) = some (any (is_entry which member) gl.members, t)

-- `in_list` for a member that is not NULL: the result and the state; `none` for `abort`.
unfoldable pub in_list : ℕ → ℕ → ℕ → List (List ℕ) → List ℕ → Store → Option (Bool × Store)
unfolding list_find
in_list limit p which rows member s = answer_of which member (list_find limit p which rows s)

abbrev pub kept_first : List ℕ → Option (List (List ℕ)) → Option (List (List ℕ))
kept_first m none = none
kept_first m (some rest) = some (m ∷ rest)

-- The members without the first that has the name; `none` where there is no such.
unfoldable pub without_name : List ℕ → List (List ℕ) → Option (List (List ℕ))
unfolding same_name
without_name member [] = none
without_name member (m ∷ rest) =
    let later = without_name member rest in
    if same_name member m then some rest else kept_first m later

-- The list that `list_find` gives is the first of its chain; its members are replaced.
abbrev pub behind_first : List Roster → List Roster
behind_first [] = []
behind_first (x ∷ rest) = rest

abbrev pub put_members : ℕ → ℕ → Roster → Store → Option (List (List ℕ)) → Store × Bool
put_members p lidx gl s none = (s, false)
put_members p lidx gl s (some ms) =
    (set_starter p lidx (record gl { members = ms } ∷ behind_first (starter p lidx s)) s, true)

unfoldable pub sub_found : ℕ → ℕ → List ℕ → Option (Option Roster × Store) → Option (Store × Bool)
unfolding without_name
sub_found p lidx member none = none
sub_found p lidx member (some (none, s)) = some (s, false)
sub_found p lidx member (some (some gl, s)) =
    some (put_members p lidx gl s (without_name member gl.members))

-- `list_sub` up to the database: the state, and whether a member has gone; `none` for `abort`.
unfoldable pub remove_member : ℕ → ℕ → ℕ → List (List ℕ) → List ℕ → Store → Option (Store × Bool)
unfolding list_find sub_found
remove_member limit p lidx rows member s = sub_found p lidx member (list_find limit p lidx rows s)
