-- ===== src/ServerLists/Managers.antt =====
-- src/lists.c: `list_sub`, which takes the managers' channel from a manager that it removes, with
-- `player_find_bylogin` of src/playerdb.c. The writes to the database are not part of the model.
use docker_chessd.Prelude.{
  ℕ, zero, suc, Bool, true, false, not, ◌&&◌, ◌==◌, if◌then◌else◌, Option, none, some, List,
}
use docker_chessd.Prelude.Text.{codes, same_name}
use docker_chessd.ServerLists.{Store, remove_member}

-- The states of a player that `player_find_bylogin` tells from the others.
pub data Status : Type 0 where
  player_empty : Status
  player_login : Status
  player_password : Status
  player_other : Status

abbrev pub is_unnamed : Status → Bool
is_unnamed player_other = false
is_unnamed _ = true

-- The fields of `struct player`: PFLAG_REG, the state, whether `login` is not NULL, and `name`.
pub record Account : Type 0 where
  pub registered : Bool
  pub status : Status
  pub has_login : Bool
  pub name : List ℕ

-- `player_globals`.
pub record Players : Type 0 where
  pub p_num : ℕ
  pub parray : ℕ → Account

abbrev pub has_name : List ℕ → Account → Bool
has_name name a = not (is_unnamed a.status) && (a.has_login && same_name a.name name)

-- Its loop, with `left` players from `i` on.
unfoldable pub find_from : (ℕ → Account) → List ℕ → ℕ → ℕ → Option ℕ
unfolding same_name
find_from parray name zero i = none
find_from parray name (suc left) i =
    let rest = find_from parray name left (suc i) in
    if has_name name (parray i) then some i else rest

-- `player_find_bylogin`, with `none` for -1.
unfoldable pub player_find_bylogin : Players → List ℕ → Option ℕ
unfolding find_from
player_find_bylogin players name = find_from players.parray name players.p_num 0

-- `L_CHANNEL` and `L_MANAGER`.
abbrev pub list_channel : ℕ
list_channel = 25

abbrev pub list_manager : ℕ
list_manager = 27

-- `MANAGER_CHANNEL`, printed.
abbrev pub manager_channel : List ℕ
manager_channel = codes "254"

-- pid > 0.
abbrev pub positive : Option ℕ → Option ℕ
positive none = none
positive (some zero) = none
positive (some (suc n)) = some (suc n)

-- The player whose list of channels is also changed when `member` is removed.
unfoldable pub demoted : Players → ℕ → ℕ → List ℕ → Option ℕ
unfolding player_find_bylogin
demoted players p lidx member =
    if (players.parray p).registered && lidx == list_manager
    then positive (player_find_bylogin players member)
    else none

-- The result of the inner call is not used.
abbrev pub without_result : Option (Store × Bool) → Option (Store × Bool)
without_result none = none
without_result (some r) = some (r.0, true)

-- list_sub(pid, L_CHANNEL, ch_str), which does not reach the case of L_MANAGER.
unfoldable pub leave_channel :
    ℕ → (ℕ → ℕ → List (List ℕ)) → Option ℕ → Store → Option (Store × Bool)
unfolding remove_member
leave_channel limit rows none s = some (s, true)
leave_channel limit rows (some q) s =
    without_result (remove_member limit q list_channel (rows q list_channel) manager_channel s)

abbrev pub and_leave :
    ℕ → (ℕ → ℕ → List (List ℕ)) → Option ℕ → Option (Store × Bool) → Option (Store × Bool)
and_leave limit rows q none = none
and_leave limit rows q (some (s, gone)) =
    if gone then leave_channel limit rows q s else some (s, false)

-- `list_sub`: the state, and whether the result is 0; `none` for `abort`. `rows` are what the database
-- has for the lists.
unfoldable pub list_sub :
    ℕ → Players → (ℕ → ℕ → List (List ℕ)) → ℕ → ℕ → List ℕ → Store → Option (Store × Bool)
unfolding remove_member demoted leave_channel
list_sub limit players rows p lidx member s =
    and_leave limit rows (demoted players p lidx member)
      (remove_member limit p lidx (rows p lidx) member s)
