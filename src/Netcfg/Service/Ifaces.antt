-- ===== src/Netcfg/Service/Ifaces.antt =====
-- internal/netcfg/iface.go: the methods on the lines.
pub mod Apart
pub mod Reach
pub mod NewId
pub mod Ends
pub mod LastLan
use kwrt_net_manager.Prelude.{
  ℕ, zero, suc, Option, none, some, List, [], ◌∷◌, ◌++◌, Str, codes, is_empty, if◌then◌else◌,
}
use kwrt_net_manager.Netcfg.Names.{itoa, or_else}
use kwrt_net_manager.Netcfg.Result.{Result, ok, err}
use kwrt_net_manager.Netcfg.Exec.{Exec, pure, lift, attempt, ◌>>=◌, ◌>>◌}
use kwrt_net_manager.Netcfg.Types.Iface.{NetIface}
use kwrt_net_manager.Netcfg.Validate.Iface.{
  validate_net_iface, check_iface_relations, can_delete_net_iface,
}
use kwrt_net_manager.Netcfg.Backend.{Backend}
use kwrt_net_manager.Netcfg.Service.{World, call, publish, iface_changed, find_by_id, in_set}
use kwrt_net_manager.Netcfg.Service.Servers.{or_none}

unfoldable pub ids_of_ifaces : List NetIface → List Str
ids_of_ifaces [] = []
ids_of_ifaces (x ∷ xs) = x.id ∷ ids_of_ifaces xs

-- The loop of `nextIfaceID` from the number `n` on, with the rounds that are left.
unfoldable pub iface_loop : ℕ → List Str → Str → ℕ → Option Str
iface_loop zero used role n = none
iface_loop (suc rounds) used role n =
    let later = iface_loop rounds used role (suc n) in
    if in_set used (role ++ itoa n) then later else some (role ++ itoa n)

-- `nextIfaceID` on the ids in use; n goes from 2 to 63.
unfoldable pub next_iface_id : List Str → Str → Str
next_iface_id used role =
    if in_set used role then or_else (role ++ codes "_new") (iface_loop 62 used role 2) else role

-- A line without an id gets one, and the id for its name.
unfoldable pub named_iface : List NetIface → NetIface → NetIface
named_iface list x =
    let id = next_iface_id (ids_of_ifaces list) x.role in
    if is_empty x.id then record x { id = id; name = id } else x

module _ {S : Type 0} (be : Backend S) where
  unfoldable pub list_net_ifaces : Exec (World S) (List NetIface)
  list_net_ifaces = call be.net_ifaces

  unfoldable pub get_net_iface : Str → Exec (World S) NetIface
  get_net_iface id = do list ← call be.net_ifaces; find_by_id (λ x. x.id) id list

  -- The lines are read again for a new id; a read that fails counts as an empty list.
  unfoldable pub with_new_id : NetIface → Exec (World S) NetIface
  with_new_id x = do list ← attempt (call be.net_ifaces); pure (named_iface (or_none list) x)

  unfoldable pub save_net_iface : NetIface → Exec (World S) NetIface
  save_net_iface x = do
    checked ← lift (validate_net_iface x)
    existing ← attempt (call be.net_ifaces)
    named ← (if is_empty checked.id then with_new_id checked else pure checked)
    servers ← attempt (call be.dhcp_servers)
    lift (check_iface_relations named (or_none existing) (or_none servers))
    call (be.save_net_iface named)
    publish iface_changed (codes "save") 0
    pure named

  unfoldable pub delete_net_iface : Str → Exec (World S) (Unit {0})
  delete_net_iface id = do
    existing ← call be.net_ifaces
    lift (can_delete_net_iface id existing)
    call (be.delete_net_iface id)
    publish iface_changed (codes "delete") 0

  unfoldable pub wan_action : Str → Str → Exec (World S) (Unit {0})
  wan_action id action = do call (be.wan_action id action); publish iface_changed action 0
