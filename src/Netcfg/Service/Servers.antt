-- ===== src/Netcfg/Service/Servers.antt =====
-- internal/netcfg/service.go, DHCP servers.
pub mod Subnet
use kwrt_net_manager.Prelude.{
  ℕ, ◌+◌, ◌-◌, Bool, true, ◌||◌, not, Option, none, some, List, [], ◌∷◌, Str, codes, str_eq,
  is_empty, ltb, if◌then◌else◌, pos,
}
use kwrt_net_manager.Netutil.{range_count, ip_in_range, same_subnet}
use kwrt_net_manager.Netcfg.Result.{Result, ok, err, pool_outside_subnet}
use kwrt_net_manager.Netcfg.Exec.{Exec, pure, lift, attempt, ◌>>=◌, ◌>>◌}
use kwrt_net_manager.Netcfg.Types.{DhcpServer, Lease, Interface}
use kwrt_net_manager.Netcfg.Validate.{validate_dhcp_server}
use kwrt_net_manager.Netcfg.Backend.{Backend}
use kwrt_net_manager.Netcfg.Service.{World, call, publish, dhcp_changed, find_by_id}
use kwrt_net_manager.Netcfg.Service.Collection.{
  Collection, no_check, create, update, delete, set_enabled, batch,
}

-- The leases inside of a range.
unfoldable pub used_in : Str → Str → List Lease → ℕ
used_in start end [] = 0
used_in start end (l ∷ ls) =
    let rest = used_in start end ls in if ip_in_range l.ip start end then rest + 1 else rest

abbrev left_of : Option ℕ → ℕ → ℕ
left_of none used = 0
left_of (some total) used = total - (if ltb total used then total else used)

unfoldable pub remaining_addrs : DhcpServer → List Lease → ℕ
remaining_addrs srv leases =
    left_of (range_count srv.ip_start srv.ip_end) (used_in srv.ip_start srv.ip_end leases)

unfoldable pub with_remaining : List Lease → List DhcpServer → List DhcpServer
with_remaining leases [] = []
with_remaining leases (s ∷ ss) =
    record s { remaining = pos (remaining_addrs s leases) } ∷ with_remaining leases ss

abbrev pub or_none {ℓ} : {A : Type ℓ} → Result (List A) → List A
or_none (ok l) = l
or_none (err e) = []

-- The loop over the interfaces; a pool whose interface is not listed is passed.
unfoldable pub pool_in_interface : List Interface → DhcpServer → Result DhcpServer
pool_in_interface [] s = ok s
pool_in_interface (i ∷ is) s =
    let rest = pool_in_interface is s in
    if not (str_eq i.name s.interface)
    then rest
    else if is_empty i.ipv4 || is_empty i.netmask
    then ok s
    else if not (same_subnet s.ip_start i.ipv4 i.netmask)
        || not (same_subnet s.ip_end i.ipv4 i.netmask)
    then err pool_outside_subnet
    else ok (record s { netmask = i.netmask })

-- `if err != nil { return nil }`: a pool passes when the interfaces cannot be read.
abbrev pub or_pass : Result (List Interface) → DhcpServer → Result DhcpServer
or_pass (ok is) s = pool_in_interface is s
or_pass (err e) s = ok s

module _ {S : Type 0} (be : Backend S) where
  abbrev pub server_collection : Collection S (Unit {0}) DhcpServer
  server_collection = record {
    load = (do l ← be.dhcp_servers; pure (l, tt));
    save = λ l _. be.save_dhcp_servers l;
    topic = dhcp_changed;
    prefix = codes "dhcp";
    id_of = λ s. s.id;
    identify = λ id s. record s { id = id; managed = true };
    switch = λ on s. record s { enabled = on; managed = true };
  }

  unfoldable pub list_dhcp_servers : Exec (World S) (List DhcpServer)
  list_dhcp_servers = do
    servers ← call be.dhcp_servers
    leases ← attempt (call be.leases)
    pure (with_remaining (or_none leases) servers)

  unfoldable pub get_dhcp_server : Str → Exec (World S) DhcpServer
  get_dhcp_server id = do servers ← list_dhcp_servers; find_by_id (λ s. s.id) id servers

  unfoldable pub check_pool_subnet : DhcpServer → Exec (World S) DhcpServer
  check_pool_subnet s = do ifaces ← attempt (call be.interfaces); lift (or_pass ifaces s)

  unfoldable pub create_dhcp_server : (ℕ → Str) → DhcpServer → Exec (World S) DhcpServer
  create_dhcp_server token s = do
    checked ← lift (validate_dhcp_server s)
    placed ← check_pool_subnet checked
    create server_collection token no_check (record placed { remaining = pos 0 })

  unfoldable pub update_dhcp_server : Str → DhcpServer → Exec (World S) DhcpServer
  update_dhcp_server id s = do
    checked ← lift (validate_dhcp_server s)
    placed ← check_pool_subnet checked
    update server_collection no_check id placed

  unfoldable pub delete_dhcp_server : Str → Exec (World S) (Unit {0})
  delete_dhcp_server id = delete server_collection id

  unfoldable pub set_dhcp_server_enabled : Str → Bool → Exec (World S) (Unit {0})
  set_dhcp_server_enabled id on = set_enabled server_collection id on

  unfoldable pub batch_dhcp_servers : Str → List Str → Exec (World S) (Unit {0})
  batch_dhcp_servers action ids = batch server_collection action ids

  unfoldable pub restart_dhcp : Exec (World S) (Unit {0})
  restart_dhcp = do call be.restart_dhcp; publish dhcp_changed (codes "apply") 0
