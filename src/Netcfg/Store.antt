-- ===== src/Netcfg/Store.antt =====
-- internal/netcfg/backend_store.go, dns_store.go, ipv6_store.go and iface_store.go: the backend that
-- keeps the configuration in memory and in a JSON file. The outcomes of the calls of the n-th flush
-- come from outside, `io n`.
pub mod Simulated
pub mod Files
pub mod Durable
pub mod Contract
pub mod Ifaces
use kwrt_net_manager.Prelude.{
  ℕ, ◌+◌, Bool, true, false, List, [], ◌∷◌, Str, codes, str_eq, is_empty, if◌then◌else◌, pos,
}
use kwrt_net_manager.Netcfg.Result.{Result, ok, err}
use kwrt_net_manager.Netcfg.Exec.{Exec, pure}
use kwrt_net_manager.Netcfg.Types.{
  DhcpServer, StaticLease, Acl, Route, PolicyRule, Interface, acl_blacklist, route_push_off,
}
use kwrt_net_manager.Netcfg.Types.Dns.{DnsSettings}
use kwrt_net_manager.Netcfg.Backend.{Backend, Config, with_mode}
use kwrt_net_manager.Netcfg.Store.Files.{Disk, Outcomes, flush_disk}
use kwrt_net_manager.Netcfg.Store.Ifaces.{with_states, put_iface, without_iface, migrate_dns}
use kwrt_net_manager.Netcfg.Store.Simulated.{simulated_leases, simulated_table}

-- `notes` is the map of the lease notes; a flush writes the configuration and
-- the notes.
pub record Store : Type 0 where
  pub mem : Config
  pub notes : List (Str × Str)
  pub disk : Disk (Config × List (Str × Str))
  pub writes : ℕ

-- `delete(b.st.LeaseNotes, mac)`
unfoldable pub drop_note : Str → List (Str × Str) → List (Str × Str)
drop_note mac [] = []
drop_note mac ((m, n) ∷ rest) =
    let after = drop_note mac rest in if str_eq m mac then after else (m, n) ∷ after

unfoldable pub put_note : Str → Str → List (Str × Str) → List (Str × Str)
put_note mac note notes =
    if is_empty note then drop_note mac notes else (mac, note) ∷ drop_note mac notes

-- `SaveDNSSettings` in memory: three lists of the bookkeeping stay, the fourth one,
-- `PrevRebindDomains`, comes from the request.
unfoldable pub store_dns : DnsSettings → Config → Config
store_dns s v = record v {
  dns = record s {
    saved_stock = v.dns.saved_stock;
    prev_servers = v.dns.prev_servers;
    prev_addrs = v.dns.prev_addrs;
  };
}

-- `normalize`
unfoldable pub normalize : Config → Config
normalize v = record v {
  acl = record {
    mode = if is_empty v.acl.mode then acl_blacklist else v.acl.mode;
    entries = v.acl.entries;
  };
  net_ifaces = migrate_dns v.net_ifaces;
}

abbrev demo_interface : Str → Str → Interface
demo_interface name ip = record {
  name = name;
  ipv4 = ip;
  netmask = codes "255.255.255.0";
  prefix = pos 24;
  is_up = true;
}

abbrev pub demo_interfaces : List Interface
demo_interfaces =
    demo_interface (codes "lan") (codes "192.168.1.1")
    ∷ demo_interface (codes "lan2") (codes "192.168.2.1")
    ∷ demo_interface (codes "wan") (codes "192.168.0.10")
    ∷ []

module _ (io : ℕ → Outcomes) where
  -- `flushLocked`
  unfoldable pub flush : Exec Store (Unit {0})
  flush s =
      let (r, d) = flush_disk (io s.writes) (s.mem, s.notes) s.disk in
      (r, record s { disk = d; writes = s.writes + 1 })

  -- The body of the `Save…` methods: memory first, then the file.
  unfoldable pub save : (Config → Config) → Exec Store (Unit {0})
  save change s = flush (record s { mem = change s.mem })

  -- `replaceState`
  unfoldable pub replace_state : Config → Exec Store (Unit {0})
  replace_state st = save (λ _. normalize st)

  unfoldable pub save_note : Str → Str → Exec Store (Unit {0})
  save_note mac note s = flush (record s { notes = put_note mac note s.notes })

  abbrev pub store_backend : Backend Store
  store_backend = record {
    interfaces = pure demo_interfaces;
    dhcp_servers = λ s. (ok s.mem.servers, s);
    save_dhcp_servers = λ l. save (λ v. record v { servers = l });
    restart_dhcp = pure tt;
    statics = λ s. (ok s.mem.statics, s);
    arp_bind = λ s. (ok s.mem.arp_bind, s);
    save_statics = λ l arp. save (λ v. record v { statics = l; arp_bind = arp });
    leases = λ s. (ok (simulated_leases s.mem.statics s.mem.servers), s);
    lease_notes = λ s. (ok s.notes, s);
    set_lease_note = save_note;
    acl = λ s. (ok s.mem.acl, s);
    save_acl = λ a. save (λ v. record v { acl = a });
    routes = λ s. (ok s.mem.routes, s);
    save_routes = λ l. save (λ v. record v { routes = l });
    policy_rules = λ s. (ok s.mem.policy_rules, s);
    save_policy_rules = λ l. save (λ v. record v { policy_rules = l });
    route_push_mode =
        λ s. (ok (if is_empty s.mem.push_mode then route_push_off else s.mem.push_mode), s);
    save_route_push_mode = λ m. save (λ v. record v { push_mode = m });
    route_table = λ family s. (ok (simulated_table family s.mem.routes), s);
    wan_v6s = λ s. (ok s.mem.wan_v6s, s);
    save_wan_v6s = λ l. save (λ v. record v { wan_v6s = l });
    lan_v6s = λ s. (ok s.mem.lan_v6s, s);
    save_lan_v6s = λ l. save (λ v. record v { lan_v6s = l });
    prefix_statics_v6 = λ s. (ok s.mem.prefix_statics_v6, s);
    save_prefix_statics_v6 = λ l. save (λ v. record v { prefix_statics_v6 = l });
    acl_v6 = λ s. (ok (with_mode s.mem.acl_v6), s);
    save_acl_v6 = λ a. save (λ v. record v { acl_v6 = a });
    delete_neighbor_v6 = λ addr dev. pure tt;
    flush_neighbors_v6 = λ dev. pure tt;
    dns_settings = λ s. (ok s.mem.dns, s);
    save_dns_settings = λ d. save (store_dns d);
    dns_doh = λ s. (ok s.mem.dns_doh, s);
    save_dns_doh = λ d. save (λ v. record v { dns_doh = d });
    dns_records = λ s. (ok s.mem.dns_records, s);
    save_dns_records = λ l. save (λ v. record v { dns_records = l });
    dns_domain_routes = λ s. (ok s.mem.dns_domain_routes, s);
    save_dns_domain_routes = λ l. save (λ v. record v { dns_domain_routes = l });
    flush_dns_cache = pure tt;
    net_ifaces = λ s. (ok (with_states s.mem.net_ifaces), s);
    save_net_iface = λ x. save (λ v. record v { net_ifaces = put_iface x v.net_ifaces });
    delete_net_iface = λ id. save (λ v. record v { net_ifaces = without_iface id v.net_ifaces });
    wan_action = λ id action. pure tt;
  }
