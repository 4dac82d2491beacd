-- ===== src/Netcfg/Backend.antt =====
-- internal/netcfg/backend.go: the interface `Backend`, as far as the modelled services call it, and
-- the contract that they rely on. `S` is all that the backend keeps or reads.
use kwrt_net_manager.Prelude.{◌≡◌, ◌⊎◌, Bool, List, Str, is_empty, if◌then◌else◌}
use kwrt_net_manager.Netcfg.Result.{Err, ok, err}
use kwrt_net_manager.Netcfg.Exec.{Exec}
use kwrt_net_manager.Netcfg.Types.{
  Interface, DhcpServer, StaticLease, Lease, Acl, Route, PolicyRule, RouteEntry, acl_blacklist,
}
use kwrt_net_manager.Netcfg.Types.Dns.{DnsSettings, DnsDoh, DnsRecord, DnsDomainRoute}
use kwrt_net_manager.Netcfg.Types.Iface.{NetIface}
use kwrt_net_manager.Netcfg.Types.V6.{WanV6, LanV6, PrefixStaticV6, AclV6}

pub record Backend (S : Type 0) : Type 0 where
  pub interfaces : Exec S (List Interface)
  pub dhcp_servers : Exec S (List DhcpServer)
  pub save_dhcp_servers : List DhcpServer → Exec S (Unit {0})
  pub restart_dhcp : Exec S (Unit {0})
  pub statics : Exec S (List StaticLease)
  pub arp_bind : Exec S Bool
  pub save_statics : List StaticLease → Bool → Exec S (Unit {0})
  pub leases : Exec S (List Lease)
  pub lease_notes : Exec S (List (Str × Str))
  pub set_lease_note : Str → Str → Exec S (Unit {0})
  pub acl : Exec S Acl
  pub save_acl : Acl → Exec S (Unit {0})
  pub routes : Exec S (List Route)
  pub save_routes : List Route → Exec S (Unit {0})
  pub policy_rules : Exec S (List PolicyRule)
  pub save_policy_rules : List PolicyRule → Exec S (Unit {0})
  pub route_push_mode : Exec S Str
  pub save_route_push_mode : Str → Exec S (Unit {0})
  pub route_table : Str → Exec S (List RouteEntry)
  pub wan_v6s : Exec S (List WanV6)
  pub save_wan_v6s : List WanV6 → Exec S (Unit {0})
  pub lan_v6s : Exec S (List LanV6)
  pub save_lan_v6s : List LanV6 → Exec S (Unit {0})
  pub prefix_statics_v6 : Exec S (List PrefixStaticV6)
  pub save_prefix_statics_v6 : List PrefixStaticV6 → Exec S (Unit {0})
  pub acl_v6 : Exec S AclV6
  pub save_acl_v6 : AclV6 → Exec S (Unit {0})
  pub delete_neighbor_v6 : Str → Str → Exec S (Unit {0})
  pub flush_neighbors_v6 : Str → Exec S (Unit {0})
  pub dns_settings : Exec S DnsSettings
  pub save_dns_settings : DnsSettings → Exec S (Unit {0})
  pub dns_doh : Exec S DnsDoh
  pub save_dns_doh : DnsDoh → Exec S (Unit {0})
  pub dns_records : Exec S (List DnsRecord)
  pub save_dns_records : List DnsRecord → Exec S (Unit {0})
  pub dns_domain_routes : Exec S (List DnsDomainRoute)
  pub save_dns_domain_routes : List DnsDomainRoute → Exec S (Unit {0})
  pub flush_dns_cache : Exec S (Unit {0})
  pub net_ifaces : Exec S (List NetIface)
  pub save_net_iface : NetIface → Exec S (Unit {0})
  pub delete_net_iface : Str → Exec S (Unit {0})
  pub wan_action : Str → Str → Exec S (Unit {0})

-- The collections that the services read and replace.
pub record Config : Type 0 where
  pub servers : List DhcpServer
  pub statics : List StaticLease
  pub arp_bind : Bool
  pub acl : Acl
  pub routes : List Route
  pub policy_rules : List PolicyRule
  pub push_mode : Str
  pub wan_v6s : List WanV6
  pub lan_v6s : List LanV6
  pub prefix_statics_v6 : List PrefixStaticV6
  pub acl_v6 : AclV6
  pub dns : DnsSettings
  pub dns_doh : DnsDoh
  pub dns_records : List DnsRecord
  pub dns_domain_routes : List DnsDomainRoute
  pub net_ifaces : List NetIface

-- A read gives what the view shows, or fails, and changes nothing that the view shows.
pub record Reads {S A V : Type 0} (view : S → V) (m : Exec S A) (field : V → A) : Type 0 where
  pub keeps : (s : S) → view (m s).1 ≡ view s
  pub gives : (s : S) → ((e : Err) × ((m s).0 ≡ err e)) ⊎ ((m s).0 ≡ ok (field (view s)))

-- A write that succeeds replaces what it is about. One that fails may have done so already: the new
-- state can be in memory when storing it fails.
pub record Writes {S V : Type 0} (view : S → V) (m : Exec S (Unit {0})) (change : V → V)
    : Type 0 where
  pub outcome :
      (s : S)
      → (((m s).0 ≡ ok tt) × (view (m s).1 ≡ change (view s)))
        ⊎ ((e : Err) × ((m s).0 ≡ err e)
            × ((view (m s).1 ≡ view s) ⊎ (view (m s).1 ≡ change (view s))))

-- A list with no mode is a blacklist.
abbrev pub with_mode : AclV6 → AclV6
with_mode a = record {
  mode = if is_empty a.mode then acl_blacklist else a.mode;
  entries = a.entries;
}

-- What a backend promises of `SaveDNSSettings`: of the bookkeeping it keeps the stock, the servers and
-- the addresses, whatever the given settings say. The source's comment promises it of the rebind
-- domains too, which the code takes from the settings; so no more than the three is asked for.
abbrev pub keep_books : DnsSettings → DnsSettings → DnsSettings
keep_books old new = record new {
  saved_stock = old.saved_stock;
  prev_servers = old.prev_servers;
  prev_addrs = old.prev_addrs;
}

-- The service of the lines does not rely on it: it goes on behind a read that fails.
pub record Lawful {S : Type 0} (be : Backend S) (view : S → Config) : Type 0 where
  pub reads_servers : Reads view be.dhcp_servers (λ v. v.servers)
  pub writes_servers :
      (l : List DhcpServer) → Writes view (be.save_dhcp_servers l) (λ v. record v { servers = l })
  pub reads_statics : Reads view be.statics (λ v. v.statics)
  pub reads_arp : Reads view be.arp_bind (λ v. v.arp_bind)
  pub writes_statics :
      (l : List StaticLease) (arp : Bool)
      → Writes view (be.save_statics l arp) (λ v. record v { statics = l; arp_bind = arp })
  pub reads_acl : Reads view be.acl (λ v. v.acl)
  pub writes_acl : (a : Acl) → Writes view (be.save_acl a) (λ v. record v { acl = a })
  pub reads_routes : Reads view be.routes (λ v. v.routes)
  pub writes_routes :
      (l : List Route) → Writes view (be.save_routes l) (λ v. record v { routes = l })
  pub reads_rules : Reads view be.policy_rules (λ v. v.policy_rules)
  pub writes_rules :
      (l : List PolicyRule)
      → Writes view (be.save_policy_rules l) (λ v. record v { policy_rules = l })
  pub writes_push_mode :
      (m : Str) → Writes view (be.save_route_push_mode m) (λ v. record v { push_mode = m })
  pub reads_wans : Reads view be.wan_v6s (λ v. v.wan_v6s)
  pub writes_wans :
      (l : List WanV6) → Writes view (be.save_wan_v6s l) (λ v. record v { wan_v6s = l })
  pub reads_lans : Reads view be.lan_v6s (λ v. v.lan_v6s)
  pub writes_lans :
      (l : List LanV6) → Writes view (be.save_lan_v6s l) (λ v. record v { lan_v6s = l })
  pub reads_prefixes : Reads view be.prefix_statics_v6 (λ v. v.prefix_statics_v6)
  pub writes_prefixes :
      (l : List PrefixStaticV6)
      → Writes view (be.save_prefix_statics_v6 l) (λ v. record v { prefix_statics_v6 = l })
  -- A missing mode may be given as the blacklist already.
  pub reads_acl_v6 : Reads view be.acl_v6 (λ v. with_mode v.acl_v6)
  pub writes_acl_v6 : (a : AclV6) → Writes view (be.save_acl_v6 a) (λ v. record v { acl_v6 = a })
  pub reads_dns : Reads view be.dns_settings (λ v. v.dns)
  pub writes_dns :
      (d : DnsSettings)
      → Writes view (be.save_dns_settings d) (λ v. record v { dns = keep_books v.dns d })
  pub reads_doh : Reads view be.dns_doh (λ v. v.dns_doh)
  pub writes_doh : (d : DnsDoh) → Writes view (be.save_dns_doh d) (λ v. record v { dns_doh = d })
  pub reads_records : Reads view be.dns_records (λ v. v.dns_records)
  pub writes_records :
      (l : List DnsRecord) → Writes view (be.save_dns_records l) (λ v. record v { dns_records = l })
  pub reads_domain_routes : Reads view be.dns_domain_routes (λ v. v.dns_domain_routes)
  pub writes_domain_routes :
      (l : List DnsDomainRoute)
      → Writes view (be.save_dns_domain_routes l) (λ v. record v { dns_domain_routes = l })
  pub flushes : Writes view be.flush_dns_cache (λ v. v)
  pub deletes_neighbor : (a d : Str) → Writes view (be.delete_neighbor_v6 a d) (λ v. v)
  pub flushes_neighbors : (d : Str) → Writes view (be.flush_neighbors_v6 d) (λ v. v)
