-- ===== src/Examples/Service.antt =====
-- internal/netcfg at concrete records, over the store backend.
use kwrt_net_manager.Prelude.{
  ℕ, ◌+◌, ◌≡◌, refl, arith, Str, codes, some, pos, true, false, [], ◌∷◌, ◌==◌,
}
use kwrt_net_manager.Go.Ip.{parse_ip, to4, v4_loop}
use kwrt_net_manager.Go.Mac.{parse_mac, octets, hex_byte, hex_digit}
use kwrt_net_manager.Go.Strings.{
  trim_space, trim_left, trim_right, is_space, replace_all, to_upper, upper,
}
use kwrt_net_manager.Netutil.{
  ipv4_to_uint32, mask_to_prefix, mask_loop, is_valid_netmask, is_ipv4, range_count,
}
use kwrt_net_manager.Netutil.MacAddr.{
  normalize_mac, byte_hex, hex_char, join_colon, parts, or_blank,
}
use kwrt_net_manager.Netcfg.Result.{ok, err, backend}
use kwrt_net_manager.Netcfg.Types.{DhcpServer, StaticLease, AclEntry, acl_blacklist, route_push_off}
use kwrt_net_manager.Netcfg.Types.Dns.{DnsSettings}
use kwrt_net_manager.Netcfg.Validate.{
  validate_static, validate_dhcp_server, validate_acl_entry, check_excludes, check_options,
}
use kwrt_net_manager.Netcfg.Validate.Laws.{IsStatic, validate_static-IsStatic}
use kwrt_net_manager.Netcfg.Validate.PoolLaws.{IsPool, validate_dhcp_server-IsPool}
use kwrt_net_manager.Netcfg.Backend.{Config, Lawful}
use kwrt_net_manager.Netcfg.Store.Files.{Outcomes, whole, absent, flush_disk}
use kwrt_net_manager.Netcfg.Store.Durable.{start, saved, Runs-whole}
use kwrt_net_manager.Netcfg.Store.{Store, store_backend, save, flush}
use kwrt_net_manager.Netcfg.Store.Contract.{store_backend-Lawful, memory_of}
use kwrt_net_manager.Netcfg.Service.{World}
use kwrt_net_manager.Netcfg.Service.Statics.{create_static, delete_static}
use kwrt_net_manager.Netcfg.Service.Statics.Unique.{IsTable}
use kwrt_net_manager.Netcfg.Service.Statics.Reach.{
  Reached, start, created, deleted, Reached-IsTable,
}
use kwrt_net_manager.Netcfg.Service.Leases.{next_free_ip}
use kwrt_net_manager.Netcfg.Service.Leases.Free.{IsFirstFree, next_free_ip-IsFirstFree}

abbrev pub empty_dns : DnsSettings
empty_dns = record {
  enabled = false;
  dns_primary = [];
  dns_secondary = [];
  no_resolv = false;
  filter_aaaa = false;
  cache_size = pos 0;
  local_ttl = pos 0;
  min_cache_ttl = pos 0;
  max_cache_ttl = pos 0;
  force_proxy = false;
  dnssec = false;
  rebind_protect = false;
  all_servers = false;
  rebind_domains = [];
  saved_stock = [];
  prev_servers = [];
  prev_addrs = [];
  prev_rebind_domains = [];
}

abbrev pub empty_config : Config
empty_config = record {
  servers = [];
  statics = [];
  arp_bind = false;
  acl = record { mode = acl_blacklist; entries = [] };
  routes = [];
  policy_rules = [];
  push_mode = route_push_off;
  wan_v6s = [];
  lan_v6s = [];
  prefix_statics_v6 = [];
  acl_v6 = record { mode = acl_blacklist; entries = [] };
  dns = empty_dns;
  dns_doh = record {
    enabled = false;
    resolver_url = [];
    listen_port = pos 5053;
    bootstrap_dns = [];
  };
  dns_records = [];
  dns_domain_routes = [];
  net_ifaces = [];
}

abbrev pub empty_store : Store
empty_store = record {
  mem = empty_config;
  notes = [];
  disk = record { at_path = whole (empty_config, []); at_tmp = absent };
  writes = 0;
}

-- A disk that takes every write.
abbrev pub good_disk : ℕ → Outcomes
good_disk _ = record {
  made = ok tt;
  encoded = ok tt;
  written = ok tt;
  begun = false;
  renamed = ok tt;
}

-- A disk that fails in the middle of each write.
abbrev torn_disk : ℕ → Outcomes
torn_disk _ = record {
  made = ok tt;
  encoded = ok tt;
  written = err (backend 28);
  begun = true;
  renamed = ok tt;
}

-- The random source counts.
abbrev pub counter : ℕ → Str
counter n = (48 + n) ∷ []

abbrev pub at_start : World Store
at_start = record { be = empty_store; drawn = 0; bus = some [] }

abbrev printer : StaticLease
printer = record {
  id = [];
  hostname = codes "printer";
  ip = codes "192.168.1.50";
  mac = codes "aa-bb-cc-dd-ee-0f";
  gateway = [];
  interface = codes " lan";
  dns_primary = [];
  dns_secondary = [];
  remark = [];
  enabled = true;
  route_push = false;
  managed = false;
}

abbrev behind_create : World Store
behind_create = (create_static (store_backend good_disk) counter printer at_start).1

abbrev behind_delete : World Store
behind_delete = (delete_static (store_backend good_disk) (codes "host_0") behind_create).1

steps : Reached (store_backend good_disk) memory_of counter at_start behind_delete
steps = deleted behind_create (codes "host_0") (created at_start printer start tt)

Reached-IsTable_example : IsTable behind_delete.be.mem.statics
Reached-IsTable_example =
    Reached-IsTable (store_backend good_disk) memory_of (store_backend-Lawful good_disk) counter
      at_start behind_delete steps (record { each = tt; pairs = tt })

abbrev pub lan_pool : DhcpServer
lan_pool = record {
  id = [];
  interface = codes " lan ";
  enabled = true;
  ip_start = codes "192.168.1.100";
  ip_end = codes "192.168.1.200";
  force = true;
  netmask = codes "255.255.255.0";
  gateway = codes "192.168.1.1";
  dns_primary = [];
  dns_secondary = [];
  lease_minutes = pos 0;
  exclude = [];
  custom_options = [];
  remaining = pos 0;
  managed = false;
}

pub pool_start : ipv4_to_uint32 lan_pool.ip_start ≡ some 3232235876
unfolding ipv4_to_uint32 parse_ip v4_loop trim_space trim_left trim_right is_space to4
pool_start = refl

pub pool_end : ipv4_to_uint32 lan_pool.ip_end ≡ some 3232235976
unfolding ipv4_to_uint32 parse_ip v4_loop trim_space trim_left trim_right is_space to4
pool_end = refl

next_free_ip-IsFirstFree_example :
    IsFirstFree
      (λ u. u == 3232235876)
      3232235876
      3232235976
      (next_free_ip 200 lan_pool (λ u. u == 3232235876))
next_free_ip-IsFirstFree_example =
    next_free_ip-IsFirstFree 200 lan_pool (λ u. u == 3232235876) 3232235876 3232235976 pool_start
      pool_end (omega arith) (omega arith)

store_backend-Lawful_example : Lawful (store_backend good_disk) memory_of
store_backend-Lawful_example = store_backend-Lawful good_disk

Runs-whole_example :
    (save torn_disk (λ v. record v { arp_bind = true }) empty_store).1.disk.at_path
    ≡ whole (empty_config, [])
unfolding save flush flush_disk
Runs-whole_example =
    Runs-whole torn_disk empty_store (empty_config, []) (empty_config, [])
      (save torn_disk (λ v. record v { arp_bind = true }) empty_store).1
      (saved (empty_config, []) empty_store (λ v. record v { arp_bind = true }) start) refl

printer_checked :
    validate_static printer
    ≡ ok (record printer { mac = codes "AA:BB:CC:DD:EE:0F"; interface = codes "lan" })
unfolding validate_static is_ipv4 ipv4_to_uint32 parse_ip v4_loop trim_space trim_left trim_right
    is_space to4 normalize_mac parse_mac octets hex_byte hex_digit replace_all to_upper upper
    byte_hex hex_char join_colon parts or_blank
printer_checked = refl

validate_static-IsStatic_example :
    IsStatic (record printer { mac = codes "AA:BB:CC:DD:EE:0F"; interface = codes "lan" })
validate_static-IsStatic_example = validate_static-IsStatic printer _ printer_checked

pool_checked : validate_dhcp_server lan_pool ≡ ok (record lan_pool { interface = codes "lan" })
unfolding validate_dhcp_server check_excludes check_options range_count mask_to_prefix mask_loop
    is_valid_netmask is_ipv4 ipv4_to_uint32 parse_ip v4_loop trim_space trim_left trim_right
    is_space to4
pool_checked = refl

validate_dhcp_server-IsPool_example : IsPool (record lan_pool { interface = codes "lan" })
validate_dhcp_server-IsPool_example = validate_dhcp_server-IsPool lan_pool _ pool_checked

abbrev guest : AclEntry
guest = record {
  id = [];
  mac = codes "AA:BB:CC:DD:EE:0F";
  remark = [];
  enabled = true;
  managed = false;
}

guest_checked : validate_acl_entry guest ≡ ok guest
unfolding validate_acl_entry normalize_mac parse_mac octets hex_byte hex_digit replace_all to_upper
    upper byte_hex hex_char join_colon parts or_blank trim_space trim_left trim_right is_space
guest_checked = refl
