-- ===== src/Examples/V6.antt =====
-- internal/netcfg, the IPv6 service at concrete records, over the store backend.
use kwrt_net_manager.Prelude.{
  ◌≡◌, ◌⊎◌, refl, List, Str, str_eq, codes, pos, true, false, [], ◌∷◌, ◌++◌,
}
use kwrt_net_manager.Go.Strings.{trim_space, trim_left, trim_right, is_space}
use kwrt_net_manager.Netcfg.Names.{uci_name, next_v6_id}
use kwrt_net_manager.Netcfg.Names.Fresh.{IsFresh, next_v6_id-IsFresh}
use kwrt_net_manager.Netcfg.Result.{ok}
use kwrt_net_manager.Netcfg.Types.V6.{WanV6, LanV6, proto_dhcpv6, config_auto, dhcpv6_stateful}
use kwrt_net_manager.Netcfg.Validate.V6.{
  validate_wan_v6, validate_lan_v6, check_proto, check_access, check_dhcp_client, check_config_type,
  check_dhcpv6_mode, check_dns_servers,
}
use kwrt_net_manager.Netcfg.Validate.V6.Wan.{IsWan, validate_wan_v6-IsWan}
use kwrt_net_manager.Netcfg.Store.{store_backend}
use kwrt_net_manager.Netcfg.Store.Contract.{store_backend-Lawful, memory_of}
use kwrt_net_manager.Netcfg.Service.{in_set}
use kwrt_net_manager.Netcfg.Service.Collection.Outcome.{Outcome, Stopped}
use kwrt_net_manager.Netcfg.Service.V6.{
  ids_of_wan_v6, wan_collection, lan_collection, create_wan_v6, create_lan_v6,
}
use kwrt_net_manager.Netcfg.Service.V6.Kept.{with_wans, lans_of, with_lans, Kept-lans}
use kwrt_net_manager.Netcfg.Service.V6.Fresh.{
  ids_of_lans, named_wan, named_lan, create_wan_v6-fresh, create_lan_v6-ends,
}
use kwrt_net_manager.Examples.Service.{good_disk, at_start}

abbrev taken_ids : List Str
taken_ids = codes "wan6" ∷ codes "lan" ∷ codes "wan62" ∷ []

next_v6_id-IsFresh_example : IsFresh taken_ids (codes "wan6") (next_v6_id taken_ids (codes "wan6"))
next_v6_id-IsFresh_example = next_v6_id-IsFresh taken_ids (codes "wan6")

abbrev line : WanV6
line = record {
  id = codes " ";
  name = [];
  wan_iface = codes "wan";
  device = codes "eth0";
  proto = [];
  enabled = true;
  req_prefix = codes "auto";
  fixed_prefix = [];
  force_prefix = false;
  client_id = [];
  no_release = false;
  peer_dns = true;
  dns_primary = [];
  dns_secondary = [];
  static_ip6 = [];
  static_gw = [];
  peer_addr = [];
  tun_prefix = [];
  mtu = pos 1492;
  remark = [];
  ip6_address = [];
  ip6_gateway = [];
  ip6_prefix = [];
  local_link = [];
  up = false;
  managed = false;
}

abbrev line_checked : WanV6
line_checked = record line { id = []; proto = proto_dhcpv6 }

line_valid : validate_wan_v6 line ≡ ok line_checked
unfolding validate_wan_v6 check_proto check_access check_dhcp_client trim_space trim_left trim_right
    is_space str_eq
line_valid = refl

line_blank : trim_space line_checked.id ≡ []
unfolding trim_space trim_left trim_right
line_blank = refl

validate_wan_v6-IsWan_example : IsWan line_checked
validate_wan_v6-IsWan_example = validate_wan_v6-IsWan line line_checked line_valid

create_wan_v6-fresh_example :
    (in_set
        (ids_of_wan_v6 [])
        (named_wan
          (store_backend good_disk)
          memory_of
          (store_backend-Lawful good_disk)
          line_checked
          at_start).id
      ≡ false)
    × Outcome
        (wan_collection (store_backend good_disk))
        memory_of
        with_wans
        at_start
        (codes "create")
        ([]
          ++ named_wan
              (store_backend good_disk)
              memory_of
              (store_backend-Lawful good_disk)
              line_checked
              at_start
            ∷ [])
        tt
        (named_wan
          (store_backend good_disk)
          memory_of
          (store_backend-Lawful good_disk)
          line_checked
          at_start)
        (create_wan_v6 (store_backend good_disk) line at_start)
create_wan_v6-fresh_example =
    create_wan_v6-fresh (store_backend good_disk) memory_of (store_backend-Lawful good_disk) line
      line_checked at_start line_valid line_blank

abbrev home : LanV6
home = record {
  id = [];
  interface = codes "lan ";
  config_type = [];
  bind_wan = [];
  prefix_assign_len = pos 64;
  prefix_hint = [];
  static_ip6 = [];
  dhcpv6_enabled = true;
  dhcpv6_mode = [];
  ipv6_dns_enabled = false;
  dns_servers = [];
  lease_minutes = pos 120;
  ra_mtu_enabled = false;
  ra_mtu = pos 0;
  enabled = true;
  remark = [];
  ip6_address = [];
  local_link = [];
  managed = false;
}

abbrev home_checked : LanV6
home_checked = record home {
  id = codes "lan";
  interface = codes "lan";
  config_type = config_auto;
  dhcpv6_mode = dhcpv6_stateful;
}

home_valid : validate_lan_v6 home ≡ ok home_checked
unfolding validate_lan_v6 check_config_type check_dhcpv6_mode check_dns_servers trim_space trim_left
    trim_right is_space str_eq
home_valid = refl

abbrev named : LanV6 → LanV6
named = named_lan (store_backend good_disk) memory_of (store_backend-Lawful good_disk)

create_lan_v6-ends_example :
    ((in_set (ids_of_lans []) (uci_name (codes "lan")) ≡ true)
      × Stopped
          (lan_collection (store_backend good_disk))
          memory_of
          lans_of
          with_lans
          (Kept-lans (store_backend good_disk) memory_of (store_backend-Lawful good_disk))
          at_start
          (create_lan_v6 (store_backend good_disk) home at_start))
    ⊎ ((in_set (ids_of_lans []) (uci_name (codes "lan")) ≡ false)
        × Outcome
            (lan_collection (store_backend good_disk))
            memory_of
            with_lans
            at_start
            (codes "create")
            (named home_checked ∷ [])
            tt
            (named home_checked)
            (create_lan_v6 (store_backend good_disk) home at_start))
create_lan_v6-ends_example =
    create_lan_v6-ends (store_backend good_disk) memory_of (store_backend-Lawful good_disk) home
      home_checked at_start home_valid
