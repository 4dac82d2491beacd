-- ===== src/Netcfg/Types/Iface.antt =====
-- internal/netcfg/iface_types.go: a configured line (LAN or WAN) and its further addresses. A
-- `*bool` is an option.
use kwrt_net_manager.Prelude.{Bool, Option, List, Str, codes, ℤ, if◌then◌else◌}

pub record IfaceAddr : Type 0 where
  pub address : Str
  pub prefix : ℤ
  pub family : Str
  pub remark : Str
  pub enabled : Bool

pub record NetIface : Type 0 where
  pub id : Str
  pub name : Str
  pub role : Str
  pub proto : Str
  pub device : Str
  pub ports : List Str
  pub ipaddr : Str
  pub netmask : Str
  pub gateway : Str
  pub dns : List Str
  pub dns_metric : ℤ
  pub dns_primary_legacy : Str
  pub dns_secondary_legacy : Str
  pub username : Str
  pub password : Str
  pub service : Str
  pub ac : Str
  pub mtu : ℤ
  pub default_gw : Bool
  pub clone_mac : Str
  pub remark : Str
  pub extra_addrs : List IfaceAddr
  pub metric : ℤ
  pub peer_dns : Option Bool
  pub broadcast : Str
  pub force_link : Option Bool
  pub auto : Option Bool
  pub ip6_assign : ℤ
  pub ip6_hint : Str
  pub ip6_gw : Str
  pub ip6_prefix : Str
  pub ip6_iface_id : Str
  pub keepalive : Str
  pub pppoe_v6 : Option Bool
  pub up : Bool
  pub runtime_ip : Str
  pub status : Str

abbrev pub role_lan : Str
role_lan = codes "lan"

abbrev pub role_wan : Str
role_wan = codes "wan"

abbrev pub proto_static : Str
proto_static = codes "static"

abbrev pub proto_dhcp : Str
proto_dhcp = codes "dhcp"

abbrev pub proto_pppoe : Str
proto_pppoe = codes "pppoe"

-- `runtimeStatus`
abbrev pub runtime_status : Bool → Bool → Str
runtime_status up pending =
    if up then codes "connected" else if pending then codes "connecting" else codes "disconnected"
