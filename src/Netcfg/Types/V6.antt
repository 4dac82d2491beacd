-- ===== src/Netcfg/Types/V6.antt =====
-- internal/netcfg/ipv6_types.go: the records of the IPv6 domain that are kept.
use kwrt_net_manager.Prelude.{Bool, List, Str, codes, ℤ}

pub record WanV6 : Type 0 where
  pub id : Str
  pub name : Str
  pub wan_iface : Str
  pub device : Str
  pub proto : Str
  pub enabled : Bool
  pub req_prefix : Str
  pub fixed_prefix : Str
  pub force_prefix : Bool
  pub client_id : Str
  pub no_release : Bool
  pub peer_dns : Bool
  pub dns_primary : Str
  pub dns_secondary : Str
  pub static_ip6 : Str
  pub static_gw : Str
  pub peer_addr : Str
  pub tun_prefix : Str
  pub mtu : ℤ
  pub remark : Str
  pub ip6_address : Str
  pub ip6_gateway : Str
  pub ip6_prefix : Str
  pub local_link : Str
  pub up : Bool
  pub managed : Bool

pub record LanV6 : Type 0 where
  pub id : Str
  pub interface : Str
  pub config_type : Str
  pub bind_wan : Str
  pub prefix_assign_len : ℤ
  pub prefix_hint : Str
  pub static_ip6 : Str
  pub dhcpv6_enabled : Bool
  pub dhcpv6_mode : Str
  pub ipv6_dns_enabled : Bool
  pub dns_servers : List Str
  pub lease_minutes : ℤ
  pub ra_mtu_enabled : Bool
  pub ra_mtu : ℤ
  pub enabled : Bool
  pub remark : Str
  pub ip6_address : Str
  pub local_link : Str
  pub managed : Bool

pub record PrefixStaticV6 : Type 0 where
  pub id : Str
  pub local_link : Str
  pub lan_interface : Str
  pub wan_line : Str
  pub duid : Str
  pub host_id : Str
  pub mac : Str
  pub remark : Str
  pub enabled : Bool
  pub managed : Bool

pub record AclV6Entry : Type 0 where
  pub id : Str
  pub mac : Str
  pub duid : Str
  pub method : Str
  pub remark : Str
  pub enabled : Bool
  pub managed : Bool

pub record AclV6 : Type 0 where
  pub mode : Str
  pub entries : List AclV6Entry

abbrev pub proto_dhcpv6 : Str
proto_dhcpv6 = codes "dhcpv6"

abbrev pub proto_static6 : Str
proto_static6 = codes "static6"

abbrev pub proto_6in4 : Str
proto_6in4 = codes "6in4"

abbrev pub proto_6to4 : Str
proto_6to4 = codes "6to4"

abbrev pub proto_6rd : Str
proto_6rd = codes "6rd"

abbrev pub config_auto : Str
config_auto = codes "auto"

abbrev pub config_static : Str
config_static = codes "static"

abbrev pub dhcpv6_stateless : Str
dhcpv6_stateless = codes "stateless"

abbrev pub dhcpv6_stateful : Str
dhcpv6_stateful = codes "stateful"

abbrev pub dhcpv6_stateful_only : Str
dhcpv6_stateful_only = codes "stateful_only"

abbrev pub acl_v6_duid : Str
acl_v6_duid = codes "duid"

abbrev pub acl_v6_l2 : Str
acl_v6_l2 = codes "l2mac"
