-- ===== src/Netcfg/Types.antt =====
-- internal/netcfg/types.go: the records of the DHCP and routing domain, with the fields of the
-- source.
pub mod Dns
pub mod V6
pub mod Iface
use kwrt_net_manager.Prelude.{Bool, List, Str, codes, ℤ}

pub record CustomOption : Type 0 where
  pub code : ℤ
  pub value : Str
  pub kind : Str

pub record DhcpServer : Type 0 where
  pub id : Str
  pub interface : Str
  pub enabled : Bool
  pub ip_start : Str
  pub ip_end : Str
  pub force : Bool
  pub netmask : Str
  pub gateway : Str
  pub dns_primary : Str
  pub dns_secondary : Str
  pub lease_minutes : ℤ
  pub exclude : List Str
  pub custom_options : List CustomOption
  pub remaining : ℤ
  pub managed : Bool

pub record StaticLease : Type 0 where
  pub id : Str
  pub hostname : Str
  pub ip : Str
  pub mac : Str
  pub gateway : Str
  pub interface : Str
  pub dns_primary : Str
  pub dns_secondary : Str
  pub remark : Str
  pub enabled : Bool
  pub route_push : Bool
  pub managed : Bool

pub record Lease : Type 0 where
  pub hostname : Str
  pub ip : Str
  pub mac : Str
  pub expiry : ℤ
  pub remaining_seconds : ℤ
  pub interface : Str
  pub is_static : Bool
  pub remark : Str
  pub vendor : Str

pub record AclEntry : Type 0 where
  pub id : Str
  pub mac : Str
  pub remark : Str
  pub enabled : Bool
  pub managed : Bool

pub record Acl : Type 0 where
  pub mode : Str
  pub entries : List AclEntry

pub record Route : Type 0 where
  pub id : Str
  pub family : Str
  pub interface : Str
  pub target : Str
  pub netmask : Str
  pub prefix : ℤ
  pub gateway : Str
  pub metric : ℤ
  pub kind : Str
  pub mtu : ℤ
  pub table : ℤ
  pub remark : Str
  pub enabled : Bool
  pub push_to_clients : Bool
  pub managed : Bool

pub record PolicyRule : Type 0 where
  pub id : Str
  pub family : Str
  pub enabled : Bool
  pub priority : ℤ
  pub src : Str
  pub dest : Str
  pub in_iface : Str
  pub lookup : Str
  pub remark : Str
  pub managed : Bool

pub record Interface : Type 0 where
  pub name : Str
  pub ipv4 : Str
  pub netmask : Str
  pub prefix : ℤ
  pub is_up : Bool

pub record RouteEntry : Type 0 where
  pub interface : Str
  pub target : Str
  pub netmask : Str
  pub gateway : Str
  pub metric : ℤ

-- The constants of the package.
abbrev pub acl_blacklist : Str
acl_blacklist = codes "blacklist"

abbrev pub acl_whitelist : Str
acl_whitelist = codes "whitelist"

abbrev pub family_ipv4 : Str
family_ipv4 = codes "ipv4"

abbrev pub family_ipv6 : Str
family_ipv6 = codes "ipv6"

abbrev pub route_push_off : Str
route_push_off = codes "off"

abbrev pub route_push_all : Str
route_push_all = codes "all"

abbrev pub route_push_tagged : Str
route_push_tagged = codes "tagged"
