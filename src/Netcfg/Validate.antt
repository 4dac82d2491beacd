-- ===== src/Netcfg/Validate.antt =====
-- internal/netcfg/validate.go and the check of policyrule.go: each returns the record as the check leaves it, or the error.
pub mod Iface
pub mod Laws
pub mod RouteLaws
pub mod PoolLaws
pub mod RuleLaws
pub mod Dns
pub mod V6
use kwrt_net_manager.Prelude.{
  ℕ, Bool, true, false, ◌&&◌, ◌||◌, not, Option, none, some, List, [], ◌∷◌, Str, codes, str_eq,
  is_empty, ℤ, pos, is_neg, ltℤ, ◌==◌, if◌then◌else◌,
}
use kwrt_net_manager.Go.Strings.{trim_space}
use kwrt_net_manager.Go.Strconv.{parse_int}
use kwrt_net_manager.Go.Ip.{parse_ip, is_cidr}
use kwrt_net_manager.Netutil.{
  is_some, is_ipv4, is_ipv6, is_ip, is_valid_netmask, mask_to_prefix, prefix_to_mask, range_count,
}
use kwrt_net_manager.Netutil.MacAddr.{normalize_mac}
use kwrt_net_manager.Netutil.Lines.{parse_exclude_line}
use kwrt_net_manager.Netcfg.Result.{
  Err, Result, ok, err, ◌>>=◌, ◌>>◌, reject, empty_interface, bad_pool_ends, bad_pool_order,
  bad_netmask, bad_gateway, bad_dns_primary, bad_dns_secondary, negative_lease, bad_exclude,
  bad_option_code, bad_mac, bad_static_ip, bad_family, bad_target_v4, bad_target_v6, bad_prefix,
  negative_metric, bad_route_type, bad_mtu, bad_table, no_lookup, bad_lookup, bad_priority,
  bad_src_dest,
}
use kwrt_net_manager.Netcfg.Types.{
  CustomOption, DhcpServer, StaticLease, AclEntry, Route, PolicyRule, family_ipv4, family_ipv6,
}

-- `s != "" && !netutil.IsIPv4(s)`
abbrev pub given_not_ipv4 : Str → Bool
given_not_ipv4 s = not (is_empty s) && not (is_ipv4 s)

abbrev pub positive_count : Option ℕ → Bool
positive_count none = false
positive_count (some n) = not (n == 0)

-- The loop over the exclude lines; blank lines are passed over.
unfoldable pub check_excludes : List Str → Result (Unit {0})
check_excludes [] = ok tt
check_excludes (line ∷ lines) =
    let rest = check_excludes lines in
    if is_empty (trim_space line)
    then rest
    else if is_some (parse_exclude_line line)
    then rest
    else err bad_exclude

unfoldable pub check_options : List CustomOption → Result (Unit {0})
check_options [] = ok tt
check_options (o ∷ os) =
    let rest = check_options os in
    if ltℤ o.code (pos 1) || ltℤ (pos 254) o.code then err bad_option_code else rest

unfoldable pub validate_dhcp_server : DhcpServer → Result DhcpServer
validate_dhcp_server s = do
  let interface = trim_space s.interface
  reject (is_empty interface) empty_interface
  reject (not (is_ipv4 s.ip_start) || not (is_ipv4 s.ip_end)) bad_pool_ends
  reject (not (positive_count (range_count s.ip_start s.ip_end))) bad_pool_order
  reject (not (is_empty s.netmask) && not (is_valid_netmask s.netmask)) bad_netmask
  reject (given_not_ipv4 s.gateway) bad_gateway
  reject (given_not_ipv4 s.dns_primary) bad_dns_primary
  reject (given_not_ipv4 s.dns_secondary) bad_dns_secondary
  reject (is_neg s.lease_minutes) negative_lease
  check_excludes s.exclude
  check_options s.custom_options
  ok (record s { interface = interface })

unfoldable pub validate_static : StaticLease → Result StaticLease
validate_static s = do
  let mac = normalize_mac s.mac
  reject (is_empty mac) bad_mac
  reject (not (is_ipv4 s.ip)) bad_static_ip
  reject (given_not_ipv4 s.gateway) bad_gateway
  reject (given_not_ipv4 s.dns_primary) bad_dns_primary
  reject (given_not_ipv4 s.dns_secondary) bad_dns_secondary
  ok (record s { mac = mac; interface = trim_space s.interface })

-- `switch r.Family`: the empty family is IPv4.
unfoldable pub check_family : Str → Result Str
check_family family =
    if is_empty family || str_eq family family_ipv4
    then ok family_ipv4
    else if str_eq family family_ipv6
    then ok family_ipv6
    else err bad_family

unfoldable pub of_mask : Str → Option ℕ → Result (Str × ℤ)
of_mask m none = err bad_netmask
of_mask m (some p) = ok (m, pos p)

-- A netmask gives the prefix; without one the prefix gives the netmask.
unfoldable pub sync_mask : Str → ℤ → Result (Str × ℤ)
sync_mask netmask prefix =
    if not (is_empty netmask)
    then of_mask netmask (mask_to_prefix netmask)
    else if is_neg prefix || ltℤ (pos 32) prefix
    then err bad_prefix
    else ok (prefix_to_mask prefix, prefix)

unfoldable pub check_ipv4_route : Route → Result Route
check_ipv4_route r = do
  reject (not (is_ipv4 r.target)) bad_target_v4
  synced ← sync_mask r.netmask r.prefix
  reject (given_not_ipv4 r.gateway) bad_gateway
  ok (record r { netmask = synced.0; prefix = synced.1 })

unfoldable pub check_ipv6_route : Route → Result Route
check_ipv6_route r = do
  reject (not (is_ipv6 r.target)) bad_target_v6
  reject (is_neg r.prefix || ltℤ (pos 128) r.prefix) bad_prefix
  reject (not (is_empty r.gateway) && not (is_ip r.gateway)) bad_gateway
  ok (record r { netmask = [] })

unfoldable pub known_route_type : Str → Bool
known_route_type t =
    is_empty t
    || str_eq t (codes "unicast")
    || str_eq t (codes "blackhole")
    || str_eq t (codes "unreachable")
    || str_eq t (codes "prohibit")

unfoldable pub check_route_numbers : Route → Result Route
check_route_numbers r = do
  reject (is_neg r.metric) negative_metric
  reject (not (known_route_type r.kind)) bad_route_type
  reject (is_neg r.mtu || ltℤ (pos 65535) r.mtu) bad_mtu
  reject (is_neg r.table || ltℤ (pos 255) r.table) bad_table
  ok r

unfoldable pub check_by_family : Route → Result Route
check_by_family r = if str_eq r.family family_ipv4 then check_ipv4_route r else check_ipv6_route r

abbrev or_auto : Str → Str
or_auto line = if is_empty line then codes "auto" else line

unfoldable pub validate_route : Route → Result Route
validate_route r = do
  family ← check_family r.family
  checked ←
      check_by_family (record r { family = family; interface = or_auto (trim_space r.interface) })
  check_route_numbers checked

-- Routes of the other types have no next hop.
unfoldable pub route_has_nexthop : Str → Bool
route_has_nexthop kind = is_empty kind || str_eq kind (codes "unicast")

unfoldable pub validate_acl_entry : AclEntry → Result AclEntry
validate_acl_entry e = do
  let mac = normalize_mac e.mac
  reject (is_empty mac) bad_mac
  ok (record e { mac = mac })

-- internal/netcfg/policyrule.go, `looksLikeIPOrCIDR`
unfoldable pub looks_like_ip_or_cidr : Str → Bool
looks_like_ip_or_cidr s = is_cidr s || is_some (parse_ip s)

abbrev pub table_number : Option ℤ → Bool
table_number none = false
table_number (some n) = not (ltℤ n (pos 1)) && not (ltℤ (pos 255) n)

-- internal/netcfg/policyrule.go, `validatePolicyRule`
unfoldable pub validate_policy_rule : PolicyRule → Result PolicyRule
unfolding looks_like_ip_or_cidr
validate_policy_rule r = do
  family ← check_family r.family
  let src = trim_space r.src
  let dest = trim_space r.dest
  let lookup = trim_space r.lookup
  reject (is_empty lookup) no_lookup
  reject (not (table_number (parse_int lookup))) bad_lookup
  reject (is_neg r.priority || ltℤ (pos 65535) r.priority) bad_priority
  reject (not (is_empty src) && not (looks_like_ip_or_cidr src)) bad_src_dest
  reject (not (is_empty dest) && not (looks_like_ip_or_cidr dest)) bad_src_dest
  ok (record r {
    family = family;
    src = src;
    dest = dest;
    in_iface = trim_space r.in_iface;
    lookup = lookup;
  })
