-- ===== src/Netcfg/Validate/Iface.antt =====
-- internal/netcfg/iface.go: the tests of a line, alone and against the other lines and the pools.
pub mod Lists
pub mod Laws
pub mod Kept
use kwrt_net_manager.Prelude.{
  Bool, true, false, ◌&&◌, ◌||◌, not, List, [], ◌∷◌, Str, str_eq, is_empty, ℤ, pos, is_neg, ltℤ, ℕ,
  ◌+◌, leb, if◌then◌else◌,
}
use kwrt_net_manager.Go.Strings.{trim_space, before_byte}
use kwrt_net_manager.Netutil.{is_ipv4, is_ipv6, is_valid_netmask, same_subnet}
use kwrt_net_manager.Netutil.MacAddr.{is_mac}
use kwrt_net_manager.Netcfg.Result.{
  Result, ok, err, ◌>>=◌, ◌>>◌, reject, bad_role, bad_lan_ip, bad_netmask, no_username, bad_wan_ip,
  bad_gateway, bad_proto, bad_mtu, bad_dns_v6, repeated_dns, negative_dns_metric, bad_extra_v4,
  bad_extra_prefix_v4, bad_extra_v6, bad_extra_prefix_v6, bad_extra_family, repeated_address,
  bad_clone_mac, negative_metric, bad_ip6_assign, bad_ip6_gateway, bad_ip6_prefix, bad_broadcast,
  ip_conflict, pool_outside_lan, last_lan,
}
use kwrt_net_manager.Netcfg.Types.{DhcpServer, family_ipv4, family_ipv6}
use kwrt_net_manager.Netcfg.Types.Iface.{
  IfaceAddr, NetIface, role_lan, role_wan, proto_static, proto_dhcp, proto_pppoe,
}
use kwrt_net_manager.Netcfg.Service.{in_set}

abbrev pub given_not_v4 : Str → Bool
given_not_v4 s = not (is_empty s) && not (is_ipv4 s)

abbrev pub given_not_v6 : Str → Bool
given_not_v6 s = not (is_empty s) && not (is_ipv6 s)

unfoldable pub check_lan : NetIface → Result Str
check_lan x = do
  reject (not (is_ipv4 x.ipaddr)) bad_lan_ip
  reject (not (is_empty x.netmask) && not (is_valid_netmask x.netmask)) bad_netmask
  ok proto_static

unfoldable pub check_static_wan : NetIface → Result Str
check_static_wan x = do
  reject (not (is_ipv4 x.ipaddr)) bad_wan_ip
  reject (given_not_v4 x.gateway) bad_gateway
  ok proto_static

-- The switch over the kind of access of a WAN.
unfoldable pub check_wan : NetIface → Result Str
check_wan x =
    if str_eq x.proto proto_pppoe
    then (if is_empty (trim_space x.username) then err no_username else ok proto_pppoe)
    else if str_eq x.proto proto_static
    then check_static_wan x
    else if str_eq x.proto proto_dhcp || is_empty x.proto
    then ok proto_dhcp
    else err bad_proto

-- The kind of access, by the role.
unfoldable pub check_role : NetIface → Result Str
check_role x =
    if str_eq x.role role_lan
    then check_lan x
    else if str_eq x.role role_wan
    then check_wan x
    else err bad_role

-- The loop over the DNS servers: blank ones go, one that is listed twice is refused.
unfoldable pub clean_dns : List Str → List Str → Result (List Str)
clean_dns seen [] = ok []
clean_dns seen (d ∷ ds) =
    let s = trim_space d in
    let blank = clean_dns seen ds in
    let kept = clean_dns (s ∷ seen) ds in
    if is_empty s
    then blank
    else if not (is_ipv4 s) && not (is_ipv6 s)
    then err bad_dns_v6
    else if in_set seen s
    then err repeated_dns
    else (do rest ← kept; ok (s ∷ rest))

abbrev prefix_outside : ℤ → ℤ → Bool
prefix_outside p top = ltℤ p (pos 1) || ltℤ top p

-- The switch over the family of a further address.
unfoldable pub check_addr : IfaceAddr → Result IfaceAddr
check_addr a =
    if is_empty a.family || str_eq a.family family_ipv4
    then (do
      reject (not (is_ipv4 a.address)) bad_extra_v4
      reject (prefix_outside a.prefix (pos 32)) bad_extra_prefix_v4
      ok (record a { family = family_ipv4 }))
    else if str_eq a.family family_ipv6
    then (do
      reject (not (is_ipv6 a.address)) bad_extra_v6
      reject (prefix_outside a.prefix (pos 128)) bad_extra_prefix_v6
      ok a)
    else err bad_extra_family

-- The loop over the further addresses behind those that were seen.
unfoldable pub check_extra : List Str → List IfaceAddr → Result (List IfaceAddr)
check_extra seen [] = ok []
check_extra seen (a ∷ more) = do
  let later = check_extra (a.address ∷ seen) more
  checked ← check_addr a
  reject (in_set seen a.address) repeated_address
  rest ← later
  ok (checked ∷ rest)

abbrev pub main_address : NetIface → List Str
main_address x = if is_empty x.ipaddr then [] else x.ipaddr ∷ []

-- The tests behind the further addresses.
unfoldable pub check_tail : NetIface → Result (Unit {0})
check_tail x = do
  reject (not (is_empty (trim_space x.clone_mac)) && not (is_mac x.clone_mac)) bad_clone_mac
  reject (is_neg x.metric) negative_metric
  reject (is_neg x.ip6_assign || ltℤ (pos 64) x.ip6_assign) bad_ip6_assign
  reject (given_not_v6 x.ip6_gw) bad_ip6_gateway
  reject (not (is_empty x.ip6_prefix) && not (is_ipv6 (before_byte b'/' x.ip6_prefix)))
      bad_ip6_prefix
  reject (given_not_v4 x.broadcast) bad_broadcast

unfoldable pub validate_net_iface : NetIface → Result NetIface
validate_net_iface x = do
  proto ← check_role x
  reject (is_neg x.mtu || ltℤ (pos 9200) x.mtu) bad_mtu
  dns ← clean_dns [] x.dns
  reject (is_neg x.dns_metric) negative_dns_metric
  extra ← check_extra (main_address x) x.extra_addrs
  check_tail x
  ok (record x { id = trim_space x.id; proto = proto; dns = dns; extra_addrs = extra })

unfoldable pub extra_ips : List IfaceAddr → List Str
extra_ips [] = []
extra_ips (a ∷ more) =
    let rest = extra_ips more in if is_empty a.address then rest else a.address ∷ rest

-- `allIfaceIPs`
unfoldable pub all_iface_ips : NetIface → List Str
all_iface_ips x =
    let rest = extra_ips x.extra_addrs in if is_empty x.ipaddr then rest else x.ipaddr ∷ rest

unfoldable pub any_in : List Str → List Str → Bool
any_in mine [] = false
any_in mine (ip ∷ ips) = in_set mine ip || any_in mine ips

-- The loop over the other lines.
unfoldable pub check_conflicts : NetIface → List NetIface → Result (Unit {0})
check_conflicts x [] = ok tt
check_conflicts x (y ∷ ys) =
    let rest = check_conflicts x ys in
    if str_eq y.id x.id
    then rest
    else if any_in (all_iface_ips x) (all_iface_ips y)
    then err ip_conflict
    else rest

abbrev pub end_outside : NetIface → Str → Bool
end_outside x ip = not (is_empty ip) && not (same_subnet ip x.ipaddr x.netmask)

-- The loop over the pools.
unfoldable pub check_pools : NetIface → List DhcpServer → Result (Unit {0})
check_pools x [] = ok tt
check_pools x (s ∷ ss) =
    let rest = check_pools x ss in
    if not (str_eq s.interface x.id)
    then rest
    else if end_outside x s.ip_start || end_outside x s.ip_end
    then err pool_outside_lan
    else rest

unfoldable pub check_iface_relations :
    NetIface → List NetIface → List DhcpServer → Result (Unit {0})
check_iface_relations x existing servers = do
  check_conflicts x existing
  if not (is_empty x.ipaddr) && not (is_empty x.netmask) then check_pools x servers else ok tt

unfoldable pub count_lans : List NetIface → ℕ
count_lans [] = 0
count_lans (x ∷ xs) = let rest = count_lans xs in if str_eq x.role role_lan then rest + 1 else rest

unfoldable pub names_lan : Str → List NetIface → Bool
names_lan id [] = false
names_lan id (x ∷ xs) = (str_eq x.role role_lan && str_eq x.id id) || names_lan id xs

unfoldable pub can_delete_net_iface : Str → List NetIface → Result (Unit {0})
can_delete_net_iface id existing =
    reject (names_lan id existing && leb (count_lans existing) 1) last_lan
