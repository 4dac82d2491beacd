-- ===== src/Netcfg/Validate/V6.antt =====
-- internal/netcfg/ipv6_validate.go.
pub mod Laws
pub mod Wan
use kwrt_net_manager.Prelude.{
  Bool, true, false, ◌&&◌, ◌||◌, not, List, [], ◌∷◌, Str, codes, str_eq, is_empty, ℤ, pos, is_neg,
  ltℤ, int_eq, leb, if◌then◌else◌,
}
use kwrt_net_manager.Go.Strings.{trim_space}
use kwrt_net_manager.Netutil.{is_ipv4, is_ipv6}
use kwrt_net_manager.Netutil.MacAddr.{normalize_mac}
use kwrt_net_manager.Netcfg.Names.{atoi_safe, is_hex_bytes, is_valid_host_id, is_ipv6_cidr}
use kwrt_net_manager.Netcfg.Result.{
  Result, ok, err, ◌>>=◌, ◌>>◌, reject, empty_interface, bad_proto, bad_req_prefix,
  bad_fixed_prefix, bad_client_id, bad_static_v6, bad_gateway, bad_tunnel_peer, bad_tunnel_prefix,
  bad_dns_primary, bad_dns_secondary, bad_mtu, bad_config_type, bad_dhcpv6_mode, bad_assign_len,
  bad_dns_v6, negative_lease, no_match_key, bad_duid, bad_local_link, bad_host_id, l2_not_supported,
  bad_method,
}
use kwrt_net_manager.Netcfg.Types.V6.{
  WanV6, LanV6, PrefixStaticV6, AclV6Entry, proto_dhcpv6, proto_static6, proto_6in4, proto_6to4,
  proto_6rd, config_auto, config_static, dhcpv6_stateless, dhcpv6_stateful, dhcpv6_stateful_only,
  acl_v6_duid, acl_v6_l2,
}

-- The tests of the form `s != "" && !good(s)`
abbrev pub given_not_ipv6 : Str → Bool
given_not_ipv6 s = not (is_empty s) && not (is_ipv6 s)

abbrev pub given_not_cidr : Str → Bool
given_not_cidr s = not (is_empty s) && not (is_ipv6_cidr s)

abbrev pub given_not_hex : Str → Bool
given_not_hex s = not (is_empty s) && not (is_hex_bytes s)

abbrev pub given_not_v4_peer : Str → Bool
given_not_v4_peer s = not (is_empty s) && not (is_ipv4 s)

-- `v < 1280 || v > 9200`
abbrev pub bad_v6_mtu : ℤ → Bool
bad_v6_mtu v = ltℤ v (pos 1280) || ltℤ (pos 9200) v

unfoldable pub check_proto : Str → Result Str
check_proto p =
    if str_eq p proto_dhcpv6
      || str_eq p proto_static6
      || str_eq p proto_6in4
      || str_eq p proto_6to4
      || str_eq p proto_6rd
    then ok p
    else if is_empty p
    then ok proto_dhcpv6
    else err bad_proto

abbrev pub bad_request : Str → Bool
bad_request rp =
    not (is_empty rp)
    && not (str_eq rp (codes "auto"))
    && not (str_eq rp (codes "no"))
    && (let p = atoi_safe rp in not (leb 1 p && leb p 64))

unfoldable pub check_dhcp_client : WanV6 → Result (Unit {0})
check_dhcp_client w = do
  reject (bad_request (trim_space w.req_prefix)) bad_req_prefix
  reject (given_not_cidr w.fixed_prefix) bad_fixed_prefix
  reject (given_not_hex w.client_id) bad_client_id

unfoldable pub check_static_line : WanV6 → Result (Unit {0})
check_static_line w = do
  reject (not (is_ipv6_cidr w.static_ip6)) bad_static_v6
  reject (given_not_ipv6 w.static_gw) bad_gateway

unfoldable pub check_tunnel : WanV6 → Result (Unit {0})
check_tunnel w = do
  reject (given_not_v4_peer w.peer_addr) bad_tunnel_peer
  reject (given_not_cidr w.tun_prefix) bad_tunnel_prefix

-- The switch over the kind of access.
unfoldable pub check_access : Str → WanV6 → Result (Unit {0})
check_access p w =
    if str_eq p proto_dhcpv6
    then check_dhcp_client w
    else if str_eq p proto_static6
    then check_static_line w
    else if str_eq p proto_6in4 || str_eq p proto_6rd
    then check_tunnel w
    else ok tt

unfoldable pub validate_wan_v6 : WanV6 → Result WanV6
validate_wan_v6 w = do
  let id = trim_space w.id
  let name = if is_empty w.name then id else w.name
  proto ← check_proto w.proto
  check_access proto w
  reject (not w.peer_dns && given_not_ipv6 w.dns_primary) bad_dns_primary
  reject (not w.peer_dns && given_not_ipv6 w.dns_secondary) bad_dns_secondary
  reject (not (int_eq w.mtu (pos 0)) && bad_v6_mtu w.mtu) bad_mtu
  ok (record w { id = id; name = name; proto = proto })

unfoldable pub check_config_type : Str → Result Str
check_config_type t =
    if str_eq t config_auto || str_eq t config_static
    then ok t
    else if is_empty t
    then ok config_auto
    else err bad_config_type

unfoldable pub check_dhcpv6_mode : Str → Result Str
check_dhcpv6_mode m =
    if str_eq m dhcpv6_stateless || str_eq m dhcpv6_stateful || str_eq m dhcpv6_stateful_only
    then ok m
    else if is_empty m
    then ok dhcpv6_stateful
    else err bad_dhcpv6_mode

-- The loop over the servers; blank ones are passed over.
unfoldable pub check_dns_servers : List Str → Result (Unit {0})
check_dns_servers [] = ok tt
check_dns_servers (d ∷ ds) =
    let rest = check_dns_servers ds in
    if given_not_ipv6 (trim_space d) then err bad_dns_v6 else rest

unfoldable pub validate_lan_v6 : LanV6 → Result LanV6
validate_lan_v6 l = do
  let interface = trim_space l.interface
  reject (is_empty interface) empty_interface
  config_type ← check_config_type l.config_type
  mode ← check_dhcpv6_mode l.dhcpv6_mode
  reject
      (not (int_eq l.prefix_assign_len (pos 0))
        && (ltℤ l.prefix_assign_len (pos 1) || ltℤ (pos 64) l.prefix_assign_len))
      bad_assign_len
  reject (str_eq config_type config_static && not (is_ipv6_cidr l.static_ip6)) bad_static_v6
  check_dns_servers l.dns_servers
  reject (is_neg l.lease_minutes) negative_lease
  reject (l.ra_mtu_enabled && bad_v6_mtu l.ra_mtu) bad_mtu
  ok (record l {
    id = if is_empty l.id then interface else l.id;
    interface = interface;
    config_type = config_type;
    dhcpv6_mode = mode;
  })

unfoldable pub validate_prefix_static_v6 : PrefixStaticV6 → Result PrefixStaticV6
validate_prefix_static_v6 p = do
  let duid = trim_space p.duid
  let mac = normalize_mac p.mac
  reject (is_empty duid && is_empty mac) no_match_key
  reject (given_not_hex duid) bad_duid
  reject (given_not_ipv6 p.local_link) bad_local_link
  reject (not (is_empty p.host_id) && not (is_valid_host_id p.host_id)) bad_host_id
  ok (record p { duid = duid; mac = mac })

unfoldable pub check_method : Str → Result Str
check_method m =
    if str_eq m acl_v6_duid || is_empty m
    then ok acl_v6_duid
    else if str_eq m acl_v6_l2
    then err l2_not_supported
    else err bad_method

unfoldable pub validate_acl_v6_entry : AclV6Entry → Result AclV6Entry
validate_acl_v6_entry e = do
  method ← check_method e.method
  let duid = trim_space e.duid
  reject (is_empty duid || not (is_hex_bytes duid)) bad_duid
  ok (record e { method = method; duid = duid })
