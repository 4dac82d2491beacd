-- ===== src/Netcfg/Validate/Iface/Laws.antt =====
-- internal/netcfg/iface.go: what a line that passes its check is like.
use mathlib.Core.Path.{subst}
use kwrt_net_manager.Prelude.{
  ◌≡◌, ◌≢◌, ◌⊎◌, true, false, ◌||◌, List, [], arith, Str, str_eq_iff, is_empty_iff, pos, is_neg,
  ltℤ, All, AllPairs,
}
use kwrt_net_manager.Go.Strings.{trim_space, before_byte}
use kwrt_net_manager.Netutil.{is_ipv4, is_ipv6, is_valid_netmask}
use kwrt_net_manager.Netutil.MacAddr.{is_mac}
use kwrt_net_manager.Netcfg.Result.{
  ok, reject, bad_mtu, negative_dns_metric, >>=-eq-ok, reject-eq-ok,
}
use kwrt_net_manager.Netcfg.Types.Iface.{
  IfaceAddr, NetIface, role_lan, role_wan, proto_static, proto_dhcp, proto_pppoe,
}
use kwrt_net_manager.Netcfg.Service.{in_set}
use kwrt_net_manager.Netcfg.Validate.Iface.Lists.{
  IsServer, IsAddr, IsClean, clean_dns-IsClean, IsExtra, check_extra-IsExtra,
}
use kwrt_net_manager.Netcfg.Validate.Iface.{
  given_not_v4, given_not_v6, check_lan, check_static_wan, check_wan, check_role, clean_dns,
  check_extra, main_address, check_tail, validate_net_iface,
}

-- The role of a line and its kind of access, with what they ask of it.
pub data IsAccess (x : NetIface) : Type 0 where
  lan :
      x.role ≡ role_lan
      → x.proto ≡ proto_static
      → is_ipv4 x.ipaddr ≡ true
      → (x.netmask ≡ []) ⊎ (is_valid_netmask x.netmask ≡ true)
      → IsAccess x
  pppoe : x.role ≡ role_wan → x.proto ≡ proto_pppoe → trim_space x.username ≢ [] → IsAccess x
  static :
      x.role ≡ role_wan
      → x.proto ≡ proto_static
      → is_ipv4 x.ipaddr ≡ true
      → given_not_v4 x.gateway ≡ false
      → IsAccess x
  dhcp : x.role ≡ role_wan → x.proto ≡ proto_dhcp → IsAccess x

-- The fields that are tested last.
pub record HasTail (x : NetIface) : Type 0 where
  pub clone_valid : (trim_space x.clone_mac ≡ []) ⊎ (is_mac x.clone_mac ≡ true)
  pub metric_valid : is_neg x.metric ≡ false
  pub assign_valid : is_neg x.ip6_assign || ltℤ (pos 64) x.ip6_assign ≡ false
  pub gateway_valid : given_not_v6 x.ip6_gw ≡ false
  pub prefix_valid : (x.ip6_prefix ≡ []) ⊎ (is_ipv6 (before_byte b'/' x.ip6_prefix) ≡ true)
  pub broadcast_valid : given_not_v4 x.broadcast ≡ false

pub record IsIface (x : NetIface) : Type 0 where
  pub access : IsAccess x
  pub mtu_valid : is_neg x.mtu || ltℤ (pos 9200) x.mtu ≡ false
  pub dns_valid : All IsServer x.dns
  pub dns_distinct : AllPairs (λ d e. d ≢ e) x.dns
  pub extra_valid : All IsAddr x.extra_addrs
  pub extra_distinct : AllPairs (λ a b. a.address ≢ b.address) x.extra_addrs
  pub main_distinct : All (λ a. in_set (main_address x) a.address ≡ false) x.extra_addrs
  pub rest_valid : HasTail x

-- What validation makes of a line.
abbrev pub iface_of : NetIface → Str → List Str → List IfaceAddr → NetIface
iface_of x p ds extra = record x { id = trim_space x.id; proto = p; dns = ds; extra_addrs = extra }

check_role-IsAccess :
    (x : NetIface) (p : Str) (ds : List Str) (extra : List IfaceAddr)
    → check_role x ≡ ok p
    → IsAccess (iface_of x p ds extra)
unfolding check_role check_lan check_wan check_static_wan
check_role-IsAccess x p ds extra h = ground (
  arith,
  str_eq_iff x.role role_lan,
  str_eq_iff x.role role_wan,
  is_empty_iff x.netmask,
  is_empty_iff (trim_space x.username),
)

check_tail-HasTail : (x : NetIface) {u : Unit} → check_tail x ≡ ok u → HasTail x
unfolding check_tail
check_tail-HasTail x h =
    ground (arith, is_empty_iff (trim_space x.clone_mac), is_empty_iff x.ip6_prefix)

HasTail-of :
    (x : NetIface) (p : Str) (ds : List Str) (extra : List IfaceAddr)
    → HasTail x
    → HasTail (iface_of x p ds extra)
HasTail-of x p ds extra h = record {
  clone_valid = h.clone_valid;
  metric_valid = h.metric_valid;
  assign_valid = h.assign_valid;
  gateway_valid = h.gateway_valid;
  prefix_valid = h.prefix_valid;
  broadcast_valid = h.broadcast_valid;
}

-- A line that passes validation has a role and a kind of access that fit together,
-- DNS servers that are addresses and are listed once, further addresses that are valid and differ
-- from each other and from the main one, and numbers and optional addresses in their ranges.
pub validate_net_iface-IsIface : (x t : NetIface) → validate_net_iface x ≡ ok t → IsIface t
unfolding validate_net_iface
validate_net_iface-IsIface x t h =
    let (p, role, behind) = >>=-eq-ok (check_role x) _ h in
    let (_, mtu, behind1) =
      >>=-eq-ok (reject (is_neg x.mtu || ltℤ (pos 9200) x.mtu) bad_mtu) _ behind in
    let (ds, cleaned, behind2) = >>=-eq-ok (clean_dns [] x.dns) _ behind1 in
    let (_, weight, behind3) =
      >>=-eq-ok (reject (is_neg x.dns_metric) negative_dns_metric) _ behind2 in
    let (extra, checked, behind4) =
      >>=-eq-ok (check_extra (main_address x) x.extra_addrs) _ behind3 in
    let dns : IsClean [] ds = clean_dns-IsClean [] x.dns ds cleaned in
    let more : IsExtra (main_address x) extra =
      check_extra-IsExtra (main_address x) x.extra_addrs extra checked in
    let (_, tail, done) = >>=-eq-ok (check_tail x) _ behind4 in
    let same : iface_of x p ds extra ≡ t = cc (done) in
    subst IsIface same (record {
      access = check_role-IsAccess x p ds extra role;
      mtu_valid = reject-eq-ok _ _ mtu;
      dns_valid = dns.valid;
      dns_distinct = dns.distinct;
      extra_valid = more.valid;
      extra_distinct = more.distinct;
      main_distinct = more.fresh;
      rest_valid = HasTail-of x p ds extra (check_tail-HasTail x tail);
    })

IsAccess-named :
    (x : NetIface) (id name : Str) → IsAccess x → IsAccess (record x { id = id; name = name })
IsAccess-named x id name (lan a b c d) = lan a b c d
IsAccess-named x id name (pppoe a b c) = pppoe a b c
IsAccess-named x id name (static a b c d) = static a b c d
IsAccess-named x id name (dhcp a b) = dhcp a b

-- The id and the name of a line do not count.
pub IsIface-named :
    (x : NetIface) (id name : Str) → IsIface x → IsIface (record x { id = id; name = name })
IsIface-named x id name h = record {
  access = IsAccess-named x id name h.access;
  mtu_valid = h.mtu_valid;
  dns_valid = h.dns_valid;
  dns_distinct = h.dns_distinct;
  extra_valid = h.extra_valid;
  extra_distinct = h.extra_distinct;
  main_distinct = h.main_distinct;
  rest_valid = record {
    clone_valid = h.rest_valid.clone_valid;
    metric_valid = h.rest_valid.metric_valid;
    assign_valid = h.rest_valid.assign_valid;
    gateway_valid = h.rest_valid.gateway_valid;
    prefix_valid = h.rest_valid.prefix_valid;
    broadcast_valid = h.rest_valid.broadcast_valid;
  };
}
