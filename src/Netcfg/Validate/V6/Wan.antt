-- ===== src/Netcfg/Validate/V6/Wan.antt =====
-- internal/netcfg/ipv6_validate.go: what an IPv6 line that passes its check is like.
use mathlib.Core.Path.{subst}
use kwrt_net_manager.Prelude.{
  ℕ, ◌≤◌, ◌≡◌, ◌⊎◌, refl, ap, codes, ◌==◌, ℤ, negsuc, Bool, Bool-cases, inl, inr, true, false, ◌&&◌,
  not, [], arith, Str, is_empty, is_empty_iff, str_eq, str_eq_iff, pos, int_eq, if◌then◌else◌,
}
use kwrt_net_manager.Go.Strings.{trim_space}
use kwrt_net_manager.Netutil.{is_ipv4, is_ipv6}
use kwrt_net_manager.Netcfg.Names.{atoi_safe, is_hex_bytes, is_ipv6_cidr}
use kwrt_net_manager.Netcfg.Result.{ok, >>=-eq-ok, reject-eq-ok}
use kwrt_net_manager.Netcfg.Types.V6.{
  WanV6, proto_dhcpv6, proto_static6, proto_6in4, proto_6to4, proto_6rd,
}
use kwrt_net_manager.Netcfg.Validate.V6.{
  validate_wan_v6, check_proto, check_access, check_dhcp_client, check_static_line, check_tunnel,
  given_not_ipv6, bad_v6_mtu, bad_request,
}

-- A text that is left out or passes a test.
abbrev pub Optional : (Str → Bool) → Str → Type 0
Optional good s = (s ≡ []) ⊎ (good s ≡ true)

-- The prefix that a client asks for: none, any, or one of a length. The length is what `atoiSafe`
-- reads, the digits in front.
abbrev pub IsRequest : Str → Type 0
IsRequest s =
    (s ≡ []) ⊎ (s ≡ codes "auto") ⊎ (s ≡ codes "no") ⊎ ((1 ≤ atoi_safe s) × (atoi_safe s ≤ 64))

-- No MTU, or one from 1280 to 9200.
abbrev pub IsMtu : ℤ → Type 0
IsMtu v = (v ≡ pos 0) ⊎ ((n : ℕ) × (v ≡ pos n) × (1280 ≤ n) × (n ≤ 9200))

-- What each kind of access asks of a line.
pub data IsAccess (w : WanV6) : Type 0 where
  client :
      w.proto ≡ proto_dhcpv6
      → IsRequest (trim_space w.req_prefix)
      → Optional is_ipv6_cidr w.fixed_prefix
      → Optional is_hex_bytes w.client_id
      → IsAccess w
  static_line :
      w.proto ≡ proto_static6
      → is_ipv6_cidr w.static_ip6 ≡ true
      → Optional is_ipv6 w.static_gw
      → IsAccess w
  tunnel :
      (w.proto ≡ proto_6in4) ⊎ (w.proto ≡ proto_6rd)
      → Optional is_ipv4 w.peer_addr
      → Optional is_ipv6_cidr w.tun_prefix
      → IsAccess w
  automatic : w.proto ≡ proto_6to4 → IsAccess w

pub record IsWan (w : WanV6) : Type 0 where
  pub access : IsAccess w
  pub dns_valid :
      w.peer_dns ≡ false → Optional is_ipv6 w.dns_primary × Optional is_ipv6 w.dns_secondary
  pub mtu_valid : IsMtu w.mtu

-- One of the five kinds.
abbrev IsProto : Str → Type 0
IsProto p =
    (p ≡ proto_dhcpv6) ⊎ (p ≡ proto_static6) ⊎ (p ≡ proto_6in4) ⊎ (p ≡ proto_6to4) ⊎ (p ≡ proto_6rd)

check_proto-IsProto : (p q : Str) → check_proto p ≡ ok q → IsProto q
unfolding check_proto
check_proto-IsProto p q e = ground (
  arith,
  str_eq_iff p proto_dhcpv6,
  str_eq_iff p proto_static6,
  str_eq_iff p proto_6in4,
  str_eq_iff p proto_6to4,
  str_eq_iff p proto_6rd,
)

optional :
    (good : Str → Bool) (s : Str) → not (is_empty s) && not (good s) ≡ false → Optional good s
optional good s h = ground (arith, is_empty_iff s)

bad_request-IsRequest : (s : Str) → bad_request s ≡ false → IsRequest s
bad_request-IsRequest s h =
    ground (arith, is_empty_iff s, str_eq_iff s (codes "auto"), str_eq_iff s (codes "no"))

bad_v6_mtu-IsMtu : (v : ℤ) → not (int_eq v (pos 0)) && bad_v6_mtu v ≡ false → IsMtu v
bad_v6_mtu-IsMtu (pos n) h = elim (Bool-cases (n == 0)) [
  | inl unset ↦ inl (ap pos (ground arith))
  | inr given ↦ inr (n, refl, ground arith, ground arith)
]
bad_v6_mtu-IsMtu (negsuc n) h = absurd (ground arith)

check_dhcp_client-valid :
    (w : WanV6)
    → check_dhcp_client w ≡ ok tt
    → IsRequest (trim_space w.req_prefix)
      × Optional is_ipv6_cidr w.fixed_prefix
      × Optional is_hex_bytes w.client_id
unfolding check_dhcp_client
check_dhcp_client-valid w h = (
  bad_request-IsRequest (trim_space w.req_prefix) (ground arith),
  optional is_ipv6_cidr w.fixed_prefix (ground arith),
  optional is_hex_bytes w.client_id (ground arith),
)

check_static_line-valid :
    (w : WanV6)
    → check_static_line w ≡ ok tt
    → (is_ipv6_cidr w.static_ip6 ≡ true) × Optional is_ipv6 w.static_gw
unfolding check_static_line
check_static_line-valid w h = (ground arith, optional is_ipv6 w.static_gw (ground arith))

check_tunnel-valid :
    (w : WanV6)
    → check_tunnel w ≡ ok tt
    → Optional is_ipv4 w.peer_addr × Optional is_ipv6_cidr w.tun_prefix
unfolding check_tunnel
check_tunnel-valid w h =
    (optional is_ipv4 w.peer_addr (ground arith), optional is_ipv6_cidr w.tun_prefix (ground arith))

check_access-IsAccess :
    (w : WanV6) (id name p : Str)
    → IsProto p
    → check_access p w ≡ ok tt
    → IsAccess (record w { id = id; name = name; proto = p })
unfolding check_access str_eq
check_access-IsAccess w id name p (inl e) h =
    let (request, fixed, duid) =
      check_dhcp_client-valid w (subst (λ q. check_access q w ≡ ok tt) e h) in
    client e request fixed duid
check_access-IsAccess w id name p (inr (inl e)) h =
    let (address, gateway) =
      check_static_line-valid w (subst (λ q. check_access q w ≡ ok tt) e h) in
    static_line e address gateway
check_access-IsAccess w id name p (inr (inr (inl e))) h =
    let (peer, prefix) = check_tunnel-valid w (subst (λ q. check_access q w ≡ ok tt) e h) in
    tunnel (inl e) peer prefix
check_access-IsAccess w id name p (inr (inr (inr (inl e)))) h = automatic e
check_access-IsAccess w id name p (inr (inr (inr (inr e)))) h =
    let (peer, prefix) = check_tunnel-valid w (subst (λ q. check_access q w ≡ ok tt) e h) in
    tunnel (inr e) peer prefix

abbrev wan_of : WanV6 → Str → WanV6
wan_of w p = record w {
  id = trim_space w.id;
  name = if is_empty w.name then trim_space w.id else w.name;
  proto = p;
}

wan_of-IsWan :
    (w : WanV6) (p : Str)
    → IsAccess (wan_of w p)
    → not w.peer_dns && given_not_ipv6 w.dns_primary ≡ false
    → not w.peer_dns && given_not_ipv6 w.dns_secondary ≡ false
    → not (int_eq w.mtu (pos 0)) && bad_v6_mtu w.mtu ≡ false
    → IsWan (wan_of w p)
wan_of-IsWan w p access first second mtu = record {
  access = access;
  dns_valid = λ own. (
    optional is_ipv6 w.dns_primary (ground (arith, own, first)),
    optional is_ipv6 w.dns_secondary (ground (arith, own, second)),
  );
  mtu_valid = bad_v6_mtu-IsMtu w.mtu mtu;
}

-- An IPv6 line that passes validation is of one of the five kinds of access and has what its kind
-- asks for: a client a request that is empty, auto, no, or has digits in front whose number,
-- modulo 2^64, is from 1 to 64, and a fixed prefix and a DUID that are left out or well formed; a
-- static line an address with its prefix and a gateway that is left out or an IPv6 address; a
-- 6in4 or 6rd tunnel a peer and a prefix that are left out or well formed. Its own DNS servers
-- are left out or IPv6 addresses, and its MTU is 0 or from 1280 to 9200.
pub validate_wan_v6-IsWan : (w t : WanV6) → validate_wan_v6 w ≡ ok t → IsWan t
unfolding validate_wan_v6
validate_wan_v6-IsWan w t h =
    let (p, known, behind) = >>=-eq-ok (check_proto w.proto) _ h in
    let (_, access, behind1) = >>=-eq-ok (check_access p w) _ behind in
    let (_, first, behind2) = >>=-eq-ok _ _ behind1 in
    let (_, second, behind3) = >>=-eq-ok _ _ behind2 in
    let (_, mtu, done) = >>=-eq-ok _ _ behind3 in
    let same : wan_of w p ≡ t = cc (done) in
    subst IsWan same (
      wan_of-IsWan w p (check_access-IsAccess w _ _ p (check_proto-IsProto w.proto p known) access)
        (reject-eq-ok _ _ first) (reject-eq-ok _ _ second) (reject-eq-ok _ _ mtu))
