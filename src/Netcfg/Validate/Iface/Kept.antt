-- ===== src/Netcfg/Validate/Iface/Kept.antt =====
-- internal/netcfg/iface.go: what validation leaves of a line as it was given.
use kwrt_net_manager.Prelude.{
  ◌≡◌, refl, sym, ap, ◌∙◌, inl, inr, ◌||◌, List, [], ◌∷◌, map, arith, Str, str_eq, str_eq_iff,
  is_empty, is_empty_iff, Bool-cases, pos, is_neg, ltℤ, if◌then◌else◌,
}
use kwrt_net_manager.Go.Strings.{trim_space}
use kwrt_net_manager.Netcfg.Result.{ok, reject, bad_mtu, negative_dns_metric, >>=-eq-ok}
use kwrt_net_manager.Netcfg.Types.{family_ipv4, family_ipv6}
use kwrt_net_manager.Netcfg.Types.Iface.{
  IfaceAddr, NetIface, role_lan, proto_static, proto_dhcp, proto_pppoe,
}
use kwrt_net_manager.Netcfg.Validate.Iface.{
  check_role, check_lan, check_wan, check_static_wan, clean_dns, check_addr, check_extra,
  check_tail, main_address, validate_net_iface,
}
use kwrt_net_manager.Netcfg.Validate.Iface.Lists.{clean_dns-kept, clean_dns-blank, check_extra-cons}
use kwrt_net_manager.Netcfg.Validate.Iface.Laws.{iface_of}

-- The given servers, without blanks around them, and without the blank ones.
abbrev pub given_servers : List Str → List Str
given_servers [] = []
given_servers (d ∷ ds) =
    let rest = given_servers ds in if is_empty (trim_space d) then rest else trim_space d ∷ rest

-- An address without a family is one of IPv4.
abbrev pub with_family : IfaceAddr → IfaceAddr
with_family a = record a { family = if is_empty a.family then family_ipv4 else a.family }

-- A LAN is static, and a WAN without a kind of access is a DHCP client.
abbrev pub proto_of : NetIface → Str
proto_of x =
    if str_eq x.role role_lan
    then proto_static
    else if is_empty x.proto
    then proto_dhcp
    else x.proto

-- What validation makes of a line: every field that is not named is as it was.
abbrev pub normal_iface : NetIface → NetIface
normal_iface x = record x {
  id = trim_space x.id;
  proto = proto_of x;
  dns = given_servers x.dns;
  extra_addrs = map with_family x.extra_addrs;
}

clean_dns-given : (seen ds out : List Str) → clean_dns seen ds ≡ ok out → given_servers ds ≡ out
unfolding clean_dns
clean_dns-given seen [] [] h = refl
clean_dns-given seen [] (e ∷ es) h = absurd (cc)
clean_dns-given seen (d ∷ ds) out h = elim (Bool-cases (is_empty (trim_space d))) [
  | inl blank ↦ rw blank (clean_dns-given seen ds out (sym (clean_dns-blank seen d ds blank) ∙ h))
  | inr given ↦
      let (_, _, rest, cleaned, same) = clean_dns-kept seen d ds out h given in
      rw given
        (ap (λ l. trim_space d ∷ l) (clean_dns-given (trim_space d ∷ seen) ds rest cleaned) ∙ same)
]

check_addr-family : (a t : IfaceAddr) → check_addr a ≡ ok t → with_family a ≡ t
unfolding check_addr
check_addr-family a t h =
    ground (
      arith,
      str_eq_iff a.family family_ipv4,
      str_eq_iff a.family family_ipv6,
      is_empty_iff a.family,
    )

check_extra-families :
    (seen : List Str) (l out : List IfaceAddr)
    → check_extra seen l ≡ ok out
    → map with_family l ≡ out
unfolding check_extra
check_extra-families seen [] [] h = refl
check_extra-families seen [] (b ∷ bs) h = absurd (cc)
check_extra-families seen (a ∷ more) out h =
    let (checked, rest, good, _, later, same) = check_extra-cons seen a more out h in
    ap (λ b. b ∷ map with_family more) (check_addr-family a checked good)
    ∙ ap (λ l. checked ∷ l) (check_extra-families (a.address ∷ seen) more rest later)
    ∙ same

check_role-proto : (x : NetIface) (p : Str) → check_role x ≡ ok p → proto_of x ≡ p
unfolding check_role check_lan check_wan check_static_wan
check_role-proto x p h = ground (
  arith,
  str_eq_iff x.proto proto_pppoe,
  str_eq_iff x.proto proto_static,
  str_eq_iff x.proto proto_dhcp,
  is_empty_iff x.proto,
)

pub validate_net_iface-normal : (x t : NetIface) → validate_net_iface x ≡ ok t → normal_iface x ≡ t
unfolding validate_net_iface
validate_net_iface-normal x t h =
    let (p, role, behind) = >>=-eq-ok (check_role x) _ h in
    let (_, _, behind1) =
      >>=-eq-ok (reject (is_neg x.mtu || ltℤ (pos 9200) x.mtu) bad_mtu) _ behind in
    let (ds, cleaned, behind2) = >>=-eq-ok (clean_dns [] x.dns) _ behind1 in
    let (_, _, behind3) = >>=-eq-ok (reject (is_neg x.dns_metric) negative_dns_metric) _ behind2 in
    let (extra, checked, behind4) =
      >>=-eq-ok (check_extra (main_address x) x.extra_addrs) _ behind3 in
    let (_, _, done) = >>=-eq-ok (check_tail x) _ behind4 in
    let result : iface_of x p ds extra ≡ t = cc (done) in
    ap (λ q. iface_of x q (given_servers x.dns) (map with_family x.extra_addrs))
      (check_role-proto x p role)
    ∙ ap (λ l. iface_of x p l (map with_family x.extra_addrs)) (clean_dns-given [] x.dns ds cleaned)
    ∙ ap (iface_of x p ds) (check_extra-families (main_address x) x.extra_addrs extra checked)
    ∙ result
