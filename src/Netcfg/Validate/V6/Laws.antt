-- ===== src/Netcfg/Validate/V6/Laws.antt =====
-- internal/netcfg/ipv6_validate.go: what the networks, prefixes and entries that pass their checks
-- are like.
use kwrt_net_manager.Prelude.{
  ◌≡◌, ◌≢◌, ◌⊎◌, inl, inr, true, false, ◌||◌, List, [], ◌∷◌, arith, Str, is_empty_iff, str_eq_iff,
  pos, is_neg, ltℤ, int_eq, All,
}
use kwrt_net_manager.Go.Strings.{trim_space}
use kwrt_net_manager.Go.Strings.Trim.{trim_space_idem}
use kwrt_net_manager.Netutil.MacAddr.{normalize_mac}
use kwrt_net_manager.Netutil.MacAddr.Laws.{normalize_mac_idem}
use kwrt_net_manager.Netcfg.Names.{is_hex_bytes, is_valid_host_id, is_ipv6_cidr}
use kwrt_net_manager.Netcfg.Result.{ok, Result-cases}
use kwrt_net_manager.Netcfg.Types.V6.{
  LanV6, PrefixStaticV6, AclV6Entry, config_auto, config_static, dhcpv6_stateless, dhcpv6_stateful,
  dhcpv6_stateful_only, acl_v6_duid,
}
use kwrt_net_manager.Netcfg.Validate.V6.{
  validate_lan_v6, validate_prefix_static_v6, validate_acl_v6_entry, check_config_type,
  check_dhcpv6_mode, check_dns_servers, check_method, given_not_ipv6, given_not_hex, bad_v6_mtu,
}

pub record IsLan (l : LanV6) : Type 0 where
  pub interface_given : l.interface ≢ []
  pub interface_trimmed : trim_space l.interface ≡ l.interface
  pub config_known :
      (l.config_type ≡ config_auto)
      ⊎ ((l.config_type ≡ config_static) × (is_ipv6_cidr l.static_ip6 ≡ true))
  pub mode_known :
      (l.dhcpv6_mode ≡ dhcpv6_stateless)
      ⊎ (l.dhcpv6_mode ≡ dhcpv6_stateful)
      ⊎ (l.dhcpv6_mode ≡ dhcpv6_stateful_only)
  pub assign_len_valid :
      (int_eq l.prefix_assign_len (pos 0) ≡ true)
      ⊎ (ltℤ l.prefix_assign_len (pos 1) || ltℤ (pos 64) l.prefix_assign_len ≡ false)
  pub dns_valid : All (λ d. given_not_ipv6 (trim_space d) ≡ false) l.dns_servers
  pub lease_valid : is_neg l.lease_minutes ≡ false
  pub ra_mtu_valid : l.ra_mtu_enabled ≡ true → bad_v6_mtu l.ra_mtu ≡ false

pub record IsPrefixStatic (p : PrefixStaticV6) : Type 0 where
  pub key_given : (p.duid ≢ []) ⊎ (p.mac ≢ [])
  pub duid_valid : given_not_hex p.duid ≡ false
  pub mac_canonical : normalize_mac p.mac ≡ p.mac
  pub local_link_valid : given_not_ipv6 p.local_link ≡ false
  pub host_id_valid : (p.host_id ≡ []) ⊎ (is_valid_host_id p.host_id ≡ true)

-- An entry that the system can put into effect.
pub record IsEntryV6 (e : AclV6Entry) : Type 0 where
  pub by_duid : e.method ≡ acl_v6_duid
  pub duid_trimmed : trim_space e.duid ≡ e.duid
  pub duid_given : e.duid ≢ []
  pub duid_valid : is_hex_bytes e.duid ≡ true

pub validate_acl_v6_entry-IsEntryV6 :
    (e t : AclV6Entry) → validate_acl_v6_entry e ≡ ok t → IsEntryV6 t
unfolding validate_acl_v6_entry check_method
validate_acl_v6_entry-IsEntryV6 e t h =
    ground (arith, trim_space_idem e.duid, is_empty_iff (trim_space e.duid))

pub validate_prefix_static_v6-IsPrefixStatic :
    (p t : PrefixStaticV6) → validate_prefix_static_v6 p ≡ ok t → IsPrefixStatic t
unfolding validate_prefix_static_v6
validate_prefix_static_v6-IsPrefixStatic p t h = ground (
  arith,
  trim_space_idem p.duid,
  normalize_mac_idem p.mac,
  is_empty_iff (trim_space p.duid),
  is_empty_iff (normalize_mac p.mac),
  is_empty_iff p.host_id,
)

check_dns_servers-All :
    (ds : List Str)
    → check_dns_servers ds ≡ ok tt
    → All (λ d. given_not_ipv6 (trim_space d) ≡ false) ds
unfolding check_dns_servers
check_dns_servers-All [] e = tt
check_dns_servers-All (d ∷ ds) e = ground (arith, check_dns_servers-All ds)

check_config_type-known :
    (t u : Str) → check_config_type t ≡ ok u → (u ≡ config_auto) ⊎ (u ≡ config_static)
unfolding check_config_type
check_config_type-known t u e = ground (arith, str_eq_iff t config_auto, str_eq_iff t config_static)

check_dhcpv6_mode-known :
    (m u : Str)
    → check_dhcpv6_mode m ≡ ok u
    → (u ≡ dhcpv6_stateless) ⊎ (u ≡ dhcpv6_stateful) ⊎ (u ≡ dhcpv6_stateful_only)
unfolding check_dhcpv6_mode
check_dhcpv6_mode-known m u e = ground (
  arith,
  str_eq_iff m dhcpv6_stateless,
  str_eq_iff m dhcpv6_stateful,
  str_eq_iff m dhcpv6_stateful_only,
)

pub validate_lan_v6-IsLan : (l t : LanV6) → validate_lan_v6 l ≡ ok t → IsLan t
unfolding validate_lan_v6
validate_lan_v6-IsLan l t h = elim (Result-cases (check_config_type l.config_type)) [
  | inl (e, bad) ↦ absurd (ground (arith))
  | inr (c, type_ok) ↦ elim (Result-cases (check_dhcpv6_mode l.dhcpv6_mode)) [
    | inl (e, bad) ↦ absurd (ground (arith))
    | inr (m, mode_ok) ↦ ground (
      arith,
      trim_space_idem l.interface,
      is_empty_iff (trim_space l.interface),
      check_dns_servers-All l.dns_servers,
      check_config_type-known l.config_type c type_ok,
      check_dhcpv6_mode-known l.dhcpv6_mode m mode_ok,
      str_eq_iff c config_static,
    )
  ]
]
