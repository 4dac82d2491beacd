-- ===== src/Netcfg/Validate/Dns/Laws.antt =====
-- internal/netcfg/dns_validate.go: what a DNS record that passes its check is like.
use kwrt_net_manager.Prelude.{
  ◌≡◌, ◌≢◌, ◌⊎◌, refl, true, false, List, [], ◌∷◌, arith, Str, codes, is_empty_iff, ℤ, pos, negsuc,
  is_neg, ltℤ, All,
}
use kwrt_net_manager.Go.Strings.{trim_space, has_prefix, trim_prefix, before_byte}
use kwrt_net_manager.Go.Strings.Trim.{trim_space_idem}
use kwrt_net_manager.Netutil.{is_ip}
use kwrt_net_manager.Netcfg.Result.{ok}
use kwrt_net_manager.Netcfg.Types.Dns.{DnsSettings, DnsDoh, DnsRecord, DnsDomainRoute}
use kwrt_net_manager.Netcfg.Validate.Dns.{
  validate_dns_settings, validate_dns_doh, validate_dns_record, validate_dns_domain_route,
  is_plausible_domain, given_not_ip, bad_port, type_of_address, split_upstreams, check_upstreams,
  at_least_zero, capped,
}

-- An optional address that is trimmed.
abbrev IsAddress : Str → Type 0
IsAddress s = (trim_space s ≡ s) × (given_not_ip s ≡ false)

abbrev IsTtl : ℤ → Type 0
IsTtl v = (is_neg v ≡ false) × (ltℤ (pos 3600) v ≡ false)

pub record IsSettings (s : DnsSettings) : Type 0 where
  pub primary_valid : IsAddress s.dns_primary
  pub secondary_valid : IsAddress s.dns_secondary
  -- The router itself can still resolve.
  pub upstream_given : s.no_resolv ≡ true → (s.dns_primary ≢ []) ⊎ (s.dns_secondary ≢ [])
  pub cache_valid : is_neg s.cache_size ≡ false
  pub local_ttl_valid : is_neg s.local_ttl ≡ false
  pub min_ttl_valid : IsTtl s.min_cache_ttl
  pub max_ttl_valid : IsTtl s.max_cache_ttl

pub record IsDoh (d : DnsDoh) : Type 0 where
  pub url_trimmed : trim_space d.resolver_url ≡ d.resolver_url
  pub url_secure : d.enabled ≡ true → has_prefix d.resolver_url (codes "https://") ≡ true
  pub port_valid : bad_port d.listen_port ≡ false
  pub bootstrap_valid : (d.bootstrap_dns ≡ []) ⊎ (is_ip (before_byte b',' d.bootstrap_dns) ≡ true)

pub record IsRecord (r : DnsRecord) : Type 0 where
  pub domain_trimmed : trim_space r.domain ≡ r.domain
  pub domain_valid : is_plausible_domain (trim_prefix r.domain (codes "*.")) ≡ true
  pub wildcard_set : has_prefix r.domain (codes "*.") ≡ true → r.wildcard ≡ true
  pub address_valid : is_ip r.address ≡ true
  pub type_fits : r.record_type ≡ type_of_address r.address

pub record IsDomainRoute (r : DnsDomainRoute) : Type 0 where
  pub domain_valid : is_plausible_domain r.domain ≡ true
  pub server_given : split_upstreams r.server ≢ []
  pub servers_valid : All (λ up. is_ip (before_byte b'#' up) ≡ true) (split_upstreams r.server)

at_least_zero_lem : (v : ℤ) → is_neg (at_least_zero v) ≡ false
at_least_zero_lem (pos n) = refl
at_least_zero_lem (negsuc n) = refl

capped_lem : (v : ℤ) → IsTtl (capped v)
capped_lem (pos n) = ground arith
capped_lem (negsuc n) = (refl, refl)

pub validate_dns_settings-IsSettings :
    (s t : DnsSettings) → validate_dns_settings s ≡ ok t → IsSettings t
unfolding validate_dns_settings
validate_dns_settings-IsSettings s t e = ground (
  arith,
  trim_space_idem s.dns_primary,
  trim_space_idem s.dns_secondary,
  is_empty_iff (trim_space s.dns_primary),
  is_empty_iff (trim_space s.dns_secondary),
  at_least_zero_lem s.cache_size,
  at_least_zero_lem s.local_ttl,
  capped_lem s.min_cache_ttl,
  capped_lem s.max_cache_ttl,
)

pub validate_dns_doh-IsDoh : (d t : DnsDoh) → validate_dns_doh d ≡ ok t → IsDoh t
unfolding validate_dns_doh
validate_dns_doh-IsDoh d t e =
    ground (arith, trim_space_idem d.resolver_url, is_empty_iff (trim_space d.bootstrap_dns))

pub validate_dns_record-IsRecord : (r t : DnsRecord) → validate_dns_record r ≡ ok t → IsRecord t
unfolding validate_dns_record
validate_dns_record-IsRecord r t e = ground (arith, trim_space_idem r.domain)

check_upstreams-All :
    (ups : List Str)
    → check_upstreams ups ≡ ok tt
    → All (λ up. is_ip (before_byte b'#' up) ≡ true) ups
unfolding check_upstreams
check_upstreams-All [] e = tt
check_upstreams-All (up ∷ ups) e = ground (arith, check_upstreams-All ups)

pub validate_dns_domain_route-IsDomainRoute :
    (r t : DnsDomainRoute) → validate_dns_domain_route r ≡ ok t → IsDomainRoute t
unfolding validate_dns_domain_route
validate_dns_domain_route-IsDomainRoute r t e =
    ground (arith, check_upstreams-All (split_upstreams (trim_space r.server)))
