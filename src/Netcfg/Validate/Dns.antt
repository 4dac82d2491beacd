-- ===== src/Netcfg/Validate/Dns.antt =====
-- internal/netcfg/dns_validate.go, and `splitUpstreams` of dns_uci.go.
pub mod Laws
use kwrt_net_manager.Prelude.{
  ℕ, Bool, true, false, ◌&&◌, ◌||◌, not, List, [], ◌∷◌, Str, codes, is_empty, ℤ, pos, is_neg, ltℤ,
  int_eq, leb, ltb, ◌==◌, if◌then◌else◌, length,
}
use kwrt_net_manager.Go.Strings.{
  trim_space, has_prefix, trim_prefix, before_byte, fields_func, all_chars,
}
use kwrt_net_manager.Netutil.{is_ip, is_ipv4}
use kwrt_net_manager.Netcfg.Names.{is_alnum}
use kwrt_net_manager.Netcfg.Result.{
  Result, ok, err, ◌>>=◌, ◌>>◌, reject, bad_dns_primary, bad_dns_secondary, no_upstream,
  bad_upstream, bad_doh_url, bad_doh_port, bad_bootstrap, empty_domain, bad_domain, bad_address,
}
use kwrt_net_manager.Netcfg.Types.Dns.{
  DnsSettings, DnsDoh, DnsRecord, DnsDomainRoute, dns_record_a, dns_record_aaaa,
}

-- `isPlausibleDomain`. A text that is not ASCII fails the test of its characters, which refuses those
-- that `ContainsAny` looks for too.
unfoldable pub is_plausible_domain : Str → Bool
is_plausible_domain d =
    not (is_empty d)
    && not (ltb 253 (length d))
    && all_chars (λ c. is_alnum c || c == b'-' || c == b'.' || c == b'_') d

-- `s != "" && !netutil.IsIP(s)`
abbrev pub given_not_ip : Str → Bool
given_not_ip s = not (is_empty s) && not (is_ip s)

-- `if v < 0 { v = 0 }`
abbrev pub at_least_zero : ℤ → ℤ
at_least_zero v = if is_neg v then pos 0 else v

-- The same, and `if v > dnsMaxCacheTTLCap { v = dnsMaxCacheTTLCap }`.
abbrev pub capped : ℤ → ℤ
capped v = let t = at_least_zero v in if ltℤ (pos 3600) t then pos 3600 else t

unfoldable pub validate_dns_settings : DnsSettings → Result DnsSettings
validate_dns_settings s = do
  let primary = trim_space s.dns_primary
  let secondary = trim_space s.dns_secondary
  reject (given_not_ip primary) bad_dns_primary
  reject (given_not_ip secondary) bad_dns_secondary
  reject (s.no_resolv && is_empty primary && is_empty secondary) no_upstream
  ok (record s {
    dns_primary = primary;
    dns_secondary = secondary;
    cache_size = at_least_zero s.cache_size;
    local_ttl = at_least_zero s.local_ttl;
    min_cache_ttl = capped s.min_cache_ttl;
    max_cache_ttl = capped s.max_cache_ttl;
  })

abbrev pub or_port : ℤ → ℤ
or_port p = if int_eq p (pos 0) then pos 5053 else p

abbrev pub bad_port : ℤ → Bool
bad_port p = int_eq p (pos 53) || ltℤ p (pos 1) || ltℤ (pos 65535) p

unfoldable pub validate_dns_doh : DnsDoh → Result DnsDoh
validate_dns_doh d = do
  let url = trim_space d.resolver_url
  reject (d.enabled && not (has_prefix url (codes "https://"))) bad_doh_url
  reject (bad_port (or_port d.listen_port)) bad_doh_port
  let bootstrap = trim_space d.bootstrap_dns
  reject (not (is_empty bootstrap) && not (is_ip (before_byte b',' bootstrap))) bad_bootstrap
  ok (record d {
    resolver_url = url;
    listen_port = or_port d.listen_port;
    bootstrap_dns = bootstrap;
  })

abbrev pub type_of_address : Str → Str
type_of_address a = if is_ipv4 a then dns_record_a else dns_record_aaaa

unfoldable pub validate_dns_record : DnsRecord → Result DnsRecord
validate_dns_record r = do
  let domain = trim_space r.domain
  let address = trim_space r.address
  reject (is_empty domain) empty_domain
  reject (not (is_plausible_domain (trim_prefix domain (codes "*.")))) bad_domain
  reject (not (is_ip address)) bad_address
  ok (record r {
    domain = domain;
    address = address;
    wildcard = if has_prefix domain (codes "*.") then true else r.wildcard;
    record_type = type_of_address address;
  })

abbrev pub is_separator : ℕ → Bool
is_separator c = c == b',' || c == b' ' || c == 10 || c == 9 || c == 13

-- `if f = strings.TrimSpace(f); f != ""` over the fields
unfoldable pub trimmed : List Str → List Str
trimmed [] = []
trimmed (f ∷ fs) =
    let rest = trimmed fs in if is_empty (trim_space f) then rest else trim_space f ∷ rest

unfoldable pub split_upstreams : Str → List Str
split_upstreams s = trimmed (fields_func is_separator s)

-- The loop over the upstreams; the host is what stands before `#`.
unfoldable pub check_upstreams : List Str → Result (Unit {0})
check_upstreams [] = ok tt
check_upstreams (up ∷ ups) =
    let rest = check_upstreams ups in if is_ip (before_byte b'#' up) then rest else err bad_upstream

abbrev pub no_items : List Str → Bool
no_items [] = true
no_items (_ ∷ _) = false

unfoldable pub validate_dns_domain_route : DnsDomainRoute → Result DnsDomainRoute
validate_dns_domain_route r = do
  let domain = trim_space r.domain
  let server = trim_space r.server
  reject (not (is_plausible_domain domain)) bad_domain
  reject (no_items (split_upstreams server)) no_upstream
  check_upstreams (split_upstreams server)
  ok (record r { domain = domain; server = server; out_iface = trim_space r.out_iface })
