-- ===== src/Netcfg/Types/Dns.antt =====
-- internal/netcfg/dns_types.go: the records of the DNS domain.
use kwrt_net_manager.Prelude.{Bool, List, Str, codes, ℤ}

-- The four last fields are the bookkeeping of what was written to the system's section.
pub record DnsSettings : Type 0 where
  pub enabled : Bool
  pub dns_primary : Str
  pub dns_secondary : Str
  pub no_resolv : Bool
  pub filter_aaaa : Bool
  pub cache_size : ℤ
  pub local_ttl : ℤ
  pub min_cache_ttl : ℤ
  pub max_cache_ttl : ℤ
  pub force_proxy : Bool
  pub dnssec : Bool
  pub rebind_protect : Bool
  pub all_servers : Bool
  pub rebind_domains : List Str
  pub saved_stock : List (Str × Str)
  pub prev_servers : List Str
  pub prev_addrs : List Str
  pub prev_rebind_domains : List Str

pub record DnsDoh : Type 0 where
  pub enabled : Bool
  pub resolver_url : Str
  pub listen_port : ℤ
  pub bootstrap_dns : Str

pub record DnsRecord : Type 0 where
  pub id : Str
  pub domain : Str
  pub record_type : Str
  pub address : Str
  pub wildcard : Bool
  pub src_ip_scope : Str
  pub remark : Str
  pub enabled : Bool
  pub managed : Bool

pub record DnsDomainRoute : Type 0 where
  pub id : Str
  pub domain : Str
  pub server : Str
  pub out_iface : Str
  pub remark : Str
  pub enabled : Bool
  pub managed : Bool

abbrev pub dns_record_a : Str
dns_record_a = codes "A"

abbrev pub dns_record_aaaa : Str
dns_record_aaaa = codes "AAAA"
