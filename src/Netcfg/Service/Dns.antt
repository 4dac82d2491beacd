-- ===== src/Netcfg/Service/Dns.antt =====
-- internal/netcfg/dns_service.go: the DNS settings, DNS over HTTPS, own records and domain routes.
pub mod Kept
pub mod Valid
pub mod Settings
use kwrt_net_manager.Prelude.{ℕ, Bool, true, List, Str, codes}
use kwrt_net_manager.Netcfg.Exec.{Exec, pure, lift, ◌>>=◌, ◌>>◌}
use kwrt_net_manager.Netcfg.Types.Dns.{DnsSettings, DnsDoh, DnsRecord, DnsDomainRoute}
use kwrt_net_manager.Netcfg.Validate.Dns.{
  validate_dns_settings, validate_dns_doh, validate_dns_record, validate_dns_domain_route,
}
use kwrt_net_manager.Netcfg.Backend.{Backend}
use kwrt_net_manager.Netcfg.Service.{World, call, publish, dns_changed}
use kwrt_net_manager.Netcfg.Service.Collection.{Collection, no_check, delete, set_enabled, batch}
use kwrt_net_manager.Netcfg.Service.Collection.Checked.{create_checked, update_checked}

module _ {S : Type 0} (be : Backend S) where
  unfoldable pub get_dns_settings : Exec (World S) DnsSettings
  get_dns_settings = call be.dns_settings

  unfoldable pub save_dns_settings : DnsSettings → Exec (World S) DnsSettings
  save_dns_settings s = do
    checked ← lift (validate_dns_settings s)
    call (be.save_dns_settings checked)
    publish dns_changed (codes "update") 0
    call be.dns_settings

  unfoldable pub get_dns_doh : Exec (World S) DnsDoh
  get_dns_doh = call be.dns_doh

  unfoldable pub save_dns_doh : DnsDoh → Exec (World S) DnsDoh
  save_dns_doh d = do
    checked ← lift (validate_dns_doh d)
    call (be.save_dns_doh checked)
    publish dns_changed (codes "update") 0
    call be.dns_doh

  abbrev pub record_collection : Collection S (Unit {0}) DnsRecord
  record_collection = record {
    load = (do l ← be.dns_records; pure (l, tt));
    save = λ l _. be.save_dns_records l;
    topic = dns_changed;
    prefix = codes "dns";
    id_of = λ r. r.id;
    identify = λ id r. record r { id = id; managed = true };
    switch = λ on r. record r { enabled = on; managed = true };
  }

  unfoldable pub list_dns_records : Exec (World S) (List DnsRecord)
  list_dns_records = call be.dns_records

  unfoldable pub create_dns_record : (ℕ → Str) → DnsRecord → Exec (World S) DnsRecord
  create_dns_record = create_checked record_collection validate_dns_record (λ _. no_check)

  unfoldable pub update_dns_record : Str → DnsRecord → Exec (World S) DnsRecord
  update_dns_record = update_checked record_collection validate_dns_record (λ _. no_check)

  unfoldable pub delete_dns_record : Str → Exec (World S) (Unit {0})
  delete_dns_record = delete record_collection

  unfoldable pub set_dns_record_enabled : Str → Bool → Exec (World S) (Unit {0})
  set_dns_record_enabled = set_enabled record_collection

  unfoldable pub batch_dns_records : Str → List Str → Exec (World S) (Unit {0})
  batch_dns_records = batch record_collection

  abbrev pub domain_route_collection : Collection S (Unit {0}) DnsDomainRoute
  domain_route_collection = record {
    load = (do l ← be.dns_domain_routes; pure (l, tt));
    save = λ l _. be.save_dns_domain_routes l;
    topic = dns_changed;
    prefix = codes "dnsr";
    id_of = λ r. r.id;
    identify = λ id r. record r { id = id; managed = true };
    switch = λ on r. record r { enabled = on; managed = true };
  }

  unfoldable pub list_dns_domain_routes : Exec (World S) (List DnsDomainRoute)
  list_dns_domain_routes = call be.dns_domain_routes

  unfoldable pub create_dns_domain_route :
      (ℕ → Str) → DnsDomainRoute → Exec (World S) DnsDomainRoute
  create_dns_domain_route =
      create_checked domain_route_collection validate_dns_domain_route (λ _. no_check)

  unfoldable pub update_dns_domain_route : Str → DnsDomainRoute → Exec (World S) DnsDomainRoute
  update_dns_domain_route =
      update_checked domain_route_collection validate_dns_domain_route (λ _. no_check)

  unfoldable pub delete_dns_domain_route : Str → Exec (World S) (Unit {0})
  delete_dns_domain_route = delete domain_route_collection

  unfoldable pub set_dns_domain_route_enabled : Str → Bool → Exec (World S) (Unit {0})
  set_dns_domain_route_enabled = set_enabled domain_route_collection

  unfoldable pub batch_dns_domain_routes : Str → List Str → Exec (World S) (Unit {0})
  batch_dns_domain_routes = batch domain_route_collection

  unfoldable pub flush_dns_cache : Exec (World S) (Unit {0})
  flush_dns_cache = do call be.flush_dns_cache; publish dns_changed (codes "apply") 0
