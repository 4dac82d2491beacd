-- ===== src/Examples/Dns.antt =====
-- internal/netcfg, the DNS service and the services together at concrete records, over the store
-- backend.
use kwrt_net_manager.Prelude.{◌≡◌, ◌∷◌, refl, codes, pos, true, false, []}
use kwrt_net_manager.Go.Ip.{parse_ip, to4, v4_loop}
use kwrt_net_manager.Go.Strings.{trim_space, trim_left, trim_right, is_space}
use kwrt_net_manager.Netutil.{is_ip}
use kwrt_net_manager.Netcfg.Result.{ok}
use kwrt_net_manager.Netcfg.Types.Dns.{DnsSettings, DnsRecord}
use kwrt_net_manager.Netcfg.Validate.Dns.{validate_dns_settings, validate_dns_doh}
use kwrt_net_manager.Netcfg.Validate.Dns.Laws.{
  validate_dns_settings-IsSettings, validate_dns_doh-IsDoh,
}
use kwrt_net_manager.Netcfg.Store.{Store, store_backend, save, flush, store_dns}
use kwrt_net_manager.Netcfg.Store.Files.{flush_disk}
use kwrt_net_manager.Netcfg.Store.Contract.{store_backend-Lawful, memory_of}
use kwrt_net_manager.Netcfg.Service.{World}
use kwrt_net_manager.Netcfg.Service.Dns.{save_dns_settings, create_dns_record}
use kwrt_net_manager.Netcfg.Service.Dns.Valid.{settings_saved, record_created}
use kwrt_net_manager.Netcfg.Service.Dns.Valid as DnsValid
use kwrt_net_manager.Netcfg.Service.Dns.Settings.{IsKept, Reached-SameBooks}
use kwrt_net_manager.Netcfg.Service.Routes.{delete_route}
use kwrt_net_manager.Netcfg.Service.Routes.Valid.{deleted}
use kwrt_net_manager.Netcfg.Service.Whole.{
  IsConfig, start, step, route_step, dns_step, Reached-IsConfig,
}
use kwrt_net_manager.Examples.Service.{empty_config, empty_dns, good_disk, counter, at_start}

abbrev own_dns : DnsSettings
own_dns = record empty_dns {
  enabled = true;
  dns_primary = codes " 9.9.9.9";
  no_resolv = true;
  max_cache_ttl = pos 9000;
}

abbrev own_checked : DnsSettings
own_checked = record own_dns { dns_primary = codes "9.9.9.9"; max_cache_ttl = pos 3600 }

dns_checked : validate_dns_settings own_dns ≡ ok own_checked
unfolding validate_dns_settings is_ip parse_ip v4_loop trim_space trim_left trim_right is_space to4
dns_checked = refl

empty_checked : validate_dns_settings empty_dns ≡ ok empty_dns
unfolding validate_dns_settings trim_space trim_left trim_right
empty_checked = refl

doh_checked : validate_dns_doh empty_config.dns_doh ≡ ok empty_config.dns_doh
unfolding validate_dns_doh trim_space trim_left trim_right
doh_checked = refl

-- Settings with a bookkeeping, and a world that has them.
abbrev booked : DnsSettings
booked = record empty_dns {
  prev_servers = codes "9.9.9.9" ∷ [];
  prev_rebind_domains = codes "lan" ∷ [];
}

abbrev with_books : World Store
with_books = record at_start {
  be = record at_start.be { mem = record at_start.be.mem { dns = booked } };
}

booked_checked : validate_dns_settings booked ≡ ok booked
unfolding validate_dns_settings trim_space trim_left trim_right
booked_checked = refl

abbrev behind_books : World Store
behind_books = (save_dns_settings (store_backend good_disk) own_dns with_books).1

Reached-SameBooks_example : IsKept with_books.be.mem behind_books.be.mem
Reached-SameBooks_example =
    Reached-SameBooks good_disk counter with_books behind_books
      (DnsValid.step with_books behind_books DnsValid.start (settings_saved own_dns))
      (record {
        settings = validate_dns_settings-IsSettings booked booked booked_checked;
        doh = validate_dns_doh-IsDoh empty_config.dns_doh empty_config.dns_doh doh_checked;
        records = tt;
        domain_routes = tt;
      })

-- The rebind domains that were written are forgotten.
rebind_domains_lost : behind_books.be.mem.dns.prev_rebind_domains ≡ []
unfolding save_dns_settings validate_dns_settings is_ip parse_ip v4_loop trim_space trim_left
    trim_right is_space to4 save flush flush_disk store_dns
rebind_domains_lost = refl

abbrev nas : DnsRecord
nas = record {
  id = [];
  domain = codes "*.nas.lan";
  record_type = [];
  address = codes "192.168.1.9";
  wildcard = false;
  src_ip_scope = [];
  remark = [];
  enabled = true;
  managed = false;
}

abbrev behind_save : World Store
behind_save = (save_dns_settings (store_backend good_disk) own_dns at_start).1

abbrev behind_record : World Store
behind_record = (create_dns_record (store_backend good_disk) counter nas behind_save).1

abbrev behind_route : World Store
behind_route = (delete_route (store_backend good_disk) (codes "route_7") behind_record).1

Reached-IsConfig_example : IsConfig behind_route.be.mem
Reached-IsConfig_example =
    Reached-IsConfig (store_backend good_disk) memory_of (store_backend-Lawful good_disk) counter
      at_start behind_route
      (step behind_record behind_route
        (step behind_save behind_record
          (step at_start behind_save start (dns_step behind_save (settings_saved own_dns)))
          (dns_step behind_record (record_created nas)))
        (route_step behind_route (deleted (codes "route_7"))))
      (record {
        routes = tt;
        rules = tt;
        acl = tt;
        dns = record {
          settings = validate_dns_settings-IsSettings empty_dns empty_dns empty_checked;
          doh = validate_dns_doh-IsDoh empty_config.dns_doh empty_config.dns_doh doh_checked;
          records = tt;
          domain_routes = tt;
        };
        v6 = record { wans = tt; lans = tt; prefixes = tt; entries = tt };
      })
