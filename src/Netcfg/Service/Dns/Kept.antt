-- ===== src/Netcfg/Service/Dns/Kept.antt =====
-- internal/netcfg/dns_service.go: over a backend that keeps its contract, the two collections are
-- loaded from their parts of the state and saved to them.
use kwrt_net_manager.Prelude.{List}
use kwrt_net_manager.Netcfg.Types.Dns.{DnsRecord, DnsDomainRoute}
use kwrt_net_manager.Netcfg.Backend.{Backend, Config, Lawful}
use kwrt_net_manager.Netcfg.Service.Collection.Outcome.{Kept}
use kwrt_net_manager.Netcfg.Service.Stored.{Reads-bind, Reads-pure}
use kwrt_net_manager.Netcfg.Service.Dns.{record_collection, domain_route_collection}

abbrev pub records_of : Config → List DnsRecord × Unit {0}
records_of v = (v.dns_records, tt)

abbrev pub with_records : List DnsRecord → Unit {0} → Config → Config
with_records l _ v = record v { dns_records = l }

abbrev pub domain_routes_of : Config → List DnsDomainRoute × Unit {0}
domain_routes_of v = (v.dns_domain_routes, tt)

abbrev pub with_domain_routes : List DnsDomainRoute → Unit {0} → Config → Config
with_domain_routes l _ v = record v { dns_domain_routes = l }

module _ {S : Type 0} (be : Backend S) (view : S → Config) (lawful : Lawful be view) where
  pub Kept-records : Kept (record_collection be) view records_of with_records
  Kept-records = record {
    loads =
        Reads-bind view be.dns_records _ _ (λ l _. (l, tt)) lawful.reads_records
          (λ l. Reads-pure view (l, tt));
    saves = λ l k. lawful.writes_records l;
  }

  pub Kept-domain_routes :
      Kept (domain_route_collection be) view domain_routes_of with_domain_routes
  Kept-domain_routes = record {
    loads =
        Reads-bind view be.dns_domain_routes _ _ (λ l _. (l, tt)) lawful.reads_domain_routes
          (λ l. Reads-pure view (l, tt));
    saves = λ l k. lawful.writes_domain_routes l;
  }
