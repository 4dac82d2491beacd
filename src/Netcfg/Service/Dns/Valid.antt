-- ===== src/Netcfg/Service/Dns/Valid.antt =====
-- internal/netcfg/dns_service.go: the validity of what is stored over sequences of calls.
use mathlib.Core.Path.{subst}
use kwrt_net_manager.Prelude.{ℕ, sym, Bool, true, List, Str, All}
use kwrt_net_manager.Netcfg.Exec.{Exec}
use kwrt_net_manager.Netcfg.Types.Dns.{DnsSettings, DnsDoh, DnsRecord, DnsDomainRoute}
use kwrt_net_manager.Netcfg.Validate.Dns.{
  validate_dns_settings, validate_dns_doh, validate_dns_record, validate_dns_domain_route,
}
use kwrt_net_manager.Netcfg.Validate.Dns.Laws.{
  IsSettings, IsDoh, IsRecord, IsDomainRoute, validate_dns_settings-IsSettings,
  validate_dns_doh-IsDoh, validate_dns_record-IsRecord, validate_dns_domain_route-IsDomainRoute,
}
use kwrt_net_manager.Netcfg.Backend.{Backend, Config, Reads, Lawful, keep_books}
use kwrt_net_manager.Netcfg.Service.{World}
use kwrt_net_manager.Netcfg.Service.Frame.{write-Holds, lift-Holds}
use kwrt_net_manager.Netcfg.Service.Collection.{no_check}
use kwrt_net_manager.Netcfg.Service.Collection.Checked.{Lifecycle, lifecycle}
use kwrt_net_manager.Netcfg.Service.Dns.{
  save_dns_settings, save_dns_doh, record_collection, create_dns_record, update_dns_record,
  delete_dns_record, set_dns_record_enabled, batch_dns_records, domain_route_collection,
  create_dns_domain_route, update_dns_domain_route, delete_dns_domain_route,
  set_dns_domain_route_enabled, batch_dns_domain_routes, flush_dns_cache,
}
use kwrt_net_manager.Netcfg.Service.Dns.Kept.{
  records_of, with_records, Kept-records, domain_routes_of, with_domain_routes, Kept-domain_routes,
}

pub record AreDns (s : DnsSettings) (d : DnsDoh) (rs : List DnsRecord) (ds : List DnsDomainRoute)
    : Type 0 where
  pub settings : IsSettings s
  pub doh : IsDoh d
  pub records : All IsRecord rs
  pub domain_routes : All IsDomainRoute ds

abbrev pub IsDns : Config → Type 0
IsDns v = AreDns v.dns v.dns_doh v.dns_records v.dns_domain_routes

-- An invariant that valid parts of the DNS configuration keep, the settings with the bookkeeping
-- that is there.
pub record Admits (Inv : Config → Type 0) : Type 0 where
  pub sees : (v : Config) → Inv v → IsDns v
  pub takes_settings :
      (s : DnsSettings) (v : Config)
      → Inv v
      → IsSettings s
      → Inv (record v { dns = keep_books v.dns s })
  pub takes_doh : (d : DnsDoh) (v : Config) → Inv v → IsDoh d → Inv (record v { dns_doh = d })
  pub takes_records :
      (l : List DnsRecord) (v : Config)
      → Inv v
      → All IsRecord l
      → Inv (record v { dns_records = l })
  pub takes_domain_routes :
      (l : List DnsDomainRoute) (v : Config)
      → Inv v
      → All IsDomainRoute l
      → Inv (record v { dns_domain_routes = l })

-- Validity does not look at the bookkeeping.
IsSettings-keep_books : (old s : DnsSettings) → IsSettings s → IsSettings (keep_books old s)
IsSettings-keep_books old s h = record {
  primary_valid = h.primary_valid;
  secondary_valid = h.secondary_valid;
  upstream_given = h.upstream_given;
  cache_valid = h.cache_valid;
  local_ttl_valid = h.local_ttl_valid;
  min_ttl_valid = h.min_ttl_valid;
  max_ttl_valid = h.max_ttl_valid;
}

pub IsDns-Admits : Admits IsDns
IsDns-Admits = record {
  sees = λ v h. h;
  takes_settings = λ s v h k. record {
    settings = IsSettings-keep_books v.dns s k;
    doh = h.doh;
    records = h.records;
    domain_routes = h.domain_routes;
  };
  takes_doh = λ d v h k. record {
    settings = h.settings;
    doh = k;
    records = h.records;
    domain_routes = h.domain_routes;
  };
  takes_records = λ l v h k. record {
    settings = h.settings;
    doh = h.doh;
    records = k;
    domain_routes = h.domain_routes;
  };
  takes_domain_routes = λ l v h k. record {
    settings = h.settings;
    doh = h.doh;
    records = h.records;
    domain_routes = k;
  };
}

-- Validity does not look at the ids and the flags.
IsRecord-edit :
    (r : DnsRecord) (id : Str) (on : Bool)
    → IsRecord r
    → IsRecord (record r { id = id; enabled = on; managed = true })
IsRecord-edit r id on h = record {
  domain_trimmed = h.domain_trimmed;
  domain_valid = h.domain_valid;
  wildcard_set = h.wildcard_set;
  address_valid = h.address_valid;
  type_fits = h.type_fits;
}

IsDomainRoute-edit :
    (r : DnsDomainRoute) (id : Str) (on : Bool)
    → IsDomainRoute r
    → IsDomainRoute (record r { id = id; enabled = on; managed = true })
IsDomainRoute-edit r id on h = record {
  domain_valid = h.domain_valid;
  server_given = h.server_given;
  servers_valid = h.servers_valid;
}

module _ {S : Type 0} (be : Backend S) (token : ℕ → Str) where
  -- One call of a method that writes a part of the DNS configuration.
  pub data Step (w : World S) : World S → Type 0 where
    settings_saved : (s : DnsSettings) → Step w (save_dns_settings be s w).1
    doh_saved : (d : DnsDoh) → Step w (save_dns_doh be d w).1
    record_created : (r : DnsRecord) → Step w (create_dns_record be token r w).1
    record_updated : (id : Str) (r : DnsRecord) → Step w (update_dns_record be id r w).1
    record_deleted : (id : Str) → Step w (delete_dns_record be id w).1
    record_switched : (id : Str) (on : Bool) → Step w (set_dns_record_enabled be id on w).1
    records_batched : (action : Str) (ids : List Str) → Step w (batch_dns_records be action ids w).1
    route_created : (r : DnsDomainRoute) → Step w (create_dns_domain_route be token r w).1
    route_updated : (id : Str) (r : DnsDomainRoute) → Step w (update_dns_domain_route be id r w).1
    route_deleted : (id : Str) → Step w (delete_dns_domain_route be id w).1
    route_switched : (id : Str) (on : Bool) → Step w (set_dns_domain_route_enabled be id on w).1
    routes_batched :
        (action : Str) (ids : List Str) → Step w (batch_dns_domain_routes be action ids w).1
    flushed : Step w (flush_dns_cache be w).1

  pub data Reached (w : World S) : World S → Type 0 where
    start : Reached w w
    step : (v u : World S) → Reached w v → Step v u → Reached w u

module _ {S : Type 0} (be : Backend S) (view : S → Config) (lawful : Lawful be view)
    (token : ℕ → Str) (Inv : Config → Type 0) (admits : Admits Inv) where
  record_lifecycle : Lifecycle (record_collection be) validate_dns_record view Inv
  record_lifecycle =
      lifecycle (record_collection be) validate_dns_record view records_of with_records
        (Kept-records be view lawful) IsRecord Inv (λ v h. (admits.sees v h).records)
        (λ l _ v. admits.takes_records l v)
        (λ x t id good. IsRecord-edit t id t.enabled (validate_dns_record-IsRecord x t good))
        (λ on x h. IsRecord-edit x x.id on h)

  route_lifecycle : Lifecycle (domain_route_collection be) validate_dns_domain_route view Inv
  route_lifecycle =
      lifecycle (domain_route_collection be) validate_dns_domain_route view domain_routes_of
        with_domain_routes (Kept-domain_routes be view lawful) IsDomainRoute Inv
        (λ v h. (admits.sees v h).domain_routes) (λ l _ v. admits.takes_domain_routes l v)
        (λ x t id good.
          IsDomainRoute-edit t id t.enabled (validate_dns_domain_route-IsDomainRoute x t good))
        (λ on x h. IsDomainRoute-edit x x.id on h)

  -- Behind a write, the new value is read back.
  read_back :
      {A : Type 0} (m : Exec S A) (f : Config → A) (s : S)
      → Reads view m f
      → Inv (view s)
      → Inv (view (m s).1)
  read_back m f s reads h = subst Inv (sym (reads.keeps s)) h

  save_dns_settings-Inv :
      (s : DnsSettings) (w : World S) → Inv (view w.be) → Inv (view (save_dns_settings be s w).1.be)
  unfolding save_dns_settings
  save_dns_settings-Inv s w h = lift-Holds view Inv (validate_dns_settings s) _ w h λ t good.
      write-Holds view Inv (be.save_dns_settings t) _ _ w (lawful.writes_dns t) h
        (admits.takes_settings t _ h (validate_dns_settings-IsSettings s t good))
        (λ w' k. read_back be.dns_settings _ w'.be lawful.reads_dns k)

  save_dns_doh-Inv :
      (d : DnsDoh) (w : World S) → Inv (view w.be) → Inv (view (save_dns_doh be d w).1.be)
  unfolding save_dns_doh
  save_dns_doh-Inv d w h = lift-Holds view Inv (validate_dns_doh d) _ w h λ t good.
      write-Holds view Inv (be.save_dns_doh t) _ _ w (lawful.writes_doh t) h
        (admits.takes_doh _ _ h (validate_dns_doh-IsDoh d t good))
        (λ w' k. read_back be.dns_doh _ w'.be lawful.reads_doh k)

  pub Step-Inv : (w v : World S) → Step be token w v → Inv (view w.be) → Inv (view v.be)
  unfolding create_dns_record update_dns_record delete_dns_record set_dns_record_enabled
      batch_dns_records create_dns_domain_route update_dns_domain_route delete_dns_domain_route
      set_dns_domain_route_enabled batch_dns_domain_routes flush_dns_cache
  Step-Inv w _ (settings_saved s) h = save_dns_settings-Inv s w h
  Step-Inv w _ (doh_saved d) h = save_dns_doh-Inv d w h
  Step-Inv w _ (record_created r) h = record_lifecycle.created (λ _. no_check) token r w h
  Step-Inv w _ (record_updated id r) h = record_lifecycle.updated (λ _. no_check) id r w h
  Step-Inv w _ (record_deleted id) h = record_lifecycle.deleted id w h
  Step-Inv w _ (record_switched id on) h = record_lifecycle.switched id on w h
  Step-Inv w _ (records_batched action ids) h = record_lifecycle.batched action ids w h
  Step-Inv w _ (route_created r) h = route_lifecycle.created (λ _. no_check) token r w h
  Step-Inv w _ (route_updated id r) h = route_lifecycle.updated (λ _. no_check) id r w h
  Step-Inv w _ (route_deleted id) h = route_lifecycle.deleted id w h
  Step-Inv w _ (route_switched id on) h = route_lifecycle.switched id on w h
  Step-Inv w _ (routes_batched action ids) h = route_lifecycle.batched action ids w h
  Step-Inv w _ flushed h =
      write-Holds view Inv be.flush_dns_cache (λ v. v) _ w lawful.flushes h h (λ w' k. k)

module _ {S : Type 0} (be : Backend S) (view : S → Config) (lawful : Lawful be view)
    (token : ℕ → Str) where
  pub Reached-IsDns : (w v : World S) → Reached be token w v → IsDns (view w.be) → IsDns (view v.be)
  Reached-IsDns w _ start h = h
  Reached-IsDns w _ (step v u r s) h =
      Step-Inv be view lawful token IsDns IsDns-Admits v u s (Reached-IsDns w v r h)
