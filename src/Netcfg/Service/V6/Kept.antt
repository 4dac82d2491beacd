-- ===== src/Netcfg/Service/V6/Kept.antt =====
-- internal/netcfg/ipv6_service.go: over a backend that keeps its contract, the four collections are
-- loaded from their parts of the state and saved to them.
use kwrt_net_manager.Prelude.{List, Str}
use kwrt_net_manager.Netcfg.Types.V6.{WanV6, LanV6, PrefixStaticV6, AclV6Entry}
use kwrt_net_manager.Netcfg.Backend.{Backend, Config, Lawful, with_mode}
use kwrt_net_manager.Netcfg.Service.Collection.Outcome.{Kept}
use kwrt_net_manager.Netcfg.Service.Stored.{Reads-bind, Reads-pure}
use kwrt_net_manager.Netcfg.Service.V6.{
  wan_collection, lan_collection, prefix_collection, acl_v6_collection,
}

abbrev pub wans_of : Config → List WanV6 × Unit {0}
wans_of v = (v.wan_v6s, tt)

abbrev pub with_wans : List WanV6 → Unit {0} → Config → Config
with_wans l _ v = record v { wan_v6s = l }

abbrev pub lans_of : Config → List LanV6 × Unit {0}
lans_of v = (v.lan_v6s, tt)

abbrev pub with_lans : List LanV6 → Unit {0} → Config → Config
with_lans l _ v = record v { lan_v6s = l }

abbrev pub prefixes_of : Config → List PrefixStaticV6 × Unit {0}
prefixes_of v = (v.prefix_statics_v6, tt)

abbrev pub with_prefixes : List PrefixStaticV6 → Unit {0} → Config → Config
with_prefixes l _ v = record v { prefix_statics_v6 = l }

abbrev pub acl_v6_of : Config → List AclV6Entry × Str
acl_v6_of v = (v.acl_v6.entries, (with_mode (with_mode v.acl_v6)).mode)

abbrev pub with_acl_v6 : List AclV6Entry → Str → Config → Config
with_acl_v6 l mode v = record v { acl_v6 = record { mode = mode; entries = l } }

module _ {S : Type 0} (be : Backend S) (view : S → Config) (lawful : Lawful be view) where
  pub Kept-wans : Kept (wan_collection be) view wans_of with_wans
  Kept-wans = record {
    loads =
        Reads-bind view be.wan_v6s _ _ (λ l _. (l, tt)) lawful.reads_wans
          (λ l. Reads-pure view (l, tt));
    saves = λ l k. lawful.writes_wans l;
  }

  pub Kept-lans : Kept (lan_collection be) view lans_of with_lans
  Kept-lans = record {
    loads =
        Reads-bind view be.lan_v6s _ _ (λ l _. (l, tt)) lawful.reads_lans
          (λ l. Reads-pure view (l, tt));
    saves = λ l k. lawful.writes_lans l;
  }

  pub Kept-prefixes : Kept (prefix_collection be) view prefixes_of with_prefixes
  Kept-prefixes = record {
    loads =
        Reads-bind view be.prefix_statics_v6 _ _ (λ l _. (l, tt)) lawful.reads_prefixes
          (λ l. Reads-pure view (l, tt));
    saves = λ l k. lawful.writes_prefixes l;
  }

  pub Kept-acl_v6 : Kept (acl_v6_collection be) view acl_v6_of with_acl_v6
  Kept-acl_v6 = record {
    loads =
        Reads-bind view be.acl_v6 _ _ (λ a _. (a.entries, (with_mode a).mode)) lawful.reads_acl_v6
          (λ a. Reads-pure view (a.entries, (with_mode a).mode));
    saves = λ l mode. lawful.writes_acl_v6 (record { mode = mode; entries = l });
  }
