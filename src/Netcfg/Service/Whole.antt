-- ===== src/Netcfg/Service/Whole.antt =====
-- internal/netcfg: the services over one backend. Each method is one step, so calls from different
-- clients interleave as any sequence of steps.
use kwrt_net_manager.Prelude.{ℕ, Str, All}
use kwrt_net_manager.Netcfg.Validate.Laws.{IsEntry}
use kwrt_net_manager.Netcfg.Validate.RouteLaws.{IsRoute}
use kwrt_net_manager.Netcfg.Validate.RuleLaws.{IsRule}
use kwrt_net_manager.Netcfg.Backend.{Backend, Config, Lawful}
use kwrt_net_manager.Netcfg.Service.{World}
use kwrt_net_manager.Netcfg.Service.Routes.Valid
use kwrt_net_manager.Netcfg.Service.PolicyRules.Valid as RulesValid
use kwrt_net_manager.Netcfg.Service.AccessList.Valid as AclValid
use kwrt_net_manager.Netcfg.Service.Dns.Valid as DnsValid
use kwrt_net_manager.Netcfg.Service.V6.Valid as V6Valid
use kwrt_net_manager.Netcfg.Service.V6.Reach as V6Reach

-- Every part that these services keep is valid.
pub record IsConfig (v : Config) : Type 0 where
  pub routes : All IsRoute v.routes
  pub rules : All IsRule v.policy_rules
  pub acl : All IsEntry v.acl.entries
  pub dns : DnsValid.IsDns v
  pub v6 : V6Valid.IsV6 v

IsConfig-dns : DnsValid.Admits IsConfig
IsConfig-dns = record {
  sees = λ v h. h.dns;
  takes_settings = λ s v h k. record {
    routes = h.routes;
    rules = h.rules;
    acl = h.acl;
    dns = DnsValid.IsDns-Admits.takes_settings s v h.dns k;
    v6 = h.v6;
  };
  takes_doh = λ d v h k. record {
    routes = h.routes;
    rules = h.rules;
    acl = h.acl;
    dns = DnsValid.IsDns-Admits.takes_doh d v h.dns k;
    v6 = h.v6;
  };
  takes_records = λ l v h k. record {
    routes = h.routes;
    rules = h.rules;
    acl = h.acl;
    dns = DnsValid.IsDns-Admits.takes_records l v h.dns k;
    v6 = h.v6;
  };
  takes_domain_routes = λ l v h k. record {
    routes = h.routes;
    rules = h.rules;
    acl = h.acl;
    dns = DnsValid.IsDns-Admits.takes_domain_routes l v h.dns k;
    v6 = h.v6;
  };
}

IsConfig-v6 : V6Valid.Admits IsConfig
IsConfig-v6 = record {
  sees = λ v h. h.v6;
  takes_wans = λ l v h k. record {
    routes = h.routes;
    rules = h.rules;
    acl = h.acl;
    dns = h.dns;
    v6 = V6Valid.IsV6-Admits.takes_wans l v h.v6 k;
  };
  takes_lans = λ l v h k. record {
    routes = h.routes;
    rules = h.rules;
    acl = h.acl;
    dns = h.dns;
    v6 = V6Valid.IsV6-Admits.takes_lans l v h.v6 k;
  };
  takes_prefixes = λ l v h k. record {
    routes = h.routes;
    rules = h.rules;
    acl = h.acl;
    dns = h.dns;
    v6 = V6Valid.IsV6-Admits.takes_prefixes l v h.v6 k;
  };
  takes_entries = λ l mode v h k. record {
    routes = h.routes;
    rules = h.rules;
    acl = h.acl;
    dns = h.dns;
    v6 = V6Valid.IsV6-Admits.takes_entries l mode v h.v6 k;
  };
}

module _ {S : Type 0} (be : Backend S) (token : ℕ → Str) where
  -- One call of a method of one of the services.
  pub data Step (w : World S) : World S → Type 0 where
    route_step : (v : World S) → Valid.Step be token w v → Step w v
    rule_step : (v : World S) → RulesValid.Step be token w v → Step w v
    acl_step : (v : World S) → AclValid.Step be token w v → Step w v
    dns_step : (v : World S) → DnsValid.Step be token w v → Step w v
    v6_step : (v : World S) → V6Reach.Step be token w v → Step w v

  pub data Reached (w : World S) : World S → Type 0 where
    start : Reached w w
    step : (v u : World S) → Reached w v → Step v u → Reached w u

module _ {S : Type 0} (be : Backend S) (view : S → Config) (lawful : Lawful be view)
    (token : ℕ → Str) where
  Step-IsConfig : (w v : World S) → Step be token w v → IsConfig (view w.be) → IsConfig (view v.be)
  Step-IsConfig w v (route_step _ s) h =
      Valid.Step-Inv be view lawful token IsConfig (λ v k. k.routes)
        (λ l v k new. record { routes = new; rules = k.rules; acl = k.acl; dns = k.dns; v6 = k.v6 })
        (λ m v k. record {
          routes = k.routes;
          rules = k.rules;
          acl = k.acl;
          dns = k.dns;
          v6 = k.v6;
        })
        w v s h
  Step-IsConfig w v (rule_step _ s) h =
      RulesValid.Step-Inv be view lawful token IsConfig (λ v k. k.rules)
        (λ l v k new. record {
          routes = k.routes;
          rules = new;
          acl = k.acl;
          dns = k.dns;
          v6 = k.v6;
        })
        w v s h
  Step-IsConfig w v (acl_step _ s) h =
      AclValid.Step-Inv be view lawful token IsConfig (λ v k. k.acl)
        (λ l m v k new. record {
          routes = k.routes;
          rules = k.rules;
          acl = new;
          dns = k.dns;
          v6 = k.v6;
        })
        w v s h
  Step-IsConfig w v (dns_step _ s) h =
      DnsValid.Step-Inv be view lawful token IsConfig IsConfig-dns w v s h
  Step-IsConfig w v (v6_step _ s) h =
      V6Reach.Step-Inv be view lawful token IsConfig IsConfig-v6 w v s h

  -- Over a backend that keeps its contract, whatever sequence of calls of the methods that
  -- write routes, policy rules, the access-control list, the DNS configuration and the IPv6
  -- configuration is made, interleaved in any way, with any arguments and whichever of them
  -- fail, and with random sources that give bytes, all that these services keep stays valid:
  -- each route, rule, entry, DNS record, domain route, IPv6 line, network, static prefix and
  -- DHCPv6 entry and the DNS and DNS-over-HTTPS settings have the form that their validation
  -- gives, if that held at the start.
  pub Reached-IsConfig :
      (w v : World S) → Reached be token w v → IsConfig (view w.be) → IsConfig (view v.be)
  Reached-IsConfig w _ start h = h
  Reached-IsConfig w _ (step v u r s) h = Step-IsConfig v u s (Reached-IsConfig w v r h)
