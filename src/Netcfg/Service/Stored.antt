-- ===== src/Netcfg/Service/Stored.antt =====
-- internal/netcfg/service.go: over a backend that keeps its contract, each collection of the service
-- is loaded from its part of the state and saved to it.
use mathlib.Core.Path.{subst}
use kwrt_net_manager.Prelude.{◌≡◌, ◌⊎◌, refl, sym, ap, ◌∙◌, inl, inr, List, Str, Bool}
use kwrt_net_manager.Netcfg.Result.{Err, Result, ok, err}
use kwrt_net_manager.Netcfg.Exec.{Exec, pure, ◌>>=◌, bind-ok, bind-err}
use kwrt_net_manager.Netcfg.Types.{DhcpServer, StaticLease, AclEntry, Route, PolicyRule}
use kwrt_net_manager.Netcfg.Backend.{Backend, Config, Reads, Lawful}
use kwrt_net_manager.Netcfg.Service.Collection.Outcome.{Kept}
use kwrt_net_manager.Netcfg.Service.Routes.{route_collection}
use kwrt_net_manager.Netcfg.Service.PolicyRules.{rule_collection}
use kwrt_net_manager.Netcfg.Service.Servers.{server_collection}
use kwrt_net_manager.Netcfg.Service.Statics.{static_collection}
use kwrt_net_manager.Netcfg.Service.AccessList.{acl_collection, acl_mode}

module _ {S A B V : Type 0} (view : S → V) (m : Exec S A) (f : V → A) (k : A → Exec S B)
    (g : A → V → B) (first : Reads view m f) (second : (a : A) → Reads view (k a) (g a)) where
  -- A read that goes on with a read is a read.
  pub Reads-bind : Reads view (m >>= k) (λ v. g (f v) v)
  Reads-bind = record { keeps = keeps_at; gives = gives_at }
    where
      Given : S → Result B → Type 0
      Given s r = ((e : Err) × (r ≡ err e)) ⊎ (r ≡ ok (g (f (view s)) (view s)))

      keeps_at : (s : S) → view ((m >>= k) s).1 ≡ view s
      keeps_at s = elim (first.gives s) [
        | inl (e, failed) ↦
            subst (λ p. view p.1 ≡ view s) (sym (bind-err m k s e failed)) (first.keeps s)
        | inr read ↦
            subst (λ p. view p.1 ≡ view s) (sym (bind-ok m k s (f (view s)) read))
              ((second (f (view s))).keeps (m s).1 ∙ first.keeps s)
      ]

      gives_at : (s : S) → Given s ((m >>= k) s).0
      gives_at s = elim (first.gives s) [
        | inl (e, failed) ↦ subst (λ p. Given s p.0) (sym (bind-err m k s e failed)) (inl (e, refl))
        | inr read ↦
            subst (λ p. Given s p.0) (sym (bind-ok m k s (f (view s)) read))
              (elim ((second (f (view s))).gives (m s).1) [
                | inl (e, failed) ↦ inl (e, failed)
                | inr both ↦ inr (both ∙ ap (λ v. ok (g (f (view s)) v)) (first.keeps s))
              ])
      ]

module _ {S B V : Type 0} (view : S → V) (b : B) where
  pub Reads-pure : Reads view (pure b) (λ _. b)
  Reads-pure = record { keeps = λ s. refl; gives = λ s. inr refl }

-- What a save of each collection does to the view.
abbrev pub with_servers : List DhcpServer → Unit {0} → Config → Config
with_servers l _ v = record v { servers = l }

abbrev pub with_statics : List StaticLease → Bool → Config → Config
with_statics l arp v = record v { statics = l; arp_bind = arp }

abbrev pub with_acl : List AclEntry → Str → Config → Config
with_acl l mode v = record v { acl = record { mode = mode; entries = l } }

abbrev pub with_routes : List Route → Unit {0} → Config → Config
with_routes l _ v = record v { routes = l }

abbrev pub with_rules : List PolicyRule → Unit {0} → Config → Config
with_rules l _ v = record v { policy_rules = l }

abbrev pub servers_of : Config → List DhcpServer × Unit {0}
servers_of v = (v.servers, tt)

abbrev pub statics_of : Config → List StaticLease × Bool
statics_of v = (v.statics, v.arp_bind)

abbrev pub acl_of : Config → List AclEntry × Str
acl_of v = (v.acl.entries, acl_mode v.acl.mode)

abbrev pub routes_of : Config → List Route × Unit {0}
routes_of v = (v.routes, tt)

abbrev pub rules_of : Config → List PolicyRule × Unit {0}
rules_of v = (v.policy_rules, tt)

module _ {S : Type 0} (be : Backend S) (view : S → Config) (lawful : Lawful be view) where
  pub Kept-servers : Kept (server_collection be) view servers_of with_servers
  Kept-servers = record {
    loads =
        Reads-bind view be.dhcp_servers _ _ (λ l _. (l, tt)) lawful.reads_servers
          (λ l. Reads-pure view (l, tt));
    saves = λ l k. lawful.writes_servers l;
  }

  pub Kept-statics : Kept (static_collection be) view statics_of with_statics
  Kept-statics = record {
    loads =
        Reads-bind view be.statics _ _ (λ l v. (l, v.arp_bind)) lawful.reads_statics
          (λ l.
            Reads-bind view be.arp_bind _ _ (λ arp _. (l, arp)) lawful.reads_arp
              (λ arp. Reads-pure view (l, arp)));
    saves = λ l arp. lawful.writes_statics l arp;
  }

  pub Kept-acl : Kept (acl_collection be) view acl_of with_acl
  Kept-acl = record {
    loads =
        Reads-bind view be.acl _ _ (λ a _. (a.entries, acl_mode a.mode)) lawful.reads_acl
          (λ a. Reads-pure view (a.entries, acl_mode a.mode));
    saves = λ l mode. lawful.writes_acl (record { mode = mode; entries = l });
  }

  pub Kept-routes : Kept (route_collection be) view routes_of with_routes
  Kept-routes = record {
    loads =
        Reads-bind view be.routes _ _ (λ l _. (l, tt)) lawful.reads_routes
          (λ l. Reads-pure view (l, tt));
    saves = λ l k. lawful.writes_routes l;
  }

  pub Kept-rules : Kept (rule_collection be) view rules_of with_rules
  Kept-rules = record {
    loads =
        Reads-bind view be.policy_rules _ _ (λ l _. (l, tt)) lawful.reads_rules
          (λ l. Reads-pure view (l, tt));
    saves = λ l k. lawful.writes_rules l;
  }
