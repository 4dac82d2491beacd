-- ===== src/Netcfg/Service/Routes/Valid.antt =====
-- internal/netcfg/service.go, static routes: the validity of the stored ones over sequences of calls.
use mathlib.Core.Path.{subst}
use kwrt_net_manager.Prelude.{
  ℕ, ◌+◌, sym, inl, inr, Bool, true, ◌||◌, List, [], ◌∷◌, ◌++◌, Str, str_eq, codes, Bool-cases,
  Option-cases, All, All-append, All-get_elem?, get_elem?,
}
use kwrt_net_manager.Netcfg.Types.{Route, route_push_off, route_push_all, route_push_tagged}
use kwrt_net_manager.Netcfg.Validate.{validate_route}
use kwrt_net_manager.Netcfg.Validate.RouteLaws.{IsRoute, validate_route-IsRoute}
use kwrt_net_manager.Netcfg.Backend.{Backend, Config, Lawful}
use kwrt_net_manager.Netcfg.Service.{World, crypto_id, index_by_id}
use kwrt_net_manager.Netcfg.Service.Frame.{read-Holds, write-Holds}
use kwrt_net_manager.Netcfg.Service.Collection.{no_check}
use kwrt_net_manager.Netcfg.Service.Collection.Checked.{
  Lifecycle, lifecycle, create_checked, update_checked,
}
use kwrt_net_manager.Netcfg.Service.Stored.{with_routes, routes_of, Kept-routes}
use kwrt_net_manager.Netcfg.Service.Routes.{
  route_collection, create_route, update_route, delete_route, set_route_enabled, batch_routes,
  duplicate_route, set_route_push_mode, copy_of,
}

-- Validity does not look at the id, the remark and the two flags.
IsRoute-edit :
    (r : Route) (id remark : Str) (on managed : Bool)
    → IsRoute r
    → IsRoute (record r { id = id; remark = remark; enabled = on; managed = managed })
IsRoute-edit r id remark on managed h = record {
  interface_given = h.interface_given;
  interface_trimmed = h.interface_trimmed;
  numbers = record {
    metric_valid = h.numbers.metric_valid;
    kind_known = h.numbers.kind_known;
    mtu_valid = h.numbers.mtu_valid;
    table_valid = h.numbers.table_valid;
  };
  shape = elim (h.shape) [
    | inl v4 ↦ inl (record {
      family_is = v4.family_is;
      target_valid = v4.target_valid;
      in_step = v4.in_step;
      gateway_valid = v4.gateway_valid;
    })
    | inr v6 ↦ inr (record {
      family_is = v6.family_is;
      target_valid = v6.target_valid;
      ones = v6.ones;
      prefix_is = v6.prefix_is;
      prefix_short = v6.prefix_short;
      no_netmask = v6.no_netmask;
      gateway_valid = v6.gateway_valid;
    })
  ];
}

module _ {S : Type 0} (be : Backend S) (token : ℕ → Str) where
  -- One call of a method that writes routes or their push mode.
  pub data Step (w : World S) : World S → Type 0 where
    created : (r : Route) → Step w (create_route be token r w).1
    updated : (id : Str) (r : Route) → Step w (update_route be id r w).1
    deleted : (id : Str) → Step w (delete_route be id w).1
    switched : (id : Str) (on : Bool) → Step w (set_route_enabled be id on w).1
    batched : (action : Str) (ids : List Str) → Step w (batch_routes be action ids w).1
    duplicated : (id : Str) → Step w (duplicate_route be token id w).1
    pushed : (mode : Str) → Step w (set_route_push_mode be mode w).1

  -- The states behind any calls.
  pub data Reached (w : World S) : World S → Type 0 where
    start : Reached w w
    step : (v u : World S) → Reached w v → Step v u → Reached w u

module _ {S : Type 0} (be : Backend S) (view : S → Config) (lawful : Lawful be view)
    (token : ℕ → Str) (Inv : Config → Type 0) (see : (v : Config) → Inv v → All IsRoute v.routes)
    (grow : (l : List Route) (v : Config) → Inv v → All IsRoute l → Inv (record v { routes = l }))
    (mode : (m : Str) (v : Config) → Inv v → Inv (record v { push_mode = m })) where
  route_lifecycle : Lifecycle (route_collection be) validate_route view Inv
  route_lifecycle =
      lifecycle (route_collection be) validate_route view routes_of with_routes
        (Kept-routes be view lawful) IsRoute Inv see (λ l _ v. grow l v)
        (λ x t id good. IsRoute-edit t id t.remark t.enabled true (validate_route-IsRoute x t good))
        (λ on x h. IsRoute-edit x x.id x.remark on true h)

  duplicate_route-Inv :
      (id : Str) (w : World S) → Inv (view w.be) → Inv (view (duplicate_route be token id w).1.be)
  unfolding duplicate_route
  duplicate_route-Inv id w h =
      read-Holds view Inv be.routes (λ v. v.routes) _ w lawful.reads_routes h
        λ w' same.
          let h' : Inv (view w'.be) = subst Inv (sym same) h in
          elim (Option-cases (index_by_id (λ r. r.id) (view w.be).routes id)) [
            | inl missing ↦ rw missing h'
            | inr (i, found) ↦ elim (Option-cases (get_elem? (view w.be).routes i)) [
              | inl missing ↦ rw (found, missing) h'
              | inr (r, there) ↦
                  let copied : Route = copy_of be (crypto_id token w'.drawn (codes "route")) r in
                  let valid : IsRoute copied =
                    IsRoute-edit r _ _ r.enabled true
                      (All-get_elem? IsRoute _ i r there (see _ h)) in
                  rw (found, there)
                    (write-Holds view Inv (be.save_routes ((view w.be).routes ++ copied ∷ [])) _ _
                      (record w' { drawn = w'.drawn + 1 }) (lawful.writes_routes _) h'
                      (grow _ _ h' (All-append IsRoute (view w.be).routes _ (see _ h) (valid, tt)))
                      (λ w'' k. k))
            ]
          ]

  set_route_push_mode-Inv :
      (m : Str) (w : World S) → Inv (view w.be) → Inv (view (set_route_push_mode be m w).1.be)
  unfolding set_route_push_mode
  set_route_push_mode-Inv m w h =
      elim (Bool-cases
        (str_eq m route_push_off || str_eq m route_push_all || str_eq m route_push_tagged)) [
          | inl known ↦ rw known (
              write-Holds view Inv (be.save_route_push_mode m) _ _ w (lawful.writes_push_mode m) h
                (mode m _ h) (λ w' h'. h'))
          | inr other ↦ rw other h
        ]

  pub Step-Inv : (w v : World S) → Step be token w v → Inv (view w.be) → Inv (view v.be)
  unfolding create_checked update_checked create_route update_route delete_route set_route_enabled
      batch_routes
  Step-Inv w _ (created r) h = route_lifecycle.created (λ _. no_check) token r w h
  Step-Inv w _ (updated id r) h = route_lifecycle.updated (λ _. no_check) id r w h
  Step-Inv w _ (deleted id) h = route_lifecycle.deleted id w h
  Step-Inv w _ (switched id on) h = route_lifecycle.switched id on w h
  Step-Inv w _ (batched action ids) h = route_lifecycle.batched action ids w h
  Step-Inv w _ (duplicated id) h = duplicate_route-Inv id w h
  Step-Inv w _ (pushed m) h = set_route_push_mode-Inv m w h

module _ {S : Type 0} (be : Backend S) (view : S → Config) (lawful : Lawful be view)
    (token : ℕ → Str) where
  -- Over a backend that keeps its contract, whatever sequence of creations, updates, deletions,
  -- switches, batches, copies and changes of the push mode is called, every stored route is in
  -- the normal form that validation gives, if that held at the start.
  pub Reached-IsRoute :
      (w v : World S)
      → Reached be token w v
      → All IsRoute (view w.be).routes
      → All IsRoute (view v.be).routes
  Reached-IsRoute w _ start h = h
  Reached-IsRoute w _ (step v u r s) h =
      Step-Inv be view lawful token (λ v. All IsRoute v.routes) (λ v k. k) (λ l v _ k. k)
        (λ m v k. k) v u s (Reached-IsRoute w v r h)
