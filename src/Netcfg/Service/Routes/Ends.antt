-- ===== src/Netcfg/Service/Routes/Ends.antt =====
-- internal/netcfg/service.go, static routes: how the methods end over a backend that keeps its
-- contract.
use mathlib.Core.Path.{subst}
use kwrt_net_manager.Prelude.{
  ℕ, ◌≡◌, ◌⊎◌, refl, sym, inl, inr, true, false, none, some, List, [], ◌∷◌, ◌++◌, arith, Str,
  str_eq, codes, Bool-cases, Option-cases, if◌then◌else◌,
}
use kwrt_net_manager.Netcfg.Result.{ok, not_found}
use kwrt_net_manager.Netcfg.Exec.{lift, bind-ok}
use kwrt_net_manager.Netcfg.Types.{Route}
use kwrt_net_manager.Netcfg.Validate.{validate_route}
use kwrt_net_manager.Netcfg.Backend.{Backend, Config, Lawful}
use kwrt_net_manager.Netcfg.Service.{World, crypto_id, index_by_id, drop_by_id}
use kwrt_net_manager.Netcfg.Service.Collection.{delete, no_check, if_removed}
use kwrt_net_manager.Netcfg.Service.Collection.Outcome.{
  Outcome, Stopped, create-Outcome, mutate-Outcome, mutate-Stopped,
}
use kwrt_net_manager.Netcfg.Service.Stored.{with_routes, routes_of, Kept-routes}
use kwrt_net_manager.Netcfg.Service.Routes.{route_collection, create_route, delete_route}

-- What `dropByID` gives: nothing removed, or all items with the id.
drop_by_id-cases :
    (l : List Route) (id : Str)
    → (drop_by_id (λ r. r.id) l id).1
      ≡ (elim (index_by_id (λ r. r.id) l id) [ none ↦ false | some _ ↦ true ])
unfolding drop_by_id index_by_id
drop_by_id-cases [] id = refl
drop_by_id-cases (x ∷ xs) id = ground (arith, drop_by_id-cases xs id)

-- The items with another id, in their order.
abbrev pub others : Str → List Route → List Route
others id [] = []
others id (x ∷ xs) = if str_eq x.id id then others id xs else x ∷ others id xs

drop_by_id-others : (l : List Route) (id : Str) → (drop_by_id (λ r. r.id) l id).0 ≡ others id l
unfolding drop_by_id
drop_by_id-others [] id = refl
drop_by_id-others (x ∷ xs) id = elim (Bool-cases (str_eq x.id id)) [
  | inl same ↦ rw same (drop_by_id-others xs id)
  | inr other ↦ rw (other, drop_by_id-others xs id) refl
]

module _ {S : Type 0} (be : Backend S) (view : S → Config) (lawful : Lawful be view) where
  abbrev pub created : (ℕ → Str) → Route → World S → Route
  created token checked w = record checked {
    id = crypto_id token w.drawn (codes "route");
    managed = true;
  }

  -- Over a backend that keeps its contract, creating a route that passes validation either
  -- answers with the checked route under a new id, appends it to the stored routes and
  -- publishes one event with their number, or ends in an error that publishes nothing and
  -- leaves the stored routes as they were or with the route appended.
  pub create_route-Outcome :
      (token : ℕ → Str) (r checked : Route) (w : World S)
      → validate_route r ≡ ok checked
      → Outcome
          (route_collection be)
          view
          with_routes
          w
          (codes "create")
          ((view w.be).routes ++ created token checked w ∷ [])
          tt
          (created token checked w)
          (create_route be token r w)
  unfolding create_route
  create_route-Outcome token r checked w good =
      subst
        (λ end.
          Outcome (route_collection be) view with_routes w (codes "create")
            ((view w.be).routes ++ created token checked w ∷ []) tt (created token checked w) end)
        (sym (bind-ok (lift (validate_route r)) _ w checked good))
        (create-Outcome (route_collection be) view routes_of with_routes
          (Kept-routes be view lawful) token no_check checked w refl)

  -- Over a backend that keeps its contract, deleting a route by an id that no stored route has
  -- is an error that changes and publishes nothing; otherwise the routes with other ids are
  -- saved, in their order, and one event is published, or there is an error that publishes
  -- nothing.
  pub delete_route-ends :
      (id : Str) (w : World S)
      → ((index_by_id (λ r. r.id) (view w.be).routes id ≡ none)
          × Stopped
              (route_collection be)
              view
              routes_of
              with_routes
              (Kept-routes be view lawful)
              w
              (delete_route be id w))
        ⊎ ((i : ℕ) × (index_by_id (λ r. r.id) (view w.be).routes id ≡ some i)
            × Outcome
                (route_collection be)
                view
                with_routes
                w
                (codes "delete")
                (others id (view w.be).routes)
                tt
                tt
                (delete_route be id w))
  unfolding delete_route delete
  delete_route-ends id w = elim (Option-cases (index_by_id (λ r. r.id) (view w.be).routes id)) [
    | inl missing ↦
        let kept_all : (drop_by_id (λ r. r.id) (view w.be).routes id).1 ≡ false =
          rw missing at (drop_by_id-cases (view w.be).routes id) in
        inl (
          missing,
          mutate-Stopped (route_collection be) view routes_of with_routes
              (Kept-routes be view lawful) (codes "delete")
              (λ l. if_removed (route_collection be) (drop_by_id (λ r. r.id) l id)) not_found w
              (rw kept_all refl),
        )
    | inr (i, found) ↦
        let removed : (drop_by_id (λ r. r.id) (view w.be).routes id).1 ≡ true =
          rw found at (drop_by_id-cases (view w.be).routes id) in
        inr (
          i,
          found,
          mutate-Outcome (route_collection be) view routes_of with_routes
              (Kept-routes be view lawful) (codes "delete")
              (λ l. if_removed (route_collection be) (drop_by_id (λ r. r.id) l id))
              (others id (view w.be).routes) w
              (rw (removed, drop_by_id-others (view w.be).routes id) refl),
        )
  ]
