-- ===== src/Examples/Routing.antt =====
-- internal/netcfg/service.go, static routes at concrete records, over the store backend.
use kwrt_net_manager.Prelude.{
  ℕ, ◌≡◌, ◌⊎◌, refl, codes, some, none, pos, true, false, [], ◌∷◌, ◌++◌, All,
}
use kwrt_net_manager.Go.Ip.{parse_ip, to4, v4_loop}
use kwrt_net_manager.Go.Strings.{trim_space, trim_left, trim_right, is_space}
use kwrt_net_manager.Netutil.{ipv4_to_uint32, mask_to_prefix, mask_loop, is_ipv4}
use kwrt_net_manager.Netcfg.Result.{ok}
use kwrt_net_manager.Netcfg.Types.{Route, family_ipv4}
use kwrt_net_manager.Netcfg.Validate.{
  validate_route, check_family, check_by_family, check_ipv4_route, check_route_numbers, sync_mask,
  of_mask, known_route_type,
}
use kwrt_net_manager.Netcfg.Validate.RouteLaws.{
  IsRoute, validate_route-IsRoute, validate_route_idem,
}
use kwrt_net_manager.Netcfg.Store.{Store, store_backend}
use kwrt_net_manager.Netcfg.Store.Contract.{store_backend-Lawful, memory_of}
use kwrt_net_manager.Netcfg.Service.{World, index_by_id}
use kwrt_net_manager.Netcfg.Service.Collection.Outcome.{Outcome, Stopped}
use kwrt_net_manager.Netcfg.Service.Stored.{with_routes, routes_of, Kept-routes}
use kwrt_net_manager.Netcfg.Service.Routes.{route_collection, create_route, delete_route}
use kwrt_net_manager.Netcfg.Service.Routes.Ends.{create_route-Outcome, delete_route-ends, others}
use kwrt_net_manager.Netcfg.Service.Routes.Valid
use kwrt_net_manager.Examples.Service.{good_disk, counter, at_start}

abbrev office_route : Route
office_route = record {
  id = [];
  family = [];
  interface = [];
  target = codes "10.0.0.0";
  netmask = codes "255.255.255.0";
  prefix = pos 0;
  gateway = codes "192.168.1.2";
  metric = pos 1;
  kind = [];
  mtu = pos 0;
  table = pos 0;
  remark = [];
  enabled = true;
  push_to_clients = false;
  managed = false;
}

abbrev office_checked : Route
office_checked = record office_route {
  family = family_ipv4;
  interface = codes "auto";
  target = codes "10.0.0.0";
  prefix = pos 24;
}

route_checked : validate_route office_route ≡ ok office_checked
unfolding validate_route check_family check_by_family check_ipv4_route check_route_numbers sync_mask
    of_mask known_route_type mask_to_prefix mask_loop is_ipv4 ipv4_to_uint32 parse_ip v4_loop
    trim_space trim_left trim_right is_space to4
route_checked = refl

validate_route-IsRoute_example : IsRoute office_checked
validate_route-IsRoute_example = validate_route-IsRoute office_route office_checked route_checked

validate_route_idem_example : validate_route office_checked ≡ ok office_checked
validate_route_idem_example = validate_route_idem office_route office_checked route_checked

create_route-Outcome_example :
    Outcome
      (route_collection (store_backend good_disk))
      memory_of
      with_routes
      at_start
      (codes "create")
      ([] ++ record office_checked { id = codes "route_0"; managed = true } ∷ [])
      tt
      (record office_checked { id = codes "route_0"; managed = true })
      (create_route (store_backend good_disk) counter office_route at_start)
create_route-Outcome_example =
    create_route-Outcome (store_backend good_disk) memory_of (store_backend-Lawful good_disk)
      counter office_route office_checked at_start route_checked

abbrev with_route : World Store
with_route = (create_route (store_backend good_disk) counter office_route at_start).1

abbrev without_route : World Store
without_route = (delete_route (store_backend good_disk) (codes "route_0") with_route).1

Reached-IsRoute_example : All IsRoute without_route.be.mem.routes
Reached-IsRoute_example =
    Valid.Reached-IsRoute (store_backend good_disk) memory_of (store_backend-Lawful good_disk)
      counter at_start without_route
      (Valid.step with_route without_route
        (Valid.step at_start with_route Valid.start (Valid.created office_route))
        (Valid.deleted (codes "route_0")))
      tt

delete_route-ends_example :
    ((index_by_id (λ r. r.id) with_route.be.mem.routes (codes "route_0") ≡ none)
      × Stopped
          (route_collection (store_backend good_disk))
          memory_of
          routes_of
          with_routes
          (Kept-routes (store_backend good_disk) memory_of (store_backend-Lawful good_disk))
          with_route
          (delete_route (store_backend good_disk) (codes "route_0") with_route))
    ⊎ ((i : ℕ) × (index_by_id (λ r. r.id) with_route.be.mem.routes (codes "route_0") ≡ some i)
        × Outcome
            (route_collection (store_backend good_disk))
            memory_of
            with_routes
            with_route
            (codes "delete")
            (others (codes "route_0") with_route.be.mem.routes)
            tt
            tt
            (delete_route (store_backend good_disk) (codes "route_0") with_route))
delete_route-ends_example =
    delete_route-ends (store_backend good_disk) memory_of (store_backend-Lawful good_disk)
      (codes "route_0") with_route
