-- ===== src/Netcfg/Service/Routes.antt =====
-- internal/netcfg/service.go, static routes.
pub mod Ends
pub mod Valid
use kwrt_net_manager.Prelude.{
  ℕ, Bool, true, false, ◌||◌, not, Option, none, some, List, [], ◌∷◌, ◌++◌, Str, codes, str_eq,
  is_empty, if◌then◌else◌, length, get_elem?,
}
use kwrt_net_manager.Netcfg.Result.{Result, ok, err, not_found, bad_push_mode}
use kwrt_net_manager.Netcfg.Exec.{Exec, pure, lift, raise, ◌>>=◌, ◌>>◌}
use kwrt_net_manager.Netcfg.Types.{
  Route, RouteEntry, family_ipv4, route_push_off, route_push_all, route_push_tagged,
}
use kwrt_net_manager.Netcfg.Validate.{validate_route}
use kwrt_net_manager.Netcfg.Backend.{Backend}
use kwrt_net_manager.Netcfg.Service.{
  World, call, publish, draw, route_changed, index_by_id, find_by_id,
}
use kwrt_net_manager.Netcfg.Service.Collection.{
  Collection, create, update, delete, set_enabled, batch, commit, at_index, no_check,
}

module _ {S : Type 0} (be : Backend S) where
  abbrev pub route_collection : Collection S (Unit {0}) Route
  route_collection = record {
    load = (do l ← be.routes; pure (l, tt));
    save = λ l _. be.save_routes l;
    topic = route_changed;
    prefix = codes "route";
    id_of = λ r. r.id;
    identify = λ id r. record r { id = id; managed = true };
    switch = λ on r. record r { enabled = on; managed = true };
  }

  unfoldable pub list_routes : Exec (World S) (List Route)
  list_routes = call be.routes

  unfoldable pub get_route : Str → Exec (World S) Route
  get_route id = do list ← call be.routes; find_by_id (λ r. r.id) id list

  unfoldable pub create_route : (ℕ → Str) → Route → Exec (World S) Route
  create_route token r = do
    checked ← lift (validate_route r)
    create route_collection token no_check checked

  unfoldable pub update_route : Str → Route → Exec (World S) Route
  update_route id r = do
    checked ← lift (validate_route r)
    update route_collection no_check id checked

  unfoldable pub delete_route : Str → Exec (World S) (Unit {0})
  delete_route id = delete route_collection id

  unfoldable pub set_route_enabled : Str → Bool → Exec (World S) (Unit {0})
  set_route_enabled id on = set_enabled route_collection id on

  unfoldable pub batch_routes : Str → List Str → Exec (World S) (Unit {0})
  batch_routes action ids = batch route_collection action ids

  abbrev pub copied_remark : Str → Str
  copied_remark remark = if is_empty remark then remark else remark ++ codes "（副本）"

  -- The copy is as the original, but for its id and its remark.
  abbrev pub copy_of : Str → Route → Route
  copy_of id r = record r { id = id; managed = true; remark = copied_remark r.remark }

  abbrev pub append_copy : (ℕ → Str) → List Route → Option Route → Exec (World S) Route
  append_copy token list none = raise not_found
  append_copy token list (some r) = do
    id ← draw token (codes "route")
    commit route_collection (codes "create") (list ++ copy_of id r ∷ []) tt (copy_of id r)

  unfoldable pub duplicate_route : (ℕ → Str) → Str → Exec (World S) Route
  duplicate_route token id = do
    list ← call be.routes
    at_index route_collection (index_by_id (λ r. r.id) list id)
        λ i. append_copy token list (get_elem? list i)

  unfoldable pub get_route_push_mode : Exec (World S) Str
  get_route_push_mode = do
    m ← call be.route_push_mode
    pure (if is_empty m then route_push_off else m)

  unfoldable pub set_route_push_mode : Str → Exec (World S) (Unit {0})
  set_route_push_mode mode =
      if str_eq mode route_push_off || str_eq mode route_push_all || str_eq mode route_push_tagged
      then (do call (be.save_route_push_mode mode); publish route_changed (codes "update") 0)
      else raise bad_push_mode

  -- The live table; the empty family is IPv4.
  unfoldable pub route_table : Str → Exec (World S) (List RouteEntry)
  route_table family = call (be.route_table (if is_empty family then family_ipv4 else family))
