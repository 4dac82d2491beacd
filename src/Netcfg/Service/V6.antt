-- ===== src/Netcfg/Service/V6.antt =====
-- internal/netcfg/ipv6_service.go: IPv6 lines, IPv6 networks, static prefixes, the DHCPv6 access list
-- and the neighbours.
pub mod Kept
pub mod Valid
pub mod Hex
pub mod Fresh
pub mod Reach
use kwrt_net_manager.Prelude.{
  ℕ, zero, suc, ◌+◌, Bool, true, false, ◌||◌, not, Option, none, some, List, [], ◌∷◌, ◌++◌, Str,
  codes, str_eq, is_empty, if◌then◌else◌, get_elem?, set,
}
use kwrt_net_manager.Go.Strings.{trim_space}
use kwrt_net_manager.Netutil.MacAddr.{byte_hex}
use kwrt_net_manager.Netcfg.Names.{uci_name, next_v6_id, or_v6}
use kwrt_net_manager.Netcfg.Result.{
  Result, ok, err, not_found, bad_acl_mode, lan_configured, no_neighbor,
}
use kwrt_net_manager.Netcfg.Exec.{Exec, pure, raise, lift, ◌>>=◌, ◌>>◌}
use kwrt_net_manager.Netcfg.Types.{acl_blacklist, acl_whitelist}
use kwrt_net_manager.Netcfg.Types.V6.{WanV6, LanV6, PrefixStaticV6, AclV6, AclV6Entry}
use kwrt_net_manager.Netcfg.Validate.V6.{
  validate_wan_v6, validate_lan_v6, validate_prefix_static_v6, validate_acl_v6_entry,
}
use kwrt_net_manager.Netcfg.Backend.{Backend, with_mode}
use kwrt_net_manager.Netcfg.Service.{World, call, publish, ipv6_changed, index_by_id, find_by_id}
use kwrt_net_manager.Netcfg.Service.Collection.{
  Collection, no_check, create_named, update, delete, set_enabled, batch, commit, at_index,
}
use kwrt_net_manager.Netcfg.Service.Collection.Checked.{create_checked, update_checked}

-- `hex.EncodeToString`
unfoldable pub encode_hex : List ℕ → Str
encode_hex [] = []
encode_hex (b ∷ bs) = byte_hex b ++ encode_hex bs

-- `generateDUID` on what `rand.Read` puts into the sixteen bytes.
unfoldable pub generate_duid : List ℕ → Str
generate_duid bytes = codes "0004" ++ encode_hex bytes

unfoldable pub ids_of_wan_v6 : List WanV6 → List Str
ids_of_wan_v6 [] = []
ids_of_wan_v6 (w ∷ ws) = w.id ∷ ids_of_wan_v6 ws

-- `in.ID = uciName(orV6(in.ID, nextV6ID(ids, "wan6")))`
unfoldable pub wan_name : WanV6 → List WanV6 → Str
wan_name w list = uci_name (or_v6 w.id (next_v6_id (ids_of_wan_v6 list) (codes "wan6")))

-- The loop of `CreateLANv6`.
unfoldable pub ensure_no_lan : Str → List LanV6 → Result (Unit {0})
ensure_no_lan id [] = ok tt
ensure_no_lan id (x ∷ xs) =
    let rest = ensure_no_lan id xs in if str_eq x.id id then err lan_configured else rest

abbrev pub with_duid : Str → WanV6 → WanV6
with_duid duid w = record w { client_id = duid; managed = true }

abbrev pub flip_entry : AclV6Entry → AclV6Entry
flip_entry e = record e { enabled = not e.enabled; managed = true }

module _ {S : Type 0} (be : Backend S) where
  abbrev pub wan_collection : Collection S (Unit {0}) WanV6
  wan_collection = record {
    load = (do l ← be.wan_v6s; pure (l, tt));
    save = λ l _. be.save_wan_v6s l;
    topic = ipv6_changed;
    prefix = codes "wan6";
    id_of = λ w. w.id;
    identify =
        λ id w. record w { id = id; name = if is_empty w.name then id else w.name; managed = true };
    switch = λ on w. record w { enabled = on; managed = true };
  }

  unfoldable pub list_wan_v6 : Exec (World S) (List WanV6)
  list_wan_v6 = call be.wan_v6s

  unfoldable pub get_wan_v6 : Str → Exec (World S) WanV6
  get_wan_v6 id = do list ← call be.wan_v6s; find_by_id (λ w. w.id) id list

  unfoldable pub create_wan_v6 : WanV6 → Exec (World S) WanV6
  create_wan_v6 w = do
    checked ← lift (validate_wan_v6 w)
    create_named wan_collection no_check (wan_name checked) checked

  unfoldable pub update_wan_v6 : Str → WanV6 → Exec (World S) WanV6
  update_wan_v6 = update_checked wan_collection validate_wan_v6 (λ _. no_check)

  unfoldable pub delete_wan_v6 : Str → Exec (World S) (Unit {0})
  delete_wan_v6 = delete wan_collection

  unfoldable pub set_wan_v6_enabled : Str → Bool → Exec (World S) (Unit {0})
  set_wan_v6_enabled = set_enabled wan_collection

  unfoldable pub batch_wan_v6 : Str → List Str → Exec (World S) (Unit {0})
  batch_wan_v6 = batch wan_collection

  abbrev pub regen_at : Str → List WanV6 → ℕ → Option WanV6 → Exec (World S) WanV6
  regen_at duid list i none = raise not_found
  regen_at duid list i (some w) =
      commit wan_collection (codes "update") (set list i (with_duid duid w)) tt (with_duid duid w)

  -- `bytes` is what the random source gives.
  unfoldable pub regen_wan_v6_duid : List ℕ → Str → Exec (World S) WanV6
  regen_wan_v6_duid bytes id = do
    loaded ← call wan_collection.load
    at_index wan_collection (index_by_id (λ w. w.id) loaded.0 id)
        λ i. regen_at (generate_duid bytes) loaded.0 i (get_elem? loaded.0 i)

  abbrev pub lan_collection : Collection S (Unit {0}) LanV6
  lan_collection = record {
    load = (do l ← be.lan_v6s; pure (l, tt));
    save = λ l _. be.save_lan_v6s l;
    topic = ipv6_changed;
    prefix = [];
    id_of = λ l. l.id;
    identify = λ id l. record l { id = id; managed = true };
    switch = λ on l. record l { enabled = on; managed = true };
  }

  unfoldable pub list_lan_v6 : Exec (World S) (List LanV6)
  list_lan_v6 = call be.lan_v6s

  unfoldable pub get_lan_v6 : Str → Exec (World S) LanV6
  get_lan_v6 id = do list ← call be.lan_v6s; find_by_id (λ l. l.id) id list

  unfoldable pub create_lan_v6 : LanV6 → Exec (World S) LanV6
  create_lan_v6 l = do
    checked ← lift (validate_lan_v6 l)
    let id = uci_name checked.interface
    create_named lan_collection (ensure_no_lan id) (λ _. id) checked

  unfoldable pub update_lan_v6 : Str → LanV6 → Exec (World S) LanV6
  update_lan_v6 = update_checked lan_collection validate_lan_v6 (λ _. no_check)

  unfoldable pub delete_lan_v6 : Str → Exec (World S) (Unit {0})
  delete_lan_v6 = delete lan_collection

  unfoldable pub set_lan_v6_enabled : Str → Bool → Exec (World S) (Unit {0})
  set_lan_v6_enabled = set_enabled lan_collection

  unfoldable pub batch_lan_v6 : Str → List Str → Exec (World S) (Unit {0})
  batch_lan_v6 = batch lan_collection

  abbrev pub prefix_collection : Collection S (Unit {0}) PrefixStaticV6
  prefix_collection = record {
    load = (do l ← be.prefix_statics_v6; pure (l, tt));
    save = λ l _. be.save_prefix_statics_v6 l;
    topic = ipv6_changed;
    prefix = codes "ps6";
    id_of = λ p. p.id;
    identify = λ id p. record p { id = id; managed = true };
    switch = λ on p. record p { enabled = on; managed = true };
  }

  unfoldable pub list_prefix_statics_v6 : Exec (World S) (List PrefixStaticV6)
  list_prefix_statics_v6 = call be.prefix_statics_v6

  unfoldable pub create_prefix_static_v6 :
      (ℕ → Str) → PrefixStaticV6 → Exec (World S) PrefixStaticV6
  create_prefix_static_v6 =
      create_checked prefix_collection validate_prefix_static_v6 (λ _. no_check)

  unfoldable pub update_prefix_static_v6 : Str → PrefixStaticV6 → Exec (World S) PrefixStaticV6
  update_prefix_static_v6 =
      update_checked prefix_collection validate_prefix_static_v6 (λ _. no_check)

  unfoldable pub delete_prefix_static_v6 : Str → Exec (World S) (Unit {0})
  delete_prefix_static_v6 = delete prefix_collection

  unfoldable pub set_prefix_static_v6_enabled : Str → Bool → Exec (World S) (Unit {0})
  set_prefix_static_v6_enabled = set_enabled prefix_collection

  unfoldable pub batch_prefix_statics_v6 : Str → List Str → Exec (World S) (Unit {0})
  batch_prefix_statics_v6 = batch prefix_collection

  -- The mode is loaded by `GetACLv6` and saved beside the entries.
  abbrev pub acl_v6_collection : Collection S Str AclV6Entry
  acl_v6_collection = record {
    load = (do a ← be.acl_v6; pure (a.entries, (with_mode a).mode));
    save = λ l mode. be.save_acl_v6 (record { mode = mode; entries = l });
    topic = ipv6_changed;
    prefix = codes "aclv6";
    id_of = λ e. e.id;
    identify = λ id e. record e { id = id; managed = true };
    switch = λ on e. record e { enabled = on; managed = true };
  }

  unfoldable pub get_acl_v6 : Exec (World S) AclV6
  get_acl_v6 = do
    loaded ← call acl_v6_collection.load
    pure (record { mode = loaded.1; entries = loaded.0 })

  unfoldable pub set_acl_v6_mode : Str → Exec (World S) AclV6
  set_acl_v6_mode mode =
      if str_eq mode acl_blacklist || str_eq mode acl_whitelist
      then (do
        loaded ← call acl_v6_collection.load
        commit acl_v6_collection (codes "update") loaded.0 mode
            (record { mode = mode; entries = loaded.0 }))
      else raise bad_acl_mode

  unfoldable pub add_acl_v6_entry : (ℕ → Str) → AclV6Entry → Exec (World S) AclV6Entry
  add_acl_v6_entry = create_checked acl_v6_collection validate_acl_v6_entry (λ _. no_check)

  unfoldable pub update_acl_v6_entry : Str → AclV6Entry → Exec (World S) AclV6Entry
  update_acl_v6_entry = update_checked acl_v6_collection validate_acl_v6_entry (λ _. no_check)

  unfoldable pub delete_acl_v6_entry : Str → Exec (World S) (Unit {0})
  delete_acl_v6_entry = delete acl_v6_collection

  abbrev pub toggle_at : ℕ → List AclV6Entry → Str → Option AclV6Entry → Exec (World S) AclV6Entry
  toggle_at i list mode none = raise not_found
  toggle_at i list mode (some e) =
      commit acl_v6_collection (codes "toggle") (set list i (flip_entry e)) mode (flip_entry e)

  unfoldable pub toggle_acl_v6_entry : Str → Exec (World S) AclV6Entry
  toggle_acl_v6_entry id = do
    loaded ← call acl_v6_collection.load
    at_index acl_v6_collection (index_by_id (λ e. e.id) loaded.0 id)
        λ i. toggle_at i loaded.0 loaded.1 (get_elem? loaded.0 i)

  unfoldable pub delete_neighbor_v6 : Str → Str → Exec (World S) (Unit {0})
  delete_neighbor_v6 addr dev =
      if is_empty (trim_space addr)
      then raise no_neighbor
      else (do call (be.delete_neighbor_v6 addr dev); publish ipv6_changed (codes "delete") 0)

  unfoldable pub flush_neighbors_v6 : Str → Exec (World S) (Unit {0})
  flush_neighbors_v6 dev = do
    call (be.flush_neighbors_v6 dev)
    publish ipv6_changed (codes "apply") 0
