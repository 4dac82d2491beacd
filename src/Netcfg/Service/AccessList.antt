-- ===== src/Netcfg/Service/AccessList.antt =====
-- internal/netcfg/service.go, the MAC access-control list.
pub mod Valid
use kwrt_net_manager.Prelude.{
  ℕ, true, false, ◌||◌, not, Option, none, some, List, [], ◌∷◌, Str, codes, str_eq, is_empty,
  if◌then◌else◌, get_elem?, set,
}
use kwrt_net_manager.Go.Strings.{equal_fold}
use kwrt_net_manager.Netcfg.Result.{Result, ok, err, not_found, bad_acl_mode, mac_listed}
use kwrt_net_manager.Netcfg.Exec.{Exec, pure, raise, lift, ◌>>=◌}
use kwrt_net_manager.Netcfg.Types.{Acl, AclEntry, acl_blacklist, acl_whitelist}
use kwrt_net_manager.Netcfg.Validate.{validate_acl_entry}
use kwrt_net_manager.Netcfg.Backend.{Backend}
use kwrt_net_manager.Netcfg.Service.{World, call, acl_changed, index_by_id}
use kwrt_net_manager.Netcfg.Service.Collection.{
  Collection, no_check, create, update, delete, commit, at_index,
}

-- `GetACL` on what the backend holds: a missing mode is the blacklist.
abbrev pub acl_mode : Str → Str
acl_mode mode = if is_empty mode then acl_blacklist else mode

-- The loop of `AddACLEntry`.
unfoldable pub ensure_not_listed : List AclEntry → AclEntry → Result (Unit {0})
ensure_not_listed [] e = ok tt
ensure_not_listed (x ∷ xs) e =
    let rest = ensure_not_listed xs e in if equal_fold x.mac e.mac then err mac_listed else rest

module _ {S : Type 0} (be : Backend S) where
  -- The mode is loaded by `GetACL` and saved beside the entries.
  abbrev pub acl_collection : Collection S Str AclEntry
  acl_collection = record {
    load = (do a ← be.acl; pure (a.entries, acl_mode a.mode));
    save = λ l mode. be.save_acl (record { mode = mode; entries = l });
    topic = acl_changed;
    prefix = codes "acl";
    id_of = λ e. e.id;
    identify = λ id e. record e { id = id; managed = true };
    switch = λ on e. record e { enabled = on; managed = true };
  }

  unfoldable pub get_acl : Exec (World S) Acl
  get_acl = do
    loaded ← call acl_collection.load
    pure (record { mode = loaded.1; entries = loaded.0 })

  unfoldable pub set_acl_mode : Str → Exec (World S) Acl
  set_acl_mode mode =
      if str_eq mode acl_blacklist || str_eq mode acl_whitelist
      then (do
        loaded ← call acl_collection.load
        commit acl_collection (codes "update") loaded.0 mode
            (record { mode = mode; entries = loaded.0 }))
      else raise bad_acl_mode

  unfoldable pub add_acl_entry : (ℕ → Str) → AclEntry → Exec (World S) AclEntry
  add_acl_entry token e = do
    checked ← lift (validate_acl_entry e)
    create acl_collection token (λ l. ensure_not_listed l checked) checked

  unfoldable pub update_acl_entry : Str → AclEntry → Exec (World S) AclEntry
  update_acl_entry id e = do
    checked ← lift (validate_acl_entry e)
    update acl_collection no_check id checked

  unfoldable pub delete_acl_entry : Str → Exec (World S) (Unit {0})
  delete_acl_entry id = delete acl_collection id

  abbrev pub flip_entry : AclEntry → AclEntry
  flip_entry e = record e { enabled = not e.enabled; managed = true }

  abbrev pub toggle_at : ℕ → List AclEntry → Str → Option AclEntry → Exec (World S) AclEntry
  toggle_at i list mode none = raise not_found
  toggle_at i list mode (some e) =
      commit acl_collection (codes "toggle") (set list i (flip_entry e)) mode (flip_entry e)

  unfoldable pub toggle_acl_entry : Str → Exec (World S) AclEntry
  toggle_acl_entry id = do
    loaded ← call acl_collection.load
    at_index acl_collection (index_by_id (λ e. e.id) loaded.0 id)
        λ i. toggle_at i loaded.0 loaded.1 (get_elem? loaded.0 i)

  -- `BlacklistMAC`
  unfoldable pub blacklist_mac : (ℕ → Str) → Str → Str → Exec (World S) AclEntry
  blacklist_mac token mac remark =
      add_acl_entry token
        (record { id = []; mac = mac; remark = remark; enabled = true; managed = false })
