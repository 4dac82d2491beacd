-- ===== src/Netcfg/Service/AccessList/Valid.antt =====
-- internal/netcfg/service.go, the MAC access-control list: the validity of the stored entries over the
-- methods.
use mathlib.Core.Path.{subst}
use kwrt_net_manager.Prelude.{
  ℕ, sym, inl, inr, Bool, true, ◌||◌, List, Str, codes, str_eq, Bool-cases, All, All-set,
}
use kwrt_net_manager.Netcfg.Types.{AclEntry, acl_blacklist, acl_whitelist}
use kwrt_net_manager.Netcfg.Validate.{validate_acl_entry}
use kwrt_net_manager.Netcfg.Validate.Laws.{IsEntry, validate_acl_entry-IsEntry}
use kwrt_net_manager.Netcfg.Backend.{Backend, Config, Lawful}
use kwrt_net_manager.Netcfg.Service.{World}
use kwrt_net_manager.Netcfg.Service.Frame.{read-Holds}
use kwrt_net_manager.Netcfg.Service.Collection.{no_check}
use kwrt_net_manager.Netcfg.Service.Collection.Checked.{
  Lifecycle, lifecycle, create_checked, update_checked,
}
use kwrt_net_manager.Netcfg.Service.Collection.Named.{commit-Inv, edit-Inv}
use kwrt_net_manager.Netcfg.Service.Stored.{with_acl, acl_of, Kept-acl}
use kwrt_net_manager.Netcfg.Service.AccessList.{
  acl_collection, ensure_not_listed, set_acl_mode, add_acl_entry, update_acl_entry,
  delete_acl_entry, toggle_acl_entry, toggle_at, flip_entry, blacklist_mac,
}

IsEntry-edit :
    (e : AclEntry) (id : Str) (on : Bool)
    → IsEntry e
    → IsEntry (record e { id = id; enabled = on; managed = true })
IsEntry-edit e id on h = record { mac_given = h.mac_given; mac_canonical = h.mac_canonical }

module _ {S : Type 0} (be : Backend S) (token : ℕ → Str) where
  -- One call of a method that writes the list.
  pub data Step (w : World S) : World S → Type 0 where
    mode_set : (mode : Str) → Step w (set_acl_mode be mode w).1
    added : (e : AclEntry) → Step w (add_acl_entry be token e w).1
    updated : (id : Str) (e : AclEntry) → Step w (update_acl_entry be id e w).1
    deleted : (id : Str) → Step w (delete_acl_entry be id w).1
    toggled : (id : Str) → Step w (toggle_acl_entry be id w).1
    blacklisted : (mac remark : Str) → Step w (blacklist_mac be token mac remark w).1

module _ {S : Type 0} (be : Backend S) (view : S → Config) (lawful : Lawful be view)
    (token : ℕ → Str) (Inv : Config → Type 0)
    (see : (v : Config) → Inv v → All IsEntry v.acl.entries)
    (grow : (l : List AclEntry) (mode : Str) (v : Config)
      → Inv v
      → All IsEntry l
      → Inv (record v { acl = record { mode = mode; entries = l } })) where
  entry_lifecycle : Lifecycle (acl_collection be) validate_acl_entry view Inv
  entry_lifecycle =
      lifecycle (acl_collection be) validate_acl_entry view acl_of with_acl
        (Kept-acl be view lawful) IsEntry Inv see grow
        (λ x t id good. IsEntry-edit t id t.enabled (validate_acl_entry-IsEntry x t good))
        (λ on x h. IsEntry-edit x x.id on h)

  add_acl_entry-Inv :
      (e : AclEntry) (w : World S) → Inv (view w.be) → Inv (view (add_acl_entry be token e w).1.be)
  unfolding create_checked add_acl_entry
  add_acl_entry-Inv e w h = entry_lifecycle.created (λ x l. ensure_not_listed l x) token e w h

  toggle_acl_entry-Inv :
      (id : Str) (w : World S) → Inv (view w.be) → Inv (view (toggle_acl_entry be id w).1.be)
  unfolding toggle_acl_entry
  toggle_acl_entry-Inv id w h =
      edit-Inv (acl_collection be) view acl_of with_acl (Kept-acl be view lawful) IsEntry Inv see
        grow id (λ i l mode o. toggle_at be i l mode o) w h (λ i l mode w' h'. h')
        (λ i x l mode w' h' valid good.
          commit-Inv (acl_collection be) view acl_of with_acl (Kept-acl be view lawful) IsEntry Inv
            see grow (codes "toggle") _ mode (flip_entry be x) w' h'
            (All-set IsEntry l i _ valid (IsEntry-edit x x.id _ good)))

  set_acl_mode-Inv :
      (mode : Str) (w : World S) → Inv (view w.be) → Inv (view (set_acl_mode be mode w).1.be)
  unfolding set_acl_mode
  set_acl_mode-Inv mode w h =
      elim (Bool-cases (str_eq mode acl_blacklist || str_eq mode acl_whitelist)) [
        | inl known ↦ rw known (
            read-Holds view Inv (acl_collection be).load acl_of _ w (Kept-acl be view lawful).loads
              h
              λ w' same.
                let h' : Inv (view w'.be) = subst Inv (sym same) h in
                commit-Inv (acl_collection be) view acl_of with_acl (Kept-acl be view lawful)
                  IsEntry Inv see grow (codes "update") (view w.be).acl.entries mode _ w' h'
                  (see _ h))
        | inr other ↦ rw other h
      ]

  pub Step-Inv : (w v : World S) → Step be token w v → Inv (view w.be) → Inv (view v.be)
  unfolding update_checked update_acl_entry delete_acl_entry blacklist_mac
  Step-Inv w _ (mode_set mode) h = set_acl_mode-Inv mode w h
  Step-Inv w _ (added e) h = add_acl_entry-Inv e w h
  Step-Inv w _ (updated id e) h = entry_lifecycle.updated (λ _. no_check) id e w h
  Step-Inv w _ (deleted id) h = entry_lifecycle.deleted id w h
  Step-Inv w _ (toggled id) h = toggle_acl_entry-Inv id w h
  Step-Inv w _ (blacklisted mac remark) h = add_acl_entry-Inv _ w h
