-- ===== src/Netcfg/Service/V6/Reach.antt =====
-- internal/netcfg/ipv6_service.go: the validity of what is stored over sequences of calls.
use mathlib.Core.Path.{subst}
use kwrt_net_manager.Prelude.{
  ℕ, ◌<◌, sym, inl, inr, Bool, ◌||◌, List, Str, codes, str_eq, is_empty, Bool-cases, All, All-set,
}
use kwrt_net_manager.Go.Strings.{trim_space}
use kwrt_net_manager.Netcfg.Types.{acl_blacklist, acl_whitelist}
use kwrt_net_manager.Netcfg.Types.V6.{WanV6, LanV6, PrefixStaticV6, AclV6Entry}
use kwrt_net_manager.Netcfg.Names.{uci_name}
use kwrt_net_manager.Netcfg.Validate.V6.{
  validate_wan_v6, validate_lan_v6, validate_prefix_static_v6, validate_acl_v6_entry,
}
use kwrt_net_manager.Netcfg.Validate.V6.Wan.{IsWan, validate_wan_v6-IsWan}
use kwrt_net_manager.Netcfg.Validate.V6.Laws.{
  IsLan, IsPrefixStatic, IsEntryV6, validate_lan_v6-IsLan, validate_prefix_static_v6-IsPrefixStatic,
  validate_acl_v6_entry-IsEntryV6,
}
use kwrt_net_manager.Netcfg.Backend.{Backend, Config, Lawful}
use kwrt_net_manager.Netcfg.Service.{World}
use kwrt_net_manager.Netcfg.Service.Frame.{read-Holds, write-Holds, lift-Holds}
use kwrt_net_manager.Netcfg.Service.Collection.{no_check}
use kwrt_net_manager.Netcfg.Service.Collection.Checked.{Lifecycle, lifecycle}
use kwrt_net_manager.Netcfg.Service.Collection.Named.{commit-Inv, create_named-Inv, edit-Inv}
use kwrt_net_manager.Netcfg.Service.V6.{
  generate_duid, wan_name, ensure_no_lan, wan_collection, create_wan_v6, update_wan_v6,
  delete_wan_v6, set_wan_v6_enabled, batch_wan_v6, regen_wan_v6_duid, regen_at, with_duid,
  lan_collection, create_lan_v6, update_lan_v6, delete_lan_v6, set_lan_v6_enabled, batch_lan_v6,
  prefix_collection, create_prefix_static_v6, update_prefix_static_v6, delete_prefix_static_v6,
  set_prefix_static_v6_enabled, batch_prefix_statics_v6, acl_v6_collection, set_acl_v6_mode,
  add_acl_v6_entry, update_acl_v6_entry, delete_acl_v6_entry, toggle_acl_v6_entry, flip_entry,
  toggle_at, delete_neighbor_v6, flush_neighbors_v6,
}
use kwrt_net_manager.Netcfg.Service.V6.Kept.{
  wans_of, with_wans, Kept-wans, lans_of, with_lans, Kept-lans, prefixes_of, with_prefixes,
  Kept-prefixes, acl_v6_of, with_acl_v6, Kept-acl_v6,
}
use kwrt_net_manager.Netcfg.Service.V6.Valid.{
  IsV6, Admits, IsV6-Admits, IsWan-edit, IsWan-with_duid, IsLan-edit, IsPrefixStatic-edit,
  IsEntryV6-edit,
}
use kwrt_net_manager.Netcfg.Service.V6.Hex.{generate_duid-is_hex_bytes}

module _ {S : Type 0} (be : Backend S) (token : ℕ → Str) where
  -- One call of a method that writes a part of the IPv6 configuration. The random source gives bytes.
  pub data Step (w : World S) : World S → Type 0 where
    wan_created : (x : WanV6) → Step w (create_wan_v6 be x w).1
    wan_updated : (id : Str) (x : WanV6) → Step w (update_wan_v6 be id x w).1
    wan_deleted : (id : Str) → Step w (delete_wan_v6 be id w).1
    wan_switched : (id : Str) (on : Bool) → Step w (set_wan_v6_enabled be id on w).1
    wans_batched : (action : Str) (ids : List Str) → Step w (batch_wan_v6 be action ids w).1
    duid_drawn :
        (bytes : List ℕ) (id : Str)
        → All (λ b. b < 256) bytes
        → Step w (regen_wan_v6_duid be bytes id w).1
    lan_created : (x : LanV6) → Step w (create_lan_v6 be x w).1
    lan_updated : (id : Str) (x : LanV6) → Step w (update_lan_v6 be id x w).1
    lan_deleted : (id : Str) → Step w (delete_lan_v6 be id w).1
    lan_switched : (id : Str) (on : Bool) → Step w (set_lan_v6_enabled be id on w).1
    lans_batched : (action : Str) (ids : List Str) → Step w (batch_lan_v6 be action ids w).1
    prefix_created : (x : PrefixStaticV6) → Step w (create_prefix_static_v6 be token x w).1
    prefix_updated : (id : Str) (x : PrefixStaticV6) → Step w (update_prefix_static_v6 be id x w).1
    prefix_deleted : (id : Str) → Step w (delete_prefix_static_v6 be id w).1
    prefix_switched : (id : Str) (on : Bool) → Step w (set_prefix_static_v6_enabled be id on w).1
    prefixes_batched :
        (action : Str) (ids : List Str) → Step w (batch_prefix_statics_v6 be action ids w).1
    mode_set : (mode : Str) → Step w (set_acl_v6_mode be mode w).1
    entry_added : (x : AclV6Entry) → Step w (add_acl_v6_entry be token x w).1
    entry_updated : (id : Str) (x : AclV6Entry) → Step w (update_acl_v6_entry be id x w).1
    entry_deleted : (id : Str) → Step w (delete_acl_v6_entry be id w).1
    entry_toggled : (id : Str) → Step w (toggle_acl_v6_entry be id w).1
    neighbor_deleted : (addr dev : Str) → Step w (delete_neighbor_v6 be addr dev w).1
    neighbors_flushed : (dev : Str) → Step w (flush_neighbors_v6 be dev w).1

  pub data Reached (w : World S) : World S → Type 0 where
    start : Reached w w
    step : (v u : World S) → Reached w v → Step v u → Reached w u

module _ {S : Type 0} (be : Backend S) (view : S → Config) (lawful : Lawful be view)
    (token : ℕ → Str) (Inv : Config → Type 0) (admits : Admits Inv) where
  wan_lifecycle : Lifecycle (wan_collection be) validate_wan_v6 view Inv
  wan_lifecycle =
      lifecycle (wan_collection be) validate_wan_v6 view wans_of with_wans
        (Kept-wans be view lawful) IsWan Inv (λ v h. (admits.sees v h).wans)
        (λ l _ v. admits.takes_wans l v)
        (λ x t id good. IsWan-edit t id _ t.enabled (validate_wan_v6-IsWan x t good))
        (λ on x h. IsWan-edit x x.id x.name on h)

  lan_lifecycle : Lifecycle (lan_collection be) validate_lan_v6 view Inv
  lan_lifecycle =
      lifecycle (lan_collection be) validate_lan_v6 view lans_of with_lans
        (Kept-lans be view lawful) IsLan Inv (λ v h. (admits.sees v h).lans)
        (λ l _ v. admits.takes_lans l v)
        (λ x t id good. IsLan-edit t id t.enabled (validate_lan_v6-IsLan x t good))
        (λ on x h. IsLan-edit x x.id on h)

  prefix_lifecycle : Lifecycle (prefix_collection be) validate_prefix_static_v6 view Inv
  prefix_lifecycle =
      lifecycle (prefix_collection be) validate_prefix_static_v6 view prefixes_of with_prefixes
        (Kept-prefixes be view lawful) IsPrefixStatic Inv (λ v h. (admits.sees v h).prefixes)
        (λ l _ v. admits.takes_prefixes l v)
        (λ x t id good.
          IsPrefixStatic-edit t id t.enabled (validate_prefix_static_v6-IsPrefixStatic x t good))
        (λ on x h. IsPrefixStatic-edit x x.id on h)

  entry_lifecycle : Lifecycle (acl_v6_collection be) validate_acl_v6_entry view Inv
  entry_lifecycle =
      lifecycle (acl_v6_collection be) validate_acl_v6_entry view acl_v6_of with_acl_v6
        (Kept-acl_v6 be view lawful) IsEntryV6 Inv (λ v h. (admits.sees v h).entries)
        (λ l mode v. admits.takes_entries l mode v)
        (λ x t id good. IsEntryV6-edit t id t.enabled (validate_acl_v6_entry-IsEntryV6 x t good))
        (λ on x h. IsEntryV6-edit x x.id on h)

  create_wan_v6-Inv :
      (x : WanV6) (w : World S) → Inv (view w.be) → Inv (view (create_wan_v6 be x w).1.be)
  unfolding create_wan_v6
  create_wan_v6-Inv x w h = lift-Holds view Inv (validate_wan_v6 x) _ w h λ t good.
      create_named-Inv (wan_collection be) view wans_of with_wans (Kept-wans be view lawful) IsWan
        Inv (λ v k. (admits.sees v k).wans) (λ l _ v. admits.takes_wans l v) no_check (wan_name t) t
        w h (λ id. IsWan-edit t id _ t.enabled (validate_wan_v6-IsWan x t good))

  create_lan_v6-Inv :
      (x : LanV6) (w : World S) → Inv (view w.be) → Inv (view (create_lan_v6 be x w).1.be)
  unfolding create_lan_v6
  create_lan_v6-Inv x w h = lift-Holds view Inv (validate_lan_v6 x) _ w h λ t good.
      create_named-Inv (lan_collection be) view lans_of with_lans (Kept-lans be view lawful) IsLan
        Inv (λ v k. (admits.sees v k).lans) (λ l _ v. admits.takes_lans l v)
        (ensure_no_lan (uci_name t.interface)) (λ _. uci_name t.interface) t w h
        (λ id. IsLan-edit t id t.enabled (validate_lan_v6-IsLan x t good))

  regen_wan_v6_duid-Inv :
      (bytes : List ℕ) (id : Str) (w : World S)
      → All (λ b. b < 256) bytes
      → Inv (view w.be)
      → Inv (view (regen_wan_v6_duid be bytes id w).1.be)
  unfolding regen_wan_v6_duid
  regen_wan_v6_duid-Inv bytes id w small h =
      edit-Inv (wan_collection be) view wans_of with_wans (Kept-wans be view lawful) IsWan Inv
        (λ v k. (admits.sees v k).wans) (λ l _ v. admits.takes_wans l v) id
        (λ i l _ o. regen_at be (generate_duid bytes) l i o) w h (λ i l _ w' h'. h')
        (λ i x l _ w' h' valid good.
          commit-Inv (wan_collection be) view wans_of with_wans (Kept-wans be view lawful) IsWan Inv
            (λ v k. (admits.sees v k).wans) (λ l _ v. admits.takes_wans l v) (codes "update") _ tt
            (with_duid (generate_duid bytes) x) w' h'
            (All-set IsWan l i _ valid
              (IsWan-with_duid x _ (generate_duid-is_hex_bytes bytes small) good)))

  toggle_acl_v6_entry-Inv :
      (id : Str) (w : World S) → Inv (view w.be) → Inv (view (toggle_acl_v6_entry be id w).1.be)
  unfolding toggle_acl_v6_entry
  toggle_acl_v6_entry-Inv id w h =
      edit-Inv (acl_v6_collection be) view acl_v6_of with_acl_v6 (Kept-acl_v6 be view lawful)
        IsEntryV6 Inv (λ v k. (admits.sees v k).entries) (λ l mode v. admits.takes_entries l mode v)
        id (λ i l mode o. toggle_at be i l mode o) w h (λ i l mode w' h'. h')
        (λ i x l mode w' h' valid good.
          commit-Inv (acl_v6_collection be) view acl_v6_of with_acl_v6 (Kept-acl_v6 be view lawful)
            IsEntryV6 Inv (λ v k. (admits.sees v k).entries)
            (λ l mode v. admits.takes_entries l mode v) (codes "toggle") _ mode (flip_entry x) w' h'
            (All-set IsEntryV6 l i _ valid (IsEntryV6-edit x x.id _ good)))

  set_acl_v6_mode-Inv :
      (mode : Str) (w : World S) → Inv (view w.be) → Inv (view (set_acl_v6_mode be mode w).1.be)
  unfolding set_acl_v6_mode
  set_acl_v6_mode-Inv mode w h =
      elim (Bool-cases (str_eq mode acl_blacklist || str_eq mode acl_whitelist)) [
        | inl known ↦ rw known (
            read-Holds view Inv (acl_v6_collection be).load acl_v6_of _ w
              (Kept-acl_v6 be view lawful).loads h
              λ w' same.
                let h' : Inv (view w'.be) = subst Inv (sym same) h in
                commit-Inv (acl_v6_collection be) view acl_v6_of with_acl_v6
                  (Kept-acl_v6 be view lawful) IsEntryV6 Inv (λ v k. (admits.sees v k).entries)
                  (λ l m v. admits.takes_entries l m v) (codes "update") (view w.be).acl_v6.entries
                  mode _ w' h' (admits.sees _ h).entries)
        | inr other ↦ rw other h
      ]

  delete_neighbor_v6-Inv :
      (addr dev : Str) (w : World S)
      → Inv (view w.be)
      → Inv (view (delete_neighbor_v6 be addr dev w).1.be)
  unfolding delete_neighbor_v6
  delete_neighbor_v6-Inv addr dev w h = elim (Bool-cases (is_empty (trim_space addr))) [
    | inl blank ↦ rw blank h
    | inr given ↦ rw given (
        write-Holds view Inv (be.delete_neighbor_v6 addr dev) (λ v. v) _ w
          (lawful.deletes_neighbor addr dev) h h (λ w' k. k))
  ]

  pub Step-Inv : (w v : World S) → Step be token w v → Inv (view w.be) → Inv (view v.be)
  unfolding update_wan_v6 delete_wan_v6 set_wan_v6_enabled batch_wan_v6 update_lan_v6 delete_lan_v6
      set_lan_v6_enabled batch_lan_v6 create_prefix_static_v6 update_prefix_static_v6
      delete_prefix_static_v6 set_prefix_static_v6_enabled batch_prefix_statics_v6 add_acl_v6_entry
      update_acl_v6_entry delete_acl_v6_entry flush_neighbors_v6
  Step-Inv w _ (wan_created x) h = create_wan_v6-Inv x w h
  Step-Inv w _ (wan_updated id x) h = wan_lifecycle.updated (λ _. no_check) id x w h
  Step-Inv w _ (wan_deleted id) h = wan_lifecycle.deleted id w h
  Step-Inv w _ (wan_switched id on) h = wan_lifecycle.switched id on w h
  Step-Inv w _ (wans_batched action ids) h = wan_lifecycle.batched action ids w h
  Step-Inv w _ (duid_drawn bytes id small) h = regen_wan_v6_duid-Inv bytes id w small h
  Step-Inv w _ (lan_created x) h = create_lan_v6-Inv x w h
  Step-Inv w _ (lan_updated id x) h = lan_lifecycle.updated (λ _. no_check) id x w h
  Step-Inv w _ (lan_deleted id) h = lan_lifecycle.deleted id w h
  Step-Inv w _ (lan_switched id on) h = lan_lifecycle.switched id on w h
  Step-Inv w _ (lans_batched action ids) h = lan_lifecycle.batched action ids w h
  Step-Inv w _ (prefix_created x) h = prefix_lifecycle.created (λ _. no_check) token x w h
  Step-Inv w _ (prefix_updated id x) h = prefix_lifecycle.updated (λ _. no_check) id x w h
  Step-Inv w _ (prefix_deleted id) h = prefix_lifecycle.deleted id w h
  Step-Inv w _ (prefix_switched id on) h = prefix_lifecycle.switched id on w h
  Step-Inv w _ (prefixes_batched action ids) h = prefix_lifecycle.batched action ids w h
  Step-Inv w _ (mode_set mode) h = set_acl_v6_mode-Inv mode w h
  Step-Inv w _ (entry_added x) h = entry_lifecycle.created (λ _. no_check) token x w h
  Step-Inv w _ (entry_updated id x) h = entry_lifecycle.updated (λ _. no_check) id x w h
  Step-Inv w _ (entry_deleted id) h = entry_lifecycle.deleted id w h
  Step-Inv w _ (entry_toggled id) h = toggle_acl_v6_entry-Inv id w h
  Step-Inv w _ (neighbor_deleted addr dev) h = delete_neighbor_v6-Inv addr dev w h
  Step-Inv w _ (neighbors_flushed dev) h =
      write-Holds view Inv (be.flush_neighbors_v6 dev) (λ v. v) _ w (lawful.flushes_neighbors dev) h
        h (λ w' k. k)

module _ {S : Type 0} (be : Backend S) (view : S → Config) (lawful : Lawful be view)
    (token : ℕ → Str) where
  pub Reached-IsV6 : (w v : World S) → Reached be token w v → IsV6 (view w.be) → IsV6 (view v.be)
  Reached-IsV6 w _ start h = h
  Reached-IsV6 w _ (step v u r s) h =
      Step-Inv be view lawful token IsV6 IsV6-Admits v u s (Reached-IsV6 w v r h)
