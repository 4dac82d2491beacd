-- ===== src/Netcfg/Service/Statics/Reach.antt =====
-- internal/netcfg/service.go: the reservations over any sequence of calls.
use kwrt_net_manager.Prelude.{ℕ, ◌≢◌, Bool, List, Str, codes, All}
use kwrt_net_manager.Netcfg.Types.{StaticLease}
use kwrt_net_manager.Netcfg.Backend.{Backend, Config, Lawful}
use kwrt_net_manager.Netcfg.Service.{World, crypto_id}
use kwrt_net_manager.Netcfg.Service.Statics.{
  create_static, update_static, delete_static, set_static_enabled, batch_statics, set_arp_bind,
  reserve_lease,
}
use kwrt_net_manager.Netcfg.Service.Statics.Unique.{IsTable}
use kwrt_net_manager.Netcfg.Service.Statics.Keeps.{
  create_static-IsTable, update_static-IsTable, delete_static-IsTable, set_static_enabled-IsTable,
  batch_statics-IsTable, set_arp_bind-IsTable,
}

module _ {S : Type 0} (be : Backend S) (view : S → Config) (token : ℕ → Str) where
  -- The id that the next creation draws is not in use.
  abbrev pub Fresh : World S → Type 0
  Fresh w = All (λ x. x.id ≢ crypto_id token w.drawn (codes "host")) (view w.be).statics

  -- The states behind any calls, each with whatever arguments and whatever end.
  pub data Reached (w : World S) : World S → Type 0 where
    start : Reached w w
    created :
        (v : World S) (s : StaticLease)
        → Reached w v
        → Fresh v
        → Reached w (create_static be token s v).1
    reserved :
        (v : World S) (ip mac hostname iface : Str)
        → Reached w v
        → Fresh v
        → Reached w (reserve_lease be token ip mac hostname iface v).1
    updated :
        (v : World S) (id : Str) (s : StaticLease)
        → Reached w v
        → Reached w (update_static be id s v).1
    deleted : (v : World S) (id : Str) → Reached w v → Reached w (delete_static be id v).1
    switched :
        (v : World S) (id : Str) (on : Bool)
        → Reached w v
        → Reached w (set_static_enabled be id on v).1
    batched :
        (v : World S) (action : Str) (ids : List Str)
        → Reached w v
        → Reached w (batch_statics be action ids v).1
    bound : (v : World S) (on : Bool) → Reached w v → Reached w (set_arp_bind be on v).1

module _ {S : Type 0} (be : Backend S) (view : S → Config) (lawful : Lawful be view)
    (token : ℕ → Str) where
  -- Over a backend that keeps its contract, whatever sequence of creations, reservations of a
  -- lease, updates, deletions, switches, batches and changes of the ARP switch is called, with
  -- any arguments and whichever of them fail, the stored reservations stay a table: each one is
  -- in the form that validation gives and has an id, and no two share an id, a MAC or an IP
  -- text, provided they are a table at the start and each creation draws an id that is not in
  -- use.
  pub Reached-IsTable :
      (w v : World S)
      → Reached be view token w v
      → IsTable (view w.be).statics
      → IsTable (view v.be).statics
  unfolding reserve_lease
  Reached-IsTable w _ start h = h
  Reached-IsTable w _ (created v s r fresh) h =
      create_static-IsTable be view lawful token s v (Reached-IsTable w v r h) fresh
  Reached-IsTable w _ (reserved v ip mac hostname iface r fresh) h =
      create_static-IsTable be view lawful token _ v (Reached-IsTable w v r h) fresh
  Reached-IsTable w _ (updated v id s r) h =
      update_static-IsTable be view lawful id s v (Reached-IsTable w v r h)
  Reached-IsTable w _ (deleted v id r) h =
      delete_static-IsTable be view lawful id v (Reached-IsTable w v r h)
  Reached-IsTable w _ (switched v id on r) h =
      set_static_enabled-IsTable be view lawful id on v (Reached-IsTable w v r h)
  Reached-IsTable w _ (batched v action ids r) h =
      batch_statics-IsTable be view lawful action ids v (Reached-IsTable w v r h)
  Reached-IsTable w _ (bound v on r) h =
      set_arp_bind-IsTable be view lawful on v (Reached-IsTable w v r h)
