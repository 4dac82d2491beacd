-- ===== src/Netcfg/Service/Ifaces/Reach.antt =====
-- internal/netcfg/iface.go: the lines over sequences of calls, on the store backend. Its reads do not
-- fail; behind a read that fails the service goes on with no lines to compare with.
use kwrt_net_manager.Netcfg.Store.Files.{Outcomes}
use kwrt_net_manager.Prelude.{
  ℕ, ◌≡◌, inl, inr, List, Str, codes, is_empty, Bool-cases, All, AllPairs,
}
use kwrt_net_manager.Netcfg.Result.{ok, >>=-eq-ok}
use kwrt_net_manager.Netcfg.Exec.{Exec, pure, lift, attempt, ◌>>=◌, ◌>>◌}
use kwrt_net_manager.Netcfg.Types.{DhcpServer}
use kwrt_net_manager.Netcfg.Types.Iface.{NetIface}
use kwrt_net_manager.Netcfg.Validate.Iface.{
  check_conflicts, validate_net_iface, check_iface_relations, can_delete_net_iface,
}
use kwrt_net_manager.Netcfg.Validate.Iface.Laws.{IsIface, IsIface-named, validate_net_iface-IsIface}
use kwrt_net_manager.Netcfg.Backend.{Config}
use kwrt_net_manager.Netcfg.Store.{Store, store_backend}
use kwrt_net_manager.Netcfg.Store.Ifaces.{with_states}
use kwrt_net_manager.Netcfg.Store.Contract.{memory_of, save-Writes}
use kwrt_net_manager.Netcfg.Service.{World, call, publish, iface_changed}
use kwrt_net_manager.Netcfg.Service.Frame.{write-Holds, lift-Holds}
use kwrt_net_manager.Netcfg.Service.Servers.{or_none}
use kwrt_net_manager.Netcfg.Service.Ifaces.{
  named_iface, with_new_id, save_net_iface, delete_net_iface, wan_action,
}
use kwrt_net_manager.Netcfg.Service.Ifaces.Apart.{
  Apart, Clear, check_conflicts-Clear, put_iface-All, without_iface-All, put_iface-Apart,
  without_iface-Apart,
}

-- Every line is valid, and no two have the same id or share an address text.
pub record IsNetwork (v : Config) : Type 0 where
  pub each : All IsIface v.net_ifaces
  pub apart : AllPairs Apart v.net_ifaces

pub named_iface-IsIface :
    (list : List NetIface) (x : NetIface) → IsIface x → IsIface (named_iface list x)
unfolding named_iface
named_iface-IsIface list x h = elim (Bool-cases (is_empty x.id)) [
  | inl blank ↦ rw blank (IsIface-named x _ _ h)
  | inr given ↦ rw given h
]

pub check_iface_relations-Clear :
    (x : NetIface) (l : List NetIface) (servers : List DhcpServer) {u : Unit}
    → check_iface_relations x (with_states l) servers ≡ ok u
    → All (Clear x) l
unfolding check_iface_relations
check_iface_relations-Clear x l servers h =
    let (_, clear, _) = >>=-eq-ok (check_conflicts x (with_states l)) _ h in
    check_conflicts-Clear x l clear

module _ (io : ℕ → Outcomes) where
  -- What a save does behind the choice of an id.
  abbrev pub save_rest : List NetIface → NetIface → Exec (World Store) NetIface
  save_rest existing named = do
    servers ← attempt (call (store_backend io).dhcp_servers)
    lift (check_iface_relations named existing (or_none servers))
    call ((store_backend io).save_net_iface named)
    publish iface_changed (codes "save") 0
    pure named

  save_rest-IsNetwork :
      (x : NetIface) (w : World Store)
      → IsIface x
      → IsNetwork w.be.mem
      → IsNetwork (save_rest (with_states w.be.mem.net_ifaces) x w).1.be.mem
  save_rest-IsNetwork x w valid h =
      lift-Holds memory_of IsNetwork
        (check_iface_relations x (with_states w.be.mem.net_ifaces) w.be.mem.servers) _ w h
        λ _ related.
          write-Holds memory_of IsNetwork ((store_backend io).save_net_iface x) _ _ w
            (save-Writes io _) h
            (record {
              each = put_iface-All IsIface x w.be.mem.net_ifaces valid h.each;
              apart =
                  put_iface-Apart x w.be.mem.net_ifaces
                    (check_iface_relations-Clear x w.be.mem.net_ifaces w.be.mem.servers related)
                    h.apart;
            })
            (λ w' k. k)

  save_net_iface-IsNetwork :
      (x : NetIface) (w : World Store)
      → IsNetwork w.be.mem
      → IsNetwork (save_net_iface (store_backend io) x w).1.be.mem
  unfolding save_net_iface with_new_id
  save_net_iface-IsNetwork x w h =
      lift-Holds memory_of IsNetwork (validate_net_iface x) _ w h λ t good.
        let valid : IsIface t = validate_net_iface-IsIface x t good in
        elim (Bool-cases (is_empty t.id)) [
          | inl blank ↦ rw blank (
              save_rest-IsNetwork (named_iface (with_states w.be.mem.net_ifaces) t) w
                (named_iface-IsIface _ t valid) h)
          | inr given ↦ rw given (save_rest-IsNetwork t w valid h)
        ]

  delete_net_iface-IsNetwork :
      (id : Str) (w : World Store)
      → IsNetwork w.be.mem
      → IsNetwork (delete_net_iface (store_backend io) id w).1.be.mem
  unfolding delete_net_iface
  delete_net_iface-IsNetwork id w h =
      lift-Holds memory_of IsNetwork (can_delete_net_iface id (with_states w.be.mem.net_ifaces)) _ w
        h
        λ _ free.
          write-Holds memory_of IsNetwork ((store_backend io).delete_net_iface id) _ _ w
            (save-Writes io _) h
            (record {
              each = without_iface-All IsIface id w.be.mem.net_ifaces h.each;
              apart = without_iface-Apart id w.be.mem.net_ifaces h.apart;
            })
            (λ w' k. k)

  wan_action-IsNetwork :
      (id action : Str) (w : World Store)
      → IsNetwork w.be.mem
      → IsNetwork (wan_action (store_backend io) id action w).1.be.mem
  unfolding wan_action
  wan_action-IsNetwork id action w h = h

  pub data Step (w : World Store) : World Store → Type 0 where
    saved : (x : NetIface) → Step w (save_net_iface (store_backend io) x w).1
    deleted : (id : Str) → Step w (delete_net_iface (store_backend io) id w).1
    acted : (id action : Str) → Step w (wan_action (store_backend io) id action w).1

  pub data Reached (w : World Store) : World Store → Type 0 where
    start : Reached w w
    step : (v u : World Store) → Reached w v → Step v u → Reached w u

  Step-IsNetwork : (w v : World Store) → Step w v → IsNetwork w.be.mem → IsNetwork v.be.mem
  Step-IsNetwork w _ (saved x) h = save_net_iface-IsNetwork x w h
  Step-IsNetwork w _ (deleted id) h = delete_net_iface-IsNetwork id w h
  Step-IsNetwork w _ (acted id action) h = wan_action-IsNetwork id action w h

  -- On the store backend, whatever the outcomes of its writes, after any sequence of saves,
  -- deletions and actions on the lines, with any arguments and whichever of them fail, every
  -- stored line is valid, and no two have the same id or an address text in common, among the
  -- main and the further addresses, if that held at the start.
  pub Reached-IsNetwork :
      (w v : World Store) → Reached w v → IsNetwork w.be.mem → IsNetwork v.be.mem
  Reached-IsNetwork w _ start h = h
  Reached-IsNetwork w _ (step v u r s) h = Step-IsNetwork v u s (Reached-IsNetwork w v r h)
