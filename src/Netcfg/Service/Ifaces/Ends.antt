-- ===== src/Netcfg/Service/Ifaces/Ends.antt =====
-- internal/netcfg/iface.go: how a save of a line can end on the store backend.
use mathlib.Core.Path.{subst}
use kwrt_net_manager.Netcfg.Store.Files.{Outcomes, Disk, flush_disk}
use kwrt_net_manager.Netcfg.Backend.{Config}
use kwrt_net_manager.Prelude.{
  Str, ℕ, ◌≡◌, ◌≢◌, refl, sym, ◌⊎◌, inl, inr, false, List, [], ◌∷◌, codes, str_eq, str_eq_iff,
  is_empty, is_empty_iff, Bool-cases, All, arith,
}
use kwrt_net_manager.Netcfg.Result.{Err, Result, ok, err, Result-cases, >>=-eq-ok}
use kwrt_net_manager.Netcfg.Types.{DhcpServer}
use kwrt_net_manager.Netcfg.Types.Iface.{NetIface}
use kwrt_net_manager.Netcfg.Validate.Iface.{
  check_conflicts, check_pools, check_iface_relations, end_outside, validate_net_iface,
}
use kwrt_net_manager.Netcfg.Validate.Iface.Laws.{IsIface, validate_net_iface-IsIface}
use kwrt_net_manager.Netcfg.Store.{Store, store_backend, save, flush}
use kwrt_net_manager.Netcfg.Store.Ifaces.{with_states, put_iface}
use kwrt_net_manager.Netcfg.Service.{World, announce, iface_changed}
use kwrt_net_manager.Netcfg.Service.Ifaces.{ids_of_ifaces, named_iface, with_new_id, save_net_iface}
use kwrt_net_manager.Netcfg.Service.Ifaces.NewId.{IsNamed, named_iface-IsNamed}
use kwrt_net_manager.Netcfg.Validate.Iface.Kept.{normal_iface, validate_net_iface-normal}
use kwrt_net_manager.Netcfg.Service.Ifaces.Apart.{Clear}
use kwrt_net_manager.Netcfg.Service.Ifaces.Reach.{
  named_iface-IsIface, check_iface_relations-Clear, save_rest,
}

-- A pool of the line lies in the line's subnet, as far as its ends are given.
abbrev pub Fits : NetIface → DhcpServer → Type 0
Fits x s =
    s.interface ≡ x.id → (end_outside x s.ip_start ≡ false) × (end_outside x s.ip_end ≡ false)

-- What the tests of a save let through.
pub record Accepted (w : World Store) (x : NetIface) : Type 0 where
  pub valid : IsIface x
  pub clear : All (Clear x) w.be.mem.net_ifaces
  pub pools : x.ipaddr ≢ [] → x.netmask ≢ [] → All (Fits x) w.be.mem.servers

check_pools-Fits :
    (x : NetIface) (l : List DhcpServer) {u : Unit} → check_pools x l ≡ ok u → All (Fits x) l
unfolding check_pools
check_pools-Fits x [] h = tt
check_pools-Fits x (s ∷ ss) h = elim (Bool-cases (str_eq s.interface x.id)) [
  | inl own ↦ ((λ _. (ground (arith), ground (arith))), check_pools-Fits x ss (ground (arith)))
  | inr other ↦ (
    (λ same. absurd (ground (arith, str_eq_iff s.interface x.id))),
    check_pools-Fits x ss (ground (arith)),
  )
]

check_iface_relations-Fits :
    (x : NetIface) (l : List NetIface) (servers : List DhcpServer) {u : Unit}
    → check_iface_relations x l servers ≡ ok u
    → x.ipaddr ≢ []
    → x.netmask ≢ []
    → All (Fits x) servers
unfolding check_iface_relations
check_iface_relations-Fits x l servers {u} h addressed masked =
    let (_, _, rest) = >>=-eq-ok (check_conflicts x l) _ h in
    let pools : check_pools x servers ≡ ok u =
      ground (arith, rest, is_empty_iff x.ipaddr, is_empty_iff x.netmask) in
    check_pools-Fits x servers pools

-- A save that the tests let through: the line is in memory; either it is the answer and one event
-- is published, or the file was not written and nothing is published.
pub record Put (w : World Store) (x : NetIface) (end : Result NetIface × World Store) : Type 0 where
  pub accepted : Accepted w x
  pub memory : end.1.be.mem ≡ record w.be.mem { net_ifaces = put_iface x w.be.mem.net_ifaces }
  pub answer :
      ((end.0 ≡ ok x)
        × (end.1.bus
            ≡ announce w.bus (record { topic = iface_changed; action = codes "save"; count = 0 })))
      ⊎ (((e : Err) × (end.0 ≡ err e)) × (end.1.bus ≡ w.bus))

-- The line that is put is the given one, normalized and named.
abbrev pub Ends : World Store → NetIface → Result NetIface × World Store → Type 0
Ends w given end =
    ((e : Err) × (end ≡ (err e, w)))
    ⊎ ((x : NetIface) × IsNamed (ids_of_ifaces w.be.mem.net_ifaces) (normal_iface given) x
        × Put w x end)

abbrev Tested : World Store → NetIface → Result NetIface × World Store → Type 0
Tested w x end = ((e : Err) × (end ≡ (err e, w))) ⊎ Put w x end

Tested-Ends :
    (w : World Store) (given x : NetIface) (end : Result NetIface × World Store)
    → IsNamed (ids_of_ifaces w.be.mem.net_ifaces) (normal_iface given) x
    → Tested w x end
    → Ends w given end
Tested-Ends w given x end named (inl stop) = inl stop
Tested-Ends w given x end named (inr put) = inr (x, named, put)

given_id : (t : NetIface) → is_empty t.id ≡ false → t.id ≢ []
given_id t h = ground (arith, is_empty_iff t.id)

module _ (io : ℕ → Outcomes) where
  -- The flush behind a line that is put.
  abbrev stored : NetIface → World Store → Result (Unit {0}) × Disk (Config × List (Str × Str))
  stored x w =
      flush_disk (io w.be.writes)
        (record w.be.mem { net_ifaces = put_iface x w.be.mem.net_ifaces }, w.be.notes) w.be.disk

  save_rest-Ends :
      (x : NetIface) (w : World Store)
      → IsIface x
      → Tested w x (save_rest io (with_states w.be.mem.net_ifaces) x w)
  unfolding save flush
  save_rest-Ends x w valid =
      elim (Result-cases
        (check_iface_relations x (with_states w.be.mem.net_ifaces) w.be.mem.servers)) [
          | inl (e, conflict) ↦ rw conflict (inl (e, refl))
          | inr (_, related) ↦
              let accepted : Accepted w x = record {
                valid = valid;
                clear = check_iface_relations-Clear x w.be.mem.net_ifaces w.be.mem.servers related;
                pools = check_iface_relations-Fits x _ w.be.mem.servers related;
              } in
              elim (Result-cases (stored x w).0) [
                | inl (e, failed) ↦ rw related (
                    rw failed (
                      inr (record {
                        accepted = accepted;
                        memory = refl;
                        answer = inr ((e, refl), refl);
                      })))
                | inr (_, done) ↦ rw related (
                    rw done (
                      inr
                        (record { accepted = accepted; memory = refl; answer = inl (refl, refl) })))
              ]
        ]

  -- On the store backend a save of a line ends in one of two ways. Either there is an error and
  -- the world is as it was. Or a line is put: the given one with its id trimmed, the kind of
  -- access of a LAN or a missing one filled in, its DNS servers trimmed and without blank ones,
  -- and a missing family of its further addresses filled in, and nothing else changed, but that
  -- a line without an id gets one, also for its name: the role, or else the role with the least
  -- number from 2 on, that is not in use, or the role and _new when the numbers from 2 to 63
  -- are all in use. It is valid, shares no address text with a stored line of another id, and,
  -- if it has an address and a netmask, has the ends of its pools in its subnet; it takes the
  -- place of the first line with its id, or the last place, in memory, and then it is the
  -- answer and one event is published, or there is an error and nothing is published.
  pub save_net_iface-Ends :
      (x : NetIface) (w : World Store) → Ends w x (save_net_iface (store_backend io) x w)
  unfolding save_net_iface with_new_id
  save_net_iface-Ends x w = elim (Result-cases (validate_net_iface x)) [
    | inl (e, bad) ↦ rw bad (inl (e, refl))
    | inr (t, good) ↦
        let valid : IsIface t = validate_net_iface-IsIface x t good in
        let normal : normal_iface x ≡ t = validate_net_iface-normal x t good in
        let named = λ (y : NetIface) (h : IsNamed (ids_of_ifaces w.be.mem.net_ifaces) t y).
          subst (λ q. IsNamed (ids_of_ifaces w.be.mem.net_ifaces) q y) (sym normal) h in
        rw good (elim (Bool-cases (is_empty t.id)) [
          | inl blank ↦
              let y : NetIface = named_iface (with_states w.be.mem.net_ifaces) t in
              rw blank (
                Tested-Ends w x y _ (named y (named_iface-IsNamed w.be.mem.net_ifaces t blank))
                  (save_rest-Ends y w (named_iface-IsIface _ t valid)))
          | inr given ↦ rw given (
              Tested-Ends w x t _ (named t (inl (given_id t given, refl)))
                (save_rest-Ends t w valid))
        ])
  ]
