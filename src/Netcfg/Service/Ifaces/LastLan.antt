-- ===== src/Netcfg/Service/Ifaces/LastLan.antt =====
-- internal/netcfg/iface.go: the guard of the last LAN.
use kwrt_net_manager.Netcfg.Store.Files.{Outcomes}
use kwrt_net_manager.Prelude.{
  ℕ, ◌+◌, ◌≤◌, ◌≡◌, refl, inl, inr, true, false, List, [], ◌∷◌, Str, str_eq, str_eq_iff, Bool-cases,
  All, AllPairs, arith,
}
use kwrt_net_manager.Netcfg.Result.{ok}
use kwrt_net_manager.Netcfg.Types.Iface.{NetIface}
use kwrt_net_manager.Netcfg.Validate.Iface.{count_lans, names_lan, can_delete_net_iface}
use kwrt_net_manager.Netcfg.Backend.{Config}
use kwrt_net_manager.Netcfg.Store.{Store, store_backend}
use kwrt_net_manager.Netcfg.Store.Ifaces.{with_states, without_iface}
use kwrt_net_manager.Netcfg.Store.Contract.{memory_of, save-Writes}
use kwrt_net_manager.Netcfg.Service.{World}
use kwrt_net_manager.Netcfg.Service.Frame.{write-Holds, lift-Holds}
use kwrt_net_manager.Netcfg.Service.Ifaces.{delete_net_iface}
use kwrt_net_manager.Netcfg.Service.Ifaces.Apart.{Apart}

count_lans-with_states : (l : List NetIface) → count_lans (with_states l) ≡ count_lans l
unfolding count_lans with_states
count_lans-with_states [] = omega arith
count_lans-with_states (x ∷ xs) = rw (count_lans-with_states xs) refl

names_lan-with_states :
    (id : Str) (l : List NetIface) → names_lan id (with_states l) ≡ names_lan id l
unfolding names_lan with_states
names_lan-with_states id [] = refl
names_lan-with_states id (x ∷ xs) = rw (names_lan-with_states id xs) refl

-- Nothing goes when no line has the id.
count_lans-other :
    (id : Str) (x : NetIface) (l : List NetIface)
    → str_eq x.id id ≡ true
    → All (Apart x) l
    → count_lans (without_iface id l) ≡ count_lans l
unfolding count_lans without_iface
count_lans-other id x [] same h = omega arith
count_lans-other id x (y ∷ ys) same h =
    ground
      (arith, str_eq_iff x.id id, str_eq_iff y.id id, h.0.ids, count_lans-other id x ys same h.1)

-- With ids of their own, a deletion takes one line at most.
count_lans-without_iface :
    (id : Str) (l : List NetIface)
    → AllPairs Apart l
    → count_lans l ≤ count_lans (without_iface id l) + 1
unfolding count_lans without_iface
count_lans-without_iface id [] h = omega arith
count_lans-without_iface id (x ∷ xs) h = elim (Bool-cases (str_eq x.id id)) [
  | inl same ↦ ground (arith, count_lans-other id x xs same h.0)
  | inr other ↦ ground (arith, count_lans-without_iface id xs h.1)
]

count_lans-unnamed :
    (id : Str) (l : List NetIface)
    → names_lan id l ≡ false
    → count_lans l ≤ count_lans (without_iface id l)
unfolding count_lans names_lan without_iface
count_lans-unnamed id [] h = omega arith
count_lans-unnamed id (x ∷ xs) h = ground (arith, count_lans-unnamed id xs)

can_delete_net_iface-leaves :
    (id : Str) (l : List NetIface) {u : Unit}
    → can_delete_net_iface id (with_states l) ≡ ok u
    → AllPairs Apart l
    → 1 ≤ count_lans l
    → 1 ≤ count_lans (without_iface id l)
unfolding can_delete_net_iface
can_delete_net_iface-leaves id l free apart some_lan = ground (
  arith,
  free,
  count_lans-with_states l,
  names_lan-with_states id l,
  count_lans-without_iface id l apart,
  count_lans-unnamed id l,
)

-- On the store backend, whatever the outcomes of its writes, deleting a line by any id leaves a
-- LAN when there is one and the stored lines have ids of their own and no address text in common.
pub delete_net_iface-keeps_lan :
    (io : ℕ → Outcomes) (id : Str) (w : World Store)
    → AllPairs Apart w.be.mem.net_ifaces
    → 1 ≤ count_lans w.be.mem.net_ifaces
    → 1 ≤ count_lans (delete_net_iface (store_backend io) id w).1.be.mem.net_ifaces
unfolding delete_net_iface
delete_net_iface-keeps_lan io id w apart some_lan =
    lift-Holds memory_of HasLan (can_delete_net_iface id (with_states w.be.mem.net_ifaces)) _ w
      some_lan
      λ _ free.
        write-Holds memory_of HasLan ((store_backend io).delete_net_iface id) _ _ w
          (save-Writes io _) some_lan
          (can_delete_net_iface-leaves id w.be.mem.net_ifaces free apart some_lan) (λ w' k. k)
  where
    HasLan : Config → Type 0
    HasLan v = 1 ≤ count_lans v.net_ifaces
