-- ===== src/Netcfg/Service/Ifaces/Apart.antt =====
-- internal/netcfg/iface.go and iface_store.go: lines that share no address, in a list that lines are
-- put into and taken from.
use kwrt_net_manager.Prelude.{
  ◌≡◌, ◌≢◌, sym, ◌∙◌, inl, inr, true, false, List, [], ◌∷◌, Str, str_eq, str_eq_iff, Bool-cases,
  All, AllPairs, arith,
}
use kwrt_net_manager.Netcfg.Result.{ok}
use kwrt_net_manager.Netcfg.Types.Iface.{NetIface}
use kwrt_net_manager.Netcfg.Service.{in_set}
use kwrt_net_manager.Netcfg.Store.Ifaces.{with_states, put_iface, without_iface}
use kwrt_net_manager.Netcfg.Validate.Iface.{all_iface_ips, any_in, check_conflicts}

abbrev pub Disjoint : NetIface → NetIface → Type 0
Disjoint x y = (ip : Str) → in_set (all_iface_ips x) ip ≡ true → in_set (all_iface_ips y) ip ≡ false

-- Two lines with ids of their own that have no address in common.
pub record Apart (x y : NetIface) : Type 0 where
  pub ids : x.id ≢ y.id
  pub addresses : Disjoint x y

-- A line shares no address with one that has another id.
abbrev pub Clear : NetIface → NetIface → Type 0
Clear x y = y.id ≢ x.id → Disjoint x y

Disjoint-sym : (x y : NetIface) → Disjoint x y → Disjoint y x
Disjoint-sym x y h ip k = elim (Bool-cases (in_set (all_iface_ips x) ip)) [
  | inl shared ↦ absurd (ground (arith, h ip shared))
  | inr other ↦ other
]

any_in-false :
    (mine ips : List Str) (ip : Str)
    → any_in mine ips ≡ false
    → in_set mine ip ≡ true
    → in_set ips ip ≡ false
unfolding any_in in_set
any_in-false mine [] ip h k = ground arith
any_in-false mine (i ∷ is) ip h k = ground (arith, str_eq_iff i ip, any_in-false mine is ip)

pub check_conflicts-Clear :
    (x : NetIface) (l : List NetIface) {u : Unit}
    → check_conflicts x (with_states l) ≡ ok u
    → All (Clear x) l
unfolding check_conflicts with_states all_iface_ips
check_conflicts-Clear x [] h = tt
check_conflicts-Clear x (y ∷ ys) h = elim (Bool-cases (str_eq y.id x.id)) [
  | inl same ↦ (
    (λ other. absurd (ground (arith, str_eq_iff y.id x.id))),
    check_conflicts-Clear x ys (ground arith),
  )
  | inr other ↦ (
    (λ _ ip. any_in-false (all_iface_ips x) (all_iface_ips y) ip (ground arith)),
    check_conflicts-Clear x ys (ground arith),
  )
]

module _ {κ} (P : NetIface → Type κ) where
  pub put_iface-All : (x : NetIface) (l : List NetIface) → P x → All P l → All P (put_iface x l)
  unfolding put_iface
  put_iface-All x [] p h = (p, tt)
  put_iface-All x (y ∷ ys) p h = elim (Bool-cases (str_eq y.id x.id)) [
    | inl same ↦ rw same (p, h.1)
    | inr other ↦ rw other (h.0, put_iface-All x ys p h.1)
  ]

  pub without_iface-All : (id : Str) (l : List NetIface) → All P l → All P (without_iface id l)
  unfolding without_iface
  without_iface-All id [] h = tt
  without_iface-All id (x ∷ xs) h = elim (Bool-cases (str_eq x.id id)) [
    | inl same ↦ rw same (without_iface-All id xs h.1)
    | inr other ↦ rw other (h.0, without_iface-All id xs h.1)
  ]

-- Behind a line that gave way to one with its id.
Apart-taken : (x y z : NetIface) → str_eq y.id x.id ≡ true → Clear x z → Apart y z → Apart x z
Apart-taken x y z same clear apart =
    let e : y.id ≡ x.id = (str_eq_iff y.id x.id).0 same in
    let ids : x.id ≢ z.id = λ k. apart.ids (e ∙ k) in
    record { ids = ids; addresses = clear (λ k. ids (sym k)) }

All-both {κ} :
    {P Q R : NetIface → Type κ} (l : List NetIface)
    → ((z : NetIface) → P z → Q z → R z)
    → All P l
    → All Q l
    → All R l
All-both [] f p q = tt
All-both (z ∷ zs) f p q = (f z p.0 q.0, All-both zs f p.1 q.1)

pub put_iface-Apart :
    (x : NetIface) (l : List NetIface)
    → All (Clear x) l
    → AllPairs Apart l
    → AllPairs Apart (put_iface x l)
unfolding put_iface
put_iface-Apart x [] clear h = (tt, tt)
put_iface-Apart x (y ∷ ys) clear h = elim (Bool-cases (str_eq y.id x.id)) [
  | inl same ↦ rw same (All-both ys (λ z. Apart-taken x y z same) clear.1 h.0, h.1)
  | inr other ↦
      let ids : y.id ≢ x.id = λ e. absurd (ground (arith, str_eq_iff y.id x.id)) in
      let apart : Apart y x = record { ids = ids; addresses = Disjoint-sym x y (clear.0 ids) } in
      rw other (put_iface-All (Apart y) x ys apart h.0, put_iface-Apart x ys clear.1 h.1)
]

pub without_iface-Apart :
    (id : Str) (l : List NetIface) → AllPairs Apart l → AllPairs Apart (without_iface id l)
unfolding without_iface
without_iface-Apart id [] h = tt
without_iface-Apart id (x ∷ xs) h = elim (Bool-cases (str_eq x.id id)) [
  | inl same ↦ rw same (without_iface-Apart id xs h.1)
  | inr other ↦ rw other (without_iface-All (Apart x) id xs h.0, without_iface-Apart id xs h.1)
]
