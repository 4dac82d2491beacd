-- ===== src/Netcfg/Service/Servers/Subnet.antt =====
-- internal/netcfg/service.go, `checkPoolSubnet`: where the pools lie that it accepts.
use mathlib.Core.Path.{subst}
use native.Mathlib.Nat.{le-div_iff_mul-le, div-mul-le_self}
use kwrt_net_manager.Netutil.Bits.{pow_pos}
use kwrt_net_manager.Prelude.{
  ℕ, ◌-◌, ◌/◌, ◌≡◌, ◌≤◌, ◌<◌, sym, ◌∙◌, inl, inr, Bool, true, Option, none, some, List, [], ◌∷◌,
  arith, Str, str_eq, is_empty, Bool-cases, if◌then◌else◌, ==_iff, not, ◌||◌,
}
use kwrt_net_manager.Netutil.{ipv4_to_uint32, mask_to_prefix, same_subnet}
use kwrt_net_manager.Netutil.Range.{block, same_subnet_lem}
use kwrt_net_manager.Netcfg.Result.{ok}
use kwrt_net_manager.Netcfg.Types.{DhcpServer, Interface}
use kwrt_net_manager.Netcfg.Service.Servers.{pool_in_interface}

-- The first interface with the name.
abbrev pub named : Str → List Interface → Option Interface
named name [] = none
named name (i ∷ is) = if str_eq i.name name then some i else named name is

-- The interface has an address and a mask.
abbrev pub addressed : Interface → Bool
addressed i = not (is_empty i.ipv4 || is_empty i.netmask)

-- What is known of an accepted pool behind an interface.
abbrev Placed : DhcpServer → DhcpServer → Interface → Type 0
Placed s t i =
    (same_subnet s.ip_start i.ipv4 i.netmask ≡ true)
    × (same_subnet s.ip_end i.ipv4 i.netmask ≡ true)
    × (t ≡ record s { netmask = i.netmask })

pool_in_interface-first :
    (is : List Interface) (s t : DhcpServer) (i : Interface)
    → str_eq i.name s.interface ≡ true
    → addressed i ≡ true
    → pool_in_interface (i ∷ is) s ≡ ok t
    → Placed s t i
unfolding pool_in_interface
pool_in_interface-first is s t i e a h = (ground arith, ground arith, ground arith)

pool_in_interface-Placed :
    (is : List Interface) (s t : DhcpServer) (i : Interface)
    → named s.interface is ≡ some i
    → addressed i ≡ true
    → pool_in_interface is s ≡ ok t
    → Placed s t i
unfolding pool_in_interface
pool_in_interface-Placed [] s t i e a h = absurd (cc)
pool_in_interface-Placed (x ∷ xs) s t i e a h = elim (Bool-cases (str_eq x.name s.interface)) [
  | inl same ↦
      let found : some x ≡ some i = rw same at e in
      let is_i : x ≡ i = cc in
      subst (Placed s t) is_i
        (pool_in_interface-first xs s t x same (subst (λ j. addressed j ≡ true) (sym is_i) a) h)
  | inr other ↦ pool_in_interface-Placed xs s t i (rw other at e) a (rw other at h)
]

div_mono : (k a u : ℕ) → 0 < k → a ≤ u → a / k ≤ u / k
div_mono k a u pos_k h = (le-div_iff_mul-le pos_k).1 (omega (arith, div-mul-le_self a k))

-- A pool that is accepted behind an interface with a readable address and a well-formed mask
-- comes back with the interface's mask, and every address from its start to its end is in the
-- interface's subnet.
pub pool_in_interface-block :
    (is : List Interface) (s t : DhcpServer) (i : Interface) (p v low high u : ℕ)
    → named s.interface is ≡ some i
    → addressed i ≡ true
    → mask_to_prefix i.netmask ≡ some p
    → ipv4_to_uint32 i.ipv4 ≡ some v
    → ipv4_to_uint32 s.ip_start ≡ some low
    → ipv4_to_uint32 s.ip_end ≡ some high
    → low ≤ u
    → u ≤ high
    → pool_in_interface is s ≡ ok t
    → (t ≡ record s { netmask = i.netmask }) × (u / block p ≡ v / block p)
pool_in_interface-block is s t i p v low high u found has_address mask iface start end from to h =
    let (start_in, end_in, masked) = pool_in_interface-Placed is s t i found has_address h in
    let low_block : low / block p ≡ v / block p =
      (==_iff _ _).0
        (sym (same_subnet_lem i.netmask p mask s.ip_start i.ipv4 low v start iface) ∙ start_in) in
    let high_block : high / block p ≡ v / block p =
      (==_iff _ _).0
        (sym (same_subnet_lem i.netmask p mask s.ip_end i.ipv4 high v end iface) ∙ end_in) in
    (
      masked,
      omega (
        arith,
        low_block,
        high_block,
        div_mono (block p) low u (pow_pos (32 - p)) from,
        div_mono (block p) u high (pow_pos (32 - p)) to,
      ),
    )
