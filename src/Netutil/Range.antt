-- ===== src/Netutil/Range.antt =====
-- Subnets and ranges by arithmetic: `NetworkBase`, `SameSubnet`, `RangeCount`, `IPInRange` and
-- `DHCPStartLimit` on addresses and masks that are accepted.
use kwrt_net_manager.Prelude.{
  ℕ, zero, suc, ◌+◌, ◌-◌, ◌*◌, ◌/◌, ◌%◌, ◌^◌, ◌≤◌, ◌<◌, ◌≡◌, sym, ◌∙◌, ◌&&◌, ◌||◌, not, some, none,
  arith, Str, str_eq, str_eq_refl, str_eq-false, ==_iff, Bool-cases, inl, inr, Option, Option-cases,
  leb, ltb, ◌==◌, if◌then◌else◌,
}
use native.Mathlib.Nat.{mod-eq-sub-div-mul, div-mul-le_self, eq_of_mul-eq-mul_right, mod-lt}
use kwrt_net_manager.Netutil.{
  u32_mod, ipv4_to_uint32, uint32_to_ipv4, mask_to_prefix, network_base, same_subnet, range_count,
  ip_in_range, dhcp_start_limit,
}
use kwrt_net_manager.Netutil.Bits.{pow_pos, bit_and_prefix}
use kwrt_net_manager.Netutil.Bytes.{ipv4_to_uint32-lt}
use kwrt_net_manager.Netutil.RoundTrip.{ipv4_to_uint32-uint32_to_ipv4, uint32_to_ipv4_injective}
use kwrt_net_manager.Netutil.Mask.{mask_to_prefix_iff}

-- The size of a network with prefix `p`.
abbrev pub block : ℕ → ℕ
block p = 2 ^ (32 - p)

base-lt : (u k : ℕ) → u < u32_mod → u / k * k < u32_mod
base-lt u k h = omega (arith, div-mul-le_self u k)

same_base :
    (u v k : ℕ)
    → 0 < k
    → u < u32_mod
    → v < u32_mod
    → str_eq (uint32_to_ipv4 (u / k * k)) (uint32_to_ipv4 (v / k * k)) ≡ (u / k == v / k)
same_base u v k pos_k hu hv = elim (Bool-cases (u / k == v / k)) [
  | inl same ↦ rw (same, (==_iff _ _).0 same) (str_eq_refl _)
  | inr other ↦ rw other (
      str_eq-false _ _ λ e.
        let bases : u / k * k ≡ v / k * k =
          uint32_to_ipv4_injective _ _ (base-lt u k hu) (base-lt v k hv) e in
        let heads : u / k ≡ v / k = eq_of_mul-eq-mul_right k pos_k (u / k) (v / k) bases in
        ground arith)
]

abbrev pub pool : ℕ → ℕ → Option (ℕ × ℕ)
pool from limit = some (from, limit)

pool_cases :
    (i s e k : ℕ)
    → (if ltb e s || ltb s (i / k * k)
        then none
        else if not (s / k == i / k) || not (e / k == i / k)
        then none
        else pool (s - i / k * k) (e - s + 1))
      ≡ (if leb s e && (s / k == i / k && e / k == i / k) then pool (s % k) (e - s + 1) else none)
pool_cases i s e k = ground (arith, mod-eq-sub-div-mul s k, div-mul-le_self s k)

module _ (m : Str) (p : ℕ) (mask : mask_to_prefix m ≡ some p) where
  pub network_base_lem :
      (a : Str) (u : ℕ)
      → ipv4_to_uint32 a ≡ some u
      → network_base a m ≡ some (uint32_to_ipv4 (u / block p * block p))
  unfolding network_base
  network_base_lem a u read =
      let (short, value) = (mask_to_prefix_iff m p).0 mask in
      rw (read, value, bit_and_prefix p u short (ipv4_to_uint32-lt a u read))

  -- Under a well-formed mask two readable addresses are in one subnet exactly when they agree
  -- above the host bits.
  pub same_subnet_lem :
      (a b : Str) (u v : ℕ)
      → ipv4_to_uint32 a ≡ some u
      → ipv4_to_uint32 b ≡ some v
      → same_subnet a b m ≡ (u / block p == v / block p)
  unfolding same_subnet
  same_subnet_lem a b u v ra rb =
      rw (network_base_lem a u ra, network_base_lem b v rb)
        (same_base u v (block p) (pow_pos (32 - p)) (ipv4_to_uint32-lt a u ra)
          (ipv4_to_uint32-lt b v rb))

  module _ (iface start end : Str) (i s e : ℕ) (ri : ipv4_to_uint32 iface ≡ some i)
      (rs : ipv4_to_uint32 start ≡ some s) (re : ipv4_to_uint32 end ≡ some e) where
    base_value :
        ipv4_to_uint32 (uint32_to_ipv4 (i / block p * block p)) ≡ some (i / block p * block p)
    base_value =
        ipv4_to_uint32-uint32_to_ipv4 _ (base-lt i (block p) (ipv4_to_uint32-lt iface i ri))

    -- On an interface with a well-formed mask, and with readable addresses, the start is the
    -- host part of the pool's first address, the limit counts the pool, and there is a result
    -- exactly for an ordered pool that lies in the interface's subnet.
    pub dhcp_start_limit_lem : dhcp_start_limit iface m start end ≡ (
        if leb s e && (s / block p == i / block p && e / block p == i / block p)
        then pool (s % block p) (e - s + 1)
        else none)
    unfolding dhcp_start_limit
    dhcp_start_limit_lem =
        rw
          (
            network_base_lem iface i ri,
            base_value,
            rs,
            re,
            same_subnet_lem start iface s i rs ri,
            same_subnet_lem end iface e i re ri,
          )
          (pool_cases i s e (block p))

-- What an accepted start and limit read from.
record Accepted (iface m start end : Str) : Type 0 where
  i : ℕ
  s : ℕ
  e : ℕ
  iface_read : ipv4_to_uint32 iface ≡ some i
  start_read : ipv4_to_uint32 start ≡ some s
  end_read : ipv4_to_uint32 end ≡ some e

dhcp_start_limit-Accepted :
    (iface m start end : Str) (r : ℕ × ℕ)
    → dhcp_start_limit iface m start end ≡ some r
    → Accepted iface m start end
unfolding dhcp_start_limit network_base
dhcp_start_limit-Accepted iface m start end r h = elim (Option-cases (ipv4_to_uint32 iface)) [
  | inl stop ↦ absurd (left (rw stop at h))
  | inr (i, ri) ↦ elim (Option-cases (ipv4_to_uint32 m)) [
    | inl stop ↦ absurd (left (rw (ri, stop) at h))
    | inr (mu, rm) ↦ elim (Option-cases (ipv4_to_uint32 start)) [
      | inl stop ↦ absurd (left (rw (ri, rm, stop) at h))
      | inr (s, rs) ↦ elim (Option-cases (ipv4_to_uint32 end)) [
        | inl stop ↦ absurd (left (rw (ri, rm, rs, stop) at h))
        | inr (e, re) ↦ record {
          i = i;
          s = s;
          e = e;
          iface_read = ri;
          start_read = rs;
          end_read = re;
        }
      ]
    ]
  ]
]
  where
    left : none ≡ some r → ⊥
    left q = cc

fits_cases :
    (i s e k from limit : ℕ)
    → 0 < k
    → (if leb s e && (s / k == i / k && e / k == i / k) then pool (s % k) (e - s + 1) else none)
      ≡ pool from limit
    → (0 < limit) × (from + limit ≤ k)
fits_cases i s e k from limit pos_k h = ground (
  arith,
  mod-eq-sub-div-mul s k,
  mod-eq-sub-div-mul e k,
  div-mul-le_self s k,
  div-mul-le_self e k,
  mod-lt e pos_k,
)

-- The pool of an accepted start and limit is not empty and fits into the interface's subnet, if
-- the mask is well formed.
pub dhcp_start_limit-fits :
    (iface m start end : Str) (p from limit : ℕ)
    → mask_to_prefix m ≡ some p
    → dhcp_start_limit iface m start end ≡ some (from, limit)
    → (0 < limit) × (from + limit ≤ block p)
dhcp_start_limit-fits iface m start end p from limit mask h =
    let a = dhcp_start_limit-Accepted iface m start end (from, limit) h in
    fits_cases a.i a.s a.e (block p) from limit (pow_pos (32 - p)) (
      sym (
        dhcp_start_limit_lem m p mask iface start end a.i a.s a.e a.iface_read a.start_read
          a.end_read)
      ∙ h)

-- How many of the numbers below `k` are addresses that `IPInRange` accepts.
unfoldable pub addresses_in : Str → Str → ℕ → ℕ
addresses_in start end zero = 0
addresses_in start end (suc k) =
    let below = addresses_in start end k in
    if ip_in_range (uint32_to_ipv4 k) start end then suc below else below

addresses_in-count :
    (start end : Str) (s e k : ℕ)
    → ipv4_to_uint32 start ≡ some s
    → ipv4_to_uint32 end ≡ some e
    → k ≤ 2 ^ 32
    → addresses_in start end k ≡ (if ltb k (e + 1) then k - s else e + 1 - s)
unfolding addresses_in ip_in_range
addresses_in-count start end s e zero rs re h = ground arith
addresses_in-count start end s e (suc k) rs re h =
    let below = addresses_in-count start end s e k rs re (omega arith) in
    let read : ipv4_to_uint32 (uint32_to_ipv4 k) ≡ some k =
      ipv4_to_uint32-uint32_to_ipv4 k (omega arith) in
    rw (read, rs, re) (ground (arith, below))

-- The count of a range of two readable addresses is the number of the addresses that the test for
-- the range accepts, up to any bound above its end and not above 2^32, and there is none when it
-- accepts none.
pub range_count-addresses_in :
    (start end : Str) (s e k : ℕ)
    → ipv4_to_uint32 start ≡ some s
    → ipv4_to_uint32 end ≡ some e
    → e < k
    → k ≤ 2 ^ 32
    → range_count start end
      ≡ (if addresses_in start end k == 0 then none else some (addresses_in start end k))
unfolding range_count
range_count-addresses_in start end s e k rs re above fits =
    let count = addresses_in-count start end s e k rs re fits in rw (rs, re) (ground (arith, count))
