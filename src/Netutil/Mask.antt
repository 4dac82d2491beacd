-- ===== src/Netutil/Mask.antt =====
-- `MaskToPrefix` and `PrefixToMask`: a dotted netmask is accepted exactly when its ones lead, and
-- the two functions are inverse to one another.
use kwrt_net_manager.Prelude.{
  ℕ, zero, suc, ◌+◌, ◌-◌, ◌*◌, ◌/◌, ◌%◌, ◌^◌, ◌≤◌, ◌<◌, ◌≡◌, refl, sym, ap, ◌∙◌, inl, inr, Bool,
  true, false, ◌&&◌, Option, none, some, arith, Str, pos, ◌==◌, ==_iff, ltb, ◌↔◌, and-eq-true,
  Bool-cases, Option-cases,
}
use native.Mathlib.Nat.{mod-eq-sub-div-mul, div-mul-le_self, div-div-eq-div-mul, pow-suc}
use kwrt_net_manager.Go.Strings.{trim_space, trim_left, trim_right, is_space}
use kwrt_net_manager.Go.Ip.{v4_loop, parse_ip, to4}
use kwrt_net_manager.Netutil.{u32_mod, ipv4_to_uint32, mask_loop, mask_to_prefix, prefix_to_mask}
use kwrt_net_manager.Netutil.Bits.{pow_pos}
use kwrt_net_manager.Netutil.Bytes.{ipv4_to_uint32-lt}
use kwrt_net_manager.Netutil.RoundTrip.{ipv4_to_uint32-uint32_to_ipv4}

mod_split : (u p : ℕ) → u % (p * 2) ≡ u / p % 2 * p + u % p
mod_split u p =
    let halves : u / p ≡ u / p / 2 * 2 + u / p % 2 = omega arith in
    omega (
      arith,
      mod-eq-sub-div-mul u (p * 2),
      mod-eq-sub-div-mul u p,
      div-mul-le_self u (p * 2),
      div-mul-le_self u p,
      ap (λ t. t * p) halves,
      ap (λ t. t * (p * 2)) (div-div-eq-div-mul u p 2),
    )

mod_step : (u i : ℕ) → u % 2 ^ suc i ≡ u / 2 ^ i % 2 * 2 ^ i + u % 2 ^ i
mod_step u i = ap (λ m. u % m) (pow-suc 2 i) ∙ mod_split u (2 ^ i)

mask_loop_past : (i u ones p : ℕ) → mask_loop i u ones false ≡ some p → (p ≡ ones) × (u % 2 ^ i ≡ 0)
unfolding mask_loop
mask_loop_past zero u ones p e = ground arith
mask_loop_past (suc i) u ones p e =
    let top : u / 2 ^ i % 2 * 2 ^ i + u % 2 ^ i ≡ u % 2 ^ suc i = sym (mod_step u i) in
    elim (Bool-cases (u / 2 ^ i % 2 == 1)) [
      | inl one ↦ ground arith
      | inr other ↦
          let (same, low) = mask_loop_past i u ones p (ground arith) in
          let zero_bit : u / 2 ^ i % 2 ≡ 0 = ground arith in
          (same, omega (arith, top, low, ap (λ t. t * 2 ^ i) zero_bit))
    ]

-- The ones read lead the bits that are left.
abbrev Lead : ℕ → ℕ → ℕ → ℕ → Type 0
Lead i u ones p = (ones ≤ p) × (p - ones ≤ i) × (u % 2 ^ i + 2 ^ (i - (p - ones)) ≡ 2 ^ i)

Lead-one : (i u ones p : ℕ) → u / 2 ^ i % 2 ≡ 1 → Lead i u (ones + 1) p → Lead (suc i) u ones p
Lead-one i u ones p bit (low, most, rest) =
    let same : i - (p - (ones + 1)) ≡ suc i - (p - ones) = omega arith in
    let rest' : u % 2 ^ i + 2 ^ (suc i - (p - ones)) ≡ 2 ^ i = rw (← same) rest in
    let top = ap (λ t. t * 2 ^ i) bit in
    (omega arith, omega arith, omega (arith, mod_step u i, pow-suc 2 i, rest', top))

Lead-zero : (i u ones : ℕ) → u / 2 ^ i % 2 ≡ 0 → u % 2 ^ i ≡ 0 → Lead (suc i) u ones ones
Lead-zero i u ones bit rest =
    let same : suc i - (ones - ones) ≡ suc i = omega arith in
    let top = ap (λ t. t * 2 ^ i) bit in
    (omega arith, omega arith, rw same (omega (arith, mod_step u i, rest, top)))

mask_loop-Lead : (i u ones p : ℕ) → mask_loop i u ones true ≡ some p → Lead i u ones p
unfolding mask_loop
mask_loop-Lead zero u ones p e =
    let same : ones ≡ p = cc in
    let none_left : 0 - (p - ones) ≡ 0 = omega arith in
    (omega arith, omega arith, rw none_left (omega arith))
mask_loop-Lead (suc i) u ones p e = elim (Bool-cases (u / 2 ^ i % 2 == 1)) [
  | inl one ↦
      Lead-one i u ones p ((==_iff _ _).0 one) (mask_loop-Lead i u (ones + 1) p (ground arith))
  | inr other ↦
      let (same, low) = mask_loop_past i u ones p (ground arith) in
      rw same (Lead-zero i u ones (ground arith) low)
]

abbrev gives : ℕ → Option ℕ → Bool
gives p none = false
gives p (some q) = q == p

eq-some_of_gives : (p : ℕ) (o : Option ℕ) → gives p o ≡ true → o ≡ some p
eq-some_of_gives p none h = cc
eq-some_of_gives p (some q) h = ap some ((==_iff q p).0 h)

abbrev prefix_ok : ℕ → Bool
prefix_ok p =
    gives p (mask_loop 32 (2 ^ 32 - 2 ^ (32 - p)) 0 true)
    && (0xFFFFFFFF * 2 ^ (32 - p) % u32_mod == 2 ^ 32 - 2 ^ (32 - p))

all_below : ℕ → (ℕ → Bool) → Bool
all_below zero test = true
all_below (suc n) test = test n && all_below n test

all_below_sound :
    (n : ℕ) (test : ℕ → Bool) (x : ℕ) → all_below n test ≡ true → x < n → test x ≡ true
unfolding all_below
all_below_sound zero test x h lt = absurd (omega arith)
all_below_sound (suc n) test x h lt = ground (arith, all_below_sound n test x)

prefix_table : all_below 33 prefix_ok ≡ true
unfolding all_below mask_loop
prefix_table = refl

prefix_facts :
    (p : ℕ)
    → p ≤ 32
    → (mask_loop 32 (2 ^ 32 - 2 ^ (32 - p)) 0 true ≡ some p)
      × (0xFFFFFFFF * 2 ^ (32 - p) % u32_mod ≡ 2 ^ 32 - 2 ^ (32 - p))
prefix_facts p h =
    let (found, value) =
      and-eq-true _ _ (all_below_sound 33 prefix_ok p prefix_table (omega arith)) in
    (eq-some_of_gives p _ found, (==_iff _ _).0 value)

value_of_mask :
    (mask : Str) (p : ℕ)
    → mask_to_prefix mask ≡ some p
    → (p ≤ 32) × (ipv4_to_uint32 mask ≡ some (2 ^ 32 - 2 ^ (32 - p)))
unfolding mask_to_prefix
value_of_mask mask p e = elim (Option-cases (ipv4_to_uint32 mask)) [
  | inl stop ↦ let left : none ≡ some p = rw stop at e in absurd (cc)
  | inr (u, read) ↦
      let run : mask_loop 32 u 0 true ≡ some p = rw read at e in
      let (_, most, rest) = mask_loop-Lead 32 u 0 p run in
      let all : p - 0 ≡ p = omega arith in
      let rest' : u % 2 ^ 32 + 2 ^ (32 - p) ≡ 2 ^ 32 = rw all at rest in
      let small = ipv4_to_uint32-lt mask u read in
      let exact : u ≡ 2 ^ 32 - 2 ^ (32 - p) = omega arith in (omega arith, rw (← exact) read)
]

mask_of_value :
    (mask : Str) (p : ℕ)
    → p ≤ 32
    → ipv4_to_uint32 mask ≡ some (2 ^ 32 - 2 ^ (32 - p))
    → mask_to_prefix mask ≡ some p
unfolding mask_to_prefix
mask_of_value mask p h e = rw e ((prefix_facts p h).0)

-- A text is accepted as the netmask of prefix p exactly when p is at most 32 and the text is an
-- address whose value is p ones followed by zeros.
pub mask_to_prefix_iff :
    (mask : Str) (p : ℕ)
    → (mask_to_prefix mask ≡ some p)
      ↔ ((p ≤ 32) × (ipv4_to_uint32 mask ≡ some (2 ^ 32 - 2 ^ (32 - p))))
mask_to_prefix_iff mask p = (value_of_mask mask p, λ e. mask_of_value mask p e.0 e.1)

prefix_to_mask_value :
    (p : ℕ) → p ≤ 32 → ipv4_to_uint32 (prefix_to_mask (pos p)) ≡ some (2 ^ 32 - 2 ^ (32 - p))
unfolding prefix_to_mask
prefix_to_mask_value zero h =
    unfold ipv4_to_uint32 parse_ip v4_loop trim_space trim_left trim_right is_space to4 in refl
prefix_to_mask_value (suc p) h =
    let fits : ltb 32 (suc p) ≡ false = ground arith in
    let some_ones : (suc p == 0) ≡ false = ground arith in
    let value = (prefix_facts (suc p) h).1 in
    rw (fits, some_ones, value)
      (ipv4_to_uint32-uint32_to_ipv4 (2 ^ 32 - 2 ^ (32 - suc p))
        (omega (arith, pow_pos (31 - p), pow_pos (32 - suc p))))

-- For a prefix of at most 32 the netmask written for it is read back as that prefix.
pub mask_to_prefix-prefix_to_mask :
    (p : ℕ) → p ≤ 32 → mask_to_prefix (prefix_to_mask (pos p)) ≡ some p
mask_to_prefix-prefix_to_mask p h = mask_of_value _ p h (prefix_to_mask_value p h)
