-- ===== src/Netutil.antt =====
-- pkg/netutil/netutil.go: addresses, netmasks and ranges as 32-bit numbers; MAC addresses and lines
-- of text are in the children `MacAddr` and `Lines`. A `uint32` is a number below 2 ^ 32.
pub mod Bytes
pub mod RoundTrip
pub mod Bits
pub mod Mask
pub mod Range
pub mod MacAddr
pub mod Lines
use Prim.Native.Nat.{bit_and}
use kwrt_net_manager.Prelude.{
  ℕ, zero, suc, ◌+◌, ◌-◌, ◌*◌, ◌/◌, ◌%◌, ◌^◌, Bool, true, false, ◌&&◌, ◌||◌, not, Option, none,
  some, List, [], ◌∷◌, Str, codes, str_eq, ℤ, pos, negsuc, leb, ltb, ◌==◌, if◌then◌else◌, ◌>>=◌,
}
use kwrt_net_manager.Go.Strings.{trim_space}
use kwrt_net_manager.Go.Ip.{parse_ip, to4}
use kwrt_net_manager.Go.Ip.Print.{dotted}

abbrev pub u32_mod : ℕ
u32_mod = 2 ^ 32

-- Four bytes, the highest first.
abbrev pub be32 : List ℕ → ℕ
be32 (a ∷ b ∷ c ∷ d ∷ _) = a * 2 ^ 24 + b * 2 ^ 16 + c * 2 ^ 8 + d
be32 _ = 0

abbrev pub is_some {ℓ} : {A : Type ℓ} → Option A → Bool
is_some none = false
is_some (some _) = true

unfoldable pub ipv4_to_uint32 : Str → Option ℕ
ipv4_to_uint32 s = do ip ← parse_ip (trim_space s); v4 ← to4 ip; some (be32 v4)

unfoldable pub uint32_to_ipv4 : ℕ → Str
uint32_to_ipv4 u = dotted (u / 2 ^ 24 % 256) (u / 2 ^ 16 % 256) (u / 2 ^ 8 % 256) (u % 256)

unfoldable pub is_ipv4 : Str → Bool
is_ipv4 s = is_some (ipv4_to_uint32 s)

abbrev is_no_v4 : Option (List ℕ) → Bool
is_no_v4 none = false
is_no_v4 (some ip) = not (is_some (to4 ip))

unfoldable pub is_ipv6 : Str → Bool
is_ipv6 s = is_no_v4 (parse_ip (trim_space s))

unfoldable pub is_ip : Str → Bool
is_ip s = is_some (parse_ip (trim_space s))

-- The loop of `MaskToPrefix` over the bits below `i`, the highest first.
unfoldable pub mask_loop : (i : ℕ) → ℕ → ℕ → Bool → Option ℕ
mask_loop zero u ones all_ones_seen = some ones
mask_loop (suc i) u ones all_ones_seen =
    let one_more = mask_loop i u (ones + 1) all_ones_seen in
    let past = mask_loop i u ones false in
    if u / 2 ^ i % 2 == 1 then (if not all_ones_seen then none else one_more) else past

unfoldable pub mask_to_prefix : Str → Option ℕ
mask_to_prefix mask = do u ← ipv4_to_uint32 mask; mask_loop 32 u 0 true

unfoldable pub prefix_to_mask : ℤ → Str
prefix_to_mask (negsuc n) = []
prefix_to_mask (pos p) =
    if ltb 32 p
    then []
    else if p == 0
    then codes "0.0.0.0"
    else uint32_to_ipv4 (0xFFFFFFFF * 2 ^ (32 - p) % u32_mod)

unfoldable pub is_valid_netmask : Str → Bool
is_valid_netmask mask = is_some (mask_to_prefix mask)

unfoldable pub network_base : Str → Str → Option Str
network_base ip mask = do
  iu ← ipv4_to_uint32 ip
  mu ← ipv4_to_uint32 mask
  some (uint32_to_ipv4 (bit_and iu mu))

abbrev pub both_equal : Option Str → Option Str → Bool
both_equal (some a) (some b) = str_eq a b
both_equal _ _ = false

unfoldable pub same_subnet : Str → Str → Str → Bool
same_subnet a b mask = both_equal (network_base a mask) (network_base b mask)

unfoldable pub range_count : Str → Str → Option ℕ
range_count start end = do
  su ← ipv4_to_uint32 start
  eu ← ipv4_to_uint32 end
  if ltb eu su then none else some (eu - su + 1)

abbrev in_range : Option ℕ → Option ℕ → Option ℕ → Bool
in_range (some iu) (some su) (some eu) = leb su iu && leb iu eu
in_range _ _ _ = false

unfoldable pub ip_in_range : Str → Str → Str → Bool
ip_in_range ip start end = in_range (ipv4_to_uint32 ip) (ipv4_to_uint32 start) (ipv4_to_uint32 end)

abbrev or_zero : Option ℕ → ℕ
or_zero none = 0
or_zero (some u) = u

-- The offset of the pool in the interface's network, and its size.
unfoldable pub dhcp_start_limit : Str → Str → Str → Str → Option (ℕ × ℕ)
dhcp_start_limit iface_ip mask pool_start pool_end = do
  base ← network_base iface_ip mask
  let bu = or_zero (ipv4_to_uint32 base)
  su ← ipv4_to_uint32 pool_start
  eu ← ipv4_to_uint32 pool_end
  if ltb eu su || ltb su bu
      then none
      else if not (same_subnet pool_start iface_ip mask) || not (same_subnet pool_end iface_ip mask)
      then none
      else some (su - bu, eu - su + 1)
