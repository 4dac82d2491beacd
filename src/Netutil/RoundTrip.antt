-- ===== src/Netutil/RoundTrip.antt =====
-- `Uint32ToIPv4` and `IPv4ToUint32` are inverse to one another on 32-bit numbers.
use kwrt_net_manager.Prelude.{ℕ, ◌/◌, ◌%◌, ◌^◌, ◌<◌, ◌≡◌, some, [], ◌∷◌, arith, ap, sym, ◌∙◌}
use kwrt_net_manager.Go.Strings.{trim_space_lem}
use kwrt_net_manager.Go.Ip.{to4}
use kwrt_net_manager.Go.Ip.RoundTrip.{dotted-HasNoSpace, parse_ip-dotted}
use kwrt_net_manager.Netutil.{be32, u32_mod, ipv4_to_uint32, uint32_to_ipv4}

be32-digits :
    (u : ℕ)
    → u < u32_mod
    → be32 (u / 2 ^ 24 % 256 ∷ u / 2 ^ 16 % 256 ∷ u / 2 ^ 8 % 256 ∷ u % 256 ∷ []) ≡ u
be32-digits u h = omega arith

-- Every 32-bit number is read back from its dotted print.
pub ipv4_to_uint32-uint32_to_ipv4 :
    (u : ℕ) → u < u32_mod → ipv4_to_uint32 (uint32_to_ipv4 u) ≡ some u
unfolding ipv4_to_uint32 uint32_to_ipv4 to4
ipv4_to_uint32-uint32_to_ipv4 u h =
    let a = u / 2 ^ 24 % 256 in
    let b = u / 2 ^ 16 % 256 in
    let c = u / 2 ^ 8 % 256 in
    let d = u % 256 in
    let ha : a < 256 = omega arith in
    let hb : b < 256 = omega arith in
    let hc : c < 256 = omega arith in
    let hd : d < 256 = omega arith in
    rw
      (
        trim_space_lem _ (dotted-HasNoSpace a b c d ha hb hc hd),
        parse_ip-dotted a b c d ha hb hc hd,
      )
      (ap some (be32-digits u h))

pub uint32_to_ipv4_injective :
    (u v : ℕ) → u < u32_mod → v < u32_mod → uint32_to_ipv4 u ≡ uint32_to_ipv4 v → u ≡ v
uint32_to_ipv4_injective u v hu hv e =
    let same : some u ≡ some v =
      sym (ipv4_to_uint32-uint32_to_ipv4 u hu)
      ∙ ap ipv4_to_uint32 e
      ∙ ipv4_to_uint32-uint32_to_ipv4 v hv in
    cc
