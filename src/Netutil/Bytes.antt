-- ===== src/Netutil/Bytes.antt =====
-- An address is a 32-bit number.
use mathlib.Core.Path.{subst}
use kwrt_net_manager.Prelude.{
  ℕ, ◌<◌, ◌≡◌, inl, inr, Option, none, some, List, [], ◌∷◌, arith, Str, Bool-cases, ◌>>=◌, drop,
  take, str_eq,
}
use kwrt_net_manager.Go.Strings.{trim_space}
use kwrt_net_manager.Go.Ip.{parse_ip, to4, v4_prefix}
use kwrt_net_manager.Go.Ip.Bytes.{IsBytes, OptIsBytes, drop-IsBytes, parse_ip-IsBytes}
use kwrt_net_manager.Netutil.{be32, u32_mod, ipv4_to_uint32}

be32-lt : (xs : List ℕ) → IsBytes xs → be32 xs < u32_mod
be32-lt [] h = omega arith
be32-lt (a ∷ []) h = omega arith
be32-lt (a ∷ b ∷ []) h = omega arith
be32-lt (a ∷ b ∷ c ∷ []) h = omega arith
be32-lt (a ∷ b ∷ c ∷ d ∷ _) h = omega arith

below_of_parse :
    (m : Option (List ℕ)) (u : ℕ)
    → OptIsBytes m
    → (m >>= λ ip. to4 ip >>= λ v4. some (be32 v4)) ≡ some u
    → u < u32_mod
unfolding to4
below_of_parse none u h e = ground arith
below_of_parse (some ip) u h e =
    let low = be32-lt (drop 12 ip) (drop-IsBytes 12 ip h) in
    elim (Bool-cases (str_eq (take 12 ip) v4_prefix)) [
      | inl mapped ↦
          let same : some (be32 (drop 12 ip)) ≡ some u = rw mapped at e in
          let eq : be32 (drop 12 ip) ≡ u = cc in subst (λ x. x < u32_mod) eq low
      | inr other ↦ let none_left : none ≡ some u = rw other at e in cc
    ]

-- What is read as an IPv4 address is a 32-bit number.
pub ipv4_to_uint32-lt : (s : Str) (u : ℕ) → ipv4_to_uint32 s ≡ some u → u < u32_mod
unfolding ipv4_to_uint32
ipv4_to_uint32-lt s u e =
    below_of_parse (parse_ip (trim_space s)) u (parse_ip-IsBytes (trim_space s)) e
