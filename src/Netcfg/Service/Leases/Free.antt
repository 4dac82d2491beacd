-- ===== src/Netcfg/Service/Leases/Free.antt =====
-- What internal/netcfg/service.go, `nextFreeIP`, finds.
use mathlib.Core.Path.{subst}
use kwrt_net_manager.Prelude.{
  ℕ, zero, suc, ◌+◌, ◌≡◌, ◌≤◌, ◌<◌, ◌⊎◌, refl, sym, inl, inr, Bool, true, false, Option, some, [],
  arith, Str, ltb, Bool-cases, if◌then◌else◌,
}
use kwrt_net_manager.Netutil.{ipv4_to_uint32, uint32_to_ipv4, u32_mod}
use kwrt_net_manager.Netcfg.Types.{DhcpServer}
use kwrt_net_manager.Netcfg.Service.Leases.{free_loop, next_free_ip, next_u32}

-- The result is the least address from `u` to `end` that is not used, or the empty text when all
-- of them are.
abbrev pub IsFirstFree : (ℕ → Bool) → ℕ → ℕ → Option Str → Type 0
IsFirstFree used u end r =
    ((r ≡ some []) × ((v : ℕ) → u ≤ v → v ≤ end → used v ≡ true))
    ⊎ ((v : ℕ) × (r ≡ some (uint32_to_ipv4 v))
        × (u ≤ v)
        × (v ≤ end)
        × (used v ≡ false)
        × ((x : ℕ) → u ≤ x → x < v → used x ≡ true))

next_u32_lem : (u : ℕ) → u + 1 < u32_mod → next_u32 u ≡ u + 1
next_u32_lem u h = omega arith

IsFirstFree-back :
    (used : ℕ → Bool) (u end : ℕ) (r : Option Str)
    → u ≤ end
    → used u ≡ true
    → IsFirstFree used (u + 1) end r
    → IsFirstFree used u end r
IsFirstFree-back used u end r h taken (inl (e, all)) = inl (
  e,
  λ v lo hi. elim (Bool-cases (ltb u v)) [
    | inl after ↦ all v (ground arith) hi
    | inr not_after ↦ subst (λ z. used z ≡ true) (ground arith) taken
  ],
)
IsFirstFree-back used u end r h taken (inr (v, e, lo, hi, free, before)) = inr (
  v,
  e,
  omega arith,
  hi,
  free,
  λ x from to. elim (Bool-cases (ltb u x)) [
    | inl after ↦ before x (ground arith) to
    | inr not_after ↦ subst (λ z. used z ≡ true) (ground arith) taken
  ],
)

pub free_loop-IsFirstFree :
    (fuel : ℕ) (used : ℕ → Bool) (u end : ℕ)
    → end + 1 < u32_mod
    → end + 1 < u + fuel
    → u ≤ end + 1
    → IsFirstFree used u end (free_loop fuel used u end)
unfolding free_loop
free_loop-IsFirstFree zero used u end top enough from = absurd (omega arith)
free_loop-IsFirstFree (suc fuel) used u end top enough from = elim (Bool-cases (ltb end u)) [
  | inl past ↦ rw past (inl (refl, λ v lo hi. absurd (ground arith)))
  | inr within ↦
      let hi : u ≤ end = ground arith in
      elim (Bool-cases (used u)) [
        | inl taken ↦
            rw (within, taken)
              (IsFirstFree-back used u end _ hi taken (
                subst (λ n. IsFirstFree used (u + 1) end (free_loop fuel used n end))
                  (sym (next_u32_lem u (omega arith)))
                  (free_loop-IsFirstFree fuel used (u + 1) end top (omega arith) (omega arith))))
        | inr free ↦
            rw (within, free)
              (inr (u, refl, omega arith, hi, free, λ x lo less. absurd (omega arith)))
      ]
]

-- With fuel for each address of a pool and one more, and a pool that ends below the last address
-- of all, the search for a free address ends, and gives the least address of the pool that is not
-- in use, or the empty text when every address of the pool is in use.
pub next_free_ip-IsFirstFree :
    (fuel : ℕ) (pool : DhcpServer) (used : ℕ → Bool) (start end : ℕ)
    → ipv4_to_uint32 pool.ip_start ≡ some start
    → ipv4_to_uint32 pool.ip_end ≡ some end
    → end + 1 < u32_mod
    → end + 1 < start + fuel
    → IsFirstFree used start end (next_free_ip fuel pool used)
unfolding next_free_ip
next_free_ip-IsFirstFree fuel pool used start end es ee top enough =
    rw (es, ee)
      (elim (Bool-cases (ltb end start))
        as (λ _.
          IsFirstFree used start end
            (if ltb end start then some [] else free_loop fuel used start end)) [
              | inl none_left ↦ rw none_left (inl (refl, λ v lo hi. absurd (ground arith)))
              | inr some_left ↦
                  rw some_left (free_loop-IsFirstFree fuel used start end top enough (ground arith))
            ])
