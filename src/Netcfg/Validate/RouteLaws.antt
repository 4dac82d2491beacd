-- ===== src/Netcfg/Validate/RouteLaws.antt =====
-- What `validateRoute` guarantees: netmask and prefix say the same, and a checked route passes again
-- unchanged.
use mathlib.Core.Path.{subst}
use kwrt_net_manager.Prelude.{
  ℕ, ◌≤◌, ◌≡◌, ◌≢◌, refl, inl, inr, true, false, ◌⊎◌, ◌||◌, ◌&&◌, not, none, some, Option, [], ◌∷◌,
  arith, Str, is_empty, is_empty_iff, str_eq, str_eq_iff, Bool-cases, ℤ, pos, negsuc, is_neg, ltℤ,
}
use kwrt_net_manager.Go.Strings.{trim_space, trim_left, trim_right, is_space}
use kwrt_net_manager.Go.Strings.Trim.{trim_space_idem}
use kwrt_net_manager.Go.Ip.{parse_ip}
use kwrt_net_manager.Netutil.{ipv4_to_uint32, is_ipv4, is_ipv6, is_ip, mask_to_prefix}
use kwrt_net_manager.Netutil.Mask.{mask_to_prefix-prefix_to_mask}
use kwrt_net_manager.Netcfg.Result.{Result-cases, ok}
use kwrt_net_manager.Netcfg.Types.{Route, family_ipv4, family_ipv6}
use kwrt_net_manager.Netcfg.Validate.{
  check_family, of_mask, sync_mask, check_by_family, or_auto, check_ipv4_route, check_ipv6_route,
  known_route_type, check_route_numbers, validate_route, given_not_ipv4,
}

-- The mask is accepted, and the prefix is its number of ones.
pub record InStep (netmask : Str) (prefix : ℤ) : Type 0 where
  pub ones : ℕ
  pub prefix_is : prefix ≡ pos ones
  pub mask_is : mask_to_prefix netmask ≡ some ones

of_mask-InStep :
    (m : Str) (o : Option ℕ) (r : Str × ℤ)
    → mask_to_prefix m ≡ o
    → of_mask m o ≡ ok r
    → InStep r.0 r.1
unfolding of_mask
of_mask-InStep m none r h e = absurd (ground arith)
of_mask-InStep m (some p) r h e = record {
  ones = p;
  prefix_is = ground arith;
  mask_is = ground arith;
}

sync_mask-InStep : (m : Str) (p : ℤ) (r : Str × ℤ) → sync_mask m p ≡ ok r → InStep r.0 r.1
unfolding sync_mask
sync_mask-InStep m (negsuc n) r e = elim (Bool-cases (is_empty m)) [
  | inl none_given ↦ absurd (ground arith)
  | inr given ↦ of_mask-InStep m (mask_to_prefix m) r refl (ground arith)
]
sync_mask-InStep m (pos p) r e = elim (Bool-cases (is_empty m)) [
  | inl none_given ↦ record {
    ones = p;
    prefix_is = ground arith;
    mask_is = ground (arith, mask_to_prefix-prefix_to_mask p);
  }
  | inr given ↦ of_mask-InStep m (mask_to_prefix m) r refl (ground arith)
]

-- A route as it is stored, without its number fields.
pub record IsRouteV4 (r : Route) : Type 0 where
  pub family_is : r.family ≡ family_ipv4
  pub target_valid : is_ipv4 r.target ≡ true
  pub in_step : InStep r.netmask r.prefix
  pub gateway_valid : given_not_ipv4 r.gateway ≡ false

pub record IsRouteV6 (r : Route) : Type 0 where
  pub family_is : r.family ≡ family_ipv6
  pub target_valid : is_ipv6 r.target ≡ true
  pub ones : ℕ
  pub prefix_is : r.prefix ≡ pos ones
  pub prefix_short : ones ≤ 128
  pub no_netmask : r.netmask ≡ []
  pub gateway_valid : (not (is_empty r.gateway) && not (is_ip r.gateway)) ≡ false

check_ipv4_route-IsRouteV4 :
    (r t : Route) → r.family ≡ family_ipv4 → check_ipv4_route r ≡ ok t → IsRouteV4 t
unfolding check_ipv4_route
check_ipv4_route-IsRouteV4 r t f e = elim (Result-cases (sync_mask r.netmask r.prefix)) [
  | inl (stop, failed) ↦ absurd (ground arith)
  | inr (synced, read) ↦
      let step = sync_mask-InStep r.netmask r.prefix synced read in
      record {
        family_is = ground arith;
        target_valid = ground arith;
        in_step = record {
          ones = step.ones;
          prefix_is = ground (arith, step.prefix_is);
          mask_is = ground (arith, step.mask_is);
        };
        gateway_valid = ground arith;
      }
]

-- A prefix that is not refused is a number up to `n`.
prefix_in : (n : ℕ) (p : ℤ) → (is_neg p || ltℤ (pos n) p) ≡ false → (k : ℕ) × (p ≡ pos k) × (k ≤ n)
prefix_in n (pos k) h = (k, refl, ground arith)
prefix_in n (negsuc k) h = absurd (cc)

check_ipv6_route-IsRouteV6 :
    (r t : Route) → r.family ≡ family_ipv6 → check_ipv6_route r ≡ ok t → IsRouteV6 t
unfolding check_ipv6_route
check_ipv6_route-IsRouteV6 r t f e =
    let (k, is_k, short) = prefix_in 128 r.prefix (ground arith) in
    record {
      family_is = ground arith;
      target_valid = ground arith;
      ones = k;
      prefix_is = ground arith;
      prefix_short = short;
      no_netmask = ground arith;
      gateway_valid = ground arith;
    }

check_family-cases : (f g : Str) → check_family f ≡ ok g → (g ≡ family_ipv4) ⊎ (g ≡ family_ipv6)
unfolding check_family
check_family-cases f g e = ground (arith, str_eq_iff f family_ipv4, str_eq_iff f family_ipv6)

-- The number fields of a stored route.
pub record HasNumbers (r : Route) : Type 0 where
  pub metric_valid : is_neg r.metric ≡ false
  pub kind_known : known_route_type r.kind ≡ true
  pub mtu_valid : (is_neg r.mtu || ltℤ (pos 65535) r.mtu) ≡ false
  pub table_valid : (is_neg r.table || ltℤ (pos 255) r.table) ≡ false

check_route_numbers-eq-ok : (r t : Route) → check_route_numbers r ≡ ok t → (r ≡ t) × HasNumbers r
unfolding check_route_numbers
check_route_numbers-eq-ok r t e = (ground arith, ground arith)

pub record IsRoute (r : Route) : Type 0 where
  pub interface_given : r.interface ≢ []
  pub interface_trimmed : trim_space r.interface ≡ r.interface
  pub numbers : HasNumbers r
  pub shape : IsRouteV4 r ⊎ IsRouteV6 r

interface-check_by_family : (r t : Route) → check_by_family r ≡ ok t → t.interface ≡ r.interface
unfolding check_by_family check_ipv4_route check_ipv6_route
interface-check_by_family r t e = elim (Result-cases (sync_mask r.netmask r.prefix)) [
  | inl (stop, failed) ↦ ground arith
  | inr (synced, read) ↦ ground arith
]

check_by_family-shape :
    (r t : Route)
    → (r.family ≡ family_ipv4) ⊎ (r.family ≡ family_ipv6)
    → check_by_family r ≡ ok t
    → IsRouteV4 t ⊎ IsRouteV6 t
unfolding check_by_family
check_by_family-shape r t (inl v4) e =
    let is_v4 : str_eq r.family family_ipv4 ≡ true = (str_eq_iff _ _).1 v4 in
    inl (check_ipv4_route-IsRouteV4 r t v4 (ground arith))
check_by_family-shape r t (inr v6) e =
    let not_v4 : str_eq r.family family_ipv4 ≡ false = rw v6 (unfold str_eq in refl) in
    inr (check_ipv6_route-IsRouteV6 r t v6 (ground arith))

or_auto_facts :
    (s : Str)
    → (or_auto (trim_space s) ≢ []) × (trim_space (or_auto (trim_space s)) ≡ or_auto (trim_space s))
or_auto_facts s = elim (Bool-cases (is_empty (trim_space s))) [
  | inl e ↦ rw e (cc, unfold trim_space trim_left trim_right is_space in refl)
  | inr e ↦ rw e (ground (arith, is_empty_iff (trim_space s)), trim_space_idem s)
]

-- A route that passes validation comes back in normal form: with a known family, a line and
-- numbers in their ranges, and for IPv4 with a readable target and a netmask and a prefix that
-- say the same.
pub validate_route-IsRoute : (r t : Route) → validate_route r ≡ ok t → IsRoute t
unfolding validate_route
validate_route-IsRoute r t e = elim (Result-cases (check_family r.family)) [
  | inl (stop, failed) ↦ absurd (ground arith)
  | inr (family, known) ↦
      let r' : Route = record r { family = family; interface = or_auto (trim_space r.interface) } in
      let line = or_auto_facts r.interface in
      elim (Result-cases (check_by_family r')) [
        | inl (stop, failed) ↦ absurd (ground arith)
        | inr (checked, passed) ↦
            let (same, numbers) = check_route_numbers-eq-ok checked t (ground arith) in
            let kept = interface-check_by_family r' checked passed in
            let shape = check_by_family-shape r' checked (check_family-cases _ _ known) passed in
            subst IsRoute same (record {
              interface_given = rw kept (line.0);
              interface_trimmed = rw kept (line.1);
              numbers = numbers;
              shape = shape;
            })
      ]
]

mask_to_prefix-blank : mask_to_prefix [] ≡ none
unfolding mask_to_prefix ipv4_to_uint32 trim_space trim_left trim_right parse_ip
mask_to_prefix-blank = refl

sync_mask_fixed : (m : Str) (p : ℤ) → InStep m p → sync_mask m p ≡ ok (m, p)
unfolding sync_mask of_mask
sync_mask_fixed m p h = elim (Bool-cases (is_empty m)) [
  | inl e ↦
      let blank : m ≡ [] = (is_empty_iff m).0 e in
      let refused : mask_to_prefix m ≡ none = rw blank mask_to_prefix-blank in
      absurd (cc (h.mask_is, refused))
  | inr e ↦ rw (e, h.mask_is, h.prefix_is)
]

IsRouteV4-fixed : (t : Route) → IsRouteV4 t → check_by_family t ≡ ok t
unfolding check_by_family check_ipv4_route
IsRouteV4-fixed t h = rw (
  (str_eq_iff _ _).1 h.family_is,
  h.target_valid,
  sync_mask_fixed t.netmask t.prefix h.in_step,
  h.gateway_valid,
)

IsRouteV6-fixed : (t : Route) → IsRouteV6 t → check_by_family t ≡ ok t
unfolding check_by_family check_ipv6_route
IsRouteV6-fixed t h =
    let not_v4 : str_eq t.family family_ipv4 ≡ false = rw h.family_is (unfold str_eq in refl) in
    ground arith

check_family_fixed : (f : Str) → (f ≡ family_ipv4) ⊎ (f ≡ family_ipv6) → check_family f ≡ ok f
unfolding check_family str_eq
check_family_fixed f (inl v4) = rw v4
check_family_fixed f (inr v6) = rw v6

or_auto_fixed : (s : Str) → s ≢ [] → or_auto s ≡ s
or_auto_fixed [] h = absurd (h refl)
or_auto_fixed (c ∷ s) h = refl

IsRoute-family : (t : Route) → IsRoute t → (t.family ≡ family_ipv4) ⊎ (t.family ≡ family_ipv6)
IsRoute-family t h = elim (h.shape) [ inl a ↦ inl a.family_is | inr b ↦ inr b.family_is ]

IsRoute-check_by_family : (t : Route) → IsRoute t → check_by_family t ≡ ok t
IsRoute-check_by_family t h = elim (h.shape) [
  | inl a ↦ IsRouteV4-fixed t a
  | inr b ↦ IsRouteV6-fixed t b
]

-- A route in normal form passes again, unchanged.
pub IsRoute-validate : (t : Route) → IsRoute t → validate_route t ≡ ok t
unfolding validate_route check_route_numbers
IsRoute-validate t h =
    rw
      (
        check_family_fixed t.family (IsRoute-family t h),
        h.interface_trimmed,
        or_auto_fixed t.interface h.interface_given,
        IsRoute-check_by_family t h,
      )
      (ground arith)

-- Validation of routes is stable: what it returns it accepts again, unchanged.
pub validate_route_idem : (r t : Route) → validate_route r ≡ ok t → validate_route t ≡ ok t
validate_route_idem r t e = IsRoute-validate t (validate_route-IsRoute r t e)
