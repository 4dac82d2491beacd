-- ===== src/Netcfg/Service/Statics/Unique.antt =====
-- internal/netcfg/service.go, reservations: what it takes for stored ones to stand side by side.
use kwrt_net_manager.Prelude.{
  ℕ, suc, ◌≡◌, ◌≢◌, ◌⊎◌, sym, ◌∙◌, inl, inr, true, false, some, List, [], ◌∷◌, ◌++◌, arith, Str,
  str_eq, str_eq_iff, Bool-cases, Option-cases, set, All, All-append, All-set, AllPairs,
  AllPairs-append_one,
}
use kwrt_net_manager.Go.Strings.{equal_fold, to_upper}
use kwrt_net_manager.Netcfg.Result.{ok}
use kwrt_net_manager.Netcfg.Types.{StaticLease}
use kwrt_net_manager.Netcfg.Validate.Laws.{IsStatic}
use kwrt_net_manager.Netcfg.Service.{index_by_id}
use kwrt_net_manager.Netcfg.Service.Statics.{ensure_static_unique}

abbrev pub by_id : StaticLease → Str
by_id s = s.id

-- Two reservations that dnsmasq accepts side by side.
pub record Apart (x y : StaticLease) : Type 0 where
  pub ids : x.id ≢ y.id
  pub macs : x.mac ≢ y.mac
  pub ips : x.ip ≢ y.ip

-- The reservations as they are stored.
pub record IsTable (l : List StaticLease) : Type 0 where
  pub each : All (λ x. IsStatic x × (x.id ≢ [])) l
  pub pairs : AllPairs Apart l

-- What the uniqueness test guarantees against one stored reservation.
abbrev pub Clear : StaticLease → Str → StaticLease → Type 0
Clear s id x = (x.id ≡ id) ⊎ ((x.mac ≢ s.mac) × (x.ip ≢ s.ip))

not_fold : (m n : Str) → equal_fold m n ≡ false → m ≢ n
unfolding equal_fold
not_fold m n e same = absurd (ground (arith, str_eq_iff (to_upper m) (to_upper n)))

pub ensure_static_unique-Clear :
    (l : List StaticLease) (s : StaticLease) (id : Str)
    → ensure_static_unique l s id ≡ ok tt
    → All (Clear s id) l
unfolding ensure_static_unique
ensure_static_unique-Clear [] s id e = tt
ensure_static_unique-Clear (x ∷ xs) s id e = elim (Bool-cases (str_eq x.id id)) [
  | inl same ↦
      (inl ((str_eq_iff x.id id).0 same), ensure_static_unique-Clear xs s id (rw same at e))
  | inr other ↦ elim (Bool-cases (equal_fold x.mac s.mac)) [
    | inl taken ↦ absurd (ground arith)
    | inr free ↦ elim (Bool-cases (str_eq x.ip s.ip)) [
      | inl taken ↦ absurd (ground arith)
      | inr free_ip ↦ (
        inr (not_fold x.mac s.mac free, λ same. absurd (ground (arith, str_eq_iff x.ip s.ip))),
        ensure_static_unique-Clear xs s id (rw (other, free, free_ip) at e),
      )
    ]
  ]
]

Clear-Apart : (x y : StaticLease) → x.id ≢ y.id → Clear y y.id x → Apart x y
Clear-Apart x y other (inl same) = absurd (other same)
Clear-Apart x y other (inr h) = record { ids = other; macs = h.0; ips = h.1 }

Apart-sym : (x y : StaticLease) → Apart x y → Apart y x
Apart-sym x y h = record {
  ids = λ e. h.ids (sym e);
  macs = λ e. h.macs (sym e);
  ips = λ e. h.ips (sym e);
}

-- An item that takes the place of `x` is apart from all that `x` was apart from.
replaced :
    (x y : StaticLease) (xs : List StaticLease)
    → x.id ≡ y.id
    → All (Apart x) xs
    → All (Clear y y.id) xs
    → All (Apart y) xs
replaced x y [] same h clear = tt
replaced x y (z ∷ zs) same h clear = (
  Apart-sym z y (Clear-Apart z y (λ e. h.0.ids (same ∙ sym e)) clear.0),
  replaced x y zs same h.1 clear.1,
)

set-AllPairs :
    (l : List StaticLease) (y : StaticLease) (i : ℕ)
    → index_by_id by_id l y.id ≡ some i
    → All (Clear y y.id) l
    → AllPairs Apart l
    → AllPairs Apart (set l i y)
unfolding index_by_id
set-AllPairs [] y i e clear h = tt
set-AllPairs (x ∷ xs) y i e clear h = elim (Bool-cases (str_eq x.id y.id)) [
  | inl same ↦
      let first : i ≡ 0 = ground arith in
      rw first (replaced x y xs ((str_eq_iff x.id y.id).0 same) h.0 clear.1, h.1)
  | inr other ↦ elim (Option-cases (index_by_id by_id xs y.id)) [
    | inl missing ↦ absurd (ground arith)
    | inr (j, found) ↦
        let later : i ≡ suc j = ground arith in
        let ids : x.id ≢ y.id = λ e'. absurd (ground (arith, str_eq_iff x.id y.id)) in
        rw later (
          All-set (Apart x) xs j y h.0 (Clear-Apart x y ids clear.0),
          set-AllPairs xs y j found clear.1 h.1,
        )
  ]
]

IsStatic-identified :
    (id : Str) (s : StaticLease) → IsStatic s → IsStatic (record s { id = id; managed = true })
IsStatic-identified id s h = record {
  mac_given = h.mac_given;
  mac_canonical = h.mac_canonical;
  ip_valid = h.ip_valid;
  gateway_valid = h.gateway_valid;
  dns_primary_valid = h.dns_primary_valid;
  dns_secondary_valid = h.dns_secondary_valid;
  interface_trimmed = h.interface_trimmed;
}

pub append-IsTable :
    (l : List StaticLease) (s : StaticLease) (id : Str)
    → IsTable l
    → IsStatic s
    → ensure_static_unique l s [] ≡ ok tt
    → id ≢ []
    → All (λ x. x.id ≢ id) l
    → IsTable (l ++ record s { id = id; managed = true } ∷ [])
append-IsTable l s id h is_static unique given fresh = record {
  each = All-append _ l _ h.each ((IsStatic-identified id s is_static, given), tt);
  pairs =
      AllPairs-append_one Apart l _ h.pairs
        (clear_all l h.each fresh (ensure_static_unique-Clear l s [] unique));
}
  where
    clear_all :
        (l : List StaticLease)
        → All (λ x. IsStatic x × (x.id ≢ [])) l
        → All (λ x. x.id ≢ id) l
        → All (Clear s []) l
        → All (λ x. Apart x (record s { id = id; managed = true })) l
    clear_all [] each fresh clear = tt
    clear_all (x ∷ xs) each fresh clear = (
      elim (clear.0) [
        | inl unnamed ↦ absurd (each.0.1 unnamed)
        | inr h ↦ record { ids = fresh.0; macs = h.0; ips = h.1 }
      ],
      clear_all xs each.1 fresh.1 clear.1,
    )

pub set-IsTable :
    (l : List StaticLease) (s : StaticLease) (id : Str) (i : ℕ)
    → IsTable l
    → IsStatic s
    → ensure_static_unique l s id ≡ ok tt
    → id ≢ []
    → index_by_id by_id l id ≡ some i
    → IsTable (set l i (record s { id = id; managed = true }))
set-IsTable l s id i h is_static unique given found = record {
  each = All-set _ l i _ h.each (IsStatic-identified id s is_static, given);
  pairs = set-AllPairs l _ i found (ensure_static_unique-Clear l s id unique) h.pairs;
}
