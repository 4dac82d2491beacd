-- ===== src/Netcfg/Service.antt =====
-- internal/netcfg/service.go: the state that the service works on, its helpers, and the shape that
-- the read-modify-write methods of all collections share. The mutex makes each method one step.
pub mod Collection
pub mod Routes
pub mod PolicyRules
pub mod Servers
pub mod Statics
pub mod AccessList
pub mod Leases
pub mod Stored
pub mod Frame
pub mod Dns
pub mod V6
pub mod Whole
pub mod Ifaces
use kwrt_net_manager.Prelude.{
  ℕ, zero, suc, ◌+◌, Bool, true, false, ◌||◌, Option, none, some, List, [], ◌∷◌, ◌++◌, Str, str_eq,
  if◌then◌else◌,
}
use kwrt_net_manager.Netcfg.Result.{Result, ok, err, not_found}
use kwrt_net_manager.Netcfg.Exec.{Exec, pure, raise}

-- internal/eventbus/types.go: the event types that the package publishes.
pub data EventType : Type 0 where
  dhcp_changed static_changed acl_changed route_changed dns_changed ipv6_changed iface_changed :
      EventType

-- `eventbus.NetChangeData` under its type.
pub record NetChange : Type 0 where
  pub topic : EventType
  pub action : Str
  pub count : ℕ

-- The backend's state, the number of ids drawn, and what was published; no bus is `none`.
pub record World (S : Type 0) : Type 0 where
  pub be : S
  pub drawn : ℕ
  pub bus : Option (List NetChange)

abbrev pub announce : Option (List NetChange) → NetChange → Option (List NetChange)
announce none e = none
announce (some log) e = some (log ++ e ∷ [])

-- `cryptoID`: a prefix, `_` and the hexadecimal print of six random bytes; `token n` is what the
-- n-th call of the random source gives.
abbrev pub crypto_id : (ℕ → Str) → ℕ → Str → Str
crypto_id token n prefix = prefix ++ (b'_' ∷ token n)

module _ {S : Type 0} where
  -- A call of the backend.
  abbrev pub call : {A : Type 0} → Exec S A → Exec (World S) A
  call m w = let (r, s) = m w.be in (r, record w { be = s })

  abbrev pub publish : EventType → Str → ℕ → Exec (World S) (Unit {0})
  publish topic action count w = (
    ok tt,
    record w { bus = announce w.bus (record { topic = topic; action = action; count = count }) },
  )

  abbrev pub draw : (ℕ → Str) → Str → Exec (World S) Str
  draw token prefix w = (ok (crypto_id token w.drawn prefix), record w { drawn = w.drawn + 1 })

module _ {A : Type 0} (id_of : A → Str) where
  -- `indexByID`, `none` for -1
  unfoldable pub index_by_id : List A → Str → Option ℕ
  index_by_id [] id = none
  index_by_id (x ∷ xs) id =
      let rest = index_by_id xs id in
      if str_eq (id_of x) id then some 0 else elim rest [ none ↦ none | some i ↦ some (suc i) ]

  -- `dropByID`: what is left, and whether something was removed
  unfoldable pub drop_by_id : List A → Str → List A × Bool
  drop_by_id [] id = ([], false)
  drop_by_id (x ∷ xs) id =
      let (out, removed) = drop_by_id xs id in
      if str_eq (id_of x) id then (out, true) else (x ∷ out, removed)

-- Membership in the set that `toSet` makes.
unfoldable pub in_set : List Str → Str → Bool
in_set [] id = false
in_set (x ∷ xs) id = str_eq x id || in_set xs id

-- The loop of the `Get…` methods.
unfoldable pub find_by_id : {S A : Type 0} → (A → Str) → Str → List A → Exec (World S) A
find_by_id id_of id [] = raise not_found
find_by_id id_of id (x ∷ xs) =
    let rest = find_by_id id_of id xs in if str_eq (id_of x) id then pure x else rest
