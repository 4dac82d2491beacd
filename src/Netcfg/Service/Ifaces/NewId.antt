-- ===== src/Netcfg/Service/Ifaces/NewId.antt =====
-- internal/netcfg/iface.go: the id of a new line.
use kwrt_net_manager.Prelude.{
  ℕ, zero, suc, ◌+◌, ◌<◌, ◌≤◌, ◌≡◌, ◌≢◌, ◌⊎◌, refl, sym, ap, ◌∙◌, inl, inr, true, false, List, [],
  ◌∷◌, ◌++◌, Str, codes, is_empty, is_empty_iff, Bool-cases, Option-cases, none, some, ltb, arith,
}
use kwrt_net_manager.Netcfg.Names.{itoa, next_loop}
use kwrt_net_manager.Netcfg.Names.Fresh.{IsFirst, next_loop-none, next_loop-IsFirst}
use kwrt_net_manager.Netcfg.Types.Iface.{NetIface}
use kwrt_net_manager.Netcfg.Service.{in_set}
use kwrt_net_manager.Netcfg.Store.Ifaces.{with_states}
use kwrt_net_manager.Netcfg.Service.Ifaces.{ids_of_ifaces, iface_loop, next_iface_id, named_iface}

-- The role, or the role with the least number from 2 on, so that it is not in use; or, when the
-- numbers from 2 to 63 are all in use, a last one that is not looked up.
pub data IsNewId (used : List Str) (role id : Str) : Type 0 where
  plain : in_set used role ≡ false → id ≡ role → IsNewId used role id
  numbered :
      in_set used role ≡ true
      → (first : IsFirst used role 2 id) → first.number < 64
      → IsNewId used role id
  last :
      in_set used role ≡ true
      → ((k : ℕ) → k < 62 → in_set used (role ++ itoa (2 + k)) ≡ true)
      → id ≡ role ++ codes "_new"
      → IsNewId used role id

iface_loop-next_loop :
    (rounds : ℕ) (used : List Str) (role : Str) (n : ℕ)
    → iface_loop rounds used role n ≡ next_loop rounds used role n
unfolding iface_loop next_loop
iface_loop-next_loop zero used role n = refl
iface_loop-next_loop (suc rounds) used role n =
    rw (iface_loop-next_loop rounds used role (suc n)) refl

next_loop-passed :
    (rounds : ℕ) (used : List Str) (role : Str) (n : ℕ)
    → ((k : ℕ) → n ≤ k → k < n + rounds → in_set used (role ++ itoa k) ≡ true)
    → next_loop rounds used role n ≡ none
unfolding next_loop
next_loop-passed zero used role n h = refl
next_loop-passed (suc rounds) used role n h =
    let here = h n (omega arith) (omega arith) in
    rw here (
      next_loop-passed rounds used role (suc n)
        (λ k low high. h k (omega (arith, low)) (omega (arith, high))))

-- A number that is found is among those that were tried.
first-bounded :
    (used : List Str) (role id : Str) (first : IsFirst used role 2 id)
    → next_loop 62 used role 2 ≡ some id
    → first.number < 64
first-bounded used role id first found = elim (Bool-cases (ltb first.number 64)) [
  | inl near ↦ ground (arith, near)
  | inr far ↦
      let stuck : next_loop 62 used role 2 ≡ none =
        next_loop-passed 62 used role 2
          (λ k low high. first.passed k low (ground (arith, far, high))) in
      absurd (cc)
]

next_iface_id-IsNewId : (used : List Str) (role : Str) → IsNewId used role (next_iface_id used role)
unfolding next_iface_id
next_iface_id-IsNewId used role = elim (Bool-cases (in_set used role)) [
  | inr free ↦ rw free (plain free refl)
  | inl taken ↦
      let same = iface_loop-next_loop 62 used role 2 in
      elim (Option-cases (iface_loop 62 used role 2)) [
        | inl stuck ↦
            rw taken (rw stuck (last taken (next_loop-none used role 62 2 (sym same ∙ stuck)) refl))
        | inr (id, found) ↦
            let at_first = next_loop-IsFirst used role 62 2 id (sym same ∙ found) in
            rw taken (
              rw found
                (numbered taken at_first (first-bounded used role id at_first (sym same ∙ found))))
      ]
]

-- A line with an id is as it is; one without has a new id, also for its name.
abbrev pub IsNamed : List Str → NetIface → NetIface → Type 0
IsNamed used t x =
    ((t.id ≢ []) × (x ≡ t))
    ⊎ ((t.id ≡ []) × (id : Str) × IsNewId used t.role id × (x ≡ record t { id = id; name = id }))

ids_of_ifaces-with_states : (l : List NetIface) → ids_of_ifaces (with_states l) ≡ ids_of_ifaces l
unfolding ids_of_ifaces with_states
ids_of_ifaces-with_states [] = refl
ids_of_ifaces-with_states (x ∷ xs) = ap (λ l. x.id ∷ l) (ids_of_ifaces-with_states xs)

named_iface-blank :
    (l : List NetIface) (t : NetIface)
    → is_empty t.id ≡ true
    → named_iface (with_states l) t ≡ record t {
      id = next_iface_id (ids_of_ifaces l) t.role;
      name = next_iface_id (ids_of_ifaces l) t.role;
    }
unfolding named_iface
named_iface-blank l t blank = rw (blank, ids_of_ifaces-with_states l) refl

pub named_iface-IsNamed :
    (l : List NetIface) (t : NetIface)
    → is_empty t.id ≡ true
    → IsNamed (ids_of_ifaces l) t (named_iface (with_states l) t)
named_iface-IsNamed l t blank = inr (
  (is_empty_iff t.id).0 blank,
  next_iface_id (ids_of_ifaces l) t.role,
  next_iface_id-IsNewId (ids_of_ifaces l) t.role,
  named_iface-blank l t blank,
)
