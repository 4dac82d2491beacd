-- ===== src/Netcfg/Service/Collection.antt =====
-- The methods of service.go that read a whole collection, change it and save it. The source writes
-- them out for each collection; what differs is named by a `Collection`.
pub mod Outcome
pub mod Preserve
pub mod Invariant
pub mod Checked
pub mod Named
pub mod NamedEnds
use kwrt_net_manager.Prelude.{
  ℕ, zero, suc, Bool, true, false, not, Option, none, some, List, [], ◌∷◌, ◌++◌, map, Str, codes,
  str_eq, if◌then◌else◌, length, set,
}
use kwrt_net_manager.Netcfg.Result.{Err, Result, ok, err, not_found, bad_batch_action}
use kwrt_net_manager.Netcfg.Exec.{Exec, pure, lift, raise, ◌>>=◌, ◌>>◌}
use kwrt_net_manager.Netcfg.Service.{
  EventType, World, call, publish, draw, index_by_id, drop_by_id, in_set,
}

-- `C` is what is saved beside the items: the ARP switch, the mode of the list, or nothing.
pub record Collection (S C A : Type 0) : Type 0 where
  pub load : Exec S (List A × C)
  pub save : List A → C → Exec S (Unit {0})
  pub topic : EventType
  pub prefix : Str
  pub id_of : A → Str
  -- `x.ID = id; x.Managed = true`
  pub identify : Str → A → A
  -- `x.Enabled = on; x.Managed = true`
  pub switch : Bool → A → A

-- The collections without a test of their own.
abbrev pub no_check : {A : Type 0} → List A → Result (Unit {0})
no_check _ = ok tt

module _ {S C A : Type 0} (c : Collection S C A) where
  -- Save, publish, and answer.
  abbrev pub commit : {B : Type 0} → Str → List A → C → B → Exec (World S) B
  commit action l k answer = do call (c.save l k); publish c.topic action (length l); pure answer

  -- `Create…` behind its validation; `check` is the test against the items that are there.
  unfoldable pub create : (ℕ → Str) → (List A → Result (Unit {0})) → A → Exec (World S) A
  create token check x = do
    loaded ← call c.load
    lift (check loaded.0)
    id ← draw token c.prefix
    commit (codes "create") (loaded.0 ++ c.identify id x ∷ []) loaded.1 (c.identify id x)

  -- `Create…` of the collections that name an item after it and what is there; `check` is as above.
  unfoldable pub create_named : (List A → Result (Unit {0})) → (List A → Str) → A → Exec (World S) A
  create_named check name x = do
    loaded ← call c.load
    lift (check loaded.0)
    commit (codes "create") (loaded.0 ++ c.identify (name loaded.0) x ∷ []) loaded.1
        (c.identify (name loaded.0) x)

  abbrev pub at_index : {B : Type 0} → Option ℕ → (ℕ → Exec (World S) B) → Exec (World S) B
  at_index none f = raise not_found
  at_index (some i) f = f i

  -- `Update…` behind its validation.
  unfoldable pub update : (List A → Result (Unit {0})) → Str → A → Exec (World S) A
  update check id x = do
    loaded ← call c.load
    at_index (index_by_id c.id_of loaded.0 id) λ i. do
      lift (check loaded.0)
      commit (codes "update") (set loaded.0 i (c.identify id x)) loaded.1 (c.identify id x)

  -- `mutate…`
  unfoldable pub mutate : Str → (List A → Result (List A)) → Exec (World S) (Unit {0})
  mutate action fn = do
    loaded ← call c.load
    next ← lift (fn loaded.0)
    commit action next loaded.1 tt

  abbrev pub if_removed : List A × Bool → Result (List A)
  if_removed (out, removed) = if removed then ok out else err not_found

  unfoldable pub delete : Str → Exec (World S) (Unit {0})
  delete id = mutate (codes "delete") (λ l. if_removed (drop_by_id c.id_of l id))

  -- `list[idx].Enabled = on; list[idx].Managed = true` at the first item with the id
  unfoldable pub switch_first : Str → Bool → List A → Option (List A)
  switch_first id on [] = none
  switch_first id on (x ∷ xs) =
      let rest = switch_first id on xs in
      if str_eq (c.id_of x) id
      then some (c.switch on x ∷ xs)
      else elim rest [ none ↦ none | some ys ↦ some (x ∷ ys) ]

  abbrev pub or_not_found : Option (List A) → Result (List A)
  or_not_found none = err not_found
  or_not_found (some l) = ok l

  unfoldable pub set_enabled : Str → Bool → Exec (World S) (Unit {0})
  set_enabled id on = mutate (codes "toggle") (λ l. or_not_found (switch_first id on l))

  unfoldable pub switch_all : List Str → Bool → List A → List A
  switch_all ids on [] = []
  switch_all ids on (x ∷ xs) =
      (if in_set ids (c.id_of x) then c.switch on x else x) ∷ switch_all ids on xs

  unfoldable pub drop_all : List Str → List A → List A
  drop_all ids [] = []
  drop_all ids (x ∷ xs) =
      let rest = drop_all ids xs in if in_set ids (c.id_of x) then rest else x ∷ rest

  -- The switch over the action's name.
  unfoldable pub batch_change : Str → List Str → List A → Result (List A)
  batch_change action ids l =
      if str_eq action (codes "enable")
      then ok (switch_all ids true l)
      else if str_eq action (codes "disable")
      then ok (switch_all ids false l)
      else if str_eq action (codes "delete")
      then ok (drop_all ids l)
      else err bad_batch_action

  unfoldable pub batch : Str → List Str → Exec (World S) (Unit {0})
  batch action ids = mutate action (batch_change action ids)
