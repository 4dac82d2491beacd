-- ===== src/Netcfg/Service/Collection/Preserve.antt =====
-- Changes of a collection against predicates on all items and on all pairs of items.
use mathlib.Core.Path.{subst}
use kwrt_net_manager.Prelude.{
  ◌≡◌, inl, inr, Bool, true, false, some, List, [], ◌∷◌, arith, Str, str_eq, Bool-cases,
  Option-cases, All, All-map, AllPairs, codes,
}
use kwrt_net_manager.Netcfg.Result.{ok}
use kwrt_net_manager.Netcfg.Service.{drop_by_id, in_set}
use kwrt_net_manager.Netcfg.Service.Collection.{
  Collection, if_removed, switch_first, or_not_found, switch_all, drop_all, batch_change,
}

module _ {S C A : Type 0} (c : Collection S C A) where
  module _ (P : A → Type 0) where
    drop_by_id-All : (id : Str) (l : List A) → All P l → All P (drop_by_id c.id_of l id).0
    unfolding drop_by_id
    drop_by_id-All id [] h = tt
    drop_by_id-All id (x ∷ xs) h = elim (Bool-cases (str_eq (c.id_of x) id)) [
      | inl e ↦ rw e (drop_by_id-All id xs h.1)
      | inr e ↦ rw e (h.0, drop_by_id-All id xs h.1)
    ]

    drop_all-All : (ids : List Str) (l : List A) → All P l → All P (drop_all c ids l)
    unfolding drop_all
    drop_all-All ids [] h = tt
    drop_all-All ids (x ∷ xs) h = elim (Bool-cases (in_set ids (c.id_of x))) [
      | inl e ↦ rw e (drop_all-All ids xs h.1)
      | inr e ↦ rw e (h.0, drop_all-All ids xs h.1)
    ]

    module _ (stable : (on : Bool) (x : A) → P x → P (c.switch on x)) where
      switch_all-All :
          (ids : List Str) (on : Bool) (l : List A) → All P l → All P (switch_all c ids on l)
      unfolding switch_all
      switch_all-All ids on [] h = tt
      switch_all-All ids on (x ∷ xs) h = elim (Bool-cases (in_set ids (c.id_of x))) [
        | inl e ↦ rw e (stable on x h.0, switch_all-All ids on xs h.1)
        | inr e ↦ rw e (h.0, switch_all-All ids on xs h.1)
      ]

      switch_first-All :
          (id : Str) (on : Bool) (l m : List A)
          → switch_first c id on l ≡ some m
          → All P l
          → All P m
      unfolding switch_first
      switch_first-All id on [] m e h = absurd (cc)
      switch_first-All id on (x ∷ xs) m e h = elim (Bool-cases (str_eq (c.id_of x) id)) [
        | inl same ↦
            let found : some (c.switch on x ∷ xs) ≡ some m = rw same at e in
            let is_m : c.switch on x ∷ xs ≡ m = cc in rw (← is_m) (stable on x h.0, h.1)
        | inr other ↦ elim (Option-cases (switch_first c id on xs)) [
          | inl missing ↦ absurd (ground arith)
          | inr (ys, later) ↦
              let is_m : x ∷ ys ≡ m = ground arith in
              rw (← is_m) (h.0, switch_first-All id on xs ys later h.1)
        ]
      ]

  module _ (R : A → A → Type 0) where
    drop_by_id-AllPairs :
        (id : Str) (l : List A) → AllPairs R l → AllPairs R (drop_by_id c.id_of l id).0
    unfolding drop_by_id
    drop_by_id-AllPairs id [] h = tt
    drop_by_id-AllPairs id (x ∷ xs) h = elim (Bool-cases (str_eq (c.id_of x) id)) [
      | inl e ↦ rw e (drop_by_id-AllPairs id xs h.1)
      | inr e ↦ rw e (drop_by_id-All (R x) id xs h.0, drop_by_id-AllPairs id xs h.1)
    ]

    drop_all-AllPairs : (ids : List Str) (l : List A) → AllPairs R l → AllPairs R (drop_all c ids l)
    unfolding drop_all
    drop_all-AllPairs ids [] h = tt
    drop_all-AllPairs ids (x ∷ xs) h = elim (Bool-cases (in_set ids (c.id_of x))) [
      | inl e ↦ rw e (drop_all-AllPairs ids xs h.1)
      | inr e ↦ rw e (drop_all-All (R x) ids xs h.0, drop_all-AllPairs ids xs h.1)
    ]

    module _ (left : (on : Bool) (x y : A) → R x y → R (c.switch on x) y)
        (right : (on : Bool) (x y : A) → R x y → R x (c.switch on y)) where
      switch_all-AllPairs :
          (ids : List Str) (on : Bool) (l : List A)
          → AllPairs R l
          → AllPairs R (switch_all c ids on l)
      unfolding switch_all
      switch_all-AllPairs ids on [] h = tt
      switch_all-AllPairs ids on (x ∷ xs) h =
          let behind = switch_all-All (R x) (λ on y. right on x y) ids on xs h.0 in
          let rest = switch_all-AllPairs ids on xs h.1 in
          elim (Bool-cases (in_set ids (c.id_of x))) [
            | inl e ↦ rw e (All-map (switch_all c ids on xs) (left on x) behind, rest)
            | inr e ↦ rw e (behind, rest)
          ]

      switch_first-AllPairs :
          (id : Str) (on : Bool) (l m : List A)
          → switch_first c id on l ≡ some m
          → AllPairs R l
          → AllPairs R m
      unfolding switch_first
      switch_first-AllPairs id on [] m e h = absurd (cc)
      switch_first-AllPairs id on (x ∷ xs) m e h = elim (Bool-cases (str_eq (c.id_of x) id)) [
        | inl same ↦
            let found : some (c.switch on x ∷ xs) ≡ some m = rw same at e in
            let is_m : c.switch on x ∷ xs ≡ m = cc in rw (← is_m) (All-map xs (left on x) h.0, h.1)
        | inr other ↦ elim (Option-cases (switch_first c id on xs)) [
          | inl missing ↦ absurd (ground arith)
          | inr (ys, later) ↦
              let is_m : x ∷ ys ≡ m = ground arith in
              rw (← is_m) (
                switch_first-All (R x) (λ on y. right on x y) id on xs ys later h.0,
                switch_first-AllPairs id on xs ys later h.1,
              )
        ]
      ]

-- An invariant of a collection that none of these changes breaks.
module _ {S C A : Type 0} (c : Collection S C A) (P : A → Type 0) (R : A → A → Type 0)
    (stable : (on : Bool) (x : A) → P x → P (c.switch on x))
    (left : (on : Bool) (x y : A) → R x y → R (c.switch on x) y)
    (right : (on : Bool) (x y : A) → R x y → R x (c.switch on y)) where
  abbrev pub Sound : List A → Type 0
  Sound l = All P l × AllPairs R l

  pub delete-Sound :
      (id : Str) (l m : List A) → if_removed c (drop_by_id c.id_of l id) ≡ ok m → Sound l → Sound m
  delete-Sound id l m e h =
      let is_m : (drop_by_id c.id_of l id).0 ≡ m = removed_result _ m e in
      rw (← is_m) (drop_by_id-All c P id l h.0, drop_by_id-AllPairs c R id l h.1)
    where
      removed_result : (p : List A × Bool) (m : List A) → if_removed c p ≡ ok m → p.0 ≡ m
      removed_result (out, true) m e = cc
      removed_result (out, false) m e = absurd (cc)

  pub switch-Sound :
      (id : Str) (on : Bool) (l m : List A)
      → or_not_found c (switch_first c id on l) ≡ ok m
      → Sound l
      → Sound m
  switch-Sound id on l m e h = elim (Option-cases (switch_first c id on l)) [
    | inl missing ↦ absurd (ground arith)
    | inr (ys, found) ↦
        let is_m : ys ≡ m = ground arith in
        let found_m : switch_first c id on l ≡ some m = rw is_m at found in
        (
          switch_first-All c P stable id on l m found_m h.0,
          switch_first-AllPairs c R left right id on l m found_m h.1,
        )
  ]

  pub batch-Sound :
      (action : Str) (ids : List Str) (l m : List A)
      → batch_change c action ids l ≡ ok m
      → Sound l
      → Sound m
  unfolding batch_change
  batch-Sound action ids l m e h =
      let on : Sound (switch_all c ids true l) = (
        switch_all-All c P stable ids true l h.0,
        switch_all-AllPairs c R left right ids true l h.1,
      ) in
      let off : Sound (switch_all c ids false l) = (
        switch_all-All c P stable ids false l h.0,
        switch_all-AllPairs c R left right ids false l h.1,
      ) in
      let gone : Sound (drop_all c ids l) =
        (drop_all-All c P ids l h.0, drop_all-AllPairs c R ids l h.1) in
      elim (Bool-cases (str_eq action (codes "enable"))) [
        | inl enable ↦ subst Sound (ground arith) on
        | inr not_enable ↦ elim (Bool-cases (str_eq action (codes "disable"))) [
          | inl disable ↦ subst Sound (ground arith) off
          | inr not_disable ↦ elim (Bool-cases (str_eq action (codes "delete"))) [
            | inl delete ↦ subst Sound (ground arith) gone
            | inr not_delete ↦ absurd (ground arith)
          ]
        ]
      ]
