-- ===== src/Netcfg/Service/Collection/Named.antt =====
-- The creation of an item that is named after what is stored already, and changes of one item.
use mathlib.Core.Path.{subst}
use kwrt_net_manager.Prelude.{
  All-get_elem?, ℕ, ◌≡◌, refl, sym, inl, inr, Option, none, some, List, Str, Option-cases, All,
  All-append, get_elem?,
}
use kwrt_net_manager.Netcfg.Result.{Result}
use kwrt_net_manager.Netcfg.Exec.{Exec, ◌>>=◌}
use kwrt_net_manager.Netcfg.Service.{World, call, index_by_id}
use kwrt_net_manager.Netcfg.Service.Frame.{read-Holds, write-Holds, lift-Holds}
use kwrt_net_manager.Netcfg.Service.Collection.{Collection, create_named, commit, at_index}
use kwrt_net_manager.Netcfg.Service.Collection.Outcome.{Kept}

module _ {S C A V : Type 0} (c : Collection S C A) (view : S → V) (items : V → List A × C)
    (change : List A → C → V → V) (kept : Kept c view items change) (P : A → Type 0)
    (Inv : V → Type 0) (see : (v : V) → Inv v → All P (items v).0)
    (grow : (l : List A) (k : C) (v : V) → Inv v → All P l → Inv (change l k v)) where
  pub commit-Inv :
      {B : Type 0} (action : Str) (l : List A) (k : C) (b : B) (w : World S)
      → Inv (view w.be)
      → All P l
      → Inv (view (commit c action l k b w).1.be)
  commit-Inv action l k b w h new =
      write-Holds view Inv (c.save l k) (change l k) _ w (kept.saves l k) h (grow l k _ h new)
        (λ w' h'. h')

  pub create_named-Inv :
      (check : List A → Result (Unit {0})) (name : List A → Str) (x : A) (w : World S)
      → Inv (view w.be)
      → ((id : Str) → P (c.identify id x))
      → Inv (view (create_named c check name x w).1.be)
  unfolding create_named
  create_named-Inv check name x w h good =
      read-Holds view Inv c.load items _ w kept.loads h λ w' same.
        let h' : Inv (view w'.be) = subst Inv (sym same) h in
        lift-Holds view Inv (check (items (view w.be)).0) _ w' h' λ _ free.
          commit-Inv _ _ _ _ w' h' (All-append P (items (view w.be)).0 _ (see _ h) (good _, tt))

  -- The loaded items, one of them edited and saved.
  pub edit-Inv :
      {B : Type 0} (id : Str) (k : ℕ → List A → C → Option A → Exec (World S) B) (w : World S)
      → Inv (view w.be)
      → ((i : ℕ) (l : List A) (m : C) (w' : World S)
          → Inv (view w'.be)
          → Inv (view (k i l m none w').1.be))
      → ((i : ℕ) (x : A) (l : List A) (m : C) (w' : World S)
          → Inv (view w'.be)
          → All P l
          → P x
          → Inv (view (k i l m (some x) w').1.be))
      → Inv (
          view
            ((call c.load >>= λ loaded.
                at_index c
                  (index_by_id c.id_of loaded.0 id)
                  λ i. k i loaded.0 loaded.1 (get_elem? loaded.0 i))
              w).1.be)
  edit-Inv id k w h missing there = read-Holds view Inv c.load items _ w kept.loads h λ w' same.
      let h' : Inv (view w'.be) = subst Inv (sym same) h in
      let l : List A = (items (view w.be)).0 in
      elim (Option-cases (index_by_id c.id_of l id)) [
        | inl none_here ↦ rw none_here h'
        | inr (i, found) ↦ rw found (at_item i l _ w' h' (see _ h) (get_elem? l i) refl)
      ]
    where
      at_item :
          (i : ℕ) (l : List A) (m : C) (w' : World S)
          → Inv (view w'.be)
          → All P l
          → (o : Option A) → get_elem? l i ≡ o
          → Inv (view (k i l m o w').1.be)
      at_item i l m w' h' valid none e = missing i l m w' h'
      at_item i l m w' h' valid (some x) e =
          there i x l m w' h' valid (All-get_elem? P l i x e valid)
