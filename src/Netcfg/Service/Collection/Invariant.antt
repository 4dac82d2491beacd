-- ===== src/Netcfg/Service/Collection/Invariant.antt =====
-- Predicates on all stored items, over the methods of a collection.
use mathlib.Core.Path.{subst}
use kwrt_net_manager.Prelude.{
  ℕ, ◌≡◌, sym, inl, inr, Bool, List, [], ◌∷◌, Str, Option-cases, All, All-append, All-set, AllPairs,
}
use kwrt_net_manager.Netcfg.Result.{Result, ok, Result-cases}
use kwrt_net_manager.Netcfg.Service.{World, index_by_id}
use kwrt_net_manager.Netcfg.Service.Collection.{
  Collection, create, update, mutate, delete, set_enabled, batch,
}
use kwrt_net_manager.Netcfg.Service.Collection.Outcome.{
  Kept, Outcome, Stopped, mutate-Outcome, create-Outcome, update-Outcome, mutate-Stopped,
  create-Stopped, update-Stopped, update-missing-Stopped,
}
use kwrt_net_manager.Netcfg.Service.Collection.Preserve.{delete-Sound, switch-Sound, batch-Sound}

Any : {A : Type 0} → A → A → Type 0
Any x y = Unit

AllPairs-trivial : {A : Type 0} (l : List A) → AllPairs Any l
unfolding Any
AllPairs-trivial [] = tt
AllPairs-trivial (x ∷ xs) = (All-trivial x xs, AllPairs-trivial xs)
  where
    All-trivial : {A : Type 0} (x : A) (xs : List A) → All (Any x) xs
    All-trivial x [] = tt
    All-trivial x (y ∷ ys) = (tt, All-trivial x ys)

-- `P` is what each stored item has, `Inv` an invariant of all that is stored: it gives `P` of the
-- items here, and new items with `P` do not break it.
module _ {S C A V : Type 0} (c : Collection S C A) (view : S → V) (items : V → List A × C)
    (change : List A → C → V → V) (kept : Kept c view items change) (P : A → Type 0)
    (Inv : V → Type 0) (see : (v : V) → Inv v → All P (items v).0)
    (grow : (l : List A) (k : C) (v : V) → Inv v → All P l → Inv (change l k v)) where
  abbrev pub stored : World S → List A
  stored w = (items (view w.be)).0

  module _ {B : Type 0} (w : World S) (end : Result B × World S) (h : Inv (view w.be)) where
    pub Outcome-Inv :
        (action : Str) (l : List A) (k : C) (b : B)
        → All P l
        → Outcome c view change w action l k b end
        → Inv (view end.1.be)
    Outcome-Inv action l k b new (inl done) = subst Inv (sym done.stored) (grow l k _ h new)
    Outcome-Inv action l k b new (inr refused) = elim (refused.state) [
      | inl old ↦ subst Inv (sym old) h
      | inr saved ↦ subst Inv (sym saved) (grow l k _ h new)
    ]

    pub Stopped-Inv : Stopped c view items change kept w end → Inv (view end.1.be)
    Stopped-Inv stop = subst Inv (sym stop.unchanged) h

  pub create-Inv :
      (token : ℕ → Str) (check : List A → Result (Unit {0})) (x : A) (w : World S)
      → Inv (view w.be)
      → ((id : Str) → P (c.identify id x))
      → Inv (view (create c token check x w).1.be)
  create-Inv token check x w h good = elim (Result-cases (check (stored w))) [
    | inl (e, bad) ↦
        Stopped-Inv w _ h (create-Stopped c view items change kept token check x e w bad)
    | inr (_, free) ↦
        Outcome-Inv w _ h _ _ _ _ (All-append P (stored w) _ (see _ h) (good _, tt))
          (create-Outcome c view items change kept token check x w free)
  ]

  pub update-Inv :
      (check : List A → Result (Unit {0})) (id : Str) (x : A) (w : World S)
      → Inv (view w.be)
      → P (c.identify id x)
      → Inv (view (update c check id x w).1.be)
  update-Inv check id x w h good = elim (Option-cases (index_by_id c.id_of (stored w) id)) [
    | inl missing ↦
        Stopped-Inv w _ h (update-missing-Stopped c view items change kept check id x w missing)
    | inr (i, found) ↦ elim (Result-cases (check (stored w))) [
      | inl (e, bad) ↦
          Stopped-Inv w _ h (update-Stopped c view items change kept check id x i e w found bad)
      | inr (_, free) ↦
          Outcome-Inv w _ h _ _ _ _ (All-set P (stored w) i _ (see _ h) good)
            (update-Outcome c view items change kept check id x i w found free)
    ]
  ]

  pub mutate-Inv :
      (action : Str) (fn : List A → Result (List A)) (w : World S)
      → Inv (view w.be)
      → ((m : List A) → fn (stored w) ≡ ok m → All P m)
      → Inv (view (mutate c action fn w).1.be)
  mutate-Inv action fn w h sound = elim (Result-cases (fn (stored w))) [
    | inl (e, bad) ↦ Stopped-Inv w _ h (mutate-Stopped c view items change kept action fn e w bad)
    | inr (m, good) ↦
        Outcome-Inv w _ h _ _ _ _ (sound m good)
          (mutate-Outcome c view items change kept action fn m w good)
  ]

  module _ (stable : (on : Bool) (x : A) → P x → P (c.switch on x)) where
    pub delete-Inv : (id : Str) (w : World S) → Inv (view w.be) → Inv (view (delete c id w).1.be)
    unfolding delete Any
    delete-Inv id w h = mutate-Inv _ _ w h λ m e.
        (delete-Sound c P Any stable (λ on x y _. tt) (λ on x y _. tt) id (stored w) m e
          (see _ h, AllPairs-trivial (stored w))).0

    pub set_enabled-Inv :
        (id : Str) (on : Bool) (w : World S)
        → Inv (view w.be)
        → Inv (view (set_enabled c id on w).1.be)
    unfolding set_enabled Any
    set_enabled-Inv id on w h = mutate-Inv _ _ w h λ m e.
        (switch-Sound c P Any stable (λ on x y _. tt) (λ on x y _. tt) id on (stored w) m e
          (see _ h, AllPairs-trivial (stored w))).0

    pub batch-Inv :
        (action : Str) (ids : List Str) (w : World S)
        → Inv (view w.be)
        → Inv (view (batch c action ids w).1.be)
    unfolding batch Any
    batch-Inv action ids w h = mutate-Inv _ _ w h λ m e.
        (batch-Sound c P Any stable (λ on x y _. tt) (λ on x y _. tt) action ids (stored w) m e
          (see _ h, AllPairs-trivial (stored w))).0
