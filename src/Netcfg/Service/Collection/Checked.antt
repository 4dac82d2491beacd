-- ===== src/Netcfg/Service/Collection/Checked.antt =====
-- The creation and the update of a collection behind the validation of its items, and what the
-- methods of such a collection keep.
use kwrt_net_manager.Prelude.{ℕ, ◌≡◌, Bool, List, Str, All}
use kwrt_net_manager.Netcfg.Result.{Result, ok}
use kwrt_net_manager.Netcfg.Exec.{Exec, lift, ◌>>=◌}
use kwrt_net_manager.Netcfg.Service.{World}
use kwrt_net_manager.Netcfg.Service.Frame.{lift-Holds}
use kwrt_net_manager.Netcfg.Service.Collection.{
  Collection, create, update, delete, set_enabled, batch,
}
use kwrt_net_manager.Netcfg.Service.Collection.Outcome.{Kept}
use kwrt_net_manager.Netcfg.Service.Collection.Invariant.{
  create-Inv, update-Inv, delete-Inv, set_enabled-Inv, batch-Inv,
}

module _ {S C A : Type 0} (c : Collection S C A) (validate : A → Result A) where
  -- `if err := validate(&in); err != nil { return err }` and the rest.
  unfoldable pub create_checked :
      (A → List A → Result (Unit {0})) → (ℕ → Str) → A → Exec (World S) A
  create_checked check token x = do
    checked ← lift (validate x)
    create c token (check checked) checked

  unfoldable pub update_checked : (A → List A → Result (Unit {0})) → Str → A → Exec (World S) A
  update_checked check id x = do checked ← lift (validate x); update c (check checked) id checked

-- What the methods keep of all that is stored, whatever their tests against the stored items.
pub record Lifecycle {S C A V : Type 0} (c : Collection S C A) (validate : A → Result A)
    (view : S → V) (Inv : V → Type 0) : Type 0 where
  pub created :
      (check : A → List A → Result (Unit {0})) (token : ℕ → Str) (x : A) (w : World S)
      → Inv (view w.be)
      → Inv (view (create_checked c validate check token x w).1.be)
  pub updated :
      (check : A → List A → Result (Unit {0})) (id : Str) (x : A) (w : World S)
      → Inv (view w.be)
      → Inv (view (update_checked c validate check id x w).1.be)
  pub deleted : (id : Str) (w : World S) → Inv (view w.be) → Inv (view (delete c id w).1.be)
  pub switched :
      (id : Str) (on : Bool) (w : World S)
      → Inv (view w.be)
      → Inv (view (set_enabled c id on w).1.be)
  pub batched :
      (action : Str) (ids : List Str) (w : World S)
      → Inv (view w.be)
      → Inv (view (batch c action ids w).1.be)

module _ {S C A V : Type 0} (c : Collection S C A) (validate : A → Result A) (view : S → V)
    (items : V → List A × C) (change : List A → C → V → V) (kept : Kept c view items change)
    (P : A → Type 0) (Inv : V → Type 0) (see : (v : V) → Inv v → All P (items v).0)
    (grow : (l : List A) (k : C) (v : V) → Inv v → All P l → Inv (change l k v))
    (valid : (x t : A) (id : Str) → validate x ≡ ok t → P (c.identify id t))
    (stable : (on : Bool) (x : A) → P x → P (c.switch on x)) where
  pub lifecycle : Lifecycle c validate view Inv
  unfolding create_checked update_checked
  lifecycle = record {
    created = λ check token x w h.
        lift-Holds view Inv (validate x) (λ t. create c token (check t) t) w h
          λ t good.
            create-Inv c view items change kept P Inv see grow token (check t) t w h
              (λ id. valid x t id good);
    updated = λ check id x w h.
        lift-Holds view Inv (validate x) (λ t. update c (check t) id t) w h
          λ t good.
            update-Inv c view items change kept P Inv see grow (check t) id t w h
              (valid x t id good);
    deleted = λ id w h. delete-Inv c view items change kept P Inv see grow stable id w h;
    switched =
        λ id on w h. set_enabled-Inv c view items change kept P Inv see grow stable id on w h;
    batched =
        λ action ids w h. batch-Inv c view items change kept P Inv see grow stable action ids w h;
  }
