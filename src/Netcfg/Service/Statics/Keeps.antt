-- ===== src/Netcfg/Service/Statics/Keeps.antt =====
-- internal/netcfg/service.go, reservations: the methods over a backend that keeps its contract.
use mathlib.Core.Path.{subst}
use kwrt_net_manager.Prelude.{
  ℕ, ◌≡◌, ◌≢◌, sym, ◌∙◌, inl, inr, Bool, true, some, List, [], ◌∷◌, arith, Str, codes, str_eq,
  str_eq_iff, Bool-cases, Option-cases, All, length,
}
use kwrt_net_manager.Netcfg.Result.{Result, ok, Result-cases}
use kwrt_net_manager.Netcfg.Exec.{Exec, lift, ◌>>=◌, bind-ok, bind-err}
use kwrt_net_manager.Netcfg.Types.{StaticLease}
use kwrt_net_manager.Netcfg.Validate.{validate_static}
use kwrt_net_manager.Netcfg.Validate.Laws.{IsStatic, validate_static-IsStatic}
use kwrt_net_manager.Netcfg.Backend.{Backend, Config, Lawful}
use kwrt_net_manager.Netcfg.Service.{World, call, publish, static_changed, crypto_id, index_by_id}
use kwrt_net_manager.Netcfg.Service.Collection.{update, mutate, delete, set_enabled, batch}
use kwrt_net_manager.Netcfg.Service.Collection.Outcome.{
  Outcome, Stopped, mutate-Outcome, create-Outcome, update-Outcome, mutate-Stopped, create-Stopped,
  update-Stopped, update-missing-Stopped,
}
use kwrt_net_manager.Netcfg.Service.Collection.Preserve.{
  Sound, delete-Sound, switch-Sound, batch-Sound,
}
use kwrt_net_manager.Netcfg.Service.Statics.{
  static_collection, ensure_static_unique, create_static, update_static, delete_static,
  set_static_enabled, batch_statics, set_arp_bind,
}
use kwrt_net_manager.Netcfg.Service.Stored.{with_statics, statics_of, Kept-statics}
use kwrt_net_manager.Netcfg.Service.Statics.Unique.{IsTable, Apart, append-IsTable, set-IsTable}

-- What `id` and `switch` leave alone.
abbrev Stored : StaticLease → Type 0
Stored x = IsStatic x × (x.id ≢ [])

Stored-switch :
    (on : Bool) (x : StaticLease) → Stored x → Stored (record x { enabled = on; managed = true })
Stored-switch on x h = (
  record {
    mac_given = h.0.mac_given;
    mac_canonical = h.0.mac_canonical;
    ip_valid = h.0.ip_valid;
    gateway_valid = h.0.gateway_valid;
    dns_primary_valid = h.0.dns_primary_valid;
    dns_secondary_valid = h.0.dns_secondary_valid;
    interface_trimmed = h.0.interface_trimmed;
  },
  h.1,
)

Apart-switch_left :
    (on : Bool) (x y : StaticLease)
    → Apart x y
    → Apart (record x { enabled = on; managed = true }) y
Apart-switch_left on x y h = record { ids = h.ids; macs = h.macs; ips = h.ips }

Apart-switch_right :
    (on : Bool) (x y : StaticLease)
    → Apart x y
    → Apart x (record y { enabled = on; managed = true })
Apart-switch_right on x y h = record { ids = h.ids; macs = h.macs; ips = h.ips }

-- An id that is found is not empty.
found-named :
    (l : List StaticLease) (id : Str) (i : ℕ)
    → All Stored l
    → index_by_id (λ x. x.id) l id ≡ some i
    → id ≢ []
unfolding index_by_id
found-named [] id i h e = absurd (cc)
found-named (x ∷ xs) id i h e = elim (Bool-cases (str_eq x.id id)) [
  | inl same ↦ λ empty. h.0.1 ((str_eq_iff x.id id).0 same ∙ empty)
  | inr other ↦ elim (Option-cases (index_by_id (λ x. x.id) xs id)) [
    | inl missing ↦ absurd (ground arith)
    | inr (j, found) ↦ found-named xs id j h.1 found
  ]
]

module _ {S : Type 0} (be : Backend S) (view : S → Config) (lawful : Lawful be view) where
  abbrev pub table : World S → List StaticLease
  table w = (view w.be).statics

  module _ {B : Type 0} (w : World S) (end : Result B × World S) (h : IsTable (table w)) where
    Outcome-IsTable :
        (action : Str) (l : List StaticLease) (arp : Bool) (b : B)
        → IsTable l
        → Outcome (static_collection be) view with_statics w action l arp b end
        → IsTable (table end.1)
    Outcome-IsTable action l arp b new (inl done) =
        subst (λ v. IsTable v.statics) (sym done.stored) new
    Outcome-IsTable action l arp b new (inr refused) = elim (refused.state) [
      | inl old ↦ subst (λ v. IsTable v.statics) (sym old) h
      | inr saved ↦ subst (λ v. IsTable v.statics) (sym saved) new
    ]

    Stopped-IsTable :
        Stopped
          (static_collection be)
          view
          statics_of
          with_statics
          (Kept-statics be view lawful)
          w
          end
        → IsTable (table end.1)
    Stopped-IsTable stop = subst (λ v. IsTable v.statics) (sym stop.unchanged) h

  pub create_static-IsTable :
      (token : ℕ → Str) (s : StaticLease) (w : World S)
      → IsTable (table w)
      → All (λ x. x.id ≢ crypto_id token w.drawn (codes "host")) (table w)
      → IsTable (table (create_static be token s w).1)
  unfolding create_static
  create_static-IsTable token s w h fresh = elim (Result-cases (validate_static s)) [
    | inl (e, bad) ↦
        subst (λ end. IsTable (table end.1)) (sym (bind-err (lift (validate_static s)) _ w e bad)) h
    | inr (checked, good) ↦
        subst (λ end. IsTable (table end.1))
          (sym (bind-ok (lift (validate_static s)) _ w checked good))
          (elim (Result-cases (ensure_static_unique (table w) checked [])) [
            | inl (e, taken) ↦ Stopped-IsTable w _ h (
                create-Stopped (static_collection be) view statics_of with_statics
                  (Kept-statics be view lawful) token (λ l. ensure_static_unique l checked [])
                  checked e w taken)
            | inr (_, free) ↦
                Outcome-IsTable w _ h _ _ _ _
                  (append-IsTable (table w) checked (crypto_id token w.drawn (codes "host")) h
                    (validate_static-IsStatic s checked good) free (λ e. absurd (cc)) fresh)
                  (create-Outcome (static_collection be) view statics_of with_statics
                    (Kept-statics be view lawful) token (λ l. ensure_static_unique l checked [])
                    checked w free)
          ])
  ]

  pub update_static-IsTable :
      (id : Str) (s : StaticLease) (w : World S)
      → IsTable (table w)
      → IsTable (table (update_static be id s w).1)
  unfolding update_static
  update_static-IsTable id s w h = elim (Result-cases (validate_static s)) [
    | inl (e, bad) ↦
        subst (λ end. IsTable (table end.1)) (sym (bind-err (lift (validate_static s)) _ w e bad)) h
    | inr (checked, good) ↦
        subst (λ end. IsTable (table end.1))
          (sym (bind-ok (lift (validate_static s)) _ w checked good))
          (at_found checked (validate_static-IsStatic s checked good))
  ]
    where
      at_found :
          (checked : StaticLease)
          → IsStatic checked
          → IsTable (
              table
                (update
                  (static_collection be)
                  (λ l. ensure_static_unique l checked id)
                  id
                  checked
                  w).1)
      at_found checked good = elim (Option-cases (index_by_id (λ x. x.id) (table w) id)) [
        | inl missing ↦ Stopped-IsTable w _ h (
            update-missing-Stopped (static_collection be) view statics_of with_statics
              (Kept-statics be view lawful) (λ l. ensure_static_unique l checked id) id checked w
              missing)
        | inr (i, found) ↦ elim (Result-cases (ensure_static_unique (table w) checked id)) [
          | inl (e, taken) ↦ Stopped-IsTable w _ h (
              update-Stopped (static_collection be) view statics_of with_statics
                (Kept-statics be view lawful) (λ l. ensure_static_unique l checked id) id checked i
                e w found taken)
          | inr (_, free) ↦
              Outcome-IsTable w _ h _ _ _ _
                (set-IsTable (table w) checked id i h good free
                  (found-named (table w) id i h.each found) found)
                (update-Outcome (static_collection be) view statics_of with_statics
                  (Kept-statics be view lawful) (λ l. ensure_static_unique l checked id) id checked
                  i w found free)
        ]
      ]

  -- A change whose results are tables.
  mutate-IsTable :
      (action : Str) (fn : List StaticLease → Result (List StaticLease)) (w : World S)
      → IsTable (table w)
      → ((m : List StaticLease) → fn (table w) ≡ ok m → IsTable m)
      → IsTable (table (mutate (static_collection be) action fn w).1)
  mutate-IsTable action fn w h sound = elim (Result-cases (fn (table w))) [
    | inl (e, bad) ↦ Stopped-IsTable w _ h (
        mutate-Stopped (static_collection be) view statics_of with_statics
          (Kept-statics be view lawful) action fn e w bad)
    | inr (m, good) ↦ Outcome-IsTable w _ h _ _ _ _ (sound m good) (
        mutate-Outcome (static_collection be) view statics_of with_statics
          (Kept-statics be view lawful) action fn m w good)
  ]

  abbrev SoundTable : List StaticLease → Type 0
  SoundTable l =
      Sound (static_collection be) Stored Apart Stored-switch Apart-switch_left Apart-switch_right l

  to_sound : (l : List StaticLease) → IsTable l → SoundTable l
  to_sound l h = (h.each, h.pairs)

  of_sound : (l : List StaticLease) → SoundTable l → IsTable l
  of_sound l h = record { each = h.0; pairs = h.1 }

  pub delete_static-IsTable :
      (id : Str) (w : World S) → IsTable (table w) → IsTable (table (delete_static be id w).1)
  unfolding delete_static delete
  delete_static-IsTable id w h = mutate-IsTable _ _ w h λ m e. of_sound m (
      delete-Sound (static_collection be) Stored Apart Stored-switch Apart-switch_left
        Apart-switch_right id (table w) m e (to_sound (table w) h))

  pub set_static_enabled-IsTable :
      (id : Str) (on : Bool) (w : World S)
      → IsTable (table w)
      → IsTable (table (set_static_enabled be id on w).1)
  unfolding set_static_enabled set_enabled
  set_static_enabled-IsTable id on w h = mutate-IsTable _ _ w h λ m e. of_sound m (
      switch-Sound (static_collection be) Stored Apart Stored-switch Apart-switch_left
        Apart-switch_right id on (table w) m e (to_sound (table w) h))

  pub batch_statics-IsTable :
      (action : Str) (ids : List Str) (w : World S)
      → IsTable (table w)
      → IsTable (table (batch_statics be action ids w).1)
  unfolding batch_statics batch
  batch_statics-IsTable action ids w h = mutate-IsTable _ _ w h λ m e. of_sound m (
      batch-Sound (static_collection be) Stored Apart Stored-switch Apart-switch_left
        Apart-switch_right action ids (table w) m e (to_sound (table w) h))

  pub set_arp_bind-IsTable :
      (on : Bool) (w : World S) → IsTable (table w) → IsTable (table (set_arp_bind be on w).1)
  unfolding set_arp_bind
  set_arp_bind-IsTable on w h = elim ((Kept-statics be view lawful).loads.gives w.be) [
    | inl (e, failed) ↦
        subst (λ end. IsTable (table end.1))
          (sym (bind-err (call (static_collection be).load) _ w e failed))
          (subst (λ v. IsTable v.statics) (sym same_view) h)
    | inr read ↦
        subst (λ end. IsTable (table end.1))
          (sym (bind-ok (call (static_collection be).load) _ w (statics_of (view w.be)) read)) saved
  ]
    where
      loaded : World S
      loaded = record w { be = ((static_collection be).load w.be).1 }

      same_view : view loaded.be ≡ view w.be
      same_view = (Kept-statics be view lawful).loads.keeps w.be

      save : Exec (World S) (Unit {0})
      save = call (be.save_statics (table w) on)

      tell : Exec (World S) (Unit {0})
      tell = publish static_changed (codes "update") (length (table w))

      saved : IsTable (table ((save >>= λ _. tell) loaded).1)
      saved = elim ((lawful.writes_statics (table w) on).outcome loaded.be) [
        | inl (done, state) ↦
            subst (λ end. IsTable (table end.1)) (sym (bind-ok save (λ _. tell) loaded tt done))
              (subst (λ v. IsTable v.statics) (sym state) h)
        | inr (e, failed, state) ↦
            subst (λ end. IsTable (table end.1)) (sym (bind-err save (λ _. tell) loaded e failed))
              (elim (state) [
                | inl old ↦ subst (λ v. IsTable v.statics) (sym (old ∙ same_view)) h
                | inr new ↦ subst (λ v. IsTable v.statics) (sym new) h
              ])
      ]
