-- ===== src/Netcfg/Service/Collection/Outcome.antt =====
-- How a method on a collection can end, over a backend that keeps its contract: what was to be
-- stored is stored and published, or there is an error and nothing was published.
use mathlib.Core.Path.{subst}
use kwrt_net_manager.Prelude.{
  ℕ, ◌+◌, ◌≡◌, ◌⊎◌, inl, inr, refl, sym, ap, ◌∙◌, some, none, List, [], ◌∷◌, ◌++◌, Str, codes,
  length, set,
}
use kwrt_net_manager.Netcfg.Result.{Err, Result, ok, err, not_found}
use kwrt_net_manager.Netcfg.Exec.{Exec, lift, ◌>>=◌, bind-ok, bind-err}
use kwrt_net_manager.Netcfg.Backend.{Reads, Writes}
use kwrt_net_manager.Netcfg.Service.{World, call, announce, crypto_id, index_by_id}
use kwrt_net_manager.Netcfg.Service.Collection.{Collection, commit, create, update, mutate}

-- The collection's part of what a backend shows: how to read it and how a save changes it.
pub record Kept {S C A V : Type 0} (c : Collection S C A) (view : S → V) (items : V → List A × C)
    (change : List A → C → V → V) : Type 0 where
  pub loads : Reads view c.load items
  pub saves : (l : List A) (k : C) → Writes view (c.save l k) (change l k)

module _ {S C A V : Type 0} (c : Collection S C A) (view : S → V) (change : List A → C → V → V)
    {B : Type 0} where
  pub record Committed (w : World S) (action : Str) (l : List A) (k : C) (b : B)
      (end : Result B × World S) : Type 0 where
    pub answered : end.0 ≡ ok b
    pub stored : view end.1.be ≡ change l k (view w.be)
    pub published :
        end.1.bus ≡ announce w.bus (record { topic = c.topic; action = action; count = length l })

  pub record Refused (w : World S) (l : List A) (k : C) (end : Result B × World S) : Type 0 where
    pub failed : (e : Err) × (end.0 ≡ err e)
    pub silent : end.1.bus ≡ w.bus
    pub state : (view end.1.be ≡ view w.be) ⊎ (view end.1.be ≡ change l k (view w.be))

  abbrev pub Outcome : World S → Str → List A → C → B → Result B × World S → Type 0
  Outcome w action l k b end = Committed w action l k b end ⊎ Refused w l k end

module _ {S C A V : Type 0} (c : Collection S C A) (view : S → V) (items : V → List A × C)
    (change : List A → C → V → V) (kept : Kept c view items change) where
  module _ {B : Type 0} where
    pub commit-Outcome :
        (action : Str) (l : List A) (k : C) (b : B) (w : World S)
        → Outcome c view change w action l k b (commit c action l k b w)
    commit-Outcome action l k b w = elim ((kept.saves l k).outcome w.be) [
      | inl (done, state) ↦
          subst (Outcome c view change w action l k b)
            (sym (bind-ok (call (c.save l k)) _ w tt done))
            (inl (record { answered = refl; stored = state; published = refl }))
      | inr (e, failed, state) ↦
          subst (Outcome c view change w action l k b)
            (sym (bind-err (call (c.save l k)) _ w e failed))
            (inr (record { failed = (e, refl); silent = refl; state = state }))
    ]

    -- A method that loads the collection and goes on with `f`: what holds of `f` at what the view
    -- shows holds of the method.
    module _ (w : World S) (action : Str) (l : List A) (k : C) (b : B)
        (f : List A × C → Exec (World S) B) where
      pub load-Outcome :
          ((w' : World S)
            → view w'.be ≡ view w.be
            → w'.bus ≡ w.bus
            → w'.drawn ≡ w.drawn
            → Outcome c view change w action l k b (f (items (view w.be)) w'))
          → Outcome c view change w action l k b ((call c.load >>= f) w)
      load-Outcome h = elim (kept.loads.gives w.be) [
        | inl (e, failed) ↦
            subst (Outcome c view change w action l k b) (sym (bind-err (call c.load) f w e failed))
              (inr
                (record { failed = (e, refl); silent = refl; state = inl (kept.loads.keeps w.be) }))
        | inr read ↦
            subst (Outcome c view change w action l k b)
              (sym (bind-ok (call c.load) f w (items (view w.be)) read))
              (h (record w { be = (c.load w.be).1 }) (kept.loads.keeps w.be) refl refl)
      ]

    -- An outcome from a world that shows the same is one from the world before.
    pub Outcome-move :
        (w w' : World S) (action : Str) (l : List A) (k : C) (b : B) (end : Result B × World S)
        → view w'.be ≡ view w.be
        → w'.bus ≡ w.bus
        → Outcome c view change w' action l k b end
        → Outcome c view change w action l k b end
    Outcome-move w w' action l k b end ev eb (inl d) = inl (record {
      answered = d.answered;
      stored = d.stored ∙ ap (change l k) ev;
      published =
          d.published
          ∙ ap (λ x. announce x (record { topic = c.topic; action = action; count = length l })) eb;
    })
    Outcome-move w w' action l k b end ev eb (inr r) = inr (record {
      failed = r.failed;
      silent = r.silent ∙ eb;
      state = elim (r.state) [
        | inl old ↦ inl (old ∙ ev)
        | inr new ↦ inr (new ∙ ap (change l k) ev)
      ];
    })

  -- The pieces of the collection that the view shows before a method runs.
  abbrev pub now : World S → List A × C
  now w = items (view w.be)

  pub mutate-Outcome :
      (action : Str) (fn : List A → Result (List A)) (next : List A) (w : World S)
      → fn (now w).0 ≡ ok next
      → Outcome c view change w action next (now w).1 tt (mutate c action fn w)
  unfolding mutate
  mutate-Outcome action fn next w e = load-Outcome w action next (now w).1 tt _ λ w' ev eb ed.
      subst (Outcome c view change w action next (now w).1 tt)
        (sym (bind-ok (lift (fn (now w).0)) _ w' next e))
        (Outcome-move w w' action next (now w).1 tt _ ev eb
          (commit-Outcome action next (now w).1 tt w'))

  pub create-Outcome :
      (token : ℕ → Str) (check : List A → Result (Unit {0})) (x : A) (w : World S)
      → check (now w).0 ≡ ok tt
      → Outcome c view change w
          (codes "create")
          ((now w).0 ++ c.identify (crypto_id token w.drawn c.prefix) x ∷ [])
          (now w).1
          (c.identify (crypto_id token w.drawn c.prefix) x)
          (create c token check x w)
  unfolding create
  create-Outcome token check x w e = load-Outcome w (codes "create") _ (now w).1 _ _ λ w' ev eb ed.
      subst (λ end. Ends w.drawn end) (sym (bind-ok (lift (check (now w).0)) _ w' tt e))
        (subst (λ n. Ends n (stored_at w' w'.drawn)) ed (at_draw w' ev eb))
    where
      new : ℕ → A
      new n = c.identify (crypto_id token n c.prefix) x

      Ends : ℕ → Result A × World S → Type 0
      Ends n end =
          Outcome c view change w (codes "create") ((now w).0 ++ new n ∷ []) (now w).1 (new n) end

      stored_at : World S → ℕ → Result A × World S
      stored_at w' n =
          commit c (codes "create") ((now w).0 ++ new n ∷ []) (now w).1 (new n)
            (record w' { drawn = w'.drawn + 1 })

      at_draw :
          (w' : World S)
          → view w'.be ≡ view w.be
          → w'.bus ≡ w.bus
          → Ends w'.drawn (stored_at w' w'.drawn)
      at_draw w' ev eb =
          Outcome-move w (record w' { drawn = w'.drawn + 1 }) (codes "create") _ (now w).1 _ _ ev eb
            (commit-Outcome (codes "create") _ (now w).1 _ (record w' { drawn = w'.drawn + 1 }))

  pub update-Outcome :
      (check : List A → Result (Unit {0})) (id : Str) (x : A) (i : ℕ) (w : World S)
      → index_by_id c.id_of (now w).0 id ≡ some i
      → check (now w).0 ≡ ok tt
      → Outcome c view change w
          (codes "update")
          (set (now w).0 i (c.identify id x))
          (now w).1
          (c.identify id x)
          (update c check id x w)
  unfolding update
  update-Outcome check id x i w found e =
      load-Outcome w (codes "update") _ (now w).1 _ _ λ w' ev eb ed. rw found (
        subst (Outcome c view change w (codes "update") _ (now w).1 _)
          (sym (bind-ok (lift (check (now w).0)) _ w' tt e))
          (Outcome-move w w' (codes "update") _ (now w).1 _ _ ev eb
            (commit-Outcome (codes "update") _ (now w).1 _ w')))

  -- A method that is stopped by its own test: an error, nothing stored and nothing published.
  pub record Stopped {B : Type 0} (w : World S) (end : Result B × World S) : Type 0 where
    pub failed : (e : Err) × (end.0 ≡ err e)
    pub silent : end.1.bus ≡ w.bus
    pub unchanged : view end.1.be ≡ view w.be

  pub load-Stopped :
      {B : Type 0} (w : World S) (f : List A × C → Exec (World S) B)
      → ((w' : World S) → view w'.be ≡ view w.be → w'.bus ≡ w.bus → Stopped w (f (now w) w'))
      → Stopped w ((call c.load >>= f) w)
  load-Stopped w f h = elim (kept.loads.gives w.be) [
    | inl (e, failed) ↦
        subst (Stopped w) (sym (bind-err (call c.load) f w e failed))
          (record { failed = (e, refl); silent = refl; unchanged = kept.loads.keeps w.be })
    | inr read ↦
        subst (Stopped w) (sym (bind-ok (call c.load) f w (now w) read))
          (h (record w { be = (c.load w.be).1 }) (kept.loads.keeps w.be) refl)
  ]

  pub mutate-Stopped :
      (action : Str) (fn : List A → Result (List A)) (e : Err) (w : World S)
      → fn (now w).0 ≡ err e
      → Stopped w (mutate c action fn w)
  unfolding mutate
  mutate-Stopped action fn e w h = load-Stopped w _ λ w' ev eb.
      subst (Stopped w) (sym (bind-err (lift (fn (now w).0)) _ w' e h))
        (record { failed = (e, refl); silent = eb; unchanged = ev })

  pub create-Stopped :
      (token : ℕ → Str) (check : List A → Result (Unit {0})) (x : A) (e : Err) (w : World S)
      → check (now w).0 ≡ err e
      → Stopped w (create c token check x w)
  unfolding create
  create-Stopped token check x e w h = load-Stopped w _ λ w' ev eb.
      subst (Stopped w) (sym (bind-err (lift (check (now w).0)) _ w' e h))
        (record { failed = (e, refl); silent = eb; unchanged = ev })

  pub update-missing-Stopped :
      (check : List A → Result (Unit {0})) (id : Str) (x : A) (w : World S)
      → index_by_id c.id_of (now w).0 id ≡ none
      → Stopped w (update c check id x w)
  unfolding update
  update-missing-Stopped check id x w missing =
      load-Stopped w _
        λ w' ev eb. rw missing (record { failed = (not_found, refl); silent = eb; unchanged = ev })

  pub update-Stopped :
      (check : List A → Result (Unit {0})) (id : Str) (x : A) (i : ℕ) (e : Err) (w : World S)
      → index_by_id c.id_of (now w).0 id ≡ some i
      → check (now w).0 ≡ err e
      → Stopped w (update c check id x w)
  unfolding update
  update-Stopped check id x i e w found h = load-Stopped w _ λ w' ev eb. rw found (
      subst (Stopped w) (sym (bind-err (lift (check (now w).0)) _ w' e h))
        (record { failed = (e, refl); silent = eb; unchanged = ev }))
