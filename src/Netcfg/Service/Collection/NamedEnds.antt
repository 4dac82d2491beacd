-- ===== src/Netcfg/Service/Collection/NamedEnds.antt =====
-- How the creation of an item that is named after what is stored already can end.
use mathlib.Core.Path.{subst}
use kwrt_net_manager.Prelude.{◌≡◌, refl, sym, List, [], ◌∷◌, ◌++◌, Str, codes}
use kwrt_net_manager.Netcfg.Result.{Err, Result, ok, err}
use kwrt_net_manager.Netcfg.Exec.{lift, bind-ok, bind-err}
use kwrt_net_manager.Netcfg.Service.{World}
use kwrt_net_manager.Netcfg.Service.Collection.{Collection, create_named}
use kwrt_net_manager.Netcfg.Service.Collection.Outcome.{
  Kept, Outcome, Stopped, load-Outcome, load-Stopped, Outcome-move, commit-Outcome,
}

module _ {S C A V : Type 0} (c : Collection S C A) (view : S → V) (items : V → List A × C)
    (change : List A → C → V → V) (kept : Kept c view items change)
    (check : List A → Result (Unit {0})) (name : List A → Str) (x : A) (w : World S) where
  abbrev stored : List A
  stored = (items (view w.be)).0

  abbrev beside : C
  beside = (items (view w.be)).1

  abbrev named : A
  named = c.identify (name stored) x

  pub create_named-Outcome :
      check stored ≡ ok tt
      → Outcome c view change w
          (codes "create")
          (stored ++ named ∷ [])
          beside
          named
          (create_named c check name x w)
  unfolding create_named
  create_named-Outcome free =
      load-Outcome c view items change kept w (codes "create") _ beside _ _ λ w' ev eb ed.
        subst (Outcome c view change w (codes "create") (stored ++ named ∷ []) beside named)
          (sym (bind-ok (lift (check stored)) _ w' tt free))
          (Outcome-move c view items change kept w w' (codes "create") _ beside _ _ ev eb
            (commit-Outcome c view items change kept (codes "create") _ beside _ w'))

  pub create_named-Stopped :
      (e : Err)
      → check stored ≡ err e
      → Stopped c view items change kept w (create_named c check name x w)
  unfolding create_named
  create_named-Stopped e bad = load-Stopped c view items change kept w _ λ w' ev eb.
      subst (Stopped c view items change kept w) (sym (bind-err (lift (check stored)) _ w' e bad))
        (record { failed = (e, refl); silent = eb; unchanged = ev })
