-- ===== src/Netcfg/Service/Frame.antt =====
-- Invariants of what a backend shows, over the reads and writes of a method of the service.
use mathlib.Core.Path.{subst}
use kwrt_net_manager.Prelude.{◌≡◌, sym, inl, inr}
use kwrt_net_manager.Netcfg.Result.{Result, ok, Result-cases}
use kwrt_net_manager.Netcfg.Exec.{Exec, lift, ◌>>=◌, bind-ok, bind-err}
use kwrt_net_manager.Netcfg.Backend.{Reads, Writes}
use kwrt_net_manager.Netcfg.Service.{World, call}

module _ {S V : Type 0} (view : S → V) (Inv : V → Type 0) where
  -- The end of a method shows a state with the invariant.
  abbrev pub Holds : {B : Type 0} → Result B × World S → Type 0
  Holds end = Inv (view end.1.be)

  module _ {A B : Type 0} (m : Exec S A) (f : V → A) (k : A → Exec (World S) B) (w : World S) where
    pub read-Holds :
        Reads view m f
        → Inv (view w.be)
        → ((w' : World S) → view w'.be ≡ view w.be → Holds (k (f (view w.be)) w'))
        → Holds ((call m >>= k) w)
    read-Holds reads h go = elim (reads.gives w.be) [
      | inl (e, failed) ↦
          subst Holds (sym (bind-err (call m) k w e failed)) (subst Inv (sym (reads.keeps w.be)) h)
      | inr read ↦
          subst Holds (sym (bind-ok (call m) k w (f (view w.be)) read))
            (go (record w { be = (m w.be).1 }) (reads.keeps w.be))
    ]

  module _ {B : Type 0} (m : Exec S (Unit {0})) (change : V → V) (k : Unit {0} → Exec (World S) B)
      (w : World S) where
    pub write-Holds :
        Writes view m change
        → Inv (view w.be)
        → Inv (change (view w.be))
        → ((w' : World S) → Inv (view w'.be) → Holds (k tt w'))
        → Holds ((call m >>= k) w)
    write-Holds writes old new go = elim (writes.outcome w.be) [
      | inl (done, state) ↦
          subst Holds (sym (bind-ok (call m) k w tt done))
            (go (record w { be = (m w.be).1 }) (subst Inv (sym state) new))
      | inr (e, failed, state) ↦ subst Holds (sym (bind-err (call m) k w e failed)) (elim state [
        | inl same ↦ subst Inv (sym same) old
        | inr changed ↦ subst Inv (sym changed) new
      ])
    ]

  module _ {A B : Type 0} (r : Result A) (k : A → Exec (World S) B) (w : World S) where
    -- Behind a test that refuses nothing has changed.
    pub lift-Holds :
        Inv (view w.be) → ((a : A) → r ≡ ok a → Holds (k a w)) → Holds ((lift r >>= k) w)
    lift-Holds h go = elim (Result-cases r) [
      | inl (e, bad) ↦ subst Holds (sym (bind-err (lift r) k w e bad)) h
      | inr (a, good) ↦ subst Holds (sym (bind-ok (lift r) k w a good)) (go a good)
    ]
