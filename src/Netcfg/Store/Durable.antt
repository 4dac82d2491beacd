-- ===== src/Netcfg/Store/Durable.antt =====
-- internal/netcfg/backend_store.go: the file over sequences of saves.
use kwrt_net_manager.Prelude.{ℕ, ◌≡◌, inl, inr, ◌∙◌, List, Str}
use kwrt_net_manager.Netcfg.Result.{Result, ok, err}
use kwrt_net_manager.Netcfg.Backend.{Config}
use kwrt_net_manager.Netcfg.Store.{Store, flush, save, save_note, replace_state}
use kwrt_net_manager.Netcfg.Store.Files.{Outcomes, whole}
use kwrt_net_manager.Netcfg.Store.Contract.{flush_disk-Flushed}

abbrev pub Persisted : Type 0
Persisted = Config × List (Str × Str)

-- What the last flush that succeeded has written, with what was there before.
abbrev pub last_good : Result (Unit {0}) → Persisted → Persisted → Persisted
last_good (ok _) before now = now
last_good (err e) before now = before

abbrev pub persisted : Store → Persisted
persisted s = (s.mem, s.notes)

-- A sequence of saves, with what the last of them that succeeded has written.
module _ (io : ℕ → Outcomes) where
  pub data Runs (s : Store) (a : Persisted) : Persisted → Store → Type 0 where
    start : Runs s a a s
    saved :
        (b : Persisted) (t : Store) (change : Config → Config)
        → Runs s a b t
        → Runs s a
            (last_good (save io change t).0 b (persisted (save io change t).1))
            (save io change t).1
    noted :
        (b : Persisted) (t : Store) (mac note : Str)
        → Runs s a b t
        → Runs s a
            (last_good (save_note io mac note t).0 b (persisted (save_note io mac note t).1))
            (save_note io mac note t).1
    replaced :
        (b : Persisted) (t : Store) (state : Config)
        → Runs s a b t
        → Runs s a
            (last_good (replace_state io state t).0 b (persisted (replace_state io state t).1))
            (replace_state io state t).1

  flush-whole :
      (t : Store) (b : Persisted)
      → t.disk.at_path ≡ whole b
      → (flush io t).1.disk.at_path ≡ whole (last_good (flush io t).0 b (persisted (flush io t).1))
  unfolding flush
  flush-whole t b h = elim (flush_disk-Flushed (io t.writes) (t.mem, t.notes) t.disk) [
    | inl (done, new) ↦ rw done new
    | inr ((e, failed), old) ↦ rw failed (old ∙ h)
  ]

  -- Whatever becomes of the calls that make up each flush, also writes that fail half way,
  -- after any sequence of saves, changes of notes and replacements of the state the file is
  -- whole: it holds what was in memory behind the last of them that succeeded, or what it held
  -- at the start when none did, if it was whole then.
  pub Runs-whole :
      (s : Store) (a b : Persisted) (t : Store)
      → Runs s a b t
      → s.disk.at_path ≡ whole a
      → t.disk.at_path ≡ whole b
  unfolding save save_note replace_state
  Runs-whole s a _ _ start h = h
  Runs-whole s a _ _ (saved b t change r) h =
      flush-whole (record t { mem = change t.mem }) b (Runs-whole s a b t r h)
  Runs-whole s a _ _ (noted b t mac note r) h = flush-whole _ b (Runs-whole s a b t r h)
  Runs-whole s a _ _ (replaced b t state r) h = flush-whole _ b (Runs-whole s a b t r h)
