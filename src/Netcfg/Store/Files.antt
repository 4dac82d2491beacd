-- ===== src/Netcfg/Store/Files.antt =====
-- internal/netcfg/backend_store.go, `flushLocked`, and the calls of package os that it makes. A write
-- of a file that fails can have begun, and then the file holds neither the old nor the new data. A
-- rename that succeeds puts one file in the place of the other, and one that fails changes nothing.
use kwrt_net_manager.Prelude.{Bool, if◌then◌else◌}
use kwrt_net_manager.Netcfg.Result.{Result, ok, err}
use kwrt_net_manager.Netcfg.Exec.{Exec, lift, ◌>>◌}

pub data Content (A : Type 0) : Type 0 where
  absent torn : Content A
  whole : A → Content A

-- The file of the backend, `b.path`, and the one beside it, `b.path + ".tmp"`.
pub data Name : Type 0 where
  path tmp : Name

pub record Disk (A : Type 0) : Type 0 where
  pub at_path : Content A
  pub at_tmp : Content A

-- What becomes of the calls of one flush; `begun` is whether a failing write changed the file.
pub record Outcomes : Type 0 where
  pub made : Result (Unit {0})
  pub encoded : Result (Unit {0})
  pub written : Result (Unit {0})
  pub begun : Bool
  pub renamed : Result (Unit {0})

module _ {A : Type 0} where
  abbrev pub put : Name → Content A → Disk A → Disk A
  put path c d = record d { at_path = c }
  put tmp c d = record d { at_tmp = c }

  abbrev pub get : Name → Disk A → Content A
  get path d = d.at_path
  get tmp d = d.at_tmp

  -- `os.WriteFile`
  abbrev pub write_file : Result (Unit {0}) → Bool → Name → A → Exec (Disk A) (Unit {0})
  write_file (ok _) begun n a d = (ok tt, put n (whole a) d)
  write_file (err e) begun n a d = (err e, (if begun then put n torn d else d))

  -- `os.Rename`
  abbrev pub rename : Result (Unit {0}) → Name → Name → Exec (Disk A) (Unit {0})
  rename (ok _) old new d = (ok tt, put old absent (put new (get old d) d))
  rename (err e) old new d = (err e, d)

  -- `flushLocked` on the disk: the directory, the text, the copy, and the copy in the file's place.
  unfoldable pub flush_disk : Outcomes → A → Exec (Disk A) (Unit {0})
  flush_disk o a = do
    lift o.made
    lift o.encoded
    write_file o.written o.begun tmp a
    rename o.renamed tmp path
