-- ===== src/Netcfg/Store/Contract.antt =====
-- internal/netcfg/backend_store.go: the contract of a backend for the store backend, and its file behind
-- a save.
use kwrt_net_manager.Netcfg.Store.Files.{Outcomes, Disk, whole, torn, put, tmp, flush_disk}
use kwrt_net_manager.Prelude.{ℕ, ◌≡◌, ◌⊎◌, refl, inl, inr, Bool, true, false, if◌then◌else◌}
use kwrt_net_manager.Netcfg.Result.{Err, Result, ok, err, Result-cases}
use kwrt_net_manager.Netcfg.Backend.{Config, Reads, Writes, Lawful, with_mode}
use kwrt_net_manager.Netcfg.Store.{Store, flush, save, store_backend, store_dns}

-- A flush ends in one of two ways: the file has the state, or it is as it was and there is an
-- error. The copy beside it can be anything.
abbrev pub Flushed : {A : Type 0} → A → Disk A → Result (Unit {0}) × Disk A → Type 0
Flushed a d end =
    ((end.0 ≡ ok tt) × (end.1.at_path ≡ whole a))
    ⊎ (((e : Err) × (end.0 ≡ err e)) × (end.1.at_path ≡ d.at_path))

-- The memory has the new state whatever becomes of the file.
pub record Saved (change : Config → Config) (s : Store) (end : Result (Unit {0}) × Store)
    : Type 0 where
  pub memory : end.1.mem ≡ change s.mem
  pub notes : end.1.notes ≡ s.notes
  pub file : Flushed (change s.mem, s.notes) s.disk (end.0, end.1.disk)

module _ {A : Type 0} where
  pub flush_disk-Flushed : (o : Outcomes) (a : A) (d : Disk A) → Flushed a d (flush_disk o a d)
  unfolding flush_disk
  flush_disk-Flushed o a d = elim (Result-cases o.made) [
    | inl (e, failed) ↦ rw failed (inr ((e, refl), refl))
    | inr (_, made) ↦ elim (Result-cases o.encoded) [
      | inl (e, failed) ↦ rw made (rw failed (inr ((e, refl), refl)))
      | inr (_, encoded) ↦ elim (Result-cases o.written) [
        | inl (e, failed) ↦ rw made (rw encoded (rw failed (inr ((e, refl), copy_only o.begun))))
        | inr (_, written) ↦ elim (Result-cases o.renamed) [
          | inl (e, failed) ↦ rw made (rw encoded (rw written (rw failed (inr ((e, refl), refl)))))
          | inr (_, renamed) ↦ rw made (rw encoded (rw written (rw renamed (inl (refl, refl)))))
        ]
      ]
    ]
  ]
    where
      copy_only : (begun : Bool) → (if begun then put tmp torn d else d).at_path ≡ d.at_path
      copy_only true = refl
      copy_only false = refl

abbrev pub memory_of : Store → Config
memory_of s = s.mem

module _ (io : ℕ → Outcomes) where
  -- A save of the store backend puts the new configuration into memory; then either it succeeds
  -- and the file holds the new configuration and the notes, or it is an error and the file is
  -- as it was.
  pub save-Saved : (change : Config → Config) (s : Store) → Saved change s (save io change s)
  unfolding save flush
  save-Saved change s = record {
    memory = refl;
    notes = refl;
    file = flush_disk-Flushed (io s.writes) (change s.mem, s.notes) s.disk;
  }

  pub save-Writes : (change : Config → Config) → Writes memory_of (save io change) change
  save-Writes change = record { outcome = λ s. ended s (save-Saved change s) }
    where
      ended :
          (s : Store)
          → Saved change s (save io change s)
          → (((save io change s).0 ≡ ok tt) × ((save io change s).1.mem ≡ change s.mem))
            ⊎ ((e : Err) × ((save io change s).0 ≡ err e)
                × (((save io change s).1.mem ≡ s.mem) ⊎ ((save io change s).1.mem ≡ change s.mem)))
      ended s h = elim (h.file) [
        | inl (done, _) ↦ inl (done, h.memory)
        | inr ((e, failed), _) ↦ inr (e, failed, inr h.memory)
      ]

  Reads-field : {A : Type 0} (f : Config → A) → Reads memory_of (λ s. (ok (f s.mem), s)) f
  Reads-field f = record { keeps = λ s. refl; gives = λ s. inr refl }

  nothing-Writes : Writes memory_of (λ s. (ok tt, s)) (λ v. v)
  nothing-Writes = record { outcome = λ s. inl (refl, refl) }

  -- Whatever becomes of its flushes, the store backend keeps the contract that the services
  -- rely on: its reads give the configuration in memory and change nothing, and its saves
  -- replace the one collection that they are about.
  pub store_backend-Lawful : Lawful (store_backend io) memory_of
  unfolding store_dns
  store_backend-Lawful = record {
    reads_servers = Reads-field (λ v. v.servers);
    writes_servers = λ l. save-Writes _;
    reads_statics = Reads-field (λ v. v.statics);
    reads_arp = Reads-field (λ v. v.arp_bind);
    writes_statics = λ l arp. save-Writes _;
    reads_acl = Reads-field (λ v. v.acl);
    writes_acl = λ a. save-Writes _;
    reads_routes = Reads-field (λ v. v.routes);
    writes_routes = λ l. save-Writes _;
    reads_rules = Reads-field (λ v. v.policy_rules);
    writes_rules = λ l. save-Writes _;
    writes_push_mode = λ m. save-Writes _;
    reads_wans = Reads-field (λ v. v.wan_v6s);
    writes_wans = λ l. save-Writes _;
    reads_lans = Reads-field (λ v. v.lan_v6s);
    writes_lans = λ l. save-Writes _;
    reads_prefixes = Reads-field (λ v. v.prefix_statics_v6);
    writes_prefixes = λ l. save-Writes _;
    reads_acl_v6 = Reads-field (λ v. with_mode v.acl_v6);
    writes_acl_v6 = λ a. save-Writes _;
    reads_dns = Reads-field (λ v. v.dns);
    writes_dns = λ d. save-Writes _;
    reads_doh = Reads-field (λ v. v.dns_doh);
    writes_doh = λ d. save-Writes _;
    reads_records = Reads-field (λ v. v.dns_records);
    writes_records = λ l. save-Writes _;
    reads_domain_routes = Reads-field (λ v. v.dns_domain_routes);
    writes_domain_routes = λ l. save-Writes _;
    flushes = nothing-Writes;
    deletes_neighbor = λ a d. nothing-Writes;
    flushes_neighbors = λ d. nothing-Writes;
  }
