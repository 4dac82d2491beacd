-- ===== src/Netcfg/Service/Dns/Settings.antt =====
-- internal/netcfg/dns_service.go and dns_store.go: the bookkeeping that the settings carry for the
-- system's configuration.
use kwrt_net_manager.Netcfg.Store.Files.{Outcomes}
use kwrt_net_manager.Prelude.{ℕ, ◌≡◌, refl, Str}
use kwrt_net_manager.Netcfg.Backend.{Config}
use kwrt_net_manager.Netcfg.Store.{Store, store_backend}
use kwrt_net_manager.Netcfg.Store.Contract.{store_backend-Lawful, memory_of}
use kwrt_net_manager.Netcfg.Service.{World}
use kwrt_net_manager.Netcfg.Service.Dns.Valid.{
  IsDns, Admits, IsDns-Admits, Reached, start, step, Step-Inv,
}

-- The lists of the bookkeeping that no client may change.
pub record SameBooks (u v : Config) : Type 0 where
  pub stock : v.dns.saved_stock ≡ u.dns.saved_stock
  pub servers : v.dns.prev_servers ≡ u.dns.prev_servers
  pub addrs : v.dns.prev_addrs ≡ u.dns.prev_addrs

abbrev pub IsKept : Config → Config → Type 0
IsKept u v = IsDns v × SameBooks u v

IsKept-Admits : (u : Config) → Admits (IsKept u)
IsKept-Admits u = record {
  sees = λ v h. h.0;
  takes_settings = λ s v h k. (
    IsDns-Admits.takes_settings s v h.0 k,
    record { stock = h.1.stock; servers = h.1.servers; addrs = h.1.addrs },
  );
  takes_doh = λ d v h k. (
    IsDns-Admits.takes_doh d v h.0 k,
    record { stock = h.1.stock; servers = h.1.servers; addrs = h.1.addrs },
  );
  takes_records = λ l v h k. (
    IsDns-Admits.takes_records l v h.0 k,
    record { stock = h.1.stock; servers = h.1.servers; addrs = h.1.addrs },
  );
  takes_domain_routes = λ l v h k. (
    IsDns-Admits.takes_domain_routes l v h.0 k,
    record { stock = h.1.stock; servers = h.1.servers; addrs = h.1.addrs },
  );
}

-- On the store backend, whatever becomes of its flushes, after any sequence of calls of the
-- methods that write the DNS configuration, with any arguments, also settings that carry a
-- bookkeeping of their own, and whichever of them fail, the saved stock and the previous servers
-- and addresses are those of the start, and the DNS configuration is valid, if it was so then.
pub Reached-SameBooks :
    (io : ℕ → Outcomes) (token : ℕ → Str) (w v : World Store)
    → Reached (store_backend io) token w v
    → IsDns w.be.mem
    → IsKept w.be.mem v.be.mem
Reached-SameBooks io token w _ start h = (h, record { stock = refl; servers = refl; addrs = refl })
Reached-SameBooks io token w _ (step v u r s) h =
    Step-Inv (store_backend io) memory_of (store_backend-Lawful io) token (IsKept w.be.mem)
      (IsKept-Admits w.be.mem) v u s (Reached-SameBooks io token w v r h)
