-- ===== src/Netcfg/Store/Ifaces.antt =====
-- internal/netcfg/iface_store.go: the lines of the store backend.
use kwrt_net_manager.Prelude.{false, List, [], ◌∷◌, Str, str_eq, is_empty, if◌then◌else◌}
use kwrt_net_manager.Netcfg.Types.Iface.{NetIface, runtime_status}

-- `NetIfaces`: the state of a line comes from its flag.
unfoldable pub with_states : List NetIface → List NetIface
with_states [] = []
with_states (x ∷ xs) = record x { status = runtime_status x.up false } ∷ with_states xs

-- `SaveNetIface`: the first line with the id is replaced, or the line is added.
unfoldable pub put_iface : NetIface → List NetIface → List NetIface
put_iface x [] = x ∷ []
put_iface x (y ∷ ys) = let rest = put_iface x ys in if str_eq y.id x.id then x ∷ ys else y ∷ rest

-- The loop of `DeleteNetIface`.
unfoldable pub without_iface : Str → List NetIface → List NetIface
without_iface id [] = []
without_iface id (x ∷ xs) =
    let rest = without_iface id xs in if str_eq x.id id then rest else x ∷ rest

-- The loop over the two old fields.
unfoldable pub legacy_servers : List Str → List Str
legacy_servers [] = []
legacy_servers (d ∷ ds) = let rest = legacy_servers ds in if is_empty d then rest else d ∷ rest

abbrev with_legacy : List Str → List Str → List Str
with_legacy [] legacy = legacy_servers legacy
with_legacy (d ∷ ds) legacy = d ∷ ds

-- The loop of `normalize` over the lines: the DNS servers of an old file move to the list.
unfoldable pub migrate_dns : List NetIface → List NetIface
migrate_dns [] = []
migrate_dns (x ∷ xs) =
    record x {
      dns = with_legacy x.dns (x.dns_primary_legacy ∷ x.dns_secondary_legacy ∷ []);
      dns_primary_legacy = [];
      dns_secondary_legacy = [];
    }
    ∷ migrate_dns xs
