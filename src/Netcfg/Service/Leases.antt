-- ===== src/Netcfg/Service/Leases.antt =====
-- internal/netcfg/service.go, the terminal list and the next free address. The vendor table
-- (pkg/netutil/oui.go with its data file) and Unicode's lower case are parameters.
pub mod Free
use kwrt_net_manager.Prelude.{
  ℕ, zero, suc, ◌+◌, ◌-◌, ◌%◌, Bool, true, false, ◌&&◌, ◌||◌, not, Option, none, some, List, [],
  ◌∷◌, map, Str, codes, str_eq, is_empty, ltb, ◌==◌, if◌then◌else◌,
}
use kwrt_net_manager.Go.Strings.{trim_space}
use kwrt_net_manager.Netutil.{ipv4_to_uint32, uint32_to_ipv4, u32_mod}
use kwrt_net_manager.Netutil.MacAddr.{normalize_mac}
use kwrt_net_manager.Netcfg.Result.{Result, ok, err, bad_mac}
use kwrt_net_manager.Netcfg.Exec.{Exec, pure, raise, attempt, ◌>>=◌, ◌>>◌}
use kwrt_net_manager.Netcfg.Types.{DhcpServer, StaticLease, Lease}
use kwrt_net_manager.Netcfg.Backend.{Backend}
use kwrt_net_manager.Netcfg.Service.{World, call, publish, static_changed}
use kwrt_net_manager.Netcfg.Service.Servers.{or_none}

-- `u++` on a `uint32`.
abbrev pub next_u32 : ℕ → ℕ
next_u32 u = (u + 1) % u32_mod

-- The loop of `nextFreeIP` from `u` on; `used` is the map. `none` stands for running out of fuel,
-- `some []` for the empty text.
unfoldable pub free_loop : ℕ → (ℕ → Bool) → ℕ → ℕ → Option Str
free_loop zero used u end = none
free_loop (suc fuel) used u end =
    let rest = free_loop fuel used (next_u32 u) end in
    if ltb end u then some [] else if used u then rest else some (uint32_to_ipv4 u)

abbrev pub free_between : ℕ → (ℕ → Bool) → Option ℕ → Option ℕ → Option Str
free_between fuel used (some start) (some end) =
    if ltb end start then some [] else free_loop fuel used start end
free_between fuel used _ _ = some []

unfoldable pub next_free_ip : ℕ → DhcpServer → (ℕ → Bool) → Option Str
next_free_ip fuel pool used =
    free_between fuel used (ipv4_to_uint32 pool.ip_start) (ipv4_to_uint32 pool.ip_end)

-- `mark`: the map with one more address, if the text is one.
abbrev pub mark : (ℕ → Bool) → Option ℕ → ℕ → Bool
mark used none u = used u
mark used (some v) u = u == v || used u

unfoldable pub mark_all : (ℕ → Bool) → List Str → ℕ → Bool
mark_all used [] = used
mark_all used (ip ∷ ips) = mark_all (mark used (ipv4_to_uint32 ip)) ips

-- `pick`: the first pool of the interface, or of any if none is given.
unfoldable pub pick_pool : Bool → Str → List DhcpServer → Option DhcpServer
pick_pool enabled_only iface [] = none
pick_pool enabled_only iface (s ∷ ss) =
    let rest = pick_pool enabled_only iface ss in
    if enabled_only && not s.enabled
    then rest
    else if is_empty iface || str_eq s.interface iface
    then some s
    else rest

abbrev or_else : Option DhcpServer → Option DhcpServer → Option DhcpServer
or_else none p = p
or_else (some s) p = some s

-- The enabled pools come first, then any.
abbrev picked : Str → Result (List DhcpServer) → Option DhcpServer
picked iface (err e) = none
picked iface (ok servers) = or_else (pick_pool true iface servers) (pick_pool false iface servers)

-- What `mark` has collected for a pool.
unfoldable pub used_for : List StaticLease → List Lease → DhcpServer → ℕ → Bool
used_for statics leases pool =
    mark (mark_all (mark_all (λ _. false) (map (λ s. s.ip) statics)) (map (λ l. l.ip) leases))
      (ipv4_to_uint32 pool.gateway)

module _ {S : Type 0} (be : Backend S) where
  -- Reads that fail count as empty.
  abbrev suggest_in : ℕ → Option DhcpServer → Exec (World S) (Option Str)
  suggest_in fuel none = pure (some [])
  suggest_in fuel (some pool) = do
    statics ← attempt (call be.statics)
    leases ← attempt (call be.leases)
    pure (next_free_ip fuel pool (used_for (or_none statics) (or_none leases) pool))

  unfoldable pub suggest_next_ip : ℕ → Str → Exec (World S) (Option Str)
  suggest_next_ip fuel iface = do
    servers ← attempt (call be.dhcp_servers)
    suggest_in fuel (picked iface servers)

  unfoldable pub set_lease_note : Str → Str → Exec (World S) (Unit {0})
  set_lease_note mac note = if is_empty (normalize_mac mac) then raise bad_mac else (do
    call (be.set_lease_note (normalize_mac mac) (trim_space note))
    publish static_changed (codes "update") 0)
