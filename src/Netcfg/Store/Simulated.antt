-- ===== src/Netcfg/Store/Simulated.antt =====
-- internal/netcfg/backend_store.go: the leases and the routing table that the store backend makes up.
use kwrt_net_manager.Prelude.{
  ℕ, zero, suc, ◌+◌, ◌*◌, ◌/◌, ◌%◌, ◌^◌, Bool, true, false, ◌||◌, not, Option, none, some, List, [],
  ◌∷◌, ◌++◌, Str, codes, str_eq, is_empty, ltb, ◌==◌, if◌then◌else◌, length, get_elem?, ℤ, pos,
  negsuc,
}
use kwrt_net_manager.Go.Strings.{to_upper}
use kwrt_net_manager.Netutil.{ipv4_to_uint32, uint32_to_ipv4, range_count, ip_in_range, u32_mod}
use kwrt_net_manager.Netutil.MacAddr.{byte_hex, join_colon}
use kwrt_net_manager.Netcfg.Types.{
  DhcpServer, StaticLease, Lease, Route, RouteEntry, family_ipv4, family_ipv6,
}

-- `%d` of a number that is not negative; the number itself is more than its count of digits.
unfoldable pub print_nat : ℕ → ℕ → Str
print_nat zero n = (48 + n) ∷ []
print_nat (suc fuel) n =
    let high = print_nat fuel (n / 10) in
    if ltb n 10 then (48 + n) ∷ [] else high ++ (48 + n % 10) ∷ []

unfoldable pub print_int : ℤ → Str
print_int (pos n) = print_nat n n
print_int (negsuc n) = b'-' ∷ print_nat (suc n) (suc n)

-- `lastOctet`: what stands behind the last dot, or all of it.
unfoldable pub after_dot : Str → Option Str
after_dot [] = none
after_dot (c ∷ s) = elim (after_dot s) [
  | some t ↦ some t
  | none ↦ if c == b'.' then some s else none
]

unfoldable pub last_octet : Str → Str
last_octet ip = elim (after_dot ip) [ some t ↦ t | none ↦ ip ]

unfoldable pub or_hostname : Str → Str → Str
or_hostname h fallback = if is_empty h then fallback else h

abbrev pub fake_devices : List Str
fake_devices =
    codes "iPhone"
    ∷ codes "MacBook-Air"
    ∷ codes "Redmi-Note"
    ∷ codes "ThinkPad-X1"
    ∷ codes "iPad-Pro"
    ∷ codes "Xiaomi-TV"
    ∷ codes "PS5"
    ∷ codes "OnePlus-12"
    ∷ codes "Switch"
    ∷ codes "Echo-Dot"
    ∷ codes "DESKTOP-7K2L"
    ∷ codes "HUAWEI-Mate"
    ∷ codes "Pixel-8"
    ∷ codes "SmartCam-01"
    ∷ codes "Printer-HP"
    ∷ []

unfoldable pub taken : List Str → Str → Bool
taken [] ip = false
taken (x ∷ xs) ip = str_eq x ip || taken xs ip

-- The reservations that are enabled, as leases.
unfoldable pub static_leases : List StaticLease → List Lease
static_leases [] = []
static_leases (s ∷ ss) =
    let rest = static_leases ss in
    if not s.enabled
    then rest
    else record {
      hostname = or_hostname s.hostname (codes "static-" ++ last_octet s.ip);
      ip = s.ip;
      mac = s.mac;
      expiry = pos 0;
      remaining_seconds = pos 0;
      interface = s.interface;
      is_static = true;
      remark = s.remark;
      vendor = [];
    }
      ∷ rest

unfoldable pub static_ips : List StaticLease → List Str
static_ips [] = []
static_ips (s ∷ ss) = let rest = static_ips ss in if not s.enabled then rest else s.ip ∷ rest

-- `02:00:` and the octets of the address
unfoldable pub fake_mac : ℕ → Str
fake_mac u =
    codes "02:00:"
    ++ join_colon (
        to_upper (byte_hex (u / 2 ^ 24 % 256))
        ∷ to_upper (byte_hex (u / 2 ^ 16 % 256))
        ∷ to_upper (byte_hex (u / 2 ^ 8 % 256))
        ∷ to_upper (byte_hex (u % 256))
        ∷ [])

abbrev name_at : ℕ → Str
name_at di = elim (get_elem? fake_devices (di % length fake_devices)) [ some h ↦ h | none ↦ [] ]

abbrev dynamic_lease : DhcpServer → ℕ → ℕ → ℕ → Lease
dynamic_lease srv u k di = record {
  hostname = name_at di;
  ip = uint32_to_ipv4 u;
  mac = fake_mac u;
  expiry = pos 1893456000;
  remaining_seconds = pos (3600 + k * 420);
  interface = srv.interface;
  is_static = false;
  remark = [];
  vendor = [];
}

-- The loop over the offsets of one pool: `k` is the index and `left` what is left of `n`. The result
-- is the leases with the addresses in use and the count of names afterwards.
unfoldable pub pool_leases : DhcpServer → ℕ → ℕ → ℕ → List Str → ℕ → List Lease × List Str × ℕ
pool_leases srv start zero k used di = ([], used, di)
pool_leases srv start (suc left) k used di =
    let u = ((start + k * 7) % u32_mod + 3) % u32_mod in
    let ip = uint32_to_ipv4 u in
    let skipped = pool_leases srv start left (k + 1) used di in
    let (more, used', di') = pool_leases srv start left (k + 1) (ip ∷ used) (di + 1) in
    if not (ip_in_range ip srv.ip_start srv.ip_end)
    then ([], used, di)
    else if taken used ip
    then skipped
    else (dynamic_lease srv u k di ∷ more, used', di')

abbrev six_of : Option ℕ → ℕ
six_of none = 0
six_of (some total) = if ltb total 6 then total else 6

abbrev from_pool : DhcpServer → Option ℕ → List Str → ℕ → List Lease × List Str × ℕ
from_pool srv none used di = ([], used, di)
from_pool srv (some start) used di =
    pool_leases srv start (six_of (range_count srv.ip_start srv.ip_end)) 0 used di

unfoldable pub dynamic_leases : List DhcpServer → List Str → ℕ → List Lease
dynamic_leases [] used di = []
dynamic_leases (s ∷ ss) used di =
    let skipped = dynamic_leases ss used di in
    let (found, used', di') = from_pool s (ipv4_to_uint32 s.ip_start) used di in
    let rest = dynamic_leases ss used' di' in if not s.enabled then skipped else found ++ rest

unfoldable pub simulated_leases : List StaticLease → List DhcpServer → List Lease
simulated_leases statics servers =
    static_leases statics ++ dynamic_leases servers (static_ips statics) 0

abbrev entry : Str → Str → Str → Str → ℤ → RouteEntry
entry dev target mask gateway metric = record {
  interface = dev;
  target = target;
  netmask = mask;
  gateway = gateway;
  metric = metric;
}

unfoldable pub route_entries : Str → List Route → List RouteEntry
route_entries family [] = []
route_entries family (r ∷ rs) =
    let rest = route_entries family rs in
    let dev =
      if str_eq r.interface (codes "auto") || is_empty r.interface
      then codes "lan"
      else r.interface in
    let mask = if str_eq family family_ipv6 then b'/' ∷ print_int r.prefix else r.netmask in
    if not r.enabled || not (str_eq r.family family)
    then rest
    else entry dev r.target mask r.gateway r.metric ∷ rest

abbrev direct_entries : List RouteEntry
direct_entries =
    entry (codes "wan") (codes "0.0.0.0") (codes "0.0.0.0") (codes "192.168.0.1") (pos 0)
    ∷ entry (codes "lan") (codes "192.168.1.0") (codes "255.255.255.0") (codes "0.0.0.0") (pos 0)
    ∷ entry (codes "lan2") (codes "192.168.2.0") (codes "255.255.255.0") (codes "0.0.0.0") (pos 0)
    ∷ []

unfoldable pub simulated_table : Str → List Route → List RouteEntry
simulated_table family routes =
    (if str_eq family family_ipv4 then direct_entries else []) ++ route_entries family routes
