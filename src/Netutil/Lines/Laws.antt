-- ===== src/Netutil/Lines/Laws.antt =====
-- What an accepted line guarantees.
use kwrt_net_manager.Prelude.{
  ℕ, ◌≤◌, ◌≡◌, ◌≢◌, inl, inr, true, Option, none, some, List, [], ◌∷◌, arith, Str, is_empty_iff,
  Option-cases,
}
use kwrt_net_manager.Go.Strings.{trim_space, cut_byte, fields}
use kwrt_net_manager.Go.Strconv.{parse_int}
use kwrt_net_manager.Netutil.{ipv4_to_uint32, is_ipv4, is_ip}
use kwrt_net_manager.Netutil.MacAddr.{normalize_mac}
use kwrt_net_manager.Netutil.MacAddr.Laws.{normalize_mac_idem}
use kwrt_net_manager.Netutil.Lines.{
  exclude_ends, exclude_cut, parse_exclude_line, ParsedLease, lease_of, parse_lease_line,
}

-- Both texts are IPv4 addresses, the first not above the second.
pub record IsRange (a b : Str) : Type 0 where
  pub low : ℕ
  pub high : ℕ
  pub low_read : ipv4_to_uint32 a ≡ some low
  pub high_read : ipv4_to_uint32 b ≡ some high
  pub ordered : low ≤ high

exclude_ends-IsRange : (a b x y : Str) → exclude_ends a b ≡ some (x, y) → IsRange x y
unfolding exclude_ends
exclude_ends-IsRange a b x y e = elim (Option-cases (ipv4_to_uint32 a)) [
  | inl stop ↦ absurd (ground arith)
  | inr (au, ra) ↦ elim (Option-cases (ipv4_to_uint32 b)) [
    | inl stop ↦ absurd (ground arith)
    | inr (bu, rb) ↦ record {
      low = au;
      high = bu;
      low_read = ground arith;
      high_read = ground arith;
      ordered = ground arith;
    }
  ]
]

exclude_cut-IsRange :
    (t : Str) (c : Option (Str × Str)) (x y : Str) → exclude_cut t c ≡ some (x, y) → IsRange x y
unfolding exclude_cut is_ipv4
exclude_cut-IsRange t none x y e = elim (Option-cases (ipv4_to_uint32 t)) [
  | inl stop ↦ absurd (ground arith)
  | inr (u, read) ↦ record {
    low = u;
    high = u;
    low_read = ground arith;
    high_read = ground arith;
    ordered = omega arith;
  }
]
exclude_cut-IsRange t (some (before, behind)) x y e =
    exclude_ends-IsRange (trim_space before) (trim_space behind) x y e

-- An accepted exclude line gives two readable addresses in order.
pub parse_exclude_line-IsRange :
    (line x y : Str) → parse_exclude_line line ≡ some (x, y) → IsRange x y
unfolding parse_exclude_line
parse_exclude_line-IsRange line x y e =
    exclude_cut-IsRange (trim_space line) (cut_byte b'-' (trim_space line)) x y (ground arith)

-- What an accepted lease line holds: a canonical MAC address and an address.
pub record IsLease (l : ParsedLease) : Type 0 where
  pub mac_given : l.mac ≢ []
  pub mac_canonical : normalize_mac l.mac ≡ l.mac
  pub ip_valid : is_ip l.ip ≡ true

lease_of-IsLease : (fs : List Str) (l : ParsedLease) → lease_of fs ≡ some l → IsLease l
unfolding lease_of
lease_of-IsLease (expiry ∷ mac ∷ ip ∷ more) l e = elim (Option-cases (parse_int expiry)) [
  | inl stop ↦ absurd (ground arith)
  | inr (n, read) ↦ record {
    mac_given = ground (arith, is_empty_iff (normalize_mac mac));
    mac_canonical = ground (arith, normalize_mac_idem mac);
    ip_valid = ground arith;
  }
]
lease_of-IsLease _ l e = cc

-- An accepted lease line gives a canonical MAC address and an address of one of the two families.
pub parse_lease_line-IsLease :
    (line : Str) (l : ParsedLease) → parse_lease_line line ≡ some l → IsLease l
unfolding parse_lease_line
parse_lease_line-IsLease line l e = lease_of-IsLease (fields (trim_space line)) l e
