-- ===== src/Netutil/Lines.antt =====
-- pkg/netutil/netutil.go: `ParseExcludeLine` and `ParseLeaseLine`.
pub mod Laws
use kwrt_net_manager.Prelude.{
  Bool, true, false, ◌||◌, not, Option, none, some, List, [], ◌∷◌, Str, codes, str_eq, is_empty, ℤ,
  ltb, if◌then◌else◌, ◌>>=◌,
}
use kwrt_net_manager.Go.Strings.{trim_space, cut_byte, fields}
use kwrt_net_manager.Go.Strconv.{parse_int}
use kwrt_net_manager.Netutil.{ipv4_to_uint32, is_ipv4, is_ip}
use kwrt_net_manager.Netutil.MacAddr.{normalize_mac}

-- The two ends of a line `a-b`.
exclude_ends : Str → Str → Option (Str × Str)
exclude_ends a b = do
  au ← ipv4_to_uint32 a
  bu ← ipv4_to_uint32 b
  if ltb bu au then none else some (a, b)

exclude_cut : Str → Option (Str × Str) → Option (Str × Str)
exclude_cut t none = if is_ipv4 t then some (t, t) else none
exclude_cut t (some (before, behind)) = exclude_ends (trim_space before) (trim_space behind)

-- One address, or a range `a-b`.
unfoldable pub parse_exclude_line : Str → Option (Str × Str)
unfolding exclude_ends exclude_cut
parse_exclude_line line =
    let t = trim_space line in if is_empty t then none else exclude_cut t (cut_byte b'-' t)

pub record ParsedLease : Type 0 where
  pub expiry : ℤ
  pub mac : Str
  pub ip : Str
  pub hostname : Str
  pub client_id : Str

-- A field that is there and is no `*`.
star_or : List Str → Str
star_or [] = []
star_or (f ∷ _) = if str_eq f (codes "*") then [] else f

rest_of : List Str → List Str
rest_of [] = []
rest_of (_ ∷ r) = r

lease_of : List Str → Option ParsedLease
lease_of (expiry ∷ mac ∷ ip ∷ more) = do
  e ← parse_int expiry
  let m = normalize_mac mac
  if is_empty m || not (is_ip ip)
      then none
      else some (record {
        expiry = e;
        mac = m;
        ip = ip;
        hostname = star_or more;
        client_id = star_or (rest_of more);
      })
lease_of _ = none

-- `<expiry> <mac> <ip> <hostname|*> <client-id|*>`, the last two fields optional.
unfoldable pub parse_lease_line : Str → Option ParsedLease
unfolding lease_of star_or rest_of
parse_lease_line line = lease_of (fields (trim_space line))
