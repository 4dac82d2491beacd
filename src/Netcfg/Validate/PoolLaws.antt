-- ===== src/Netcfg/Validate/PoolLaws.antt =====
-- What `validateDHCPServer` guarantees of a pool, said with numbers and addresses.
use mathlib.Core.Path.{subst}
use kwrt_net_manager.Prelude.{
  ℕ, ◌≤◌, ◌≡◌, ◌≢◌, refl, ◌⊎◌, inl, inr, true, false, some, Option-cases, List, [], ◌∷◌, arith, Str,
  is_empty, is_empty_iff, Bool-cases, ℤ, pos, negsuc, is_neg, ltℤ, All,
}
use kwrt_net_manager.Go.Strings.{trim_space}
use kwrt_net_manager.Go.Strings.Trim.{trim_space_idem}
use kwrt_net_manager.Netutil.{ipv4_to_uint32, is_ipv4, is_valid_netmask, range_count}
use kwrt_net_manager.Netutil.Lines.{parse_exclude_line}
use kwrt_net_manager.Netutil.Lines.Laws.{IsRange, parse_exclude_line-IsRange}
use kwrt_net_manager.Netcfg.Result.{ok}
use kwrt_net_manager.Netcfg.Types.{DhcpServer, CustomOption}
use kwrt_net_manager.Netcfg.Validate.{
  check_excludes, check_options, validate_dhcp_server, given_not_ipv4, positive_count,
}

-- A field that is left out or is an IPv4 address.
abbrev pub IsOptionalIp : Str → Type 0
IsOptionalIp s = (s ≡ []) ⊎ (is_ipv4 s ≡ true)

-- The code of a DHCP option.
pub record IsOptionCode (o : CustomOption) : Type 0 where
  pub number : ℕ
  pub is_number : o.code ≡ pos number
  pub from_one : 1 ≤ number
  pub to_254 : number ≤ 254

-- A line of exclusions is blank or is read as a range of addresses.
abbrev pub IsExclusion : Str → Type 0
IsExclusion line =
    (trim_space line ≡ [])
    ⊎ ((x : Str) × (y : Str) × (parse_exclude_line line ≡ some (x, y)) × IsRange x y)

-- A pool as it is stored.
pub record IsPool (s : DhcpServer) : Type 0 where
  pub interface_given : s.interface ≢ []
  pub interface_trimmed : trim_space s.interface ≡ s.interface
  pub ends : IsRange s.ip_start s.ip_end
  pub netmask_valid : (s.netmask ≡ []) ⊎ (is_valid_netmask s.netmask ≡ true)
  pub gateway_valid : IsOptionalIp s.gateway
  pub dns_primary_valid : IsOptionalIp s.dns_primary
  pub dns_secondary_valid : IsOptionalIp s.dns_secondary
  pub lease_valid : (minutes : ℕ) × (s.lease_minutes ≡ pos minutes)
  pub exclusions : All IsExclusion s.exclude
  pub option_codes : All IsOptionCode s.custom_options

not_negative : (i : ℤ) → is_neg i ≡ false → (n : ℕ) × (i ≡ pos n)
not_negative (pos n) h = (n, refl)
not_negative (negsuc n) h = absurd (ground arith)

optional_ip : (s : Str) → given_not_ipv4 s ≡ false → IsOptionalIp s
optional_ip s h = ground (arith, is_empty_iff s)

option_code :
    (o : CustomOption) (i : ℤ)
    → o.code ≡ i
    → ltℤ i (pos 1) ≡ false
    → ltℤ (pos 254) i ≡ false
    → IsOptionCode o
option_code o (pos n) e low high = record {
  number = n;
  is_number = e;
  from_one = ground arith;
  to_254 = ground arith;
}
option_code o (negsuc n) e low high = absurd (ground arith)

check_options-codes : (os : List CustomOption) → check_options os ≡ ok tt → All IsOptionCode os
unfolding check_options
check_options-codes [] h = tt
check_options-codes (o ∷ os) h =
    (option_code o o.code refl (ground arith) (ground arith), check_options-codes os (ground arith))

check_excludes-exclusions :
    (lines : List Str) → check_excludes lines ≡ ok tt → All IsExclusion lines
unfolding check_excludes
check_excludes-exclusions [] h = tt
check_excludes-exclusions (line ∷ lines) h = elim (Bool-cases (is_empty (trim_space line))) [
  | inl blank ↦ (
    inl (ground (arith, is_empty_iff (trim_space line))),
    check_excludes-exclusions lines (ground arith),
  )
  | inr given ↦ elim (Option-cases (parse_exclude_line line)) [
    | inl bad ↦ absurd (ground arith)
    | inr ((x, y), read) ↦ (
      inr (x, y, read, parse_exclude_line-IsRange line x y read),
      check_excludes-exclusions lines (ground arith),
    )
  ]
]

range_count-IsRange :
    (start end : Str) → positive_count (range_count start end) ≡ true → IsRange start end
unfolding range_count
range_count-IsRange start end h = elim (Option-cases (ipv4_to_uint32 start)) [
  | inl stop ↦ absurd (ground arith)
  | inr (a, ra) ↦ elim (Option-cases (ipv4_to_uint32 end)) [
    | inl stop ↦ absurd (ground arith)
    | inr (b, rb) ↦ record {
      low = a;
      high = b;
      low_read = ra;
      high_read = rb;
      ordered = ground arith;
    }
  ]
]

-- A pool that passes validation has a line without surrounding blanks, two readable ends in
-- order, a netmask and optional addresses that are left out or valid, a lease time that is not
-- negative, exclude lines that are blank or ranges of addresses in order, and option codes from 1
-- to 254.
pub validate_dhcp_server-IsPool : (s t : DhcpServer) → validate_dhcp_server s ≡ ok t → IsPool t
unfolding validate_dhcp_server
validate_dhcp_server-IsPool s t e =
    let ends : IsRange s.ip_start s.ip_end =
      range_count-IsRange s.ip_start s.ip_end (ground arith) in
    let minutes = not_negative s.lease_minutes (ground arith) in
    let gateway : IsOptionalIp s.gateway = optional_ip s.gateway (ground arith) in
    let first : IsOptionalIp s.dns_primary = optional_ip s.dns_primary (ground arith) in
    let second : IsOptionalIp s.dns_secondary = optional_ip s.dns_secondary (ground arith) in
    let lines : All IsExclusion s.exclude = check_excludes-exclusions s.exclude (ground arith) in
    let codes_ok : All IsOptionCode s.custom_options =
      check_options-codes s.custom_options (ground arith) in
    let mask : (s.netmask ≡ []) ⊎ (is_valid_netmask s.netmask ≡ true) =
      ground (arith, is_empty_iff s.netmask) in
    let given : trim_space s.interface ≢ [] =
      ground (arith, is_empty_iff (trim_space s.interface)) in
    let same : record s { interface = trim_space s.interface } ≡ t = ground arith in
    subst IsPool same (record {
      interface_given = given;
      interface_trimmed = trim_space_idem s.interface;
      ends = ends;
      netmask_valid = mask;
      gateway_valid = gateway;
      dns_primary_valid = first;
      dns_secondary_valid = second;
      lease_valid = minutes;
      exclusions = lines;
      option_codes = codes_ok;
    })
