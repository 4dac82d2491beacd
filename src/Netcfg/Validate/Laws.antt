-- ===== src/Netcfg/Validate/Laws.antt =====
-- What a check guarantees of the record that it returns, and that it is stable: a checked record
-- passes again, unchanged.
use kwrt_net_manager.Prelude.{◌≡◌, ◌≢◌, true, false, [], arith, is_empty_iff}
use kwrt_net_manager.Go.Strings.{trim_space}
use kwrt_net_manager.Go.Strings.Trim.{trim_space_idem}
use kwrt_net_manager.Netutil.{is_ipv4}
use kwrt_net_manager.Netutil.MacAddr.{normalize_mac}
use kwrt_net_manager.Netutil.MacAddr.Laws.{normalize_mac_idem}
use kwrt_net_manager.Netcfg.Result.{ok}
use kwrt_net_manager.Netcfg.Types.{StaticLease, AclEntry}
use kwrt_net_manager.Netcfg.Validate.{validate_static, validate_acl_entry, given_not_ipv4}

-- A reservation as it is stored.
pub record IsStatic (s : StaticLease) : Type 0 where
  pub mac_given : s.mac ≢ []
  pub mac_canonical : normalize_mac s.mac ≡ s.mac
  pub ip_valid : is_ipv4 s.ip ≡ true
  pub gateway_valid : given_not_ipv4 s.gateway ≡ false
  pub dns_primary_valid : given_not_ipv4 s.dns_primary ≡ false
  pub dns_secondary_valid : given_not_ipv4 s.dns_secondary ≡ false
  pub interface_trimmed : trim_space s.interface ≡ s.interface

-- A reservation that passes validation has a MAC in canonical form, an IPv4 address, valid
-- optional addresses and a trimmed line.
pub validate_static-IsStatic : (s t : StaticLease) → validate_static s ≡ ok t → IsStatic t
unfolding validate_static
validate_static-IsStatic s t e = ground (
  arith,
  is_empty_iff (normalize_mac s.mac),
  normalize_mac_idem s.mac,
  trim_space_idem s.interface,
)

pub IsStatic-validate : (t : StaticLease) → IsStatic t → validate_static t ≡ ok t
unfolding validate_static
IsStatic-validate t h = ground (arith, is_empty_iff t.mac)

-- An entry of the access-control list as it is stored.
pub record IsEntry (e : AclEntry) : Type 0 where
  pub mac_given : e.mac ≢ []
  pub mac_canonical : normalize_mac e.mac ≡ e.mac

-- An access-control entry that passes validation has a MAC in canonical form.
pub validate_acl_entry-IsEntry : (e t : AclEntry) → validate_acl_entry e ≡ ok t → IsEntry t
unfolding validate_acl_entry
validate_acl_entry-IsEntry e t h =
    ground (arith, is_empty_iff (normalize_mac e.mac), normalize_mac_idem e.mac)

pub IsEntry-validate : (t : AclEntry) → IsEntry t → validate_acl_entry t ≡ ok t
unfolding validate_acl_entry
IsEntry-validate t h = ground (arith, is_empty_iff t.mac)
