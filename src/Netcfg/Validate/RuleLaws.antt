-- ===== src/Netcfg/Validate/RuleLaws.antt =====
-- internal/netcfg/policyrule.go: what a policy-routing rule that passes its check is like.
use kwrt_net_manager.Prelude.{
  ◌≡◌, ◌⊎◌, true, false, ◌||◌, [], arith, is_empty_iff, pos, is_neg, ltℤ,
}
use kwrt_net_manager.Go.Strings.{trim_space}
use kwrt_net_manager.Go.Strings.Trim.{trim_space_idem}
use kwrt_net_manager.Go.Strconv.{parse_int}
use kwrt_net_manager.Netcfg.Result.{ok}
use kwrt_net_manager.Netcfg.Types.{PolicyRule, family_ipv4, family_ipv6}
use kwrt_net_manager.Netcfg.Validate.{
  validate_policy_rule, check_family, looks_like_ip_or_cidr, table_number,
}

pub record IsRule (r : PolicyRule) : Type 0 where
  pub family_known : (r.family ≡ family_ipv4) ⊎ (r.family ≡ family_ipv6)
  pub lookup_trimmed : trim_space r.lookup ≡ r.lookup
  pub lookup_valid : table_number (parse_int r.lookup) ≡ true
  pub priority_valid : is_neg r.priority || ltℤ (pos 65535) r.priority ≡ false
  pub src_valid : (r.src ≡ []) ⊎ (looks_like_ip_or_cidr r.src ≡ true)
  pub dest_valid : (r.dest ≡ []) ⊎ (looks_like_ip_or_cidr r.dest ≡ true)

pub validate_policy_rule-IsRule : (r t : PolicyRule) → validate_policy_rule r ≡ ok t → IsRule t
unfolding validate_policy_rule check_family
validate_policy_rule-IsRule r t h = ground (
  arith,
  trim_space_idem r.lookup,
  is_empty_iff (trim_space r.src),
  is_empty_iff (trim_space r.dest),
)
