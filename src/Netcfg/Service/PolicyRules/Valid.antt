-- ===== src/Netcfg/Service/PolicyRules/Valid.antt =====
-- internal/netcfg/policyrule.go: the validity of the stored rules over the methods.
use kwrt_net_manager.Prelude.{ℕ, Bool, true, List, Str, All}
use kwrt_net_manager.Netcfg.Types.{PolicyRule}
use kwrt_net_manager.Netcfg.Validate.{validate_policy_rule}
use kwrt_net_manager.Netcfg.Validate.RuleLaws.{IsRule, validate_policy_rule-IsRule}
use kwrt_net_manager.Netcfg.Backend.{Backend, Config, Lawful}
use kwrt_net_manager.Netcfg.Service.{World}
use kwrt_net_manager.Netcfg.Service.Collection.{no_check}
use kwrt_net_manager.Netcfg.Service.Collection.Checked.{
  Lifecycle, lifecycle, create_checked, update_checked,
}
use kwrt_net_manager.Netcfg.Service.Stored.{with_rules, rules_of, Kept-rules}
use kwrt_net_manager.Netcfg.Service.PolicyRules.{
  rule_collection, create_policy_rule, update_policy_rule, delete_policy_rule,
  set_policy_rule_enabled, batch_policy_rules,
}

IsRule-edit :
    (r : PolicyRule) (id : Str) (on : Bool)
    → IsRule r
    → IsRule (record r { id = id; enabled = on; managed = true })
IsRule-edit r id on h = record {
  family_known = h.family_known;
  lookup_trimmed = h.lookup_trimmed;
  lookup_valid = h.lookup_valid;
  priority_valid = h.priority_valid;
  src_valid = h.src_valid;
  dest_valid = h.dest_valid;
}

module _ {S : Type 0} (be : Backend S) (token : ℕ → Str) where
  -- One call of a method that writes the rules.
  pub data Step (w : World S) : World S → Type 0 where
    created : (r : PolicyRule) → Step w (create_policy_rule be token r w).1
    updated : (id : Str) (r : PolicyRule) → Step w (update_policy_rule be id r w).1
    deleted : (id : Str) → Step w (delete_policy_rule be id w).1
    switched : (id : Str) (on : Bool) → Step w (set_policy_rule_enabled be id on w).1
    batched : (action : Str) (ids : List Str) → Step w (batch_policy_rules be action ids w).1

module _ {S : Type 0} (be : Backend S) (view : S → Config) (lawful : Lawful be view)
    (token : ℕ → Str) (Inv : Config → Type 0)
    (see : (v : Config) → Inv v → All IsRule v.policy_rules)
    (grow : (l : List PolicyRule) (v : Config)
      → Inv v
      → All IsRule l
      → Inv (record v { policy_rules = l })) where
  rule_lifecycle : Lifecycle (rule_collection be) validate_policy_rule view Inv
  rule_lifecycle =
      lifecycle (rule_collection be) validate_policy_rule view rules_of with_rules
        (Kept-rules be view lawful) IsRule Inv see (λ l _ v. grow l v)
        (λ x t id good. IsRule-edit t id t.enabled (validate_policy_rule-IsRule x t good))
        (λ on x h. IsRule-edit x x.id on h)

  pub Step-Inv : (w v : World S) → Step be token w v → Inv (view w.be) → Inv (view v.be)
  unfolding create_checked update_checked create_policy_rule update_policy_rule delete_policy_rule
      set_policy_rule_enabled batch_policy_rules
  Step-Inv w _ (created r) h = rule_lifecycle.created (λ _. no_check) token r w h
  Step-Inv w _ (updated id r) h = rule_lifecycle.updated (λ _. no_check) id r w h
  Step-Inv w _ (deleted id) h = rule_lifecycle.deleted id w h
  Step-Inv w _ (switched id on) h = rule_lifecycle.switched id on w h
  Step-Inv w _ (batched action ids) h = rule_lifecycle.batched action ids w h
