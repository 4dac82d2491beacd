-- ===== src/Netcfg/Service/PolicyRules.antt =====
-- internal/netcfg/policyrule.go: the policy-routing rules.
pub mod Valid
use kwrt_net_manager.Prelude.{ℕ, Bool, true, List, Str, codes}
use kwrt_net_manager.Netcfg.Exec.{Exec, pure, lift, ◌>>=◌}
use kwrt_net_manager.Netcfg.Types.{PolicyRule}
use kwrt_net_manager.Netcfg.Validate.{validate_policy_rule}
use kwrt_net_manager.Netcfg.Backend.{Backend}
use kwrt_net_manager.Netcfg.Service.{World, call, route_changed}
use kwrt_net_manager.Netcfg.Service.Collection.{
  Collection, no_check, create, update, delete, set_enabled, batch,
}

module _ {S : Type 0} (be : Backend S) where
  abbrev pub rule_collection : Collection S (Unit {0}) PolicyRule
  rule_collection = record {
    load = (do l ← be.policy_rules; pure (l, tt));
    save = λ l _. be.save_policy_rules l;
    topic = route_changed;
    prefix = codes "prule";
    id_of = λ r. r.id;
    identify = λ id r. record r { id = id; managed = true };
    switch = λ on r. record r { enabled = on; managed = true };
  }

  unfoldable pub list_policy_rules : Exec (World S) (List PolicyRule)
  list_policy_rules = call be.policy_rules

  unfoldable pub create_policy_rule : (ℕ → Str) → PolicyRule → Exec (World S) PolicyRule
  create_policy_rule token r = do
    checked ← lift (validate_policy_rule r)
    create rule_collection token no_check checked

  unfoldable pub update_policy_rule : Str → PolicyRule → Exec (World S) PolicyRule
  update_policy_rule id r = do
    checked ← lift (validate_policy_rule r)
    update rule_collection no_check id checked

  unfoldable pub delete_policy_rule : Str → Exec (World S) (Unit {0})
  delete_policy_rule id = delete rule_collection id

  unfoldable pub set_policy_rule_enabled : Str → Bool → Exec (World S) (Unit {0})
  set_policy_rule_enabled id on = set_enabled rule_collection id on

  unfoldable pub batch_policy_rules : Str → List Str → Exec (World S) (Unit {0})
  batch_policy_rules action ids = batch rule_collection action ids
