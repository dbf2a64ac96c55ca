-- ===== src/Waf/Engine/Headers.antt =====
-- serverwall-waf/src/engine.rs and rules/rule_set.rs: the built-in rules are compiled into one
-- group, which inspects the targets of its first rule.
use serverwall.Base.{
  ℕ, zero, suc, ◌≡◌, refl, List, [], ◌∷◌, Option, none, some, Bool, leb, if_both, Text, retain,
  arith,
}
use serverwall.Core.Types.{IpAddr}
use serverwall.Waf.Request.{HttpRequestContext, body_str}
use serverwall.Waf.Anomaly.{AnomalyScorer}
use serverwall.Waf.Rules.{RuleTarget, WafRule, CompiledRuleGroup, regex_rule}
use serverwall.Waf.Rules.Compiled.{StartsAt, Inspects, compile-Inspects}
use serverwall.Waf.Rules.Builtin.{all_builtin_rules}
use serverwall.Waf.Matcher.{extract_targets}
use serverwall.Waf.Engine.{
  WafMode, RequestLimits, with_config, option_list, target_values, check_group, evaluate_rules,
}

abbrev sql_targets : List RuleTarget
sql_targets =
    RuleTarget.query_string ∷ RuleTarget.request_body ∷ RuleTarget.request_uri ∷ RuleTarget.cookies
    ∷ []

active_StartsAt :
    (p : ℕ)
    → StartsAt sql_targets (retain (λ (r : WafRule). leb r.paranoia_level p) all_builtin_rules)
unfolding all_builtin_rules regex_rule
active_StartsAt zero = tt
active_StartsAt (suc q) =
    if_both {A = List WafRule} (StartsAt sql_targets) (leb 1 (suc q)) _ _ (λ _. refl)
      (λ e. absurd (ground arith))

module _ (show_ip : IpAddr → Text) (ctx : HttpRequestContext) (headers : List (Text × Text)) where
  -- The values of these targets do not depend on the headers.
  sql_target_values :
      target_values show_ip (record ctx { headers = headers }) sql_targets
      ≡ target_values show_ip ctx sql_targets
  unfolding target_values extract_targets body_str
  sql_target_values = refl

  check_group_same :
      (group : CompiledRuleGroup) (rules : List WafRule) (s : AnomalyScorer)
      → group.targets ≡ sql_targets
      → check_group show_ip (record ctx { headers = headers }) group rules s
        ≡ check_group show_ip ctx group rules s
  unfolding check_group
  check_group_same group [] s h = refl
  check_group_same group (first_rule ∷ rules) s h = rw (h, sql_target_values)

  evaluate_one_same :
      (o : Option CompiledRuleGroup) (s : AnomalyScorer)
      → Inspects sql_targets o
      → evaluate_rules show_ip (option_list o) (record ctx { headers = headers }) s
        ≡ evaluate_rules show_ip (option_list o) ctx s
  unfolding evaluate_rules option_list
  evaluate_one_same none s h = refl
  evaluate_one_same (some group) s h = check_group_same group group.rules s h

  -- An engine with the built-in rules evaluates them alike on requests that differ in nothing but
  -- their headers, whatever the regular expressions: the rules on headers never see one.
  pub with_config_ignores_headers :
      (new_set : List Text → Option (Text → List ℕ)) (is_regex : Text → Bool) (mode : WafMode)
      (anomaly_threshold paranoia_level : ℕ) (limits : RequestLimits) (s : AnomalyScorer)
      → let e = with_config new_set is_regex mode anomaly_threshold paranoia_level limits in
        evaluate_rules show_ip e.rule_groups (record ctx { headers = headers }) s
        ≡ evaluate_rules show_ip e.rule_groups ctx s
  unfolding with_config
  with_config_ignores_headers new_set is_regex mode anomaly_threshold p limits s =
      evaluate_one_same _ s (compile-Inspects new_set is_regex _ sql_targets (active_StartsAt p))
