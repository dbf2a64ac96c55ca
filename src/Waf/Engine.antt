-- ===== src/Waf/Engine.antt =====
-- serverwall-waf/src/engine.rs: the engine, its construction and the inspection of a request.
pub mod Findings
pub mod Verdicts
pub mod Headers
use serverwall.Base.{
  ℕ, ◌+◌, ◌*◌, List, [], ◌∷◌, ◌++◌, Option, none, some, Bool, true, false, ◌&&◌, if◌then◌else◌, ltb,
  leb, Text, codes, text_eq, contains_text, starts_with, any, retain, length, get_elem?, byte_len,
  decimal, map,
}
use serverwall.Core.Types.{IpAddr}
use serverwall.Waf.Request.{HttpRequestContext, WafDecision, body_size, header_count}
use serverwall.Waf.Anomaly.{AnomalyScorer, new_scorer, add_match, is_anomalous}
use serverwall.Waf.Rules.{RuleTarget, Transformation, WafRule, CompiledRuleGroup, compile}
use serverwall.Waf.Rules.Builtin.{all_builtin_rules}
use serverwall.Waf.Matcher.{extract_targets, apply_transformations}

pub data WafMode : Type 0 where
  blocking detection_only disabled : WafMode

pub record RequestLimits : Type 0 where
  pub max_body_size : ℕ
  pub max_header_count : ℕ
  pub max_header_value_len : ℕ
  pub max_uri_length : ℕ

unfoldable pub default_limits : RequestLimits
default_limits = record {
  max_body_size = 10 * 1024 * 1024;
  max_header_count = 100;
  max_header_value_len = 8192;
  max_uri_length = 8192;
}

pub record WafVerdict : Type 0 where
  pub decision : WafDecision
  pub matched_rules : List Text
  pub anomaly_score : ℕ

pub record WafEngine : Type 0 where
  pub mode : WafMode
  pub anomaly_threshold : ℕ
  pub paranoia_level : ℕ
  pub rule_groups : List CompiledRuleGroup
  pub limits : RequestLimits
  pub excluded_paths : List Text
  pub excluded_ips : List Text

option_list : Option CompiledRuleGroup → List CompiledRuleGroup
option_list none = []
option_list (some group) = group ∷ []

module _ (new_set : List Text → Option (Text → List ℕ)) (is_regex : Text → Bool) where
  unfoldable pub with_config : WafMode → ℕ → ℕ → RequestLimits → WafEngine
  unfolding compile option_list
  with_config mode anomaly_threshold paranoia_level limits =
      let active_rules =
        retain (λ (r : WafRule). leb r.paranoia_level paranoia_level) all_builtin_rules in
      record {
        mode = mode;
        anomaly_threshold = anomaly_threshold;
        paranoia_level = paranoia_level;
        rule_groups = option_list (compile new_set is_regex active_rules);
        limits = limits;
        excluded_paths = [];
        excluded_ips = [];
      }

  -- `WafEngine::new`.
  unfoldable pub new_engine : WafMode → WafEngine
  unfolding with_config default_limits
  new_engine mode = with_config mode 5 1 default_limits

abbrev pub unexamined : WafVerdict
unexamined = record { decision = WafDecision.allow; matched_rules = []; anomaly_score = 0 }

verdict_of : WafDecision → AnomalyScorer → WafVerdict
verdict_of decision s = record {
  decision = decision;
  matched_rules = s.matched_rule_ids;
  anomaly_score = s.current_score;
}

check_body_size : RequestLimits → HttpRequestContext → AnomalyScorer → AnomalyScorer
unfolding body_size
check_body_size limits ctx s =
    if ltb 0 limits.max_body_size && ltb limits.max_body_size (body_size ctx)
    then add_match s (codes "LIMIT:body_size") 5
    else s

check_header_count : RequestLimits → HttpRequestContext → AnomalyScorer → AnomalyScorer
unfolding header_count
check_header_count limits ctx s =
    if ltb limits.max_header_count (header_count ctx)
    then add_match s (codes "LIMIT:header_count") 5
    else s

check_uri_length : RequestLimits → HttpRequestContext → AnomalyScorer → AnomalyScorer
check_uri_length limits ctx s =
    if ltb limits.max_uri_length (byte_len ctx.uri)
    then add_match s (codes "LIMIT:uri_length") 5
    else s

check_header_values : ℕ → List (Text × Text) → AnomalyScorer → AnomalyScorer
check_header_values max_len [] s = s
check_header_values max_len ((name, value) ∷ headers) s = check_header_values max_len headers (
    if ltb max_len (byte_len value)
    then add_match s (codes "LIMIT:header_value_len:" ++ name) 5
    else s)

is_blocking : WafMode → Bool
is_blocking WafMode.blocking = true
is_blocking WafMode.detection_only = false
is_blocking WafMode.disabled = false

-- The scorer after the checks, and the verdict if they settle it.
unfoldable pub check_limits :
    WafEngine → HttpRequestContext → AnomalyScorer → Option WafVerdict × AnomalyScorer
unfolding check_body_size check_header_count check_uri_length check_header_values is_blocking
    verdict_of
check_limits e ctx s0 =
    let s1 = check_body_size e.limits ctx s0 in
    let s2 = check_header_count e.limits ctx s1 in
    let s3 = check_uri_length e.limits ctx s2 in
    let s4 = check_header_values e.limits.max_header_value_len ctx.headers s3 in
    (
      if is_anomalous s4 && is_blocking e.mode
          then some (verdict_of WafDecision.block s4)
          else none,
      s4,
    )

unfoldable pub rule_label : WafRule → Text
rule_label r = decimal r.id ++ (codes ":" ++ r.description)

-- The rules at the positions that matched.
add_hit : Option WafRule → AnomalyScorer → AnomalyScorer
unfolding rule_label
add_hit none s = s
add_hit (some rule) s = add_match s (rule_label rule) rule.score

add_matches : List WafRule → List ℕ → AnomalyScorer → AnomalyScorer
unfolding add_hit
add_matches rules [] s = s
add_matches rules (idx ∷ matches) s = add_matches rules matches (add_hit (get_elem? rules idx) s)

check_values : CompiledRuleGroup → List Transformation → List Text → AnomalyScorer → AnomalyScorer
unfolding add_matches
check_values group transformations [] s = s
check_values group transformations (value ∷ values) s =
    check_values group transformations values
      (add_matches group.rules (group.matches (apply_transformations value transformations)) s)

mode_decision : WafMode → WafDecision
mode_decision WafMode.blocking = WafDecision.block
mode_decision WafMode.detection_only = WafDecision.log
mode_decision WafMode.disabled = WafDecision.allow

unfoldable pub render_verdict : WafEngine → AnomalyScorer → WafVerdict
unfolding mode_decision verdict_of
render_verdict e s =
    verdict_of (if is_anomalous s then mode_decision e.mode else WafDecision.allow) s

module _ (show_ip : IpAddr → Text) where
  target_values : HttpRequestContext → List RuleTarget → List Text
  target_values ctx [] = []
  target_values ctx (target ∷ targets) =
      extract_targets show_ip ctx target ++ target_values ctx targets

  -- A group without rules is skipped.
  check_group :
      HttpRequestContext → CompiledRuleGroup → List WafRule → AnomalyScorer → AnomalyScorer
  unfolding target_values check_values
  check_group ctx group [] s = s
  check_group ctx group (first_rule ∷ rules) s =
      check_values group first_rule.transformations (target_values ctx group.targets) s

  unfoldable pub evaluate_rules :
      List CompiledRuleGroup → HttpRequestContext → AnomalyScorer → AnomalyScorer
  unfolding check_group
  evaluate_rules [] ctx s = s
  evaluate_rules (group ∷ groups) ctx s =
      evaluate_rules groups ctx (check_group ctx group group.rules s)

  after_limits : WafEngine → HttpRequestContext → Option WafVerdict × AnomalyScorer → WafVerdict
  unfolding evaluate_rules render_verdict
  after_limits e ctx (some verdict, s) = verdict
  after_limits e ctx (none, s) = render_verdict e (evaluate_rules e.rule_groups ctx s)

  -- Phases 1 to 3.
  inspect_enabled : WafEngine → HttpRequestContext → WafVerdict
  unfolding check_limits after_limits
  inspect_enabled e ctx = after_limits e ctx (check_limits e ctx (new_scorer e.anomaly_threshold))

  unless_excluded : WafEngine → HttpRequestContext → WafMode → WafVerdict
  unfolding inspect_enabled
  unless_excluded e ctx WafMode.disabled = unexamined
  unless_excluded e ctx _ =
      if contains_text e.excluded_ips (show_ip ctx.remote_addr)
      then unexamined
      else if any (λ p. starts_with p ctx.path) e.excluded_paths
      then unexamined
      else inspect_enabled e ctx

  unfoldable pub inspect : WafEngine → HttpRequestContext → WafVerdict
  unfolding unless_excluded
  inspect e ctx = unless_excluded e ctx e.mode
