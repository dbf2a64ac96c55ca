-- ===== src/Waf/Parser.antt =====
-- serverwall-waf/src/rules/parser.rs, and from engine.rs how an engine is built from a
-- configuration. `regex::escape` is a parameter, and so are the rules that the TOML files of
-- `rules_dir` hold and the order in which a hash map gives its entries.
pub mod Custom
use serverwall.Base.{
  ℕ, ◌+◌, ◌%◌, ◌^◌, List, [], ◌∷◌, ◌++◌, Option, none, some, Bool, true, false, if◌then◌else◌,
  is_empty, Text, codes, text_eq, contains_text, to_lowercase,
}
use serverwall.Waf.Rules.{
  RuleTarget, RuleOperator, Transformation, Severity, severity_code, WafRule, CompiledRuleGroup,
  compile,
}
use serverwall.Waf.Engine.{WafMode, WafEngine, with_config, default_limits}

-- `WafCustomRule`, `WafExclusions` and `WafRulesetConfig` of serverwall-core/src/config/schema.rs;
-- `rules_dir` is the list of the rules that its files hold.
pub record WafCustomRule : Type 0 where
  pub id : ℕ
  pub description : Text
  pub phase : ℕ
  pub action : Text
  pub match_field : Text
  pub operator : Text
  pub pattern : Text

pub record WafExclusions : Type 0 where
  pub paths : List Text
  pub ip_addresses : List Text

pub record WafRulesetConfig : Type 0 where
  pub name : Text
  pub mode : WafMode
  pub anomaly_threshold : ℕ
  pub rules_dir : Option (List WafCustomRule)
  pub paranoia_level : ℕ
  pub exclusions : WafExclusions
  pub custom_rules : List WafCustomRule

-- The arms of a `match` on texts, each with its names.
first_arm {ℓ} : {A : Type ℓ} → Text → List (List Text × A) → Option A
first_arm word [] = none
first_arm word ((names, a) ∷ arms) =
    if contains_text names word then some a else first_arm word arms

unfoldable pub parse_target : Text → Option RuleTarget
unfolding first_arm
parse_target match_field = first_arm (to_lowercase match_field) (
    (codes "uri" ∷ codes "request_uri" ∷ [], RuleTarget.request_uri)
    ∷ (codes "path" ∷ [], RuleTarget.path)
    ∷ (codes "query" ∷ codes "query_string" ∷ codes "args" ∷ [], RuleTarget.query_string)
    ∷ (codes "body" ∷ codes "request_body" ∷ [], RuleTarget.request_body)
    ∷ (codes "headers" ∷ codes "request_headers" ∷ [], RuleTarget.request_headers)
    ∷ (codes "user_agent" ∷ codes "ua" ∷ [], RuleTarget.user_agent)
    ∷ (codes "cookie" ∷ codes "cookies" ∷ [], RuleTarget.cookies)
    ∷ (codes "remote_addr" ∷ codes "ip" ∷ [], RuleTarget.remote_addr)
    ∷ [])

module _ (escape : Text → Text) where
  unfoldable pub operator_to_pattern : Text → Text → Text
  unfolding first_arm
  operator_to_pattern operator pattern =
      let arms : List (List Text × Text) =
        (codes "regex" ∷ codes "rx" ∷ [], pattern)
        ∷ (codes "contains" ∷ codes "contains_word" ∷ [], escape pattern)
        ∷ (
          codes "equals" ∷ codes "eq" ∷ codes "streq" ∷ [],
          codes "^" ++ (escape pattern ++ codes "$"),
        )
        ∷ (codes "starts_with" ∷ codes "beginswith" ∷ [], codes "^" ++ escape pattern)
        ∷ (codes "ends_with" ∷ codes "endswith" ∷ [], escape pattern ++ codes "$")
        ∷ (codes "detect_sqli" ∷ codes "detect_xss" ∷ [], pattern)
        ∷ [] in
      elim (first_arm (to_lowercase operator) arms) [ none ↦ pattern | some result ↦ result ]

  -- The rule on a target; the identifier loses its upper half.
  rule_on : WafCustomRule → RuleTarget → WafRule
  unfolding operator_to_pattern severity_code
  rule_on custom target = record {
    id = custom.id % 2 ^ 32;
    description = custom.description;
    targets = target ∷ [];
    operator = RuleOperator.regex;
    pattern = operator_to_pattern custom.operator custom.pattern;
    transformations = Transformation.lowercase ∷ [];
    severity = severity_code Severity.error;
    score = 5;
    paranoia_level = 1;
  }

  unfoldable pub convert_custom_rule : WafCustomRule → Option WafRule
  unfolding rule_on parse_target
  convert_custom_rule custom = elim (parse_target custom.match_field) [
    | none ↦ none
    | some target ↦ some (rule_on custom target)
  ]

  convert_all : List WafCustomRule → List WafRule
  unfolding convert_custom_rule
  convert_all [] = []
  convert_all (custom ∷ rules) =
      let rest = convert_all rules in
      elim (convert_custom_rule custom) [ none ↦ rest | some rule ↦ rule ∷ rest ]

  -- `RuleParser::from_ruleset_config`.
  unfoldable pub parsed_rules : WafRulesetConfig → List WafRule
  unfolding convert_all
  parsed_rules config =
      convert_all config.custom_rules
      ++ elim config.rules_dir [ none ↦ [] | some customs ↦ convert_all customs ]

-- Whether two targets print alike.
same_target : RuleTarget → RuleTarget → Bool
same_target RuleTarget.request_uri RuleTarget.request_uri = true
same_target RuleTarget.path RuleTarget.path = true
same_target RuleTarget.query_string RuleTarget.query_string = true
same_target RuleTarget.request_headers RuleTarget.request_headers = true
same_target (RuleTarget.header_value a) (RuleTarget.header_value b) = text_eq a b
same_target RuleTarget.request_body RuleTarget.request_body = true
same_target RuleTarget.cookies RuleTarget.cookies = true
same_target RuleTarget.user_agent RuleTarget.user_agent = true
same_target RuleTarget.remote_addr RuleTarget.remote_addr = true
same_target _ _ = false

same_first : List RuleTarget → List RuleTarget → Bool
unfolding same_target
same_first [] [] = true
same_first (a ∷ _) (b ∷ _) = same_target a b
same_first _ _ = false

abbrev pub TargetMap : Type 0
TargetMap = List (List RuleTarget × List WafRule)

-- `by_target.entry(key).or_default().push(rule)`; a key is the targets whose first one is printed.
push_rule : WafRule → TargetMap → TargetMap
unfolding same_first
push_rule rule [] = (rule.targets, rule ∷ []) ∷ []
push_rule rule ((key, rules) ∷ by_target) =
    let rest = push_rule rule by_target in
    if same_first rule.targets key
    then (key, rules ++ (rule ∷ [])) ∷ by_target
    else (key, rules) ∷ rest

group_rules : List WafRule → TargetMap → TargetMap
unfolding push_rule
group_rules [] by_target = by_target
group_rules (rule ∷ rules) by_target = group_rules rules (push_rule rule by_target)

module _ (new_set : List Text → Option (Text → List ℕ)) (is_regex : Text → Bool)
    (map_order : TargetMap → TargetMap) where
  compile_groups : TargetMap → List CompiledRuleGroup
  unfolding compile
  compile_groups [] = []
  compile_groups ((_, rules) ∷ by_target) =
      let rest = compile_groups by_target in
      elim (compile new_set is_regex rules) [ Option.none ↦ rest | some group ↦ group ∷ rest ]

  unfoldable pub add_custom_rules : WafEngine → List WafRule → WafEngine
  unfolding compile_groups group_rules
  add_custom_rules e rules = record e {
    rule_groups = e.rule_groups ++ compile_groups (map_order (group_rules rules []));
  }

  -- `WafEngine::from_ruleset_config`.
  unfoldable pub engine_of : (Text → Text) → WafRulesetConfig → WafEngine
  unfolding with_config default_limits parsed_rules add_custom_rules
  engine_of escape config =
      let e0 =
        with_config new_set is_regex config.mode config.anomaly_threshold config.paranoia_level
          default_limits in
      let rules = parsed_rules escape config in
      let e1 : WafEngine = if is_empty rules then e0 else add_custom_rules e0 rules in
      record e1 {
        excluded_paths = config.exclusions.paths;
        excluded_ips = config.exclusions.ip_addresses;
      }
