-- ===== src/Waf/Rules.antt =====
-- serverwall-waf/src/rules/rule_set.rs: rules, and groups of them compiled into one set of regular
-- expressions. The `regex` crate is a parameter: the compiler of a set, which gives the
-- function from a text to the positions that match, and the test that one pattern compiles.
pub mod Builtin
pub mod Compiled
use serverwall.Base.{ℕ, List, [], ◌∷◌, Option, some, Bool, Text, map, retain, is_empty}

pub data RuleTarget : Type 0 where
  request_uri path query_string request_headers : RuleTarget
  header_value : Text → RuleTarget
  request_body cookies user_agent remote_addr : RuleTarget

pub data RuleOperator : Type 0 where
  regex contains equals starts_with ends_with greater_than less_than detect_sqli : RuleOperator
  detect_xss : RuleOperator

pub data Transformation : Type 0 where
  lowercase url_decode html_entity_decode base64_decode remove_whitespace : Transformation
  normalize_path none : Transformation

pub data Severity : Type 0 where
  critical error warning notice : Severity

unfoldable pub default_score : Severity → ℕ
default_score Severity.critical = 5
default_score Severity.error = 4
default_score Severity.warning = 3
default_score Severity.notice = 2

-- `severity as u8`.
unfoldable pub severity_code : Severity → ℕ
severity_code Severity.critical = 1
severity_code Severity.error = 2
severity_code Severity.warning = 3
severity_code Severity.notice = 4

pub record WafRule : Type 0 where
  pub id : ℕ
  pub description : Text
  pub targets : List RuleTarget
  pub operator : RuleOperator
  pub pattern : Text
  pub transformations : List Transformation
  pub severity : ℕ
  pub score : ℕ
  pub paranoia_level : ℕ

unfoldable pub regex_rule : ℕ → Text → List RuleTarget → Text → ℕ → ℕ → ℕ → WafRule
regex_rule id description targets pattern severity score paranoia_level = record {
  id = id;
  description = description;
  targets = targets;
  operator = RuleOperator.regex;
  pattern = pattern;
  transformations = Transformation.lowercase ∷ Transformation.url_decode ∷ [];
  severity = severity;
  score = score;
  paranoia_level = paranoia_level;
}

-- `matches` is the compiled set: the positions of the rules whose pattern matches.
pub record CompiledRuleGroup : Type 0 where
  pub matches : Text → List ℕ
  pub rules : List WafRule
  pub targets : List RuleTarget

patterns_of : List WafRule → List Text
patterns_of rules = map (λ (r : WafRule). r.pattern) rules

with_set : List WafRule → List RuleTarget → Option (Text → List ℕ) → Option CompiledRuleGroup
with_set rules targets Option.none = Option.none
with_set rules targets (some set) =
    some (record { matches = set; rules = rules; targets = targets })

module _ (new_set : List Text → Option (Text → List ℕ)) (is_regex : Text → Bool) where
  -- After the whole set failed: the rules that compile alone.
  compile_valid : List WafRule → List RuleTarget → Option CompiledRuleGroup
  unfolding patterns_of with_set
  compile_valid [] targets = Option.none
  compile_valid (r ∷ rules) targets =
      with_set (r ∷ rules) targets (new_set (patterns_of (r ∷ rules)))

  or_valid : List WafRule → List RuleTarget → Option (Text → List ℕ) → Option CompiledRuleGroup
  unfolding compile_valid
  or_valid rules targets (some set) =
      some (record { matches = set; rules = rules; targets = targets })
  or_valid rules targets Option.none =
      compile_valid (retain (λ (r : WafRule). is_regex r.pattern) rules) targets

  unfoldable pub compile : List WafRule → Option CompiledRuleGroup
  unfolding patterns_of or_valid
  compile [] = Option.none
  compile (r ∷ rules) = or_valid (r ∷ rules) r.targets (new_set (patterns_of (r ∷ rules)))
