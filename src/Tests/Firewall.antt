-- ===== src/Tests/Firewall.antt =====
-- The firewall on a request with a suspicious query, and its transformations.
use mathlib.Core.List.{Memᴰ}
use serverwall.Base.{
  ℕ, ◌≡◌, refl, List, [], ◌∷◌, Option, none, some, true, false, if◌then◌else◌, Text, codes,
  contains, map, arith, replace, lower_char,
}
use serverwall.Core.Types.{IpAddr, v4}
use serverwall.Waf.Request.{HttpRequestContext, from_parts}
use serverwall.Waf.Rules.{RuleTarget, RuleOperator, Transformation, WafRule, regex_rule}
use serverwall.Waf.Rules.Builtin.{all_builtin_rules}
use serverwall.Waf.Anomaly.{new_scorer}
use serverwall.Waf.Matcher.{apply_transformations, normalize_path, simple_base64_decode, slash}
use serverwall.Waf.Matcher.Base64.{base64_encode, simple_base64_decode-encode}
use serverwall.Waf.Matcher.Paths.{squeeze, normalize_path-squeeze}
use serverwall.Waf.Matcher.Encoding.{percent_encode, builtin-percent_encode}
use serverwall.Waf.Engine.{WafMode, WafEngine, default_limits, with_config, evaluate_rules, inspect}
use serverwall.Waf.Engine.Verdicts.{decided, is_excluded, reaches_threshold, inspect_lem}
use serverwall.Waf.Engine.Headers.{with_config_ignores_headers}
use serverwall.Waf.Parser.{WafCustomRule, convert_custom_rule}
use serverwall.Waf.Parser.Custom.{convert_custom_rule-upper}

abbrev show_ip : IpAddr → Text
show_ip ip = codes "192.0.2.7"

abbrev request : HttpRequestContext
request =
    from_parts (codes "get") (codes "/list?q=union")
      ((codes "host", codes "example.org") ∷ (codes "cookie", codes "a=1; b=2") ∷ []) []
      (v4 192 0 2 7) none

abbrev union_rule : WafRule
union_rule = regex_rule 941100 (codes "union") (RuleTarget.query_string ∷ []) (codes "union") 1 5 1

abbrev engine : WafEngine
engine = record {
  mode = WafMode.blocking;
  anomaly_threshold = 5;
  paranoia_level = 1;
  rule_groups =
      record {
        matches = λ t. if contains (codes "union") t then 0 ∷ [] else [];
        rules = union_rule ∷ [];
        targets = RuleTarget.query_string ∷ [];
      }
      ∷ [];
  limits = default_limits;
  excluded_paths = codes "/health" ∷ [];
  excluded_ips = [];
}

inspect_lem_example :
    (inspect show_ip engine request).decision
    ≡ decided WafMode.blocking
        (is_excluded show_ip engine request)
        (reaches_threshold show_ip engine request)
inspect_lem_example = inspect_lem show_ip engine request

abbrev no_set : List Text → Option (Text → List ℕ)
no_set patterns = some (λ t. 0 ∷ 1 ∷ [])

abbrev builtin : WafEngine
builtin = with_config no_set (λ _. true) WafMode.blocking 5 1 default_limits

abbrev spoofed : List (Text × Text)
spoofed = (codes "x-forwarded-for", codes "127.0.0.1") ∷ []

with_config_ignores_headers_example :
    evaluate_rules show_ip builtin.rule_groups (record request { headers = spoofed }) (new_scorer 5)
    ≡ evaluate_rules show_ip builtin.rule_groups request (new_scorer 5)
with_config_ignores_headers_example =
    with_config_ignores_headers show_ip request spoofed no_set (λ _. true) WafMode.blocking 5 1
      default_limits (new_scorer 5)

simple_base64_decode-encode_example :
    simple_base64_decode (base64_encode (72 ∷ 105 ∷ 33 ∷ 255 ∷ []))
    ≡ some (72 ∷ 105 ∷ 33 ∷ 255 ∷ [])
simple_base64_decode-encode_example =
    simple_base64_decode-encode (72 ∷ 105 ∷ 33 ∷ 255 ∷ [])
      (omega arith, (omega arith, (omega arith, (omega arith, tt))))

abbrev first_builtin : WafRule
first_builtin =
    regex_rule 941100 (codes "SQL Injection: UNION-based attack")
      (RuleTarget.query_string ∷ RuleTarget.request_body ∷ RuleTarget.request_uri
        ∷ RuleTarget.cookies ∷ [])
      (codes "(?i)(?:union\\s+(?:all\\s+)?select)") 1 5 1

is_builtin : Memᴰ first_builtin all_builtin_rules
unfolding all_builtin_rules
is_builtin = Memᴰ.head refl

builtin-percent_encode_example :
    apply_transformations (percent_encode (codes "${IFS}")) first_builtin.transformations
    ≡ codes "${IFS}"
builtin-percent_encode_example =
    builtin-percent_encode first_builtin (codes "${IFS}") is_builtin
      (omega arith, (omega arith, (omega arith, (omega arith, (omega arith, (omega arith, tt))))))

normalize_path-squeeze_example :
    normalize_path (codes "/a\\\\b///./c")
    ≡ replace (codes "/./") (codes "/") (squeeze false (map slash (codes "/a\\\\b///./c")))
normalize_path-squeeze_example = normalize_path-squeeze (codes "/a\\\\b///./c")

abbrev admin : WafCustomRule
admin = record {
  id = 7;
  description = codes "admin";
  phase = 1;
  action = codes "block";
  match_field = codes "path";
  operator = codes "contains";
  pattern = codes "Admin";
}

abbrev admin_rule : WafRule
admin_rule = record {
  id = 7;
  description = codes "admin";
  targets = RuleTarget.path ∷ [];
  operator = RuleOperator.regex;
  pattern = codes "Admin";
  transformations = Transformation.lowercase ∷ [];
  severity = 2;
  score = 5;
  paranoia_level = 1;
}

convert_custom_rule-upper_example :
    contains
      (codes "Admin")
      (apply_transformations (codes "/Admin") (Transformation.lowercase ∷ []))
    ≡ false
unfolding convert_custom_rule lower_char
convert_custom_rule-upper_example =
    convert_custom_rule-upper (λ t. t) contains (λ p t. refl) admin {rule = admin_rule}
      (codes "/Admin") refl refl refl
