-- ===== src/Waf/Engine/Findings.antt =====
-- serverwall-waf/src/engine.rs: every violated limit and every matching rule of a request as one
-- list, and that the steps of the engine add up this list.
use serverwall.Base.{
  ℕ, ◌+◌, ◌≤◌, ◌≡◌, refl, ◌∙◌, sym, List, [], ◌∷◌, ◌++◌, Option, none, some, Bool, true, false,
  ◌&&◌, if◌then◌else◌, ltb, Text, codes, get_elem?, byte_len, arith,
}
use serverwall.Core.Types.{IpAddr}
use serverwall.Waf.Request.{HttpRequestContext, body_size, header_count}
use serverwall.Waf.Anomaly.{AnomalyScorer, u32_max, saturating_add, add_match}
use serverwall.Waf.Rules.{Transformation, WafRule, CompiledRuleGroup}
use serverwall.Waf.Matcher.{apply_transformations}
use serverwall.Waf.Engine.{
  RequestLimits, WafEngine, rule_label, check_body_size, check_header_count, check_uri_length,
  check_header_values, check_limits, add_hit, add_matches, check_values, target_values, check_group,
  evaluate_rules,
}

-- A name and its score.
abbrev pub Found : Type 0
Found = Text × ℕ

abbrev pub total : List Found → ℕ
total [] = 0
total ((_, n) ∷ fs) = n + total fs

abbrev only_if : Bool → Text → List Found
only_if b name = if b then (name, 5) ∷ [] else []

header_findings : ℕ → List (Text × Text) → List Found
header_findings max_len [] = []
header_findings max_len ((name, value) ∷ headers) =
    only_if (ltb max_len (byte_len value)) (codes "LIMIT:header_value_len:" ++ name)
    ++ header_findings max_len headers

pub limit_findings : RequestLimits → HttpRequestContext → List Found
limit_findings limits ctx =
    only_if (ltb 0 limits.max_body_size && ltb limits.max_body_size (body_size ctx))
      (codes "LIMIT:body_size")
    ++ (only_if (ltb limits.max_header_count (header_count ctx)) (codes "LIMIT:header_count")
        ++ (only_if (ltb limits.max_uri_length (byte_len ctx.uri)) (codes "LIMIT:uri_length")
            ++ header_findings limits.max_header_value_len ctx.headers))

hit : Option WafRule → List Found
hit none = []
hit (some rule) = (rule_label rule, rule.score) ∷ []

hits : List WafRule → List ℕ → List Found
unfolding hit
hits rules [] = []
hits rules (idx ∷ matches) = hit (get_elem? rules idx) ++ hits rules matches

value_findings : CompiledRuleGroup → List Transformation → List Text → List Found
value_findings group ts [] = []
value_findings group ts (value ∷ values) =
    hits group.rules (group.matches (apply_transformations value ts))
    ++ value_findings group ts values

pub add_found : List Found → AnomalyScorer → AnomalyScorer
add_found [] s = s
add_found ((name, n) ∷ fs) s = add_found fs (add_match s name n)

pub add_found-append :
    (fs gs : List Found) (s : AnomalyScorer)
    → add_found (fs ++ gs) s ≡ add_found gs (add_found fs s)
unfolding add_found
add_found-append [] gs s = refl
add_found-append ((name, n) ∷ fs) gs s = add_found-append fs gs (add_match s name n)

pub saturating_add_assoc :
    (a b c : ℕ) → saturating_add (saturating_add a b) c ≡ saturating_add a (b + c)
unfolding saturating_add
saturating_add_assoc a b c = ground arith

pub saturating_add-le : (a b : ℕ) → saturating_add a b ≤ u32_max
unfolding saturating_add
saturating_add-le a b = ground arith

saturating_add-zero : (a : ℕ) → a ≤ u32_max → saturating_add a 0 ≡ a
unfolding saturating_add
saturating_add-zero a h = ground arith

pub add_found-score :
    (fs : List Found) (s : AnomalyScorer)
    → s.current_score ≤ u32_max
    → (add_found fs s).current_score ≡ saturating_add s.current_score (total fs)
unfolding add_found add_match
add_found-score [] s h = sym (saturating_add-zero _ h)
add_found-score ((name, n) ∷ fs) s h =
    add_found-score fs (add_match s name n) (saturating_add-le _ _) ∙ saturating_add_assoc _ _ _

pub add_found-threshold :
    (fs : List Found) (s : AnomalyScorer) → (add_found fs s).threshold ≡ s.threshold
unfolding add_found add_match
add_found-threshold [] s = refl
add_found-threshold ((name, n) ∷ fs) s = add_found-threshold fs (add_match s name n)

-- The code's steps add what the reference lists.
only_if-add :
    (b : Bool) (name : Text) (s : AnomalyScorer)
    → add_found (only_if b name) s ≡ (if b then add_match s name 5 else s)
unfolding add_found
only_if-add true name s = refl
only_if-add false name s = refl

check_header_values-add :
    (max_len : ℕ) (headers : List (Text × Text)) (s : AnomalyScorer)
    → check_header_values max_len headers s ≡ add_found (header_findings max_len headers) s
unfolding check_header_values header_findings add_found
check_header_values-add max_len [] s = refl
check_header_values-add max_len ((name, value) ∷ headers) s =
    rw (add_found-append (only_if _ _) (header_findings max_len headers) s, only_if-add)
      (check_header_values-add max_len headers _)

pub check_limits-add :
    (e : WafEngine) (ctx : HttpRequestContext) (s : AnomalyScorer)
    → (check_limits e ctx s).1 ≡ add_found (limit_findings e.limits ctx) s
unfolding check_limits limit_findings check_body_size check_header_count check_uri_length
check_limits-add e ctx s =
    check_header_values-add _ ctx.headers _ ∙ sym (simp (add_found-append, only_if-add))

add_hit-add : (o : Option WafRule) (s : AnomalyScorer) → add_hit o s ≡ add_found (hit o) s
unfolding add_hit hit add_found
add_hit-add none s = refl
add_hit-add (some rule) s = refl

add_matches-add :
    (rules : List WafRule) (matches : List ℕ) (s : AnomalyScorer)
    → add_matches rules matches s ≡ add_found (hits rules matches) s
unfolding add_matches hits add_found
add_matches-add rules [] s = refl
add_matches-add rules (idx ∷ matches) s =
    add_matches-add rules matches _
    ∙ rw (add_hit-add, add_found-append (hit (get_elem? rules idx)) (hits rules matches) s)

check_values-add :
    (group : CompiledRuleGroup) (ts : List Transformation) (values : List Text) (s : AnomalyScorer)
    → check_values group ts values s ≡ add_found (value_findings group ts values) s
unfolding check_values value_findings add_found
check_values-add group ts [] s = refl
check_values-add group ts (value ∷ values) s =
    check_values-add group ts values _ ∙ rw (add_matches-add, add_found-append)

module _ (show_ip : IpAddr → Text) (ctx : HttpRequestContext) where
  group_findings : CompiledRuleGroup → List WafRule → List Found
  group_findings group [] = []
  group_findings group (first_rule ∷ rules) =
      value_findings group first_rule.transformations (target_values show_ip ctx group.targets)

  pub rule_findings : List CompiledRuleGroup → List Found
  unfolding group_findings
  rule_findings [] = []
  rule_findings (group ∷ groups) = group_findings group group.rules ++ rule_findings groups

  check_group-add :
      (group : CompiledRuleGroup) (rules : List WafRule) (s : AnomalyScorer)
      → check_group show_ip ctx group rules s ≡ add_found (group_findings group rules) s
  unfolding check_group group_findings add_found
  check_group-add group [] s = refl
  check_group-add group (first_rule ∷ rules) s = check_values-add group _ _ s

  pub evaluate_rules-add :
      (groups : List CompiledRuleGroup) (s : AnomalyScorer)
      → evaluate_rules show_ip groups ctx s ≡ add_found (rule_findings groups) s
  unfolding evaluate_rules rule_findings add_found
  evaluate_rules-add [] s = refl
  evaluate_rules-add (group ∷ groups) s =
      evaluate_rules-add groups _
      ∙ rw (
        check_group-add,
        add_found-append (group_findings group group.rules) (rule_findings groups) s,
      )
