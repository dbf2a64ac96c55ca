-- ===== src/Waf/Parser/Custom.antt =====
-- serverwall-waf/src/rules/parser.rs: custom rules against the transformation that they get. What
-- the `regex` crate documents of `escape` is a hypothesis.
use serverwall.Base.{
  ℕ, ◌≡◌, refl, [], ◌∷◌, some, Bool, true, false, ◌&&◌, leb, Text, codes, to_lowercase, lower_char,
  starts_with, contains, any, map, arith, Option-cases, Bool-cases, inl, inr,
}
use serverwall.Waf.Rules.{WafRule, RuleTarget}
use serverwall.Waf.Matcher.{apply_transformations, transformed}
use serverwall.Waf.Parser.{
  WafCustomRule, parse_target, operator_to_pattern, rule_on, convert_custom_rule, first_arm,
}

abbrev pub is_upper : ℕ → Bool
is_upper c = leb b'A' c && leb c b'Z'

head_differs :
    (c d : ℕ) (p s : Text) → is_upper c ≡ true → starts_with (c ∷ p) (lower_char d ∷ s) ≡ false
unfolding starts_with lower_char
head_differs c d p s h = ground arith

starts_with-lowered : (p s : Text) → any is_upper p ≡ true → starts_with p (to_lowercase s) ≡ false
unfolding starts_with
starts_with-lowered [] s h = absurd (cc)
starts_with-lowered (c ∷ p) [] h = refl
starts_with-lowered (c ∷ p) (d ∷ s) h = elim (Bool-cases (is_upper c)) [
  | inl here ↦ ground (arith, head_differs c d p (map lower_char s) here)
  | inr next ↦ ground (arith, starts_with-lowered p s)
]

contains-lowered : (p s : Text) → any is_upper p ≡ true → contains p (to_lowercase s) ≡ false
unfolding contains
contains-lowered p [] h = starts_with-lowered p [] h
contains-lowered p (d ∷ s) h =
    ground (arith, starts_with-lowered p (d ∷ s) h, contains-lowered p s h)

module _ (escape : Text → Text) (is_match : Text → Text → Bool)
    (is_match-escape : (p t : Text) → is_match (escape p) t ≡ contains p t) where
  operator-contains :
      (operator pattern : Text)
      → to_lowercase operator ≡ codes "contains"
      → operator_to_pattern escape operator pattern ≡ escape pattern
  unfolding operator_to_pattern first_arm
  operator-contains operator pattern h = rw (h, operator_to_pattern)

  rule_on-upper :
      (custom : WafCustomRule) (target : RuleTarget) (input : Text)
      → to_lowercase custom.operator ≡ codes "contains"
      → any is_upper custom.pattern ≡ true
      → is_match
          (rule_on escape custom target).pattern
          (apply_transformations input (rule_on escape custom target).transformations)
        ≡ false
  unfolding rule_on apply_transformations transformed
  rule_on-upper custom target input h u =
      rw (operator-contains custom.operator custom.pattern h, is_match-escape)
        (contains-lowered custom.pattern input u)

  -- A custom rule that looks for a text with an upper-case letter (operator `contains`) matches no
  -- value, since the value is put in lower case and the text is not; an escaped text is found, by
  -- hypothesis, where it is contained.
  pub convert_custom_rule-upper :
      (custom : WafCustomRule) {rule : WafRule} (input : Text)
      → convert_custom_rule escape custom ≡ some rule
      → to_lowercase custom.operator ≡ codes "contains"
      → any is_upper custom.pattern ≡ true
      → is_match rule.pattern (apply_transformations input rule.transformations) ≡ false
  unfolding convert_custom_rule
  convert_custom_rule-upper custom {rule} input e h u =
      elim (Option-cases (parse_target custom.match_field)) [
        | inl missing ↦ absurd (let k = rw (missing, convert_custom_rule) at e in cc)
        | inr (target, found) ↦
            let k = rw (found, convert_custom_rule) at e in
            let same : rule_on escape custom target ≡ rule = cc in
            rw (← same) (rule_on-upper custom target input h u)
      ]
