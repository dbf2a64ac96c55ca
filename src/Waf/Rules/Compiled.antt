-- ===== src/Waf/Rules/Compiled.antt =====
-- serverwall-waf/src/rules/rule_set.rs: what a compiled group inspects.
use serverwall.Base.{◌≡◌, refl, List, [], ◌∷◌, Option, some, Text, ℕ, Bool}
use serverwall.Waf.Rules.{
  RuleTarget, WafRule, CompiledRuleGroup, compile, or_valid, compile_valid, with_set,
}

-- The first rule, if there is one, has these targets.
abbrev pub StartsAt : List RuleTarget → List WafRule → Type 0
StartsAt targets [] = Unit
StartsAt targets (r ∷ rules) = r.targets ≡ targets

abbrev pub Inspects : List RuleTarget → Option CompiledRuleGroup → Type 0
Inspects targets Option.none = Unit
Inspects targets (some group) = group.targets ≡ targets

with_set-Inspects :
    (rules : List WafRule) (targets : List RuleTarget) (set : Option (Text → List ℕ))
    → Inspects targets (with_set rules targets set)
unfolding with_set
with_set-Inspects rules targets Option.none = tt
with_set-Inspects rules targets (some set) = refl

module _ (new_set : List Text → Option (Text → List ℕ)) (is_regex : Text → Bool) where
  compile_valid-Inspects :
      (rules : List WafRule) (targets : List RuleTarget)
      → Inspects targets (compile_valid new_set is_regex rules targets)
  unfolding compile_valid
  compile_valid-Inspects [] targets = tt
  compile_valid-Inspects (r ∷ rules) targets = with_set-Inspects (r ∷ rules) targets _

  or_valid-Inspects :
      (rules : List WafRule) (targets : List RuleTarget) (set : Option (Text → List ℕ))
      → Inspects targets (or_valid new_set is_regex rules targets set)
  unfolding or_valid
  or_valid-Inspects rules targets (some set) = refl
  or_valid-Inspects rules targets Option.none = compile_valid-Inspects _ targets

  -- A group inspects the targets of the first rule, whatever the targets of the others.
  pub compile-Inspects :
      (rules : List WafRule) (targets : List RuleTarget)
      → StartsAt targets rules
      → Inspects targets (compile new_set is_regex rules)
  unfolding compile
  compile-Inspects [] targets h = tt
  compile-Inspects (r ∷ rules) targets h = rw (← h) (or_valid-Inspects (r ∷ rules) r.targets _)
