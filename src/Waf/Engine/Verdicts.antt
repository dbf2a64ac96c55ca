-- ===== src/Waf/Engine/Verdicts.antt =====
-- serverwall-waf/src/engine.rs: `inspect` decides as a reference that collects every violated limit
-- and every matching rule first, and then compares their sum.
use serverwall.Base.{
  ℕ, ◌+◌, ◌≡◌, refl, ◌∙◌, ap, sym, List, ◌++◌, none, some, Bool, true, false, ◌&&◌, ◌||◌,
  if◌then◌else◌, leb, Text, any, contains_text, starts_with, arith,
}
use serverwall.Core.Types.{IpAddr}
use serverwall.Waf.Request.{HttpRequestContext, WafDecision}
use serverwall.Waf.Anomaly.{AnomalyScorer, saturating_add, new_scorer, is_anomalous}
use serverwall.Waf.Engine.{
  WafMode, WafVerdict, WafEngine, check_limits, evaluate_rules, render_verdict, mode_decision,
  verdict_of, after_limits, is_blocking, inspect_enabled, unless_excluded, inspect, unexamined,
}
use serverwall.Waf.Engine.Findings.{
  Found, total, limit_findings, rule_findings, add_found, add_found-append, add_found-score,
  add_found-threshold, check_limits-add, evaluate_rules-add,
}

total-append : (fs gs : List Found) → total (fs ++ gs) ≡ total fs + total gs
total-append List.[] gs = omega arith
total-append (List.◌∷◌ (_, n) fs) gs = omega (arith, total-append fs gs)

reach_more :
    (t a b c : ℕ)
    → leb t (saturating_add 0 a) ≡ true
    → c ≡ a + b
    → leb t (saturating_add 0 c) ≡ true
unfolding saturating_add
reach_more t a b c h e = ground arith

-- The decision of a mode on a request that is excluded or not and reaches the threshold or not.
abbrev pub decided : WafMode → Bool → Bool → WafDecision
decided WafMode.disabled excluded reached = WafDecision.allow
decided _ true reached = WafDecision.allow
decided _ false false = WafDecision.allow
decided WafMode.blocking false true = WafDecision.block
decided WafMode.detection_only false true = WafDecision.log

-- Blocking early or after the rules comes to the same, if what the limits reach is reached in all.
decided_early :
    (m : WafMode) (early late : Bool)
    → (early ≡ true → late ≡ true)
    → (if early && is_blocking m
        then WafDecision.block
        else (if late then mode_decision m else WafDecision.allow))
      ≡ decided m false late
unfolding is_blocking mode_decision
decided_early WafMode.blocking true true h = refl
decided_early WafMode.blocking true false h = absurd (cc (h refl))
decided_early WafMode.blocking false true h = refl
decided_early WafMode.blocking false false h = refl
decided_early WafMode.detection_only true true h = refl
decided_early WafMode.detection_only true false h = refl
decided_early WafMode.detection_only false true h = refl
decided_early WafMode.detection_only false false h = refl
decided_early WafMode.disabled true true h = refl
decided_early WafMode.disabled true false h = refl
decided_early WafMode.disabled false true h = refl
decided_early WafMode.disabled false false h = refl

decided_excluded : (m : WafMode) (late : Bool) → WafDecision.allow ≡ decided m true late
decided_excluded WafMode.blocking late = refl
decided_excluded WafMode.detection_only late = refl
decided_excluded WafMode.disabled late = refl

unless_both :
    (m : WafMode) (late a b : Bool) (v : WafVerdict)
    → v.decision ≡ decided m false late
    → (if a then unexamined else if b then unexamined else v).decision ≡ decided m (a || b) late
unless_both m late true b v h = decided_excluded m late
unless_both m late false true v h = decided_excluded m late
unless_both m late false false v h = h

module _ (show_ip : IpAddr → Text) (e : WafEngine) (ctx : HttpRequestContext) where
  abbrev pub findings : List Found
  findings = limit_findings e.limits ctx ++ rule_findings show_ip ctx e.rule_groups

  abbrev pub is_excluded : Bool
  is_excluded =
      contains_text e.excluded_ips (show_ip ctx.remote_addr)
      || any (λ p. starts_with p ctx.path) e.excluded_paths

  abbrev pub reaches_threshold : Bool
  reaches_threshold = leb e.anomaly_threshold (saturating_add 0 (total findings))

  first : AnomalyScorer
  unfolding new_scorer
  first = new_scorer e.anomaly_threshold

  limited : AnomalyScorer
  limited = (check_limits e ctx first).1

  limited-add : limited ≡ add_found (limit_findings e.limits ctx) first
  unfolding limited
  limited-add = check_limits-add e ctx first

  is_anomalous-add :
      (fs : List Found)
      → is_anomalous (add_found fs first) ≡ leb e.anomaly_threshold (saturating_add 0 (total fs))
  unfolding is_anomalous first new_scorer
  is_anomalous-add fs = rw (add_found-threshold fs first, add_found-score fs first (omega arith))

  evaluated : evaluate_rules show_ip e.rule_groups ctx limited ≡ add_found findings first
  evaluated =
      evaluate_rules-add show_ip ctx e.rule_groups limited
      ∙ (ap (add_found (rule_findings show_ip ctx e.rule_groups)) limited-add
          ∙ sym (add_found-append (limit_findings e.limits ctx) _ first))

  rendered : is_anomalous (evaluate_rules show_ip e.rule_groups ctx limited) ≡ reaches_threshold
  rendered = ap is_anomalous evaluated ∙ is_anomalous-add findings

  -- What the limits reach alone, they reach with the rules.
  limits_enough : is_anomalous limited ≡ true → reaches_threshold ≡ true
  unfolding saturating_add
  limits_enough h =
      let alone = ap is_anomalous (sym limited-add) ∙ h in
      let enough = sym (is_anomalous-add (limit_findings e.limits ctx)) ∙ alone in
      reach_more e.anomaly_threshold (total (limit_findings e.limits ctx))
        (total (rule_findings show_ip ctx e.rule_groups)) (total findings) enough
        (total-append (limit_findings e.limits ctx) (rule_findings show_ip ctx e.rule_groups))

  -- The decision after the limits, whatever the test on them.
  settled :
      (early : Bool) (s : AnomalyScorer)
      → (after_limits show_ip e ctx
          (if early then some (verdict_of WafDecision.block s) else none, s)).decision
        ≡ (if early
            then WafDecision.block
            else (if is_anomalous (evaluate_rules show_ip e.rule_groups ctx s)
                then mode_decision e.mode
                else WafDecision.allow))
  unfolding after_limits verdict_of render_verdict
  settled true s = refl
  settled false s = refl

  inspect_enabled_decision :
      (inspect_enabled show_ip e ctx).decision ≡ decided e.mode false reaches_threshold
  unfolding inspect_enabled check_limits limited first
  inspect_enabled_decision =
      settled (is_anomalous limited && is_blocking e.mode) limited
      ∙ (rw rendered (decided_early e.mode (is_anomalous limited) reaches_threshold limits_enough))

  unless_excluded_decision :
      (m : WafMode)
      → e.mode ≡ m
      → (unless_excluded show_ip e ctx m).decision ≡ decided m is_excluded reaches_threshold
  unfolding unless_excluded
  unless_excluded_decision WafMode.disabled h = refl
  unless_excluded_decision WafMode.blocking h =
      unless_both WafMode.blocking reaches_threshold _ _ (inspect_enabled show_ip e ctx)
        (inspect_enabled_decision ∙ ap (λ m. decided m false reaches_threshold) h)
  unless_excluded_decision WafMode.detection_only h =
      unless_both WafMode.detection_only reaches_threshold _ _ (inspect_enabled show_ip e ctx)
        (inspect_enabled_decision ∙ ap (λ m. decided m false reaches_threshold) h)

  -- A request is blocked, logged or unexamined by the mode, unless the engine is disabled or the
  -- request excluded, exactly as the sum of all violated limits and of all matching rules, which
  -- stops at the maximum of 32 bits, reaches the threshold: that the limits alone may settle it
  -- makes no difference.
  pub inspect_lem : (inspect show_ip e ctx).decision ≡ decided e.mode is_excluded reaches_threshold
  unfolding inspect
  inspect_lem = unless_excluded_decision e.mode refl
