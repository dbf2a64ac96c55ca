-- ===== src/Waf/Anomaly.antt =====
-- serverwall-waf/src/anomaly.rs: the score that matches add up to, a 32-bit number that stops at
-- its maximum.
use serverwall.Base.{ℕ, ◌+◌, List, [], ◌∷◌, ◌++◌, Bool, if◌then◌else◌, ltb, leb, Text}

pub record AnomalyScorer : Type 0 where
  pub threshold : ℕ
  pub current_score : ℕ
  pub matched_rule_ids : List Text

abbrev pub u32_max : ℕ
u32_max = 4294967295

unfoldable pub saturating_add : ℕ → ℕ → ℕ
saturating_add a b = if ltb u32_max (a + b) then u32_max else a + b

unfoldable pub new_scorer : ℕ → AnomalyScorer
new_scorer threshold = record { threshold = threshold; current_score = 0; matched_rule_ids = [] }

unfoldable pub add_match : AnomalyScorer → Text → ℕ → AnomalyScorer
unfolding saturating_add
add_match s rule_id score = record s {
  current_score = saturating_add s.current_score score;
  matched_rule_ids = s.matched_rule_ids ++ (rule_id ∷ []);
}

-- `AnomalyScorer::add_score`.
unfoldable pub add_raw_score : AnomalyScorer → ℕ → AnomalyScorer
unfolding saturating_add
add_raw_score s score = record s { current_score = saturating_add s.current_score score }

unfoldable pub is_anomalous : AnomalyScorer → Bool
is_anomalous s = leb s.threshold s.current_score

unfoldable pub reset : AnomalyScorer → AnomalyScorer
reset s = record s { current_score = 0; matched_rule_ids = [] }
