-- ===== src/Antispam/Pipeline.antt =====
-- serverwall-antispam/src/pipeline.rs: the checks before and after DATA. A check is what it answers
-- in this run, so what it asks of the network or of its own counters is inside the function; the
-- post-DATA checks run concurrently and their answers are read in order.
pub mod Decisions
use serverwall.Base.{
  ℕ, Bool, List, [], ◌∷◌, ◌++◌, Option, none, some, find, Text, text_eq, to_lowercase, last_part,
}
use serverwall.Core.Types.{IpAddr}
use serverwall.Antispam.Score.{
  FloatOps, ScoreContribution, CheckOutcome, AuthenticationResults, SpamReport, new_score,
  add_score, verdict,
}

pub record EnvelopeContext : Type 0 where
  pub client_ip : IpAddr
  pub helo_domain : Text
  pub mail_from : Text
  pub rcpt_to : List Text
  pub early_talker : Bool
  pub connect_time : ℕ
  pub banner_sent_time : ℕ
  pub command_count : ℕ
  pub pipelining_detected : Bool
  pub ja3_fingerprint : Option Text

pub record MessageContext : Type 0 where
  pub envelope : EnvelopeContext
  pub raw_message : Text

pub data PipelineDecision : Type 0 where
  continue accept : PipelineDecision
  reject : ℕ → Text → PipelineDecision
  temp_fail : Text → PipelineDecision

pub record DomainOverride : Type 0 where
  pub domain : Text
  pub possible_spam_threshold : Option ℕ
  pub definite_spam_threshold : Option ℕ

pub record AntispamConfig : Type 0 where
  pub domain_overrides : List DomainOverride
  pub possible_spam_threshold : ℕ
  pub definite_spam_threshold : ℕ

pub record AntispamPipeline (F : Type 0) : Type 0 where
  pub config : AntispamConfig
  pub pre_data_checks : List (EnvelopeContext → CheckOutcome F × Option (ScoreContribution F))
  pub post_data_checks : List (MessageContext → CheckOutcome F × List (ScoreContribution F))

pub data PostResult (F : Type 0) : Type 0 where
  ok : SpamReport F → PostResult F
  err : PipelineDecision → PostResult F

-- An outcome that ends the run, with the decision that it gives.
abbrev pub ending : {F : Type 0} → CheckOutcome F → Option PipelineDecision
ending (CheckOutcome.reject reason) = some (PipelineDecision.reject 550 reason)
ending (CheckOutcome.temp_fail reason) = some (PipelineDecision.temp_fail reason)
ending _ = none

or_else {ℓ} : {A : Type ℓ} → Option A → A → A
or_else none d = d
or_else (some a) d = a

threshold : Option DomainOverride → (DomainOverride → Option ℕ) → ℕ → ℕ
unfolding or_else
threshold none field default = default
threshold (some o) field default = or_else (field o) default

module _ {F : Type 0} (f : FloatOps F) where
  -- `score.add(1.0, c.score)` and `contributions.push(c)` for each contribution.
  unfoldable pub add_all : F → List (ScoreContribution F) → F
  add_all score [] = score
  add_all score (c ∷ cs) = add_all (add_score f score (f.of_ℕ 1) c.score) cs

  abbrev pub to_list : Option (ScoreContribution F) → List (ScoreContribution F)
  to_list none = []
  to_list (some c) = c ∷ []

  pre_loop :
      EnvelopeContext
      → F
      → List (ScoreContribution F)
      → List (EnvelopeContext → CheckOutcome F × Option (ScoreContribution F))
      → PipelineDecision × F × List (ScoreContribution F)
  pre_loop ctx score contributions [] = (continue, score, contributions)
  pre_loop ctx score contributions (check ∷ checks) = elim (ending (check ctx).0) [
    | some decision ↦ (decision, score, contributions)
    | none ↦
        pre_loop ctx (add_all score (to_list (check ctx).1))
          (contributions ++ to_list (check ctx).1) checks
  ]

  unfoldable pub run_pre_data :
      AntispamPipeline F → EnvelopeContext → PipelineDecision × F × List (ScoreContribution F)
  unfolding pre_loop
  run_pre_data p ctx = pre_loop ctx (new_score f) [] p.pre_data_checks

  -- The report, once all answers are in.
  pub final_report :
      AntispamConfig → Text → F → List (ScoreContribution F) → AuthenticationResults → SpamReport F
  unfolding threshold
  final_report config mail_from score contributions auth_results =
      let sender_domain = to_lowercase (last_part b'@' mail_from) in
      let override =
        find (λ (o : DomainOverride). text_eq (to_lowercase o.domain) sender_domain)
          config.domain_overrides in
      let suspect_threshold =
        f.of_ℕ
          (threshold override (λ o. o.possible_spam_threshold) config.possible_spam_threshold) in
      let spam_threshold =
        f.of_ℕ
          (threshold override (λ o. o.definite_spam_threshold) config.definite_spam_threshold) in
      record {
        score = score;
        verdict = verdict f score (f.of_ℕ 50) suspect_threshold spam_threshold;
        contributions = contributions;
        auth_results = auth_results;
      }

  post_loop :
      AntispamConfig
      → AuthenticationResults
      → MessageContext
      → F
      → List (ScoreContribution F)
      → List (MessageContext → CheckOutcome F × List (ScoreContribution F))
      → PostResult F
  unfolding final_report
  post_loop config auth ctx score contributions [] =
      ok (final_report config ctx.envelope.mail_from score contributions auth)
  post_loop config auth ctx score contributions (check ∷ checks) = elim (ending (check ctx).0) [
    | some decision ↦ err decision
    | none ↦
        post_loop config auth ctx (add_all score (check ctx).1) (contributions ++ (check ctx).1)
          checks
  ]

  unfoldable pub run_post_data :
      AntispamPipeline F
      → MessageContext
      → F
      → List (ScoreContribution F)
      → AuthenticationResults
      → PostResult F
  unfolding post_loop
  run_post_data p ctx pre_score pre_contributions auth_results =
      post_loop p.config auth_results ctx pre_score pre_contributions p.post_data_checks
