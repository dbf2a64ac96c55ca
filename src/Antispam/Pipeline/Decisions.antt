-- ===== src/Antispam/Pipeline/Decisions.antt =====
-- What serverwall-antispam/src/pipeline.rs decides, from what the checks answer.
use mathlib.Core.List.{append-nil, append_assoc}
use serverwall.Base.{
  ◌≡◌, refl, ◌⊎◌, inl, inr, Option-cases, List, [], ◌∷◌, ◌++◌, Option, none, some, Text, All,
}
use serverwall.Antispam.Score.{
  FloatOps, ScoreContribution, CheckOutcome, new_score, AuthenticationResults,
}
use serverwall.Antispam.Pipeline.{
  EnvelopeContext, MessageContext, PipelineDecision, AntispamPipeline, AntispamConfig, PostResult,
  ending, add_all, to_list, pre_loop, run_pre_data, post_loop, run_post_data, final_report,
}

module _ {F : Type 0} (f : FloatOps F) where
  add_all-++ :
      (xs ys : List (ScoreContribution F)) (score : F)
      → add_all f score (xs ++ ys) ≡ add_all f (add_all f score xs) ys
  unfolding add_all
  add_all-++ [] ys score = refl
  add_all-++ (c ∷ cs) ys score = add_all-++ cs ys _

  -- The contributions of the checks that run before DATA, in their order.
  abbrev pub pre_collected :
      EnvelopeContext
      → List (EnvelopeContext → CheckOutcome F × Option (ScoreContribution F))
      → List (ScoreContribution F)
  pre_collected ctx [] = []
  pre_collected ctx (check ∷ checks) = to_list f (check ctx).1 ++ pre_collected ctx checks

  pre_loop-++ :
      (ctx : EnvelopeContext)
      (before rest : List (EnvelopeContext → CheckOutcome F × Option (ScoreContribution F)))
      (score : F) (cs : List (ScoreContribution F))
      → All (λ check. ending (check ctx).0 ≡ none) before
      → pre_loop f ctx score cs (before ++ rest)
        ≡ pre_loop f ctx
            (add_all f score (pre_collected ctx before))
            (cs ++ pre_collected ctx before)
            rest
  unfolding pre_loop add_all
  pre_loop-++ ctx [] rest score cs passed = rw (append-nil cs) refl
  pre_loop-++ ctx (check ∷ before) rest score cs (passed, later) =
      rw
        (
          passed,
          pre_loop,
          add_all-++ (to_list f (check ctx).1) (pre_collected ctx before) score,
          ← append_assoc cs (to_list f (check ctx).1) (pre_collected ctx before),
        )
        (pre_loop-++ ctx before rest _ _ later)

  -- The first check before DATA that rejects or defers decides: the decision is its own, the score and
  -- the contributions are those of the checks before it, and the later checks are not asked.
  pub run_pre_data_first :
      (p : AntispamPipeline F) (ctx : EnvelopeContext)
      (before after : List (EnvelopeContext → CheckOutcome F × Option (ScoreContribution F)))
      (check : EnvelopeContext → CheckOutcome F × Option (ScoreContribution F))
      (d : PipelineDecision)
      → p.pre_data_checks ≡ before ++ (check ∷ after)
      → All (λ check. ending (check ctx).0 ≡ none) before
      → ending (check ctx).0 ≡ some d
      → run_pre_data f p ctx
        ≡ (d, add_all f (new_score f) (pre_collected ctx before), pre_collected ctx before)
  unfolding run_pre_data pre_loop
  run_pre_data_first p ctx before after check d e passed h =
      rw (e, pre_loop-++ ctx before (check ∷ after) (new_score f) [] passed, h, pre_loop) refl

  -- If no check before DATA rejects or defers, the run continues, with what all of them contribute.
  pub run_pre_data_pass :
      (p : AntispamPipeline F) (ctx : EnvelopeContext)
      → All (λ check. ending (check ctx).0 ≡ none) p.pre_data_checks
      → run_pre_data f p ctx ≡ (
        PipelineDecision.continue,
        add_all f (new_score f) (pre_collected ctx p.pre_data_checks),
        pre_collected ctx p.pre_data_checks,
      )
  unfolding run_pre_data pre_loop
  run_pre_data_pass p ctx passed =
      rw (append-nil p.pre_data_checks) at
        (pre_loop-++ ctx p.pre_data_checks [] (new_score f) [] passed)

  -- The contributions of the checks that run on the message.
  abbrev pub post_collected :
      MessageContext
      → List (MessageContext → CheckOutcome F × List (ScoreContribution F))
      → List (ScoreContribution F)
  post_collected ctx [] = []
  post_collected ctx (check ∷ checks) = (check ctx).1 ++ post_collected ctx checks

  post_loop-++ :
      (config : AntispamConfig) (auth : AuthenticationResults) (ctx : MessageContext)
      (before rest : List (MessageContext → CheckOutcome F × List (ScoreContribution F)))
      (score : F) (cs : List (ScoreContribution F))
      → All (λ check. ending (check ctx).0 ≡ none) before
      → post_loop f config auth ctx score cs (before ++ rest)
        ≡ post_loop f config auth ctx
            (add_all f score (post_collected ctx before))
            (cs ++ post_collected ctx before)
            rest
  unfolding post_loop add_all
  post_loop-++ config auth ctx [] rest score cs passed = rw (append-nil cs) refl
  post_loop-++ config auth ctx (check ∷ before) rest score cs (passed, later) =
      rw
        (
          passed,
          post_loop,
          add_all-++ (check ctx).1 (post_collected ctx before) score,
          ← append_assoc cs (check ctx).1 (post_collected ctx before),
        )
        (post_loop-++ config auth ctx before rest _ _ later)

  -- The first check after DATA that rejects or defers decides, whatever the later checks answer.
  pub run_post_data_first :
      (p : AntispamPipeline F) (ctx : MessageContext) (score : F) (cs : List (ScoreContribution F))
      (auth : AuthenticationResults)
      (before after : List (MessageContext → CheckOutcome F × List (ScoreContribution F)))
      (check : MessageContext → CheckOutcome F × List (ScoreContribution F)) (d : PipelineDecision)
      → p.post_data_checks ≡ before ++ (check ∷ after)
      → All (λ check. ending (check ctx).0 ≡ none) before
      → ending (check ctx).0 ≡ some d
      → run_post_data f p ctx score cs auth ≡ PostResult.err d
  unfolding run_post_data post_loop
  run_post_data_first p ctx score cs auth before after check d e passed h =
      rw (e, post_loop-++ p.config auth ctx before (check ∷ after) score cs passed, h, post_loop)
        refl

  -- If no check after DATA rejects or defers, the report holds the contributions of the checks before
  -- DATA, then those of the checks after it, and the score is the sum of the score so far and these.
  pub run_post_data_pass :
      (p : AntispamPipeline F) (ctx : MessageContext) (score : F) (cs : List (ScoreContribution F))
      (auth : AuthenticationResults)
      → All (λ check. ending (check ctx).0 ≡ none) p.post_data_checks
      → run_post_data f p ctx score cs auth
        ≡ PostResult.ok (
            final_report f p.config ctx.envelope.mail_from
              (add_all f score (post_collected ctx p.post_data_checks))
              (cs ++ post_collected ctx p.post_data_checks)
              auth)
  unfolding run_post_data post_loop
  run_post_data_pass p ctx score cs auth passed =
      rw (append-nil p.post_data_checks) at
        (post_loop-++ p.config auth ctx p.post_data_checks [] score cs passed)

  -- The decisions that the run after DATA can end with.
  abbrev pub IsRefusal : PipelineDecision → Type 0
  IsRefusal d =
      ((reason : Text) × (d ≡ PipelineDecision.reject 550 reason))
      ⊎ ((reason : Text) × (d ≡ PipelineDecision.temp_fail reason))

  ending-IsRefusal : (o : CheckOutcome F) (d : PipelineDecision) → ending o ≡ some d → IsRefusal d
  ending-IsRefusal CheckOutcome.pass d h = absurd (cc)
  ending-IsRefusal (CheckOutcome.hit score reason) d h = absurd (cc)
  ending-IsRefusal (CheckOutcome.reject reason) d h = inl (reason, cc)
  ending-IsRefusal (CheckOutcome.temp_fail reason) d h = inr (reason, cc)
  ending-IsRefusal (CheckOutcome.skip reason) d h = absurd (cc)

  post_loop-IsRefusal :
      (config : AntispamConfig) (auth : AuthenticationResults) (ctx : MessageContext)
      (checks : List (MessageContext → CheckOutcome F × List (ScoreContribution F))) (score : F)
      (cs : List (ScoreContribution F)) (d : PipelineDecision)
      → post_loop f config auth ctx score cs checks ≡ PostResult.err d
      → IsRefusal d
  unfolding post_loop
  post_loop-IsRefusal config auth ctx [] score cs d h = absurd (cc)
  post_loop-IsRefusal config auth ctx (check ∷ checks) score cs d h =
      elim (Option-cases (ending (check ctx).0)) [
        | inl e ↦ post_loop-IsRefusal config auth ctx checks _ _ d (rw (e, post_loop) at h)
        | inr (d', e) ↦ let h' = rw (e, post_loop) at h in ending-IsRefusal (check ctx).0 d (cc)
      ]

  -- Without a report the run after DATA ends in a rejection with code 550 or in a deferral, never in
  -- `continue` or `accept`, for which the proxy would answer the client nothing.
  pub run_post_data-IsRefusal :
      (p : AntispamPipeline F) (ctx : MessageContext) (score : F) (cs : List (ScoreContribution F))
      (auth : AuthenticationResults) (d : PipelineDecision)
      → run_post_data f p ctx score cs auth ≡ PostResult.err d
      → IsRefusal d
  unfolding run_post_data
  run_post_data-IsRefusal p ctx score cs auth d h =
      post_loop-IsRefusal p.config auth ctx p.post_data_checks score cs d h
