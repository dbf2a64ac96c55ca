-- ===== src/Tests/Checks.antt =====
-- Spam checks that look at the sender, scored in whole numbers.
use serverwall.Base.{
  ℕ, ◌+◌, ◌*◌, ◌/◌, ◌≡◌, refl, Bool, List, [], ◌∷◌, Option, none, some, Text, codes, if◌then◌else◌,
  ltb, leb, is_empty, starts_with,
}
use serverwall.Core.Types.{v4}
use serverwall.Antispam.Score.{
  FloatOps, ScoreContribution, CheckOutcome, CheckCategory, default_auth,
}
use serverwall.Antispam.Pipeline.{
  EnvelopeContext, MessageContext, PipelineDecision, AntispamPipeline, PostResult, run_post_data,
}
use serverwall.Antispam.Pipeline.Decisions.{run_post_data_first}

abbrev pub whole : FloatOps ℕ
whole = record {
  of_ℕ = λ n. n;
  add = λ a b. a + b;
  mul = λ a b. a * b;
  div = λ a b. a / b;
  lt = ltb;
  le = leb;
}

abbrev points : Text → ℕ → ScoreContribution ℕ
points name n = record {
  check_name = name;
  category = CheckCategory.behavioral;
  score = n;
  description = codes "seen";
}

abbrev pub no_helo : EnvelopeContext → CheckOutcome ℕ × Option (ScoreContribution ℕ)
no_helo ctx =
    if is_empty ctx.helo_domain
    then (CheckOutcome.hit 4 (codes "no HELO"), some (points (codes "helo") 4))
    else (CheckOutcome.pass, none)

abbrev refuse_x : EnvelopeContext → CheckOutcome ℕ × Option (ScoreContribution ℕ)
refuse_x ctx =
    if starts_with (codes "x") ctx.mail_from
    then (CheckOutcome.reject (codes "bad sender"), some (points (codes "sender") 9))
    else (CheckOutcome.pass, none)

abbrev short_body : MessageContext → CheckOutcome ℕ × List (ScoreContribution ℕ)
short_body ctx =
    if is_empty ctx.raw_message
    then (
      CheckOutcome.hit 2 (codes "empty"),
      points (codes "empty") 2 ∷ points (codes "short") 1 ∷ [],
    )
    else (CheckOutcome.pass, [])

abbrev busy : MessageContext → CheckOutcome ℕ × List (ScoreContribution ℕ)
busy ctx =
    if starts_with (codes "x") ctx.raw_message
    then (CheckOutcome.temp_fail (codes "busy"), [])
    else (CheckOutcome.pass, [])

abbrev pub pipeline : AntispamPipeline ℕ
pipeline = record {
  config = record {
    domain_overrides = [];
    possible_spam_threshold = 50;
    definite_spam_threshold = 80;
  };
  pre_data_checks = no_helo ∷ refuse_x ∷ no_helo ∷ [];
  post_data_checks = short_body ∷ busy ∷ short_body ∷ [];
}

abbrev from : Text → EnvelopeContext
from sender = record {
  client_ip = v4 192 0 2 7;
  helo_domain = [];
  mail_from = sender;
  rcpt_to = codes "b@c" ∷ [];
  early_talker = Bool.false;
  connect_time = 0;
  banner_sent_time = 0;
  command_count = 3;
  pipelining_detected = Bool.false;
  ja3_fingerprint = none;
}

abbrev message : Text → MessageContext
message body = record { envelope = from (codes "a@b"); raw_message = body }

run_post_data_first_example :
    run_post_data whole pipeline (message (codes "xyz")) 8 [] default_auth
    ≡ PostResult.err (PipelineDecision.temp_fail (codes "busy"))
unfolding starts_with
run_post_data_first_example =
    run_post_data_first whole pipeline (message (codes "xyz")) 8 [] default_auth (short_body ∷ [])
      (short_body ∷ []) busy (PipelineDecision.temp_fail (codes "busy")) refl (refl, tt) refl
