-- ===== src/Relay/Bounce/Loops.antt =====
-- Whether a notification can be answered with another one.
use serverwall.Base.{◌≡◌, ◌↔◌, true, none, some, arith, Text, Bool-cases, inl, inr}
use serverwall.Relay.Spool.{Envelope}
use serverwall.Relay.Bounce.{BounceGenerator, Stamp, is_null_sender, generate}

-- A bounce gets no bounce itself exactly when the configured sender of bounces is empty, `<>` or
-- MAILER-DAEMON: with any other configured sender a bounce that fails is bounced again.
pub generate-generate :
    (g : BounceGenerator) (stamp later : Stamp) (original envelope : Envelope)
    (error message error' message' body : Text)
    → generate g stamp original error message ≡ some (envelope, body)
    → (generate g later envelope error' message' ≡ none) ↔ (is_null_sender g.bounce_sender ≡ true)
unfolding generate
generate-generate g stamp later original envelope error message error' message' body h =
    elim (Bool-cases (is_null_sender original.mail_from)) [
      | inl e ↦ absurd (ground arith)
      | inr e ↦
          let from : envelope.mail_from ≡ g.bounce_sender = ground arith in
          (λ k. ground arith, λ k. ground arith)
    ]
