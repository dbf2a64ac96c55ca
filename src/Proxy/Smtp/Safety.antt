-- ===== src/Proxy/Smtp/Safety.antt =====
-- What reaches the backend.
use serverwall.Base.{
  ℕ, zero, suc, ◌≡◌, ◌≢◌, ◌⊎◌, inl, inr, refl, false, List, [], ◌∷◌, ◌++◌, Option, none, some,
  arith, All, Text, if_both, length,
}
use serverwall.Core.Types.{IpAddr}
use serverwall.Core.Smtp.{
  SmtpCommand, ehlo, helo, mail_from, rcpt_to, begin_data, quit, rset, parse_command,
}
use serverwall.Antispam.Score.{
  FloatOps, SpamReport, SpamVerdict, clean, suspect, spam, ScoreContribution,
}
use serverwall.Antispam.Lists.{block_matches, contains_recipient}
use serverwall.Antispam.Pipeline.{PipelineDecision, PostResult}
use serverwall.Proxy.Smtp.{
  Env, Session, Event, replied, forwarded, Next, again, done, say, bare, read_data, on_data,
  on_mail_from, on_rcpt_to, on_helo, on_rset, handle, command_loop, go_on, counted, proxy, greeted,
  proxy_message, answer_backend, judged, after_checks, evaluate_message, after_pre, received,
  clear_transaction, allowed_report, proxying, expects_data, reject_reply, temp_fail_reply,
}

module _ {F : Type 0} (f : FloatOps F) (show_ip : IpAddr → Text) (env : Env F) where
  -- No sender, or one that the block list does not match for this client.
  abbrev pub SenderOk : Text → Type 0
  SenderOk sender =
      (sender ≡ []) ⊎ (block_matches show_ip env.block_list env.peer_ip sender ≡ false)

  abbrev pub RecipientsOk : List Text → Type 0
  RecipientsOk = All (λ r. contains_recipient env.block_list r ≡ false)

  abbrev pub EventOk : Event F → Type 0
  EventOk (replied reply) = Unit
  EventOk (forwarded body sender recipients report) =
      (report.verdict ≢ spam) × SenderOk sender × RecipientsOk recipients

  abbrev pub LogOk : List (Event F) → Type 0
  LogOk = All EventOk

  pub record IsSafe (s : Session F) : Type 0 where
    pub sender : SenderOk s.mail_from
    pub recipients : RecipientsOk s.rcpt_to
    pub events : LogOk s.log

  say-IsSafe : (reply : Text) (s : Session F) → IsSafe s → IsSafe (say reply s)
  unfolding say
  say-IsSafe reply s h = record {
    sender = h.sender;
    recipients = h.recipients;
    events = (tt, h.events);
  }

  answer_backend-IsSafe :
      (r : Option (Text × ℕ)) (s : Session F) → IsSafe s → IsSafe (answer_backend f show_ip env r s)
  unfolding answer_backend
  answer_backend-IsSafe none s h = say-IsSafe _ s h
  answer_backend-IsSafe (some (resp, n)) s h =
      say-IsSafe resp _ (record { sender = h.sender; recipients = h.recipients; events = h.events })

  proxy_message-IsSafe :
      (report : SpamReport F) (s : Session F)
      → report.verdict ≢ spam
      → IsSafe s
      → IsSafe (proxy_message f show_ip env report s)
  unfolding proxy_message
  proxy_message-IsSafe report s clear h =
      answer_backend-IsSafe (env.forward s.data_buffer s.mail_from s.rcpt_to report)
        (record s {
          state = proxying;
          log = forwarded s.data_buffer s.mail_from s.rcpt_to report ∷ s.log;
        })
        (record {
          sender = h.sender;
          recipients = h.recipients;
          events = ((clear, h.sender, h.recipients), h.events);
        })

  judged-IsSafe :
      (v : SpamVerdict) (report : SpamReport F) (s : Session F)
      → report.verdict ≡ v
      → IsSafe s
      → IsSafe (judged f show_ip env v report s)
  unfolding judged
  judged-IsSafe spam report s e h = say-IsSafe _ s h
  judged-IsSafe suspect report s e h = proxy_message-IsSafe report s (λ p. cc) h
  judged-IsSafe clean report s e h = proxy_message-IsSafe report s (λ p. cc) h

  after_checks-IsSafe :
      (r : PostResult F) (s : Session F) → IsSafe s → IsSafe (after_checks f show_ip env r s)
  unfolding after_checks
  after_checks-IsSafe (PostResult.ok report) s h = judged-IsSafe report.verdict report s refl h
  after_checks-IsSafe (PostResult.err (PipelineDecision.reject code reason)) s h = say-IsSafe _ s h
  after_checks-IsSafe (PostResult.err (PipelineDecision.temp_fail reason)) s h = say-IsSafe _ s h
  after_checks-IsSafe (PostResult.err PipelineDecision.continue) s h = h
  after_checks-IsSafe (PostResult.err PipelineDecision.accept) s h = h

  clear_transaction-IsSafe : (s : Session F) → LogOk s.log → IsSafe (clear_transaction s)
  unfolding clear_transaction
  clear_transaction-IsSafe s h = record { sender = inl refl; recipients = tt; events = h }

  forget_allowed-IsSafe :
      (s : Session F) → IsSafe s → IsSafe (record (clear_transaction s) { allowed = false })
  unfolding clear_transaction
  forget_allowed-IsSafe s h = record { sender = inl refl; recipients = tt; events = h.events }

  allowed_report-ne-spam : (allowed_report f show_ip env).verdict ≢ spam
  unfolding allowed_report
  allowed_report-ne-spam e = cc

  evaluate_message-IsSafe :
      (score : F) (cs : List (ScoreContribution F)) (s : Session F)
      → IsSafe s
      → IsSafe (evaluate_message f show_ip env score cs s)
  unfolding evaluate_message
  evaluate_message-IsSafe score cs s h =
      if_both IsSafe s.allowed _ _
        (λ _.
          clear_transaction-IsSafe (proxy_message f show_ip env (allowed_report f show_ip env) s)
            (proxy_message-IsSafe (allowed_report f show_ip env) s allowed_report-ne-spam h).events)
        (λ _. forget_allowed-IsSafe _ (after_checks-IsSafe _ s h))

  after_pre-IsSafe :
      (r : PipelineDecision × F × List (ScoreContribution F)) (s : Session F)
      → IsSafe s
      → IsSafe (after_pre f show_ip env r s)
  unfolding after_pre say
  after_pre-IsSafe (PipelineDecision.reject code reason, score, cs) s h =
      clear_transaction-IsSafe (say (reject_reply code reason) s) (tt, h.events)
  after_pre-IsSafe (PipelineDecision.temp_fail reason, score, cs) s h =
      clear_transaction-IsSafe (say (temp_fail_reply reason) s) (tt, h.events)
  after_pre-IsSafe (PipelineDecision.continue, score, cs) s h = evaluate_message-IsSafe score cs s h
  after_pre-IsSafe (PipelineDecision.accept, score, cs) s h = evaluate_message-IsSafe score cs s h

  received-IsSafe :
      (d : Text × List Text × ℕ) (s : Session F) → IsSafe s → IsSafe (received f show_ip env d s)
  unfolding received say
  received-IsSafe (body, rest, n) s h = record {
    sender = h.sender;
    recipients = h.recipients;
    events = (tt, h.events);
  }

  -- What holds of the session that a command leaves; at the end only the log matters.
  abbrev pub NextOk : Next F → Type 0
  NextOk (again s rest) = IsSafe s
  NextOk (done s) = LogOk s.log

  RecipientsOk-append :
      (rs : List Text) (r : Text)
      → RecipientsOk rs
      → contains_recipient env.block_list r ≡ false
      → RecipientsOk (rs ++ (r ∷ []))
  RecipientsOk-append [] r h k = (k, tt)
  RecipientsOk-append (x ∷ rs) r h k = (h.0, RecipientsOk-append rs r h.1 k)

  on_rcpt_to-IsSafe : (r : Text) (s : Session F) → IsSafe s → IsSafe (on_rcpt_to f show_ip env r s)
  unfolding on_rcpt_to
  on_rcpt_to-IsSafe r s h =
      if_both IsSafe (contains_recipient env.block_list (bare r)) _ _ (λ _. say-IsSafe _ s h)
        (λ free. say-IsSafe _ _ (record {
          sender = h.sender;
          recipients = RecipientsOk-append s.rcpt_to (bare r) h.recipients free;
          events = h.events;
        }))

  on_mail_from-NextOk :
      (sender : Text) (lines : List Text) (s : Session F)
      → IsSafe s
      → NextOk (on_mail_from f show_ip env sender lines s)
  unfolding on_mail_from say
  on_mail_from-NextOk sender lines s h =
      if_both NextOk (block_matches show_ip env.block_list env.peer_ip (bare sender)) _ _
        (λ _. (tt, h.events))
        (λ free.
          say-IsSafe _ _
            (record { sender = inr free; recipients = h.recipients; events = h.events }))

  on_data-NextOk :
      (lines : List Text) (s : Session F) → IsSafe s → NextOk (on_data f show_ip env lines s)
  unfolding on_data
  on_data-NextOk lines s h =
      if_both NextOk (expects_data s.state) _ _
        (λ _. after_pre-IsSafe _ _ (received-IsSafe (read_data lines) s h)) (λ _. say-IsSafe _ s h)

  handle-NextOk :
      (c : SmtpCommand) (lines : List Text) (s : Session F)
      → IsSafe s
      → NextOk (handle f show_ip env c lines s)
  unfolding handle say on_helo on_rset
  handle-NextOk (ehlo d) lines s h =
      say-IsSafe _ _ (record { sender = h.sender; recipients = h.recipients; events = h.events })
  handle-NextOk (helo d) lines s h =
      say-IsSafe _ _ (record { sender = h.sender; recipients = h.recipients; events = h.events })
  handle-NextOk (mail_from sender) lines s h = on_mail_from-NextOk sender lines s h
  handle-NextOk (rcpt_to r) lines s h = on_rcpt_to-IsSafe r s h
  handle-NextOk begin_data lines s h = on_data-NextOk lines s h
  handle-NextOk rset lines s h =
      say-IsSafe _ _ (record { sender = inl refl; recipients = tt; events = h.events })
  handle-NextOk quit lines s h = (tt, h.events)
  handle-NextOk _ lines s h = say-IsSafe _ s h

  go_on-LogOk :
      (n : Next F) (loop : List Text → Session F → Option (Session F)) (t : Session F)
      → NextOk n
      → ((rest : List Text) (s : Session F) → IsSafe s → loop rest s ≡ some t → LogOk t.log)
      → go_on n loop ≡ some t
      → LogOk t.log
  go_on-LogOk (again s rest) loop t h run e = run rest s h e
  go_on-LogOk (done s) loop t h run e = let same : s ≡ t = ground arith in rw (← same) h

  loop-LogOk :
      (fuel : ℕ) (lines : List Text) (s t : Session F)
      → IsSafe s
      → command_loop f show_ip env fuel lines s ≡ some t
      → LogOk t.log
  unfolding command_loop counted
  loop-LogOk zero lines s t h e = absurd (cc)
  loop-LogOk (suc fuel) [] s t h e = let same : s ≡ t = ground arith in rw (← same) h.events
  loop-LogOk (suc fuel) (line ∷ lines) s t h e =
      go_on-LogOk (handle f show_ip env (parse_command line) lines (counted line s))
        (command_loop f show_ip env fuel) t
        (handle-NextOk (parse_command line) lines (counted line s)
          (record { sender = h.sender; recipients = h.recipients; events = h.events }))
        (λ rest u k q. loop-LogOk fuel rest u t k q) e

  -- Whatever the client sends: no message that is forwarded has a report that calls it spam, none
  -- goes to a blocked recipient, and its sender, unless it is empty, is not one that the block list
  -- matches for this client.
  pub proxy-LogOk :
      (lines : List Text) (t : Session F) → proxy f show_ip env lines ≡ some t → LogOk t.log
  unfolding proxy greeted say
  proxy-LogOk lines t e =
      loop-LogOk (suc (length lines)) lines (greeted f show_ip env) t
        (record { sender = inl refl; recipients = tt; events = (tt, tt) }) e
