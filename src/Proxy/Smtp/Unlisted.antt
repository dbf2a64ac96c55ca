-- ===== src/Proxy/Smtp/Unlisted.antt =====
-- A session without MAIL FROM, and the block list of clients and senders.
use mathlib.Core.List.{Memᴰ}
use serverwall.Base.{
  ℕ, ◌≡◌, ◌≢◌, refl, true, false, List, [], ◌∷◌, ◌∙◌, if_both, Text, contains_text,
}
use serverwall.Core.Types.{IpAddr}
use serverwall.Antispam.Score.{
  FloatOps, SpamReport, ScoreContribution, SpamVerdict, spam, suspect, clean, default_auth,
}
use serverwall.Antispam.Lists.{block_matches, contains_recipient}
use serverwall.Antispam.Pipeline.{PipelineDecision, PostResult, run_pre_data, run_post_data}
use serverwall.Proxy.Smtp.{
  Env, Session, Event, replied, forwarded, done, say, bare, read_data, on_data, on_mail_from,
  on_rcpt_to, clear_transaction, evaluate_message, after_pre, received, after_checks, judged,
  greeted, envelope, allowed_report, quitting, expects_data, sender_blocked,
}
use serverwall.Proxy.Smtp.Bypass.{session_of, proxy_message_allowed}

forwarded_same :
    {F : Type 0} {body body' from from' : Text} {tos tos' : List Text} (r : SpamReport F)
    {log : List (Event F)}
    → body ≡ body'
    → from ≡ from'
    → tos ≡ tos'
    → Memᴰ (forwarded body from tos r) log
    → Memᴰ (forwarded body' from' tos' r) log
forwarded_same r e1 e2 e3 h = rw (← e1, ← e2, ← e3) h

module _ {F : Type 0} (f : FloatOps F) (show_ip : IpAddr → Text) (env : Env F) where
  judged_forwards :
      (v : SpamVerdict) (report : SpamReport F) (s : Session F)
      → v ≢ spam
      → Memᴰ
          (forwarded s.data_buffer s.mail_from s.rcpt_to report)
          (judged f show_ip env v report s).log
  unfolding judged
  judged_forwards spam report s ham = absurd (ham refl)
  judged_forwards suspect report s ham = (proxy_message_allowed f show_ip env report s).1
  judged_forwards clean report s ham = (proxy_message_allowed f show_ip env report s).1

  -- A message whose checks end without a verdict of spam is forwarded, allow-listed or not.
  evaluate_forwards :
      (score : F) (cs : List (ScoreContribution F)) (report : SpamReport F) (s : Session F)
      → run_post_data f env.pipeline
          (record { envelope = envelope f show_ip env s; raw_message = s.data_buffer })
          score
          cs
          default_auth
        ≡ PostResult.ok report
      → report.verdict ≢ spam
      → (r : SpamReport F) × Memᴰ
          (forwarded s.data_buffer s.mail_from s.rcpt_to r)
          (evaluate_message f show_ip env score cs s).log
  unfolding evaluate_message after_checks clear_transaction
  evaluate_forwards score cs report s checked ham =
      if_both {A = Session F}
        (λ (t : Session F).
          (r : SpamReport F) × Memᴰ (forwarded s.data_buffer s.mail_from s.rcpt_to r) t.log)
        s.allowed _ _
        (λ _. (
          allowed_report f show_ip env,
          (proxy_message_allowed f show_ip env (allowed_report f show_ip env) s).1,
        ))
        (λ _. (report, rw (checked) (judged_forwards report.verdict report s ham)))

  after_pre_evaluates :
      (r : PipelineDecision × F × List (ScoreContribution F)) (s : Session F)
      → r.0 ≡ PipelineDecision.continue
      → after_pre f show_ip env r s ≡ evaluate_message f show_ip env r.1 r.2 s
  unfolding after_pre
  after_pre_evaluates (PipelineDecision.reject code reason, score, cs) s e = absurd (cc)
  after_pre_evaluates (PipelineDecision.temp_fail reason, score, cs) s e = absurd (cc)
  after_pre_evaluates (PipelineDecision.continue, score, cs) s e = refl
  after_pre_evaluates (PipelineDecision.accept, score, cs) s e = absurd (cc)

  -- A session that opens with RCPT TO, and its message once its data is read.
  abbrev pub opened : Text → Session F
  opened recipient = on_rcpt_to f show_ip env recipient (greeted f show_ip env)

  abbrev pub filled : Text → List Text → Session F
  filled recipient body = received f show_ip env (read_data body) (opened recipient)

  abbrev pub checked_before : Text → List Text → PipelineDecision × F × List (ScoreContribution F)
  checked_before recipient body =
      run_pre_data f env.pipeline (envelope f show_ip env (filled recipient body))

  opened_lem :
      (recipient : Text)
      → contains_recipient env.block_list (bare recipient) ≡ false
      → let s = opened recipient in
        (expects_data s.state ≡ true) × (s.mail_from ≡ []) × (s.rcpt_to ≡ bare recipient ∷ [])
  unfolding on_rcpt_to greeted say
  opened_lem recipient clear = rw clear (refl, refl, refl)

  on_data_log :
      (body : List Text) (s : Session F)
      → expects_data s.state ≡ true
      → let t = received f show_ip env (read_data body) s in
        session_of f show_ip env (on_data f show_ip env body s)
        ≡ after_pre f show_ip env (run_pre_data f env.pipeline (envelope f show_ip env t)) t
  unfolding on_data
  on_data_log body s ready = rw ready refl

  received_lem :
      (lines : Text × List Text × ℕ) (s : Session F)
      → let t = received f show_ip env lines s in
        (t.data_buffer ≡ lines.0) × (t.mail_from ≡ s.mail_from) × (t.rcpt_to ≡ s.rcpt_to)
  unfolding received say
  received_lem lines s = (refl, refl, refl)

  on_data_forwards_unnamed :
      (recipient : Text) (body : List Text) (report : SpamReport F)
      → contains_recipient env.block_list (bare recipient) ≡ false
      → let pre = checked_before recipient body in
        let s = filled recipient body in
        pre.0 ≡ PipelineDecision.continue
        → run_post_data f env.pipeline
            (record { envelope = envelope f show_ip env s; raw_message = s.data_buffer })
            pre.1
            pre.2
            default_auth
          ≡ PostResult.ok report
        → report.verdict ≢ spam
        → (r : SpamReport F) × Memᴰ
            (forwarded (read_data body).0 [] (bare recipient ∷ []) r)
            (session_of f show_ip env (on_data f show_ip env body (opened recipient))).log
  on_data_forwards_unnamed recipient body report clear passed checked ham =
      let pre = checked_before recipient body in
      let s = filled recipient body in
      let (r, sent) = evaluate_forwards pre.1 pre.2 report s checked ham in
      let (ready, no_sender, only) = opened_lem recipient clear in
      let (text, from, to_all) = received_lem (read_data body) (opened recipient) in
      let same = on_data_log body (opened recipient) ready ∙ after_pre_evaluates pre s passed in
      (r, rw same (forwarded_same r text (from ∙ no_sender) (to_all ∙ only) sent))

  -- A client whose address is on the block list is refused at MAIL FROM, whatever sender it names, and
  -- the session ends. If it leaves MAIL FROM out and opens the session with RCPT TO, for a recipient
  -- that is not blocked itself, and DATA, its message goes to the backend with an empty sender, if the
  -- checks before and after DATA do not refuse it.
  pub block-skipped :
      (recipient : Text) (body : List Text) (report : SpamReport F)
      → contains_text env.block_list.ips (show_ip env.peer_ip) ≡ true
      → contains_recipient env.block_list (bare recipient) ≡ false
      → let pre = checked_before recipient body in
        let s = filled recipient body in
        pre.0 ≡ PipelineDecision.continue
        → run_post_data f env.pipeline
            (record { envelope = envelope f show_ip env s; raw_message = s.data_buffer })
            pre.1
            pre.2
            default_auth
          ≡ PostResult.ok report
        → report.verdict ≢ spam
        → ((sender : Text) (lines : List Text)
            → (t : Session F) × (on_mail_from f show_ip env sender lines (greeted f show_ip env)
                ≡ done t)
              × (t.state ≡ quitting)
              × (t.log ≡ replied sender_blocked ∷ (greeted f show_ip env).log))
          × (r : SpamReport F) × Memᴰ
              (forwarded (read_data body).0 [] (bare recipient ∷ []) r)
              (session_of f show_ip env (on_data f show_ip env body (opened recipient))).log
  unfolding block_matches on_mail_from say
  block-skipped recipient body report listed clear passed checked ham =
      let (r, sent) = on_data_forwards_unnamed recipient body report clear passed checked ham in
      (
        λ sender lines. (
          record (say sender_blocked (record (greeted f show_ip env) { mail_from = bare sender })) {
            state = quitting;
          },
          rw listed refl,
          refl,
          refl,
        ),
        r,
        sent,
      )
