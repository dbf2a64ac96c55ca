-- ===== src/Proxy/Smtp/Bypass.antt =====
-- The flag of an allow-listed transaction in the transactions after it.
use mathlib.Core.List.{Memᴰ}
use serverwall.Base.{
  ◌∙◌, ap, ◌||◌, ℕ, ◌≡◌, refl, Bool, true, false, List, [], ◌∷◌, ◌++◌, Option, none, some, Text,
  if_both, arith,
}
use serverwall.Core.Types.{IpAddr}
use serverwall.Antispam.Score.{FloatOps, SpamReport, ScoreContribution}
use serverwall.Antispam.Lists.{allow_matches, block_matches, contains_recipient}
use serverwall.Antispam.Pipeline.{PipelineDecision, run_pre_data}
use serverwall.Proxy.Smtp.{
  Env, Session, Event, forwarded, Next, again, done, say, bare, read_data, on_data, on_mail_from,
  on_rcpt_to, proxy_message, answer_backend, evaluate_message, after_pre, received,
  clear_transaction, envelope, allowed_report, in_rcpt_to, proxying, expects_data,
}

or_true : (a b : Bool) → b ≡ true → (a || b) ≡ true
or_true a b h = ground arith

or_left : (a b : Bool) → a ≡ true → (a || b) ≡ true
or_left a b h = ground arith

module _ {F : Type 0} (f : FloatOps F) (show_ip : IpAddr → Text) (env : Env F) where
  -- The session that a command leaves, when the loop goes on.
  abbrev pub session_of : Next F → Session F
  session_of (again s rest) = s
  session_of (done s) = s

  answer_backend_allowed :
      (r : Option (Text × ℕ)) (s : Session F)
      → ((answer_backend f show_ip env r s).allowed ≡ s.allowed)
        × ((e : Event F) → Memᴰ e s.log → Memᴰ e (answer_backend f show_ip env r s).log)
  unfolding answer_backend say
  answer_backend_allowed none s = (refl, λ e m. Memᴰ.tail m)
  answer_backend_allowed (some (resp, n)) s = (refl, λ e m. Memᴰ.tail m)

  pub proxy_message_allowed :
      (report : SpamReport F) (s : Session F)
      → ((proxy_message f show_ip env report s).allowed ≡ s.allowed)
        × Memᴰ
            (forwarded s.data_buffer s.mail_from s.rcpt_to report)
            (proxy_message f show_ip env report s).log
  unfolding proxy_message
  proxy_message_allowed report s =
      let (same, kept) =
        answer_backend_allowed (env.forward s.data_buffer s.mail_from s.rcpt_to report) (record s {
          state = proxying;
          log = forwarded s.data_buffer s.mail_from s.rcpt_to report ∷ s.log;
        }) in
      (same, kept _ (Memᴰ.head refl))

  -- With the flag set the message goes to the backend as clean, and the flag stays.
  evaluate_message_allowed :
      (score : F) (cs : List (ScoreContribution F)) (s : Session F)
      → s.allowed ≡ true
      → ((evaluate_message f show_ip env score cs s).allowed ≡ true)
        × Memᴰ
            (forwarded s.data_buffer s.mail_from s.rcpt_to (allowed_report f show_ip env))
            (evaluate_message f show_ip env score cs s).log
  unfolding evaluate_message clear_transaction
  evaluate_message_allowed score cs s h =
      if_both {A = Session F}
        (λ (t : Session F).
          (t.allowed ≡ true)
          × Memᴰ (forwarded s.data_buffer s.mail_from s.rcpt_to (allowed_report f show_ip env))
              t.log)
        s.allowed _ _
        (λ _.
          let (same, sent) = proxy_message_allowed (allowed_report f show_ip env) s in
          (same ∙ h, sent))
        (λ e. absurd (cc))

  after_pre_allowed :
      (r : PipelineDecision × F × List (ScoreContribution F)) (s : Session F)
      → s.allowed ≡ true
      → (after_pre f show_ip env r s).allowed ≡ true
  unfolding after_pre clear_transaction say
  after_pre_allowed (PipelineDecision.reject code reason, score, cs) s h = h
  after_pre_allowed (PipelineDecision.temp_fail reason, score, cs) s h = h
  after_pre_allowed (PipelineDecision.continue, score, cs) s h =
      (evaluate_message_allowed score cs s h).0
  after_pre_allowed (PipelineDecision.accept, score, cs) s h =
      (evaluate_message_allowed score cs s h).0

  evaluate_message_cleared :
      (score : F) (cs : List (ScoreContribution F)) (s : Session F)
      → (evaluate_message f show_ip env score cs s).rcpt_to ≡ []
  unfolding evaluate_message clear_transaction
  evaluate_message_cleared score cs s =
      if_both {A = Session F} (λ (t : Session F). t.rcpt_to ≡ []) s.allowed _ _ (λ _. refl)
        (λ _. refl)

  after_pre_cleared :
      (r : PipelineDecision × F × List (ScoreContribution F)) (s : Session F)
      → (after_pre f show_ip env r s).rcpt_to ≡ []
  unfolding after_pre evaluate_message clear_transaction
  after_pre_cleared (PipelineDecision.reject code reason, score, cs) s = refl
  after_pre_cleared (PipelineDecision.temp_fail reason, score, cs) s = refl
  after_pre_cleared (PipelineDecision.continue, score, cs) s = evaluate_message_cleared score cs s
  after_pre_cleared (PipelineDecision.accept, score, cs) s = evaluate_message_cleared score cs s

  -- No outcome of DATA in an allow-listed transaction takes the flag back: whether the message is
  -- forwarded, rejected or deferred by a check before DATA, or out of sequence, it stays for the
  -- transactions that follow on the connection.
  pub on_data_keeps_allowed :
      (lines : List Text) (s : Session F)
      → s.allowed ≡ true
      → (session_of (on_data f show_ip env lines s)).allowed ≡ true
  unfolding on_data received say
  on_data_keeps_allowed lines s h =
      if_both {A = Next F} (λ n. (session_of n).allowed ≡ true) (expects_data s.state) _ _
        (λ _. after_pre_allowed _ _ h) (λ _. h)

  -- The session after MAIL FROM and RCPT TO.
  abbrev pub addressed : Text → Text → List Text → Session F → Session F
  addressed sender recipient lines s =
      on_rcpt_to f show_ip env recipient (session_of (on_mail_from f show_ip env sender lines s))

  addressed_lem :
      (sender recipient : Text) (lines : List Text) (s : Session F)
      → block_matches show_ip env.block_list env.peer_ip (bare sender) ≡ false
      → contains_recipient env.block_list (bare recipient) ≡ false
      → let t = addressed sender recipient lines s in
        (t.state ≡ in_rcpt_to)
        × (t.mail_from ≡ bare sender)
        × (t.rcpt_to ≡ s.rcpt_to ++ (bare recipient ∷ []))
        × (t.allowed
            ≡ (s.allowed || allow_matches show_ip env.allow_list env.peer_ip (bare sender)))
  unfolding on_rcpt_to on_mail_from say
  addressed_lem sender recipient lines s free clear = rw (free, clear) (refl, refl, refl, refl)

  -- What the checks before DATA decide on the message that the lines hold.
  abbrev pub decided : List Text → Session F → PipelineDecision
  decided lines s =
      (run_pre_data f env.pipeline
        (envelope f show_ip env (received f show_ip env (read_data lines) s))).0

  after_pre_forwards :
      (r : PipelineDecision × F × List (ScoreContribution F)) (s : Session F)
      → s.allowed ≡ true
      → r.0 ≡ PipelineDecision.continue
      → Memᴰ
          (forwarded s.data_buffer s.mail_from s.rcpt_to (allowed_report f show_ip env))
          (after_pre f show_ip env r s).log
  unfolding after_pre
  after_pre_forwards (PipelineDecision.reject code reason, score, cs) s h e = absurd (cc)
  after_pre_forwards (PipelineDecision.temp_fail reason, score, cs) s h e = absurd (cc)
  after_pre_forwards (PipelineDecision.continue, score, cs) s h e =
      (evaluate_message_allowed score cs s h).1
  after_pre_forwards (PipelineDecision.accept, score, cs) s h e = absurd (cc)

  on_data_forwards :
      (lines : List Text) (s : Session F)
      → expects_data s.state ≡ true
      → s.allowed ≡ true
      → decided lines s ≡ PipelineDecision.continue
      → Memᴰ
          (forwarded (read_data lines).0 s.mail_from s.rcpt_to (allowed_report f show_ip env))
          (session_of (on_data f show_ip env lines s)).log
  unfolding on_data received say
  on_data_forwards lines s ready h passed = rw ready (after_pre_forwards _ _ h passed)

  -- After DATA, however it ends, no recipient is left.
  on_data_cleared :
      (lines : List Text) (s : Session F)
      → expects_data s.state ≡ true
      → (session_of (on_data f show_ip env lines s)).rcpt_to ≡ []
  unfolding on_data received say
  on_data_cleared lines s ready =
      rw ready (after_pre_cleared _ (received f show_ip env (read_data lines) s))

  -- A transaction of an allow-listed sender, however its DATA ends, opens the way for the next one on
  -- the connection: that goes to the backend as clean, whoever its sender is and whatever the checks
  -- after DATA would say. It is enough that the senders and the recipients of both are not blocked and
  -- that the checks before DATA let the second one through.
  pub allowed-leaks :
      (friend first : Text) (sender recipient : Text) (lines rest body next : List Text)
      (s : Session F)
      → allow_matches show_ip env.allow_list env.peer_ip (bare friend) ≡ true
      → block_matches show_ip env.block_list env.peer_ip (bare friend) ≡ false
      → contains_recipient env.block_list (bare first) ≡ false
      → block_matches show_ip env.block_list env.peer_ip (bare sender) ≡ false
      → contains_recipient env.block_list (bare recipient) ≡ false
      → let after = session_of (on_data f show_ip env body (addressed friend first lines s)) in
        let t = addressed sender recipient rest after in
        decided next t ≡ PipelineDecision.continue
        → Memᴰ
            (forwarded
              (read_data next).0
              (bare sender)
              (bare recipient ∷ [])
              (allowed_report f show_ip env))
            (session_of (on_data f show_ip env next t)).log
  unfolding on_rcpt_to
  allowed-leaks friend first sender recipient lines rest body next s known free clear free2 clear2
        passed =
      let begun = addressed friend first lines s in
      let (state, from, to_first, flag) = addressed_lem friend first lines s free clear in
      let ready : expects_data begun.state ≡ true = ap expects_data state in
      let set : begun.allowed ≡ true = flag ∙ or_true s.allowed _ known in
      let after = session_of (on_data f show_ip env body begun) in
      let (state2, from2, to2, flag2) = addressed_lem sender recipient rest after free2 clear2 in
      let still = flag2 ∙ or_left _ _ (on_data_keeps_allowed body begun set) in
      let alone = to2 ∙ ap (λ rs. rs ++ (bare recipient ∷ [])) (on_data_cleared body begun ready) in
      rw (from2, alone) at
        (on_data_forwards next (addressed sender recipient rest after) (ap expects_data state2)
          still passed)
