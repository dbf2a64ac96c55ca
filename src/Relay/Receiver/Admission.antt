-- ===== src/Relay/Receiver/Admission.antt =====
-- What a session of the receiver puts into the spool.
pub mod Sessions
use serverwall.Base.{
  ℕ, zero, suc, ◌<◌, ◌≤◌, ◌≡◌, refl, sym, ◌∙◌, ◌⊎◌, inl, inr, Bool, true, false, List, [], ◌∷◌,
  ◌++◌, Option, none, some, arith, Text, last_part, length, length-append, Bool-cases, text_eq,
  text_eq_iff, if_both, is_empty,
}
use serverwall.Core.Smtp.{
  SmtpCommand, ehlo, helo, mail_from, rcpt_to, begin_data, quit, rset, parse_command,
}
use serverwall.Relay.Spool.{Envelope, QueuedMessage, Spool, fresh, enqueue, dequeue}
use serverwall.Relay.Spool.Queries.{dequeue-enqueue}
use serverwall.Relay.Policy.{Violation, check, check_alignment, check_recipients}
use serverwall.Relay.Receiver.{
  Env, Session, SessionState, connected, greeted, in_mail_from, in_rcpt_to, Next, again, done, say,
  unless_refused, Reply, takes_sender, extract_address, is_end, unstuff, with_line, read_message,
  on_mail_from, add_recipient, rcpt_in, on_rcpt_to, store, judged, data_from, data_in, handle,
  go_on, command_loop, serve,
}

module _ (env : Env) (before : Spool) where
  -- The sender's domain is one that may send.
  abbrev pub Aligned : Text → Type 0
  Aligned sender = check_alignment env.policy.allowed_domains (last_part b'@' sender) ≡ none

  -- An allowed sender domain, a recipient at least and no more than the limit.
  abbrev pub Admissible : Text → List Text → Type 0
  Admissible sender rcpts =
      Aligned sender × (0 < length rcpts) × (length rcpts ≤ env.policy.max_recipients)

  abbrev StateOk : SessionState → Type 0
  StateOk connected = Unit
  StateOk greeted = Unit
  StateOk (in_mail_from sender) = Aligned sender
  StateOk (in_rcpt_to sender rcpts) = Admissible sender rcpts

  -- Each message of the spool was there before or has an admissible envelope.
  abbrev pub Admitted : Spool → Type 0
  Admitted sp =
      (id : Text) (q : QueuedMessage) (message : Text)
      → dequeue id sp ≡ some (q, message)
      → (dequeue id before ≡ some (q, message)) ⊎ Admissible q.envelope.mail_from q.envelope.rcpt_to

  record IsOk (s : Session) : Type 0 where
    state : StateOk s.state
    spool : Admitted s.spool

  enqueue-Admitted :
      (id : Text) (now : ℕ) (envelope : Envelope) (message : Text) (sp : Spool)
      → Admissible envelope.mail_from envelope.rcpt_to
      → Admitted sp
      → Admitted (enqueue id now envelope message sp)
  unfolding fresh
  enqueue-Admitted id now envelope message sp fine h other q msg e =
      let (own, others) = dequeue-enqueue id now envelope message sp in
      elim (Bool-cases (text_eq id other)) [
        | inl same ↦
            let eq : id ≡ other = (text_eq_iff id other).0 same in
            let it = rw (← eq) at e in
            let same_q : q ≡ fresh id now envelope message = cc in inr (rw same_q fine)
        | inr ne ↦
            h other q msg (sym (others other (λ p. let y = (text_eq_iff id other).1 p in cc)) ∙ e)
      ]

  say-IsOk : (r : Reply) (s : Session) → IsOk s → IsOk (say r s)
  unfolding say
  say-IsOk r s h = record { state = h.state; spool = h.spool }

  unless-IsOk :
      (o : Option Violation) (s t : Session)
      → IsOk s
      → (o ≡ none → IsOk t)
      → IsOk (unless_refused o s t)
  unfolding unless_refused
  unless-IsOk none s t h k = k refl
  unless-IsOk (some v) s t h k = say-IsOk _ s h

  on_mail_from-IsOk : (addr : Text) (s : Session) → IsOk s → IsOk (on_mail_from env addr s)
  unfolding on_mail_from
  on_mail_from-IsOk addr s h =
      if_both {A = Session} IsOk (takes_sender s.state) _ _
        (λ _.
          unless-IsOk
            (check_alignment env.policy.allowed_domains (last_part b'@' (extract_address addr))) s _
            h
            (λ e.
              say-IsOk _ (record s { state = in_mail_from (extract_address addr) })
                (record { state = e; spool = h.spool })))
        (λ _. say-IsOk _ s h)

  within : (max n : ℕ) → check_recipients max n ≡ none → n ≤ max
  unfolding check_recipients
  within max n h = ground arith

  add_recipient-IsOk :
      (sender : Text) (rcpts : List Text) (s : Session)
      → Aligned sender
      → 0 < length rcpts
      → IsOk s
      → IsOk (add_recipient env sender rcpts s)
  unfolding add_recipient
  add_recipient-IsOk sender rcpts s fine some_one h =
      unless-IsOk (check_recipients env.policy.max_recipients (length rcpts)) s _ h (λ e.
        say-IsOk _ (record s { state = in_rcpt_to sender rcpts })
          (record { state = (fine, some_one, within _ _ e); spool = h.spool }))

  rcpt_in-IsOk :
      (t : SessionState) (recipient : Text) (s : Session)
      → StateOk t
      → IsOk s
      → IsOk (rcpt_in env t recipient s)
  unfolding rcpt_in
  rcpt_in-IsOk (in_mail_from sender) recipient s ok h =
      add_recipient-IsOk sender (recipient ∷ []) s ok (omega arith) h
  rcpt_in-IsOk (in_rcpt_to sender rcpts) recipient s (fine, some_one, max) h =
      add_recipient-IsOk sender (rcpts ++ (recipient ∷ [])) s fine
        (omega (arith, length-append rcpts (recipient ∷ []))) h
  rcpt_in-IsOk connected recipient s ok h = say-IsOk _ s h
  rcpt_in-IsOk greeted recipient s ok h = say-IsOk _ s h

  greeted-IsOk : (r : Reply) (s : Session) → IsOk s → IsOk (say r (record s { state = greeted }))
  greeted-IsOk r s h =
      say-IsOk r (record s { state = greeted }) (record { state = tt; spool = h.spool })

  store-IsOk :
      (sender : Text) (rcpts : List Text) (message : Text) (s : Session)
      → Admissible sender rcpts
      → IsOk s
      → IsOk (store env sender rcpts message s)
  unfolding store
  store-IsOk sender rcpts message s fine h =
      if_both {A = Session} IsOk (env.writable s.handled) _ _
        (λ _. say-IsOk _ _ (record {
          state = tt;
          spool =
              enqueue-Admitted (env.new_id s.handled) (env.clock s.handled)
                (record { mail_from = sender; rcpt_to = rcpts })
                (env.sign s.handled (last_part b'@' sender) message) s.spool fine h.spool;
        }))
        (λ _. greeted-IsOk _ s h)

  judged-IsOk :
      (sender : Text) (rcpts : List Text) (message : Text) (o : Option Violation)
      (counters : List (Text × List ℕ)) (s : Session)
      → Admissible sender rcpts
      → IsOk s
      → IsOk (judged env sender rcpts message (o, counters) s)
  unfolding judged
  judged-IsOk sender rcpts message (some v) counters s fine h =
      greeted-IsOk _ (record s { counters = counters })
        (record { state = h.state; spool = h.spool })
  judged-IsOk sender rcpts message none counters s fine h =
      store-IsOk sender rcpts message (record s { counters = counters }) fine
        (record { state = h.state; spool = h.spool })
