-- ===== src/Relay/Delivery/Others.antt =====
-- What a delivery attempt leaves alone.
use serverwall.Base.{
  ℕ, ◌≡◌, ◌≢◌, ◌∙◌, sym, [], Option, none, some, Text, Bool-cases, Option-cases, inl, inr,
}
use serverwall.Relay.Spool.{Envelope, QueuedMessage, Spool, dequeue, update_metadata}
use serverwall.Relay.Spool.Queries.{dequeue-remove_other, update_metadata_other}
use serverwall.Relay.Scheduler.{next_retry_time, is_expired}
use serverwall.Relay.Bounce.{Stamp}
use serverwall.Relay.Delivery.{
  Manager, Resolved, hosts, failed, Attempt, accepted, refused, exhausted, try_hosts, give_up,
  handle_temp_fail, settle, attempt_delivery, activated, deliver_message, error_text,
  recipient_domain,
}
use serverwall.Relay.Delivery.Fates.{enqueue_bounce_other}

-- If there is a new spool, the message with that identifier reads as in the old one.
abbrev pub Keeps : Text → Spool → Option Spool → Type 0
Keeps other sp r = (sp' : Spool) → r ≡ some sp' → dequeue other sp' ≡ dequeue other sp

some-Keeps :
    (other : Text) (sp sp' : Spool)
    → dequeue other sp' ≡ dequeue other sp
    → Keeps other sp (some sp')
some-Keeps other sp sp' h sp'' e = let k : sp' ≡ sp'' = cc in rw (sym k) h

none-Keeps : (other : Text) (sp : Spool) → Keeps other sp none
none-Keeps other sp sp' e = absurd (cc)

module _ (m : Manager) (now : ℕ) (bounce_id : Text) (stamp : Stamp) where
  give_up_other :
      (id : Text) (envelope : Envelope) (error message other : Text) (sp : Spool)
      → id ≢ other
      → bounce_id ≢ other
      → dequeue other (give_up m now bounce_id stamp id envelope error message sp)
        ≡ dequeue other sp
  unfolding give_up
  give_up_other id envelope error message other sp h new =
      dequeue-remove_other id other _ h
      ∙ enqueue_bounce_other m now bounce_id stamp envelope error message other sp new

  handle_temp_fail-Keeps :
      (id error : Text) (q : QueuedMessage) (other : Text) (sp : Spool)
      → id ≢ other
      → bounce_id ≢ other
      → Keeps other sp (handle_temp_fail m now bounce_id stamp id error q sp)
  unfolding handle_temp_fail
  handle_temp_fail-Keeps id error q other sp h new =
      let gone = some-Keeps other sp _ (give_up_other id q.envelope error [] other sp h new) in
      elim (Bool-cases (is_expired m.scheduler now q.metadata.created)) [
        | inl e ↦ rw (e) gone
        | inr e ↦ elim (Option-cases (next_retry_time m.scheduler now q.metadata.attempts)) [
          | inl f ↦ rw (e, f) gone
          | inr (next, f) ↦ rw (e, f) (λ sp' k. update_metadata_other id other _ sp sp' h k)
        ]
      ]

  settle-Keeps :
      (id : Text) (q : QueuedMessage) (message : Text) (a : Attempt) (other : Text) (sp : Spool)
      → id ≢ other
      → bounce_id ≢ other
      → Keeps other sp (settle m now bounce_id stamp id q message a sp)
  unfolding settle
  settle-Keeps id q message (accepted resp) other sp h new =
      some-Keeps other sp _ (dequeue-remove_other id other sp h)
  settle-Keeps id q message (refused err) other sp h new =
      some-Keeps other sp _ (give_up_other id q.envelope err message other sp h new)
  settle-Keeps id q message (exhausted l) other sp h new =
      handle_temp_fail-Keeps id (error_text l)
        (record q { metadata = record (q.metadata) { last_error = l } }) other sp h new

  attempt_delivery-Keeps :
      (id : Text) (q : QueuedMessage) (message : Text) (r : Resolved) (other : Text) (sp : Spool)
      → id ≢ other
      → bounce_id ≢ other
      → Keeps other sp (attempt_delivery m now bounce_id stamp id q message r sp)
  unfolding attempt_delivery
  attempt_delivery-Keeps id q message (failed err) other sp h new =
      handle_temp_fail-Keeps id err q other sp h new
  attempt_delivery-Keeps id q message (hosts mxs) other sp h new =
      settle-Keeps id q message
        (try_hosts m now bounce_id stamp q.envelope message mxs q.metadata.last_error) other sp h
        new

  -- An attempt on a message leaves the messages alone whose identifier is neither its own nor that of
  -- the notification.
  pub deliver_message-Keeps :
      (id other : Text) (sp : Spool)
      → id ≢ other
      → bounce_id ≢ other
      → Keeps other sp (deliver_message m now bounce_id stamp id sp)
  unfolding deliver_message
  deliver_message-Keeps id other sp h new = elim (Option-cases (dequeue id sp)) [
    | inl e ↦ rw (e, deliver_message) (none-Keeps other sp)
    | inr ((q, message), e) ↦ elim (Option-cases (update_metadata id (activated q).metadata sp)) [
      | inl f ↦ rw (e, f, deliver_message) (none-Keeps other sp)
      | inr (marked, f) ↦
          rw (e, f, deliver_message)
            (λ sp' k.
              attempt_delivery-Keeps id (activated q) message
                (m.resolve (recipient_domain q.envelope.rcpt_to)) other marked h new sp' k
              ∙ update_metadata_other id other (activated q).metadata sp marked h f)
    ]
  ]
