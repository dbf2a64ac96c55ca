-- ===== src/Relay/Delivery/Fates.antt =====
-- What becomes of a queued message in a delivery attempt.
use serverwall.Base.{
  ℕ, ◌≡◌, refl, ◌≢◌, ◌∙◌, ◌⊎◌, inl, inr, true, false, List, [], ◌∷◌, Option, none, some, Text,
  Bool-cases, Option-cases,
}
use serverwall.Core.Types.{IpAddr}
use serverwall.Relay.Spool.{Envelope, QueuedMessage, Spool, fresh, dequeue, remove, deferred}
use serverwall.Relay.Spool.Queries.{
  dequeue-remove, dequeue-remove_other, dequeue-enqueue, update_metadata-some,
}
use serverwall.Relay.Scheduler.{next_retry_time, is_expired}
use serverwall.Relay.Bounce.{Stamp, compose, generate, is_null_sender}
use serverwall.Relay.Delivery.{
  Manager, Resolved, hosts, failed, Attempt, accepted, refused, exhausted, MxHost, try_hosts,
  enqueue_bounce, give_up, handle_temp_fail, settle, attempt_delivery, activated, deliver_message,
  error_text, recipient_domain,
}
use serverwall.Relay.Delivery.Attempts.{Accepts, try_hosts_accepted}

module _ (m : Manager) (now : ℕ) (bounce_id : Text) (stamp : Stamp) where
  -- A server accepted the message, and it is gone from the spool.
  abbrev pub Delivered : Text → QueuedMessage → Text → Spool → Type 0
  Delivered id q message sp =
      (dequeue id sp ≡ none)
      × (host : Text) × (addr : IpAddr) × (resp : Text) × Accepts m now bounce_id stamp q.envelope
          message host addr resp

  -- It is gone, and its sender's notification is queued, if its sender gets any and the notification
  -- can be written.
  abbrev pub GivenUp : Text → QueuedMessage → Spool → Type 0
  GivenUp id q sp =
      (dequeue id sp ≡ none)
      × ((is_null_sender q.envelope.mail_from ≡ true)
          ⊎ ((m.is_writable bounce_id ≡ false)
              ⊎ ((body : Text) × (dequeue bounce_id sp
                    ≡ some (
                      fresh bounce_id now
                          (record {
                            mail_from = m.bounce_gen.bounce_sender;
                            rcpt_to = q.envelope.mail_from ∷ [];
                          })
                          body,
                      body,
                    )))))

  -- It stays, with one attempt more, until a retry time that the scheduler gave for that number.
  abbrev pub Deferred : Text → QueuedMessage → Text → Spool → Type 0
  Deferred id q message sp =
      (next : ℕ) × (error : Text) × (next_retry_time m.scheduler now q.metadata.attempts
        ≡ some next)
      × (dequeue id sp
          ≡ some (
            record q {
              metadata = record (q.metadata) {
                next_retry = next;
                status = deferred;
                last_error = some error;
              };
            },
            message,
          ))

  abbrev pub Fate : Text → QueuedMessage → Text → Spool → Type 0
  Fate id q message sp = Delivered id q message sp ⊎ (GivenUp id q sp ⊎ Deferred id q message sp)

  generate_lem :
      (envelope : Envelope) (error message : Text)
      → ((is_null_sender envelope.mail_from ≡ true)
          × (generate m.bounce_gen stamp envelope error message ≡ none))
        ⊎ ((body : Text) × (generate m.bounce_gen stamp envelope error message
              ≡ some (
                record {
                  mail_from = m.bounce_gen.bounce_sender;
                  rcpt_to = envelope.mail_from ∷ [];
                },
                body,
              )))
  unfolding generate
  generate_lem envelope error message = elim (Bool-cases (is_null_sender envelope.mail_from)) [
    | inl e ↦ inl (e, rw e refl)
    | inr e ↦ inr (compose m.bounce_gen stamp envelope error message, rw e refl)
  ]

  give_up-GivenUp :
      (id : Text) (q : QueuedMessage) (error message : Text) (sp : Spool)
      → id ≢ bounce_id
      → GivenUp id q (give_up m now bounce_id stamp id q.envelope error message sp)
  unfolding give_up enqueue_bounce
  give_up-GivenUp id q error message sp new = (
    dequeue-remove id _,
    elim (generate_lem q.envelope error message) [
      | inl (e, g) ↦ inl e
      | inr (body, g) ↦ elim (Bool-cases (m.is_writable bounce_id)) [
        | inl w ↦ inr (
            inr (
              body,
              rw (g, w, enqueue_bounce)
                  (dequeue-remove_other id bounce_id _ new
                    ∙ (dequeue-enqueue bounce_id now _ body sp).0),
            ))
        | inr w ↦ inr (inl w)
      ]
    ],
  )

  handle_temp_fail-Fate :
      (id error : Text) (q : QueuedMessage) (message : Text) (l : Option Text) (sp : Spool)
      → dequeue id sp ≡ some (q, message)
      → id ≢ bounce_id
      → (sp' : Spool) × (handle_temp_fail m now bounce_id stamp id error
            (record q { metadata = record (q.metadata) { last_error = l } })
            sp
          ≡ some sp')
        × (GivenUp id q sp' ⊎ Deferred id q message sp')
  unfolding handle_temp_fail
  handle_temp_fail-Fate id error q message l sp stored new =
      elim (Bool-cases (is_expired m.scheduler now q.metadata.created)) [
        | inl e ↦ (_, rw e refl, inl (give_up-GivenUp id q error [] sp new))
        | inr e ↦ elim (Option-cases (next_retry_time m.scheduler now q.metadata.attempts)) [
          | inl f ↦ (_, rw (e, f) refl, inl (give_up-GivenUp id q error [] sp new))
          | inr (next, f) ↦
              let (sp', done, read, others) =
                update_metadata-some id
                  (record (q.metadata) {
                    next_retry = next;
                    status = deferred;
                    last_error = some error;
                  })
                  sp q message stored in
              (sp', rw (e, f) done, inr (next, error, f, read))
        ]
      ]

  settle-Fate :
      (id : Text) (q : QueuedMessage) (message : Text) (mxs : List MxHost) (a : Attempt)
      (sp : Spool)
      → try_hosts m now bounce_id stamp q.envelope message mxs q.metadata.last_error ≡ a
      → dequeue id sp ≡ some (q, message)
      → id ≢ bounce_id
      → (sp' : Spool) × (settle m now bounce_id stamp id q message a sp ≡ some sp')
        × Fate id q message sp'
  unfolding settle
  settle-Fate id q message mxs (accepted resp) sp e stored new =
      let (mx, addr, mem, at, ok) =
        try_hosts_accepted m now bounce_id stamp q.envelope message mxs _ resp e in
      (remove id sp, refl, inl (dequeue-remove id sp, mx.hostname, addr, resp, ok))
  settle-Fate id q message mxs (refused err) sp e stored new =
      (_, refl, inr (inl (give_up-GivenUp id q err message sp new)))
  settle-Fate id q message mxs (exhausted l) sp e stored new =
      let (sp', done, fate) = handle_temp_fail-Fate id (error_text l) q message l sp stored new in
      (sp', done, inr fate)

  attempt_delivery-Fate :
      (id : Text) (q : QueuedMessage) (message : Text) (r : Resolved) (sp : Spool)
      → dequeue id sp ≡ some (q, message)
      → id ≢ bounce_id
      → (sp' : Spool) × (attempt_delivery m now bounce_id stamp id q message r sp ≡ some sp')
        × Fate id q message sp'
  unfolding attempt_delivery
  attempt_delivery-Fate id q message (failed err) sp stored new =
      let (sp', done, fate) =
        handle_temp_fail-Fate id err q message q.metadata.last_error sp stored new in
      (sp', done, inr fate)
  attempt_delivery-Fate id q message (hosts mxs) sp stored new =
      settle-Fate id q message mxs
        (try_hosts m now bounce_id stamp q.envelope message mxs q.metadata.last_error) sp refl
        stored new

  -- An attempt on a stored message always ends: either a server accepted the message and it left the
  -- spool, or it left the spool and its sender's notification is queued, unless it is one that gets
  -- none or the notification cannot be written, or it stays with the attempt counted until the retry time that the scheduler
  -- gives for that count. The identifier of a notification has to be new.
  pub deliver_message-Fate :
      (id : Text) (q : QueuedMessage) (message : Text) (sp : Spool)
      → dequeue id sp ≡ some (q, message)
      → id ≢ bounce_id
      → (sp' : Spool) × (deliver_message m now bounce_id stamp id sp ≡ some sp')
        × Fate id (activated q) message sp'
  unfolding deliver_message activated
  deliver_message-Fate id q message sp stored new =
      let q' = activated q in
      let (marked, done, read, others) = update_metadata-some id q'.metadata sp q message stored in
      let (sp', after, fate) =
        attempt_delivery-Fate id q' message (m.resolve (recipient_domain q.envelope.rcpt_to)) marked
          read new in
      (sp', rw (stored, done, deliver_message) after, fate)

  pub enqueue_bounce_other :
      (envelope : Envelope) (error message other : Text) (sp : Spool)
      → bounce_id ≢ other
      → dequeue other (enqueue_bounce m now bounce_id stamp envelope error message sp)
        ≡ dequeue other sp
  unfolding enqueue_bounce
  enqueue_bounce_other envelope error message other sp h =
      elim (generate_lem envelope error message) [
        | inl (e, g) ↦ rw (g, enqueue_bounce) refl
        | inr (body, g) ↦ elim (Bool-cases (m.is_writable bounce_id)) [
          | inl w ↦ rw (g, w, enqueue_bounce) ((dequeue-enqueue bounce_id now _ body sp).1 other h)
          | inr w ↦ rw (g, w, enqueue_bounce) refl
        ]
      ]
