-- ===== src/Relay/Delivery/Queue/Passes.antt =====
-- What becomes of every message in a pass over the queue.
use mathlib.Core.List.{Memᴰ}
use serverwall.Base.{
  ℕ, ◌≤◌, arith, length, ◌≡◌, refl, ◌≢◌, ◌∙◌, sym, true, Bool-cases, List, [], ◌∷◌, none, some,
  Text, inl, inr, Option-cases,
}
use serverwall.Relay.Spool.{Envelope, pending, QueuedMessage, Spool, fresh, enqueue, dequeue, list}
use serverwall.Relay.Spool.Queries.{dequeue-enqueue}
use serverwall.Relay.Spool.Files.{write}
use serverwall.Relay.Delivery.{Manager, waiting, is_due, deliver_message, activated}
use serverwall.Relay.Delivery.Fates.{Fate, deliver_message-Fate}
use serverwall.Relay.Delivery.Others.{deliver_message-Keeps}
use serverwall.Relay.Delivery.Queue.{Occasion, attempted, deliver_due, process_queue}

module _ (m : Manager) (occasion : Text → Occasion) where
  -- Neither a due message of the list nor its notification has the identifier.
  abbrev pub Unused : ℕ → Text → List QueuedMessage → Type 0
  Unused now other [] = Unit
  Unused now other (q ∷ qs) =
      (is_due now q ≡ true → (q.id ≢ other) × ((occasion q.id).bounce_id ≢ other))
      × Unused now other qs

  -- The due messages and their notifications have identifiers of their own.
  abbrev pub Distinct : ℕ → List QueuedMessage → Type 0
  Distinct now [] = Unit
  Distinct now (q ∷ qs) =
      (is_due now q ≡ true
        → (q.id ≢ (occasion q.id).bounce_id)
          × Unused now q.id qs
          × Unused now (occasion q.id).bounce_id qs)
      × Distinct now qs

  Unused-Memᴰ :
      (now : ℕ) (other : Text) (qs : List QueuedMessage) (q : QueuedMessage)
      → Unused now other qs
      → Memᴰ q qs
      → is_due now q ≡ true
      → q.id ≢ other
  Unused-Memᴰ now other [] q unused mem due = elim mem [ ]
  Unused-Memᴰ now other (p ∷ qs) q (h, hs) (Memᴰ.head e) due = rw (e) ((h (rw (sym e) due)).0)
  Unused-Memᴰ now other (p ∷ qs) q (h, hs) (Memᴰ.tail mem) due =
      Unused-Memᴰ now other qs q hs mem due

  attempted_other :
      (id other : Text) (sp : Spool)
      → id ≢ other
      → (occasion id).bounce_id ≢ other
      → dequeue other (attempted m occasion id sp) ≡ dequeue other sp
  unfolding attempted
  attempted_other id other sp h new =
      let o = occasion id in
      elim (Option-cases (deliver_message m o.now o.bounce_id o.stamp id sp)) [
        | inl e ↦ rw (e, attempted) refl
        | inr (sp', e) ↦
            rw (e, attempted)
              (deliver_message-Keeps m o.now o.bounce_id o.stamp id other sp h new sp' e)
      ]

  deliver_due_other :
      (now : ℕ) (other : Text) (qs : List QueuedMessage) (sp : Spool)
      → Unused now other qs
      → dequeue other (deliver_due m occasion now qs sp) ≡ dequeue other sp
  unfolding deliver_due
  deliver_due_other now other [] sp unused = refl
  deliver_due_other now other (q ∷ qs) sp (h, hs) = elim (Bool-cases (is_due now q)) [
    | inl e ↦ rw (e) (
        deliver_due_other now other qs (attempted m occasion q.id sp) hs
        ∙ attempted_other q.id other sp ((h e).0) ((h e).1))
    | inr e ↦ rw (e) (deliver_due_other now other qs sp hs)
  ]

  -- What becomes of the message in its attempt.
  abbrev pub Settled : QueuedMessage → Text → Spool → Type 0
  Settled q message sp =
      Fate m (occasion q.id).now (occasion q.id).bounce_id (occasion q.id).stamp q.id (activated q)
        message sp

  attempted-Settled :
      (q : QueuedMessage) (message : Text) (sp : Spool)
      → dequeue q.id sp ≡ some (q, message)
      → q.id ≢ (occasion q.id).bounce_id
      → Settled q message (attempted m occasion q.id sp)
  unfolding attempted
  attempted-Settled q message sp stored new =
      let o = occasion q.id in
      let (sp', done, fate) =
        deliver_message-Fate m o.now o.bounce_id o.stamp q.id q message sp stored new in
      rw (done, attempted) fate

  Settled-same :
      (q : QueuedMessage) (message : Text) (sp sp' : Spool)
      → dequeue q.id sp' ≡ dequeue q.id sp
      → dequeue (occasion q.id).bounce_id sp' ≡ dequeue (occasion q.id).bounce_id sp
      → Settled q message sp
      → Settled q message sp'
  Settled-same q message sp sp' own other fate = rw (own, other) fate

  deliver_first-Settled :
      (now : ℕ) (q : QueuedMessage) (message : Text) (qs : List QueuedMessage) (sp : Spool)
      → Distinct now (q ∷ qs)
      → is_due now q ≡ true
      → dequeue q.id sp ≡ some (q, message)
      → Settled q message (deliver_due m occasion now (q ∷ qs) sp)
  unfolding deliver_due
  deliver_first-Settled now q message qs sp (h, hs) due stored =
      let (own, first, notice) = h due in
      let after = attempted m occasion q.id sp in
      rw (due) (
        Settled-same q message after (deliver_due m occasion now qs after)
          (deliver_due_other now q.id qs after first)
          (deliver_due_other now (occasion q.id).bounce_id qs after notice)
          (attempted-Settled q message sp stored own))

  deliver_due-Settled :
      (now : ℕ) (q : QueuedMessage) (message : Text) (qs : List QueuedMessage) (sp : Spool)
      → Distinct now qs
      → Memᴰ q qs
      → is_due now q ≡ true
      → dequeue q.id sp ≡ some (q, message)
      → Settled q message (deliver_due m occasion now qs sp)
  unfolding deliver_due
  deliver_due-Settled now q message [] sp apart mem due stored = elim mem [ ]
  deliver_due-Settled now q message (p ∷ qs) sp apart (Memᴰ.head e) due stored =
      rw (sym e) (deliver_first-Settled now q message qs sp (rw (e) apart) due stored)
  deliver_due-Settled now q message (p ∷ qs) sp (h, hs) (Memᴰ.tail mem) due stored =
      elim (Bool-cases (is_due now p)) [
        | inl e ↦
            let (own, first, notice) = h e in
            let apart = Unused-Memᴰ now p.id qs q first mem due in
            let new = Unused-Memᴰ now (occasion p.id).bounce_id qs q notice mem due in
            let kept =
              attempted_other p.id q.id sp (λ k. apart (sym k)) (λ k. new (sym k)) ∙ stored in
            rw (e)
              (deliver_due-Settled now q message qs (attempted m occasion p.id sp) hs mem due kept)
        | inr e ↦ rw (e) (deliver_due-Settled now q message qs sp hs mem due stored)
      ]

  -- What a pass over the queue does to each message, if the files of the spool can be read, rewritten
  -- and removed: a due message that is stored was accepted by a server and left the spool, or left the
  -- spool with its sender's notification queued, unless the sender gets none or the notification
  -- cannot be written, or stays with its attempt counted until the retry time that the scheduler
  -- gives; what no due message and no notification has as identifier stays as it was. The due messages
  -- and their notifications need distinct identifiers.
  pub process_queue-Settled :
      (now : ℕ) (sp : Spool)
      → Distinct now (list sp)
      → ((q : QueuedMessage) (message : Text)
          → Memᴰ q (list sp)
          → is_due now q ≡ true
          → dequeue q.id sp ≡ some (q, message)
          → Settled q message (process_queue m occasion now sp))
        × ((other : Text)
            → Unused now other (list sp)
            → dequeue other (process_queue m occasion now sp) ≡ dequeue other sp)
  unfolding process_queue
  process_queue-Settled now sp apart = (
    λ q message mem due stored. deliver_due-Settled now q message (list sp) sp apart mem due stored,
    λ other unused. deliver_due_other now other (list sp) sp unused,
  )

  -- A message as it is queued, written out.
  abbrev pub queued : Text → ℕ → Envelope → Text → QueuedMessage
  queued id instant envelope message = record {
    id = id;
    envelope = envelope;
    metadata = record {
      created = instant;
      next_retry = instant;
      attempts = 0;
      last_error = none;
      status = pending;
      size = length message;
    };
  }

  -- A message that is queued is read back with its envelope and its bytes, pending and without an
  -- attempt; it is listed, it is due from that instant on, and an attempt on it, with a new identifier
  -- for its notification, delivers it, gives it up or defers it. Every other message is as it was.
  pub enqueue-Settled :
      (id : Text) (instant later : ℕ) (envelope : Envelope) (message : Text) (sp : Spool)
      → instant ≤ later
      → id ≢ (occasion id).bounce_id
      → let sp' = enqueue id instant envelope message sp in
        let q = queued id instant envelope message in
        (dequeue id sp' ≡ some (q, message))
        × Memᴰ q (list sp')
        × (is_due later q ≡ true)
        × Settled q message (attempted m occasion id sp')
        × ((other : Text) → id ≢ other → dequeue other sp' ≡ dequeue other sp)
  unfolding enqueue list fresh is_due waiting write
  enqueue-Settled id instant later envelope message sp h new =
      let sp' = enqueue id instant envelope message sp in
      let (read, others) = dequeue-enqueue id instant envelope message sp in
      (
        read,
        Memᴰ.head refl,
        ground arith,
        attempted-Settled (queued id instant envelope message) message sp' read new,
        others,
      )
