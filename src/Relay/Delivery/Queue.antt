-- ===== src/Relay/Delivery/Queue.antt =====
-- serverwall-relay/src/delivery/mod.rs: one pass over the queue, as with a single delivery thread,
-- which makes a task wait for the one before it. An attempt on a message has its own instant, and a
-- bounce of it its own identifier and stamp. The error of an attempt, which comes before it writes
-- anything, is only logged.
pub mod Passes
use serverwall.Base.{ℕ, List, [], ◌∷◌, Option, none, some, if◌then◌else◌, Text}
use serverwall.Relay.Spool.{QueuedMessage, Spool, list}
use serverwall.Relay.Bounce.{Stamp}
use serverwall.Relay.Delivery.{Manager, is_due, deliver_message}

pub record Occasion : Type 0 where
  pub now : ℕ
  pub bounce_id : Text
  pub stamp : Stamp

abbrev pub or_unchanged : Spool → Option Spool → Spool
or_unchanged sp none = sp
or_unchanged sp (some sp') = sp'

module _ (m : Manager) (occasion : Text → Occasion) where
  -- The task that is spawned for a message.
  unfoldable pub attempted : Text → Spool → Spool
  attempted id sp =
      let o = occasion id in or_unchanged sp (deliver_message m o.now o.bounce_id o.stamp id sp)

  unfoldable pub deliver_due : ℕ → List QueuedMessage → Spool → Spool
  unfolding attempted
  deliver_due now [] sp = sp
  deliver_due now (q ∷ qs) sp = deliver_due now qs (if is_due now q then attempted q.id sp else sp)

  unfoldable pub process_queue : ℕ → Spool → Spool
  unfolding deliver_due
  process_queue now sp = deliver_due now (list sp) sp
