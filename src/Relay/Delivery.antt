-- ===== src/Relay/Delivery.antt =====
-- serverwall-relay/src/delivery/mod.rs: one delivery attempt of a queued message, on the spool. The
-- resolver and the SMTP sender are functions, whose answers may differ from call to call only with
-- their arguments; `now` is the clock, read once in an attempt, and `bounce_id` and `stamp` are what
-- a bounce would get. `none` is an error of the spool.
pub mod Attempts
pub mod Fates
pub mod Others
pub mod Queue
use serverwall.Base.{
  ℕ, ◌+◌, ◌%◌, ◌^◌, Bool, List, [], ◌∷◌, Option, none, some, if◌then◌else◌, Text, codes, last_part,
  leb, ◌&&◌,
}
use serverwall.Core.Types.{IpAddr, SocketAddr}
use serverwall.Relay.Spool.{
  Envelope, QueueStatus, pending, active, deferred, held, MessageMetadata, QueuedMessage, Spool,
  enqueue, dequeue, remove, update_metadata,
}
use serverwall.Relay.Scheduler.{RetryScheduler, next_retry_time, is_expired}
use serverwall.Relay.Bounce.{BounceGenerator, Stamp, generate}

pub data DeliveryResult : Type 0 where
  success temp_fail perm_fail : Text → DeliveryResult

pub record MxHost : Type 0 where
  pub hostname : Text
  pub priority : ℕ
  pub addresses : List IpAddr

pub data Resolved : Type 0 where
  hosts : List MxHost → Resolved
  failed : Text → Resolved

-- How the loop over hosts and addresses ends: at an address that accepts or refuses the message, or
-- with the last temporary error.
pub data Attempt : Type 0 where
  accepted refused : Text → Attempt
  exhausted : Option Text → Attempt

pub record Manager : Type 0 where
  pub scheduler : RetryScheduler
  pub bounce_gen : BounceGenerator
  pub resolve : Text → Resolved
  pub send : SocketAddr → Text → Text → List Text → Text → DeliveryResult
  -- Whether a bounce with that identifier can be written into the spool.
  pub is_writable : Text → Bool

-- A pending or deferred message whose retry time has come.
waiting : QueueStatus → Bool
waiting pending = Bool.true
waiting deferred = Bool.true
waiting active = Bool.false
waiting held = Bool.false

unfoldable pub is_due : ℕ → QueuedMessage → Bool
unfolding waiting
is_due now q = waiting q.metadata.status && leb q.metadata.next_retry now

-- The part after the last `@` of the first recipient.
recipient_domain : List Text → Text
recipient_domain [] = codes "localhost"
recipient_domain (r ∷ rs) = last_part b'@' r

error_text : Option Text → Text
error_text none = []
error_text (some e) = e

-- The message with its attempt counted, in 32 bits.
pub activated : QueuedMessage → QueuedMessage
activated queued = record queued {
  metadata = record (queued.metadata) {
    status = active;
    attempts = (queued.metadata.attempts + 1) % 2 ^ 32;
  };
}

module _ (m : Manager) (now : ℕ) (bounce_id : Text) (stamp : Stamp) where
  try_addresses : Envelope → Text → Text → List IpAddr → Option Text → Attempt
  try_addresses envelope message host [] last_error = exhausted last_error
  try_addresses envelope message host (addr ∷ addrs) last_error =
      elim (m.send (record { ip = addr; port = 25 }) host envelope.mail_from envelope.rcpt_to
        message) [
          | success resp ↦ accepted resp
          | perm_fail err ↦ refused err
          | temp_fail err ↦ try_addresses envelope message host addrs (some err)
        ]

  pub try_hosts : Envelope → Text → List MxHost → Option Text → Attempt
  unfolding try_addresses
  try_hosts envelope message [] last_error = exhausted last_error
  try_hosts envelope message (mx ∷ mxs) last_error =
      elim (try_addresses envelope message mx.hostname mx.addresses last_error) [
        | accepted resp ↦ accepted resp
        | refused err ↦ refused err
        | exhausted e ↦ try_hosts envelope message mxs e
      ]

  -- The bounce, if there is one, is queued; an error of that is dropped, and then nothing that is
  -- ever read is left.
  pub enqueue_bounce : Envelope → Text → Text → Spool → Spool
  enqueue_bounce envelope error message sp =
      elim (generate m.bounce_gen stamp envelope error message) [
        | none ↦ sp
        | some (bounce_env, bounce_msg) ↦
            if m.is_writable bounce_id then enqueue bounce_id now bounce_env bounce_msg sp else sp
      ]

  -- The message is given up, whether or not its bounce could be queued.
  give_up : Text → Envelope → Text → Text → Spool → Spool
  unfolding enqueue_bounce
  give_up id envelope error message sp = remove id (enqueue_bounce envelope error message sp)

  handle_temp_fail : Text → Text → QueuedMessage → Spool → Option Spool
  unfolding give_up
  handle_temp_fail id error queued sp =
      if is_expired m.scheduler now queued.metadata.created
      then some (give_up id queued.envelope error [] sp)
      else elim (next_retry_time m.scheduler now queued.metadata.attempts) [
        | none ↦ some (give_up id queued.envelope error [] sp)
        | some next ↦
            update_metadata id
              (record (queued.metadata) {
                next_retry = next;
                status = deferred;
                last_error = some error;
              })
              sp
      ]

  -- After the loop over the hosts.
  settle : Text → QueuedMessage → Text → Attempt → Spool → Option Spool
  unfolding give_up handle_temp_fail error_text
  settle id queued message (accepted resp) sp = some (remove id sp)
  settle id queued message (refused err) sp = some (give_up id queued.envelope err message sp)
  settle id queued message (exhausted e) sp =
      handle_temp_fail id (error_text e)
        (record queued { metadata = record (queued.metadata) { last_error = e } }) sp

  -- With the message marked active.
  attempt_delivery : Text → QueuedMessage → Text → Resolved → Spool → Option Spool
  unfolding try_hosts settle handle_temp_fail
  attempt_delivery id queued message (failed err) sp = handle_temp_fail id err queued sp
  attempt_delivery id queued message (hosts mxs) sp =
      settle id queued message (try_hosts queued.envelope message mxs queued.metadata.last_error) sp

  unfoldable pub deliver_message : Text → Spool → Option Spool
  unfolding recipient_domain attempt_delivery activated
  deliver_message id sp = elim (dequeue id sp) [
    | none ↦ none
    | some (queued, message) ↦ elim (update_metadata id (activated queued).metadata sp) [
      | none ↦ none
      | some marked ↦
          attempt_delivery id (activated queued) message
            (m.resolve (recipient_domain queued.envelope.rcpt_to)) marked
    ]
  ]
