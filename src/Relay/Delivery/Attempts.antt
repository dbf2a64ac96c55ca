-- ===== src/Relay/Delivery/Attempts.antt =====
-- How the loop over the hosts of a domain ends.
use mathlib.Core.List.{Memᴰ}
use serverwall.Base.{ℕ, ◌+◌, ◌<◌, arith, ◌≡◌, refl, List, [], ◌∷◌, Option, some, Text}
use serverwall.Core.Types.{IpAddr}
use serverwall.Relay.Spool.{Envelope, QueuedMessage}
use serverwall.Relay.Scheduler.{RetryScheduler, next_retry_time}
use serverwall.Relay.Bounce.{Stamp}
use serverwall.Relay.Delivery.{
  DeliveryResult, success, temp_fail, perm_fail, MxHost, Attempt, accepted, refused, exhausted,
  Manager, try_addresses, try_hosts, activated,
}

module _ (m : Manager) (now : ℕ) (bounce_id : Text) (stamp : Stamp) where
  -- The server at an address of a host accepts the message.
  abbrev pub Accepts : Envelope → Text → Text → IpAddr → Text → Type 0
  Accepts envelope message host addr resp =
      m.send (record { ip = addr; port = 25 }) host envelope.mail_from envelope.rcpt_to message
      ≡ success resp

  try_addresses_accepted :
      (envelope : Envelope) (message host : Text) (addrs : List IpAddr) (e : Option Text)
      (resp : Text)
      → try_addresses m now bounce_id stamp envelope message host addrs e ≡ accepted resp
      → (addr : IpAddr) × Memᴰ addr addrs × Accepts envelope message host addr resp
  unfolding try_addresses
  try_addresses_accepted envelope message host [] e resp h = absurd (cc)
  try_addresses_accepted envelope message host (addr ∷ addrs) e resp h =
      go (m.send (record { ip = addr; port = 25 }) host envelope.mail_from envelope.rcpt_to message)
        refl (λ err k. try_addresses_accepted envelope message host addrs (some err) resp k)
    where
      go :
          (r : DeliveryResult)
          → m.send
              (record { ip = addr; port = 25 })
              host
              envelope.mail_from
              envelope.rcpt_to
              message
            ≡ r
          → ((err : Text)
              → try_addresses m now bounce_id stamp envelope message host addrs (some err)
                ≡ accepted resp
              → (a : IpAddr) × Memᴰ a addrs × Accepts envelope message host a resp)
          → (a : IpAddr) × Memᴰ a (addr ∷ addrs) × Accepts envelope message host a resp
      go (success r) q ih = let k = rw (q, try_addresses) at h in (addr, Memᴰ.head refl, cc)
      go (perm_fail r) q ih = let k = rw (q, try_addresses) at h in absurd (cc)
      go (temp_fail r) q ih =
          let (a, mem, ok) = ih r (rw (q, try_addresses) at h) in (a, Memᴰ.tail mem, ok)

  -- A message counts as accepted only if a server at an address of a resolved host accepted it.
  pub try_hosts_accepted :
      (envelope : Envelope) (message : Text) (mxs : List MxHost) (e : Option Text) (resp : Text)
      → try_hosts m now bounce_id stamp envelope message mxs e ≡ accepted resp
      → (mx : MxHost) × (addr : IpAddr) × Memᴰ mx mxs
        × Memᴰ addr mx.addresses
        × Accepts envelope message mx.hostname addr resp
  unfolding try_hosts
  try_hosts_accepted envelope message [] e resp h = absurd (cc)
  try_hosts_accepted envelope message (mx ∷ mxs) e resp h =
      go (try_addresses m now bounce_id stamp envelope message mx.hostname mx.addresses e) refl
        (λ l k. try_hosts_accepted envelope message mxs l resp k)
    where
      go :
          (r : Attempt)
          → try_addresses m now bounce_id stamp envelope message mx.hostname mx.addresses e ≡ r
          → ((l : Option Text)
              → try_hosts m now bounce_id stamp envelope message mxs l ≡ accepted resp
              → (x : MxHost) × (addr : IpAddr) × Memᴰ x mxs
                × Memᴰ addr x.addresses
                × Accepts envelope message x.hostname addr resp)
          → (x : MxHost) × (addr : IpAddr) × Memᴰ x (mx ∷ mxs)
            × Memᴰ addr x.addresses
            × Accepts envelope message x.hostname addr resp
      go (accepted r) q ih =
          let k = rw (q, try_hosts) at h in
          let (addr, mem, ok) =
            try_addresses_accepted envelope message mx.hostname mx.addresses e resp (cc) in
          (mx, addr, Memᴰ.head refl, mem, ok)
      go (refused r) q ih = let k = rw (q, try_hosts) at h in absurd (cc)
      go (exhausted l) q ih =
          let (x, addr, mem, at, ok) = ih l (rw (q, try_hosts) at h) in
          (x, addr, Memᴰ.tail mem, at, ok)

-- The attempt is counted before the retry is scheduled, so the first failure of a message that was
-- never tried waits for the second interval of the list, and the first interval is not used.
pub retry_skips_first :
    (s : RetryScheduler) (q : QueuedMessage) (now first second : ℕ) (later : List ℕ)
    → q.metadata.attempts ≡ 0
    → s.intervals ≡ first ∷ second ∷ later
    → 1 < s.max_attempts
    → next_retry_time s now (activated q).metadata.attempts ≡ some (now + second)
unfolding activated next_retry_time
retry_skips_first s q now first second later none_yet listed more =
    rw (none_yet, listed) (ground arith)
