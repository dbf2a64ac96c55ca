-- ===== src/Relay/Scheduler.antt =====
-- serverwall-relay/src/queue/scheduler.rs, from the parsed configuration on. Instants and durations
-- are seconds; `now` is the clock, read once by an operation. Durations are not negative.
use serverwall.Base.{
  ℕ, ◌+◌, ◌<◌, ◌≤◌, ◌≡◌, Bool, List, Option, none, some, arith, if◌then◌else◌, ltb, leb, length,
  get_elem?, last?,
}

pub record RetryScheduler : Type 0 where
  pub intervals : List ℕ
  pub max_age : ℕ
  pub max_attempts : ℕ

abbrev or_hour : Option ℕ → ℕ
or_hour none = 3600
or_hour (some d) = d

-- The delay after an attempt: its interval, or past the end of the list the last one.
delay : List ℕ → ℕ → ℕ
delay intervals attempt =
    or_hour
      (if ltb attempt (length intervals) then get_elem? intervals attempt else last? intervals)

unfoldable pub next_retry_time : RetryScheduler → ℕ → ℕ → Option ℕ
unfolding delay
next_retry_time s now attempt =
    if leb s.max_attempts attempt then none else some (now + delay s.intervals attempt)

unfoldable pub is_expired : RetryScheduler → ℕ → ℕ → Bool
is_expired s now created = ltb (created + s.max_age) now

-- A retry is given exactly before the last attempt, and never before now.
pub next_retry_time-some :
    (s : RetryScheduler) (now attempt next : ℕ)
    → next_retry_time s now attempt ≡ some next
    → (attempt < s.max_attempts) × (now ≤ next)
unfolding next_retry_time
next_retry_time-some s now attempt next h = (ground arith, ground arith)
