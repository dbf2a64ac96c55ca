-- ===== src/Waf/RateLimit.antt =====
-- serverwall-waf/src/rate_limit/mod.rs: token buckets by key. `f64` is a parameter with its
-- operations; an instant is a number of nanoseconds since the start, and a request reads the clock
-- once.
pub mod Buckets
use serverwall.Base.{
  ℕ, ◌-◌, ◌/◌, ◌^◌, ◌≡◌, ◌≢◌, refl, ◌≤◌, List, [], ◌∷◌, Option, none, some, Bool, true, false,
  if◌then◌else◌, ltb, Text, codes, text_eq, text_eq_iff, text_eq_refl, strip_prefix, get, insert,
  retain, Bool-cases, inl, inr, arith, sym, ◌∙◌, ap,
}
use serverwall.Core.Types.{IpAddr}

pub data RateLimitKey : Type 0 where
  client_ip : RateLimitKey
  header : Text → RateLimitKey

-- `RateLimitKey::from_str`.
unfoldable pub key_of : Text → RateLimitKey
key_of s =
    if text_eq s (codes "client_ip")
    then client_ip
    else elim (strip_prefix (codes "header:") s) [ some name ↦ header name | none ↦ client_ip ]

-- `seconds` is the duration of so many nanoseconds.
pub record Float (F : Type 0) : Type 0 where
  pub of_ℕ : ℕ → F
  pub seconds : ℕ → F
  pub add : F → F → F
  pub sub : F → F → F
  pub mul : F → F → F
  pub div : F → F → F
  pub min : F → F → F
  pub lt : F → F → Bool
  pub le : F → F → Bool

pub record TokenBucket (F : Type 0) : Type 0 where
  pub tokens : F
  pub max_tokens : F
  pub refill_rate : F
  pub last_refill : ℕ

-- `buckets` is the map of the keys.
pub record RateLimiter (F : Type 0) : Type 0 where
  pub buckets : List (Text × TokenBucket F)
  pub max_requests : F
  pub refill_rate : F

module _ {F : Type 0} (f : Float F) where
  unfoldable pub new_bucket : F → F → ℕ → TokenBucket F
  new_bucket max_tokens refill_rate now = record {
    tokens = max_tokens;
    max_tokens = max_tokens;
    refill_rate = refill_rate;
    last_refill = now;
  }

  unfoldable pub refill : TokenBucket F → ℕ → TokenBucket F
  refill b now =
      let elapsed = f.seconds (now - b.last_refill) in
      if f.lt (f.of_ℕ 0) elapsed
      then record b {
        tokens = f.min (f.add b.tokens (f.mul elapsed b.refill_rate)) b.max_tokens;
        last_refill = now;
      }
      else b

  unfoldable pub try_consume : TokenBucket F → ℕ → TokenBucket F × Bool
  unfolding refill
  try_consume b0 now =
      let b = refill b0 now in
      if f.le (f.of_ℕ 1) b.tokens
      then (record b { tokens = f.sub b.tokens (f.of_ℕ 1) }, true)
      else (b, false)

  unfoldable pub with_limits : ℕ → ℕ → RateLimiter F
  with_limits max_requests window_secs =
      let max = f.of_ℕ max_requests in
      record {
        buckets = [];
        max_requests = max;
        refill_rate = if ltb 0 window_secs then f.div max (f.of_ℕ window_secs) else max;
      }

  -- `RateLimiter::new`.
  unfoldable pub default_limiter : RateLimiter F
  unfolding with_limits
  default_limiter = with_limits 100 60

  or_new : Option (TokenBucket F) → RateLimiter F → ℕ → TokenBucket F
  unfolding new_bucket
  or_new none l now = new_bucket l.max_requests l.refill_rate now
  or_new (some b) l now = b

  unfoldable pub check_key : RateLimiter F → Text → ℕ → RateLimiter F × Bool
  unfolding or_new try_consume
  check_key l key now =
      let (b, allowed) = try_consume (or_new (get key l.buckets) l now) now in
      (record l { buckets = insert key b l.buckets }, allowed)

  -- `RateLimiter::is_allowed`, with the printed address.
  unfoldable pub is_address_allowed :
      (IpAddr → Text) → RateLimiter F → IpAddr → ℕ → RateLimiter F × Bool
  unfolding check_key
  is_address_allowed show_ip l addr now = check_key l (show_ip addr) now

unfoldable pub is_recent : {F : Type 0} → ℕ → TokenBucket F → Bool
is_recent now b = ltb ((now - b.last_refill) / 10 ^ 9) 300

unfoldable pub cleanup : {F : Type 0} → RateLimiter F → ℕ → RateLimiter F
unfolding is_recent
cleanup {F} l now = record l {
  buckets = retain (λ (e : Text × TokenBucket F). is_recent now e.1) l.buckets;
}
