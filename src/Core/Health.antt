-- ===== src/Core/Health.antt =====
-- serverwall-core/src/health: the states of a backend, and of checker.rs its construction and one
-- round of checks. The probe of a backend over the network is a parameter; durations are
-- milliseconds, and the product of minutes wraps at 64 bits as in a release build.
use serverwall.Base.{
  ℕ, zero, suc, ◌+◌, ◌-◌, ◌*◌, ◌%◌, ◌^◌, ◌≡◌, refl, List, [], ◌∷◌, Option, none, some, Bool, true,
  false, ◌&&◌, if◌then◌else◌, ltb, leb, ◌==◌, is_empty, and_then, Text, codes, trim, strip_prefix,
  get_elem?,
}
use mathlib.Core.List.{reverse}
use serverwall.Core.Types.{Backend}

pub data BackendHealth : Type 0 where
  healthy suspect down : BackendHealth

unfoldable pub receives_traffic : BackendHealth → Bool
receives_traffic BackendHealth.healthy = true
receives_traffic BackendHealth.suspect = false
receives_traffic BackendHealth.down = false

unfoldable pub health_text : BackendHealth → Text
health_text BackendHealth.healthy = codes "healthy"
health_text BackendHealth.suspect = codes "suspect"
health_text BackendHealth.down = codes "down"

pub data HealthCheckType : Type 0 where
  tcp http smtp imap stratum : HealthCheckType

-- `str::parse::<u64>`: digits, at least one, after an optional plus sign.
u64_digits : ℕ → Text → Option ℕ
u64_digits acc [] = some acc
u64_digits acc (c ∷ s) =
    let n = acc * 10 + (c - b'0') in
    let rest = u64_digits n s in if leb b'0' c && (leb c b'9' && ltb n (2 ^ 64)) then rest else none

unfoldable pub parse_u64 : Text → Option ℕ
unfolding u64_digits
parse_u64 [] = none
parse_u64 (c ∷ s) =
    if c == b'+' then (if is_empty s then none else u64_digits 0 s) else u64_digits 0 (c ∷ s)

strip_suffix : Text → Text → Option Text
strip_suffix suffix s = and_then (strip_prefix (reverse suffix) (reverse s)) (λ t. some (reverse t))

or_default : ℕ → Option ℕ → ℕ
or_default n none = n
or_default n (some m) = m

-- The branches on the suffix, from the last one to the first.
seconds_plain : Text → ℕ
unfolding parse_u64 or_default
seconds_plain s = or_default 10 (parse_u64 s) * 1000

minutes_or : Text → Option Text → ℕ
unfolding seconds_plain
minutes_or s none = seconds_plain s
minutes_or s (some num) = or_default 1 (parse_u64 num) * 60 % 2 ^ 64 * 1000

seconds_or : Text → Option Text → ℕ
unfolding minutes_or strip_suffix
seconds_or s none = minutes_or s (strip_suffix (codes "m") s)
seconds_or s (some num) = or_default 10 (parse_u64 num) * 1000

millis_or : Text → Option Text → ℕ
unfolding seconds_or
millis_or s none = seconds_or s (strip_suffix (codes "s") s)
millis_or s (some num) = or_default 10000 (parse_u64 num)

unfoldable pub parse_duration : Text → ℕ
unfolding millis_or
parse_duration text = let s = trim text in millis_or s (strip_suffix (codes "ms") s)

-- `backend.healthy.swap(healthy)` for each backend, in one round.
unfoldable pub checked_backend : (Backend → Bool) → Backend → Backend
checked_backend probe b = record b { healthy = probe b }

unfoldable pub check_round : (Backend → Bool) → List Backend → List Backend
unfolding checked_backend
check_round probe [] = []
check_round probe (b ∷ bs) = checked_backend probe b ∷ check_round probe bs

-- A round keeps the positions of the backends.
pub check_round-get :
    (probe : Backend → Bool) (bs : List Backend) (i : ℕ) (b' : Backend)
    → get_elem? (check_round probe bs) i ≡ some b'
    → (b : Backend) × (get_elem? bs i ≡ some b) × (checked_backend probe b ≡ b')
unfolding check_round
check_round-get probe [] i b' h = absurd (cc)
check_round-get probe (b ∷ bs) zero b' h = (b, refl, cc)
check_round-get probe (b ∷ bs) (suc i) b' h = check_round-get probe bs i b' h

pub check_round-at :
    (probe : Backend → Bool) (bs : List Backend) (i : ℕ) (b : Backend)
    → get_elem? bs i ≡ some b
    → get_elem? (check_round probe bs) i ≡ some (checked_backend probe b)
unfolding check_round
check_round-at probe [] i b h = absurd (cc)
check_round-at probe (c ∷ bs) zero b h = let e : c ≡ b = cc in rw e refl
check_round-at probe (c ∷ bs) (suc i) b h = check_round-at probe bs i b h
