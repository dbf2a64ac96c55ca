-- ===== src/Antispam/RateLimit.antt =====
-- serverwall-antispam/src/predata/rate_limit.rs: the sliding windows over addresses, senders and
-- domains. An instant is a number of nanoseconds, as is the window.
pub mod Windows
pub mod History
use serverwall.Base.{
  ℕ, ◌+◌, ◌-◌, List, [], ◌∷◌, ◌++◌, Option, none, some, Bool, true, false, if◌then◌else◌, ltb,
  is_empty, retain, length, get, insert, Text, codes, decimal, to_lowercase, trim_end, after_last,
  ◌==◌,
}
use serverwall.Core.Types.{IpAddr}
use serverwall.Antispam.Score.{FloatOps, CheckOutcome, CheckCategory, ScoreContribution}
use serverwall.Antispam.Pipeline.{EnvelopeContext}

-- `WindowEntry`, and a map of them.
abbrev pub Window : Type 0
Window = List ℕ

abbrev pub WindowMap : Type 0
WindowMap = List (Text × Window)

-- `WindowEntry::record` and `WindowEntry::count`.
unfoldable pub record_at : ℕ → ℕ → Window → Window
record_at now window timestamps = retain (λ t. ltb (now - t) window) timestamps ++ (now ∷ [])

unfoldable pub count_at : ℕ → ℕ → Window → ℕ
count_at now window timestamps = length (retain (λ t. ltb (now - t) window) timestamps)

or_new_window : Option Window → Window
or_new_window none = []
or_new_window (some timestamps) = timestamps

-- The entry of a key, which is made if it is missing.
unfoldable pub entry : Text → WindowMap → Window
unfolding or_new_window
entry key m = or_new_window (get key m)

unfoldable pub touch : ℕ → ℕ → Text → WindowMap → WindowMap
unfolding record_at entry
touch now window key m = insert key (record_at now window (entry key m)) m

pub record SmtpRateLimitCheck (F : Type 0) : Type 0 where
  pub weight : F
  pub max_per_ip : ℕ
  pub max_per_domain : ℕ
  pub max_per_sender : ℕ
  pub window : ℕ
  pub ip_map : WindowMap
  pub domain_map : WindowMap
  pub sender_map : WindowMap

abbrev pub Answer : Type 0 → Type 0
Answer F = CheckOutcome F × Option (ScoreContribution F)

module _ {F : Type 0} (f : FloatOps F) (show_ip : IpAddr → Text) where
  unfoldable pub new_check : F → ℕ → ℕ → ℕ → ℕ → SmtpRateLimitCheck F
  new_check weight max_per_ip max_per_domain max_per_sender window = record {
    weight = weight;
    max_per_ip = max_per_ip;
    max_per_domain = max_per_domain;
    max_per_sender = max_per_sender;
    window = window;
    ip_map = [];
    domain_map = [];
    sender_map = [];
  }

  contribution : F → Text → ScoreContribution F
  contribution severity description = record {
    check_name = codes "rate_limit";
    category = CheckCategory.rate_limit;
    score = severity;
    description = description;
  }

  -- `count/max`.
  ratio : ℕ → ℕ → Text
  ratio count max = decimal count ++ (codes "/" ++ decimal max)

  -- The number of tenths as an `f64`.
  tenths : ℕ → F
  tenths n = f.div (f.of_ℕ n) (f.of_ℕ 10)

  check_domain_key : SmtpRateLimitCheck F → Text → ℕ → SmtpRateLimitCheck F × Answer F
  unfolding contribution ratio tenths
  check_domain_key c key now =
      let touched = touch now c.window key c.domain_map in
      let count = count_at now c.window (entry key touched) in
      let severity = f.mul c.weight (tenths 6) in
      let c' : SmtpRateLimitCheck F = record c { domain_map = touched } in
      if ltb c.max_per_domain count
      then (
        c',
        (
          CheckOutcome.hit severity (
              codes "Domain rate limit: "
              ++ (key ++ (codes " (" ++ (ratio count c.max_per_domain ++ codes ")")))),
          some (contribution severity (codes "Domain " ++ (key ++ codes " rate limit"))),
        ),
      )
      else (c', (CheckOutcome.pass, none))

  check_domain_part : SmtpRateLimitCheck F → Option Text → ℕ → SmtpRateLimitCheck F × Answer F
  unfolding check_domain_key
  check_domain_part c none now = (c, (CheckOutcome.pass, none))
  check_domain_part c (some domain) now =
      check_domain_key c (to_lowercase (trim_end (λ d. d == b'>') domain)) now

  check_domain : SmtpRateLimitCheck F → Text → ℕ → SmtpRateLimitCheck F × Answer F
  unfolding check_domain_part
  check_domain c mail_from now = check_domain_part c (after_last b'@' mail_from) now

  check_sender : SmtpRateLimitCheck F → Text → ℕ → SmtpRateLimitCheck F × Answer F
  unfolding check_domain contribution ratio tenths
  check_sender c mail_from now =
      let key = to_lowercase mail_from in
      let touched = touch now c.window key c.sender_map in
      let count = count_at now c.window (entry key touched) in
      let severity = f.mul c.weight (tenths 8) in
      let c' : SmtpRateLimitCheck F = record c { sender_map = touched } in
      if is_empty mail_from
      then check_domain c mail_from now
      else if ltb c.max_per_sender count
      then (
        c',
        (
          CheckOutcome.hit severity (
              codes "Sender rate limit: "
              ++ (mail_from ++ (codes " (" ++ (ratio count c.max_per_sender ++ codes ")")))),
          some (contribution severity (codes "Sender " ++ (mail_from ++ codes " rate limit"))),
        ),
      )
      else check_domain c' mail_from now

  unfoldable pub check_rates :
      SmtpRateLimitCheck F → EnvelopeContext → ℕ → SmtpRateLimitCheck F × Answer F
  unfolding check_sender contribution ratio
  check_rates c ctx now =
      let key = show_ip ctx.client_ip in
      let touched = touch now c.window key c.ip_map in
      let count = count_at now c.window (entry key touched) in
      let severity = f.mul c.weight (f.of_ℕ 1) in
      let c' : SmtpRateLimitCheck F = record c { ip_map = touched } in
      if ltb c.max_per_ip count
      then (
        c',
        (
          CheckOutcome.reject (
              codes "Rate limit exceeded for IP "
              ++ (key ++ (codes " (" ++ (ratio count c.max_per_ip ++ codes ")")))),
          some (contribution severity (codes "IP " ++ (key ++ codes " rate limit exceeded"))),
        ),
      )
      else check_sender c' ctx.mail_from now
