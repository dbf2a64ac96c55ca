-- ===== src/Tests/Spam.antt =====
-- Three checks of one address with a limit of two, and a backend that refuses the recipient.
use Prim.Native.Nat.{◌/◌}
use serverwall.Base.{
  ℕ, ◌+◌, ◌*◌, ◌≡◌, refl, List, [], ◌∷◌, ◌++◌, none, true, false, ltb, leb, Text, codes, arith,
}
use serverwall.Core.Types.{IpAddr, v4}
use serverwall.Antispam.Score.{FloatOps, SpamReport, clean, default_auth}
use serverwall.Antispam.Pipeline.{EnvelopeContext}
use serverwall.Antispam.RateLimit.{SmtpRateLimitCheck, check_rates}
use serverwall.Antispam.RateLimit.History.{after, attempts, is_reject, check_rates-attempts}
use serverwall.Proxy.Smtp.Forward.{SmtpHeadersConfig, dialogue, is_last}
use serverwall.Proxy.Smtp.Forward.Answers.{script, dialogue_blind}

abbrev show_ip : IpAddr → Text
show_ip ip = codes "192.0.2.7"

-- Numbers in place of floating-point ones.
abbrev counts : FloatOps ℕ
counts = record {
  of_ℕ = λ n. n;
  add = λ a b. a + b;
  mul = λ a b. a * b;
  div = λ a b. a / b;
  lt = ltb;
  le = leb;
}

abbrev envelope : EnvelopeContext
envelope = record {
  client_ip = v4 192 0 2 7;
  helo_domain = codes "mail.example.org";
  mail_from = codes "a@example.org";
  rcpt_to = [];
  early_talker = false;
  connect_time = 0;
  banner_sent_time = 0;
  command_count = 3;
  pipelining_detected = false;
  ja3_fingerprint = none;
}

abbrev limits : SmtpRateLimitCheck ℕ
limits = record {
  weight = 1;
  max_per_ip = 2;
  max_per_domain = 10;
  max_per_sender = 10;
  window = 60;
  ip_map = [];
  domain_map = [];
  sender_map = [];
}

-- The second one is out of the window of the last.
abbrev earlier : List (EnvelopeContext × ℕ)
earlier = (envelope, 70) ∷ (envelope, 30) ∷ (envelope, 95) ∷ []

check_rates-attempts_example :
    is_reject (check_rates counts show_ip (after counts show_ip earlier limits) envelope 100).1.0
    ≡ ltb 2 (attempts counts show_ip (codes "192.0.2.7") 100 60 earlier + 1)
check_rates-attempts_example =
    check_rates-attempts counts show_ip earlier limits envelope 100
      (omega arith, (omega arith, (omega arith, tt))) refl (omega arith)

abbrev report : SpamReport ℕ
report = record { score = 0; verdict = clean; contributions = []; auth_results = default_auth }

abbrev headers : SmtpHeadersConfig
headers = record { add_received = true; x_forwarded_for = false }

abbrev show_score : ℕ → Text
show_score n = codes "0.0"

-- What comes after the answer to EHLO: the recipient and DATA are refused.
abbrev refusals : List Text
refusals =
    codes "250 ok\r\n"
    ∷ codes "550 no such user\r\n"
    ∷ codes "503 no recipients\r\n"
    ∷ codes "500 unknown command\r\n"
    ∷ []

dialogue_blind_example :
    let d =
      dialogue show_ip show_score
        (codes "now")
        (codes "mx")
        (codes "aa")
        headers
        (codes "NOOP\r\n")
        (codes "a@b")
        (codes "c@d" ∷ [])
        report
        (v4 192 0 2 7)
        (codes "220 hi\r\n" ∷ (codes "250-mx\r\n" ∷ [] ++ (codes "250 ok\r\n" ∷ refusals))) in
    (d.1.written
      ≡ script show_ip show_score
          (codes "now")
          (codes "mx")
          (codes "aa")
          headers
          (codes "NOOP\r\n")
          (codes "a@b")
          (codes "c@d" ∷ [])
          report
          (v4 192 0 2 7))
    × (d.0 ≡ codes "500 unknown command\r\n")
unfolding is_last
dialogue_blind_example =
    dialogue_blind show_ip show_score (codes "now") (codes "mx") (codes "aa") headers
      (codes "NOOP\r\n") (codes "a@b") (codes "c@d" ∷ []) report (v4 192 0 2 7) (codes "220 hi\r\n")
      (codes "250-mx\r\n" ∷ []) (codes "250 ok\r\n") refusals (refl, tt) refl
