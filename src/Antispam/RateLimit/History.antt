-- ===== src/Antispam/RateLimit/History.antt =====
-- serverwall-antispam/src/predata/rate_limit.rs: the decision by address against the history of all
-- checks.
use serverwall.Base.{
  ℕ, ◌+◌, ◌-◌, ◌≤◌, ◌<◌, ◌≡◌, refl, ◌∙◌, ap, sym, List, [], ◌∷◌, Option, none, some, Bool, true,
  false, ◌&&◌, ltb, Text, text_eq, text_eq_refl, lt→ltb, get, All, arith, if_both, is_empty,
  to_lowercase, after_last,
}
use serverwall.Core.Types.{IpAddr}
use serverwall.Antispam.Score.{FloatOps, CheckOutcome}
use serverwall.Antispam.Pipeline.{EnvelopeContext}
use serverwall.Antispam.RateLimit.{
  SmtpRateLimitCheck, Answer, count_at, entry, or_new_window, touch, check_rates, check_sender,
  check_domain, check_domain_part, check_domain_key,
}
use serverwall.Antispam.RateLimit.Windows.{one_if, count_at-touch}

abbrev pub is_reject : {F : Type 0} → CheckOutcome F → Bool
is_reject (CheckOutcome.reject _) = true
is_reject _ = false

-- A step that leaves the addresses alone, keeps the configuration and does not reject.
record Lenient {F : Type 0} (c : SmtpRateLimitCheck F) (r : SmtpRateLimitCheck F × Answer F)
    : Type 0 where
  ip_kept : r.0.ip_map ≡ c.ip_map
  window_kept : r.0.window ≡ c.window
  max_kept : r.0.max_per_ip ≡ c.max_per_ip
  no_reject : is_reject r.1.0 ≡ false

now_live : (now window : ℕ) → 0 < window → ltb (now - now) window ≡ true
now_live now window h = lt→ltb (now - now) window (omega arith)

nothing_recorded : (key : Text) (now window : ℕ) → count_at now window (entry key []) ≡ 0
unfolding count_at entry or_new_window get
nothing_recorded key now window = refl

module _ {F : Type 0} (f : FloatOps F) (show_ip : IpAddr → Text) where
  check_domain_key-Lenient :
      (c : SmtpRateLimitCheck F) (key : Text) (now : ℕ)
      → Lenient c (check_domain_key f show_ip c key now)
  unfolding check_domain_key
  check_domain_key-Lenient c key now =
      if_both {A = SmtpRateLimitCheck F × Answer F} (Lenient c)
        (ltb c.max_per_domain
          (count_at now c.window (entry key (touch now c.window key c.domain_map))))
        _ _ (λ _. record { ip_kept = refl; window_kept = refl; max_kept = refl; no_reject = refl })
        (λ _. record { ip_kept = refl; window_kept = refl; max_kept = refl; no_reject = refl })

  check_domain_part-Lenient :
      (c : SmtpRateLimitCheck F) (domain : Option Text) (now : ℕ)
      → Lenient c (check_domain_part f show_ip c domain now)
  unfolding check_domain_part
  check_domain_part-Lenient c none now = record {
    ip_kept = refl;
    window_kept = refl;
    max_kept = refl;
    no_reject = refl;
  }
  check_domain_part-Lenient c (some domain) now = check_domain_key-Lenient c _ now

  check_domain-Lenient :
      (c : SmtpRateLimitCheck F) (mail_from : Text) (now : ℕ)
      → Lenient c (check_domain f show_ip c mail_from now)
  unfolding check_domain
  check_domain-Lenient c mail_from now = check_domain_part-Lenient c (after_last b'@' mail_from) now

  check_sender-Lenient :
      (c : SmtpRateLimitCheck F) (mail_from : Text) (now : ℕ)
      → Lenient c (check_sender f show_ip c mail_from now)
  unfolding check_sender
  check_sender-Lenient c mail_from now =
      if_both {A = SmtpRateLimitCheck F × Answer F} (Lenient c) (is_empty mail_from) _ _
        (λ _. check_domain-Lenient c mail_from now)
        (λ _.
          if_both {A = SmtpRateLimitCheck F × Answer F} (Lenient c)
            (ltb c.max_per_sender (
              count_at now c.window (
                entry (to_lowercase mail_from)
                  (touch now c.window (to_lowercase mail_from) c.sender_map))))
            _ _
            (λ _. record { ip_kept = refl; window_kept = refl; max_kept = refl; no_reject = refl })
            (λ _.
              let l =
                check_domain-Lenient
                  (record c {
                    sender_map = touch now c.window (to_lowercase mail_from) c.sender_map;
                  })
                  mail_from now in
              record {
                ip_kept = l.ip_kept;
                window_kept = l.window_kept;
                max_kept = l.max_kept;
                no_reject = l.no_reject;
              }))

  -- What a check does to the addresses and when it rejects.
  record ByAddress (c : SmtpRateLimitCheck F) (ctx : EnvelopeContext) (now : ℕ)
      (r : SmtpRateLimitCheck F × Answer F) : Type 0 where
    touched : r.0.ip_map ≡ touch now c.window (show_ip ctx.client_ip) c.ip_map
    window_same : r.0.window ≡ c.window
    max_same : r.0.max_per_ip ≡ c.max_per_ip
    rejects :
        is_reject r.1.0
        ≡ ltb c.max_per_ip (
            count_at now c.window
              (entry (show_ip ctx.client_ip) (touch now c.window (show_ip ctx.client_ip) c.ip_map)))

  check_rates-ByAddress :
      (c : SmtpRateLimitCheck F) (ctx : EnvelopeContext) (now : ℕ)
      → ByAddress c ctx now (check_rates f show_ip c ctx now)
  unfolding check_rates
  check_rates-ByAddress c ctx now =
      if_both {A = SmtpRateLimitCheck F × Answer F} (ByAddress c ctx now)
        (ltb c.max_per_ip (
          count_at now c.window
            (entry (show_ip ctx.client_ip) (touch now c.window (show_ip ctx.client_ip) c.ip_map))))
        _ _
        (λ over. record { touched = refl; window_same = refl; max_same = refl; rejects = sym over })
        (λ under.
          let l =
            check_sender-Lenient
              (record c { ip_map = touch now c.window (show_ip ctx.client_ip) c.ip_map })
              ctx.mail_from now in
          record {
            touched = l.ip_kept;
            window_same = l.window_kept;
            max_same = l.max_kept;
            rejects = l.no_reject ∙ sym under;
          })

  -- A history of checks with their instants, oldest first.
  abbrev pub History : Type 0
  History = List (EnvelopeContext × ℕ)

  pub after : History → SmtpRateLimitCheck F → SmtpRateLimitCheck F
  after [] c = c
  after ((ctx, at) ∷ hist) c = after hist (check_rates f show_ip c ctx at).0

  -- The checks of an address within the window before an instant.
  pub attempts : Text → ℕ → ℕ → History → ℕ
  attempts key now window [] = 0
  attempts key now window ((ctx, at) ∷ hist) =
      one_if (text_eq key (show_ip ctx.client_ip) && ltb (now - at) window)
      + attempts key now window hist

  after-kept :
      (hist : History) (c : SmtpRateLimitCheck F)
      → ((after hist c).window ≡ c.window) × ((after hist c).max_per_ip ≡ c.max_per_ip)
  unfolding after
  after-kept [] c = (refl, refl)
  after-kept ((ctx, at) ∷ hist) c =
      let b = check_rates-ByAddress c ctx at in
      let (w, m) = after-kept hist (check_rates f show_ip c ctx at).0 in
      (w ∙ b.window_same, m ∙ b.max_same)

  after-count :
      (hist : History) (c : SmtpRateLimitCheck F) (key : Text) (now : ℕ)
      → All (λ (e : EnvelopeContext × ℕ). e.1 ≤ now) hist
      → count_at now c.window (entry key (after hist c).ip_map)
        ≡ count_at now c.window (entry key c.ip_map) + attempts key now c.window hist
  unfolding after attempts
  after-count [] c key now h = omega arith
  after-count ((ctx, at) ∷ hist) c key now (h, hs) =
      let b = check_rates-ByAddress c ctx at in
      let later = after-count hist (check_rates f show_ip c ctx at).0 key now hs in
      let all_later = rw (b.window_same, b.touched) at later in
      let one = count_at-touch now c.window at key (show_ip ctx.client_ip) c.ip_map h in
      omega (arith, all_later, one)

  -- After any history of checks, none of them later, from an empty map of addresses, and with a
  -- window that is not empty, a check rejects exactly if the checks of its address within the
  -- window, itself and the rejected ones included, are more than its maximum by address.
  pub check_rates-attempts :
      (hist : History) (c : SmtpRateLimitCheck F) (ctx : EnvelopeContext) (now : ℕ)
      → All (λ (e : EnvelopeContext × ℕ). e.1 ≤ now) hist
      → c.ip_map ≡ []
      → 0 < c.window
      → is_reject (check_rates f show_ip (after hist c) ctx now).1.0
        ≡ ltb c.max_per_ip (attempts (show_ip ctx.client_ip) now c.window hist + 1)
  check_rates-attempts hist c ctx now h empty positive =
      let key = show_ip ctx.client_ip in
      let (w, m) = after-kept hist c in
      let b = check_rates-ByAddress (after hist c) ctx now in
      let before = after-count hist c key now h in
      let one = count_at-touch now c.window now key key (after hist c).ip_map (omega arith) in
      b.rejects
      ∙ rw (w, m, one, before, empty)
          (rw (text_eq_refl key, now_live now c.window positive, nothing_recorded key now c.window)
            (let e : 0 + attempts key now c.window hist + 1 ≡ attempts key now c.window hist + 1 =
                omega arith in
              ap (ltb c.max_per_ip) e))
