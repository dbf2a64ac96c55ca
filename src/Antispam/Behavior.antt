-- ===== src/Antispam/Behavior.antt =====
-- serverwall-antispam/src/predata/early_talker.rs, behavior.rs and helo.rs: checks of the client's
-- behaviour before DATA. The hostname pattern, the parser of addresses and the resolver's reverse
-- lookup are parameters; an instant is a number of nanoseconds.
pub mod Helo
use serverwall.Base.{
  ℕ, ◌+◌, ◌-◌, ◌/◌, ◌^◌, ◌≡◌, refl, List, [], ◌∷◌, ◌++◌, Option, none, some, Bool, true, false,
  ◌&&◌, not, if◌then◌else◌, ltb, ◌==◌, is_empty, any, map, Text, codes, text_eq, decimal, join,
  trim, trim_start, trim_end, contains, to_lowercase, if_both,
}
use serverwall.Core.Types.{IpAddr}
use serverwall.Antispam.Score.{FloatOps, CheckOutcome, CheckCategory, ScoreContribution}
use serverwall.Antispam.Pipeline.{EnvelopeContext}

abbrev pub Answer : Type 0 → Type 0
Answer F = CheckOutcome F × Option (ScoreContribution F)

-- `HeloCheck::is_ip_literal`.
pub is_ip_literal : (Text → Option IpAddr) → Text → Bool
is_ip_literal parse_ip helo =
    elim (parse_ip (trim_end (λ c. c == b']') (trim_start (λ c. c == b'[') helo))) [
      | none ↦ false
      | some _ ↦ true
    ]

pub ptr_names : List Text → List Text
ptr_names names = map (λ n. to_lowercase (trim_end (λ c. c == b'.') n)) names

module _ {F : Type 0} (f : FloatOps F) where
  -- A hit of a weight times so many tenths, with its detail and its description.
  hit_with : Text → F → Text → Text → Answer F
  hit_with name severity detail description = (
    CheckOutcome.hit severity detail,
    some (record {
      check_name = name;
      category = CheckCategory.behavioral;
      score = severity;
      description = description;
    }),
  )

  weighted : F → ℕ → F
  weighted weight tenths = f.mul weight (f.div (f.of_ℕ tenths) (f.of_ℕ 10))

  -- `EarlyTalkerCheck::check`.
  unfoldable pub check_early_talker : (IpAddr → Text) → F → EnvelopeContext → Answer F
  unfolding hit_with
  check_early_talker show_ip weight ctx =
      if ctx.early_talker
      then hit_with (codes "early_talker") (f.mul weight (f.of_ℕ 1))
          (codes "Client " ++ (show_ip ctx.client_ip ++ codes " sent data before banner"))
          (codes "Client sent data before banner")
      else (CheckOutcome.pass, none)

  -- The severity and the details so far.
  abbrev Found : Type 0
  Found = F × List Text

  pipelining : F → EnvelopeContext → Found → Found
  unfolding weighted
  pipelining weight ctx (total, details) =
      if ctx.pipelining_detected
      then (f.add total (weighted weight 6), details ++ (codes "pipelining abuse detected" ∷ []))
      else (total, details)

  -- `show_seconds` is the format `{:.1}` of a duration in seconds.
  rapid_fire : (ℕ → Text) → F → EnvelopeContext → ℕ → Found → Found
  unfolding weighted
  rapid_fire show_seconds weight ctx elapsed (total, details) =
      if ltb 20 ctx.command_count && ltb (elapsed / 10 ^ 9) 5
      then (
        f.add total (weighted weight 8),
        details
            ++ ((codes "rapid-fire commands: "
                  ++ (decimal ctx.command_count
                      ++ (codes " in " ++ (show_seconds elapsed ++ codes "s"))))
                ∷ []),
      )
      else (total, details)

  summed_up : Found → Answer F
  unfolding hit_with
  summed_up (total, []) = (CheckOutcome.pass, none)
  summed_up (total, d ∷ ds) =
      let detail = join (codes "; ") (d ∷ ds) in hit_with (codes "behavior") total detail detail

  -- `BehaviorCheck::check`.
  unfoldable pub check_behavior : (ℕ → Text) → F → EnvelopeContext → ℕ → Answer F
  unfolding pipelining rapid_fire summed_up
  check_behavior show_seconds weight ctx now =
      let elapsed = now - ctx.banner_sent_time in
      summed_up (rapid_fire show_seconds weight ctx elapsed (pipelining weight ctx (f.of_ℕ 0, [])))

  module _ (parse_ip : Text → Option IpAddr) (is_hostname : Text → Bool)
      (reverse_lookup : IpAddr → Option (List Text)) where
    helo_hit : F → ℕ → Text → Text → Answer F
    unfolding hit_with weighted
    helo_hit weight tenths detail description =
        hit_with (codes "helo") (weighted weight tenths) detail description

    check_ptr : F → Text → Option (List Text) → Answer F
    unfolding helo_hit ptr_names
    check_ptr weight helo none = (CheckOutcome.pass, none)
    check_ptr weight helo (some names) =
        if any (λ p. text_eq p (to_lowercase helo)) (ptr_names names)
        then (CheckOutcome.pass, none)
        else helo_hit weight 2 (codes "HELO " ++ (helo ++ codes " does not match PTR"))
            (codes "HELO/PTR mismatch: " ++ helo)

    judge_helo : F → Text → IpAddr → Answer F
    unfolding is_ip_literal helo_hit check_ptr
    judge_helo weight helo client_ip =
        if is_empty helo
        then hit_with (codes "helo") (f.mul weight (f.of_ℕ 1)) (codes "Empty HELO/EHLO hostname")
            (codes "Empty HELO hostname")
        else if is_ip_literal parse_ip helo
        then helo_hit weight 3 (codes "HELO is an IP literal: " ++ helo)
            (codes "HELO IP literal: " ++ helo)
        else if not (is_hostname helo)
        then helo_hit weight 8 (codes "Invalid HELO hostname format: " ++ helo)
            (codes "Invalid HELO hostname: " ++ helo)
        else if not (contains (codes ".") helo)
        then helo_hit weight 5 (codes "HELO hostname has no TLD: " ++ helo)
            (codes "HELO no TLD: " ++ helo)
        else check_ptr weight helo (reverse_lookup client_ip)

    -- `HeloCheck::check`.
    unfoldable pub check_helo : F → EnvelopeContext → Answer F
    unfolding judge_helo
    check_helo weight ctx = judge_helo weight (trim ctx.helo_domain) ctx.client_ip
