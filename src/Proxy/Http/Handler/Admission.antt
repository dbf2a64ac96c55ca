-- ===== src/Proxy/Http/Handler/Admission.antt =====
-- Which requests pass the tests of the handler.
use serverwall.Base.{
  ℕ, ◌≡◌, ◌≢◌, refl, ◌↔◌, ◌⊎◌, inl, inr, Bool, true, false, ◌&&◌, ◌||◌, List, [], ◌∷◌, Option, none,
  some, if◌then◌else◌, not, is_empty, any, All, Text, codes, contains, to_lowercase, get, arith,
}
use serverwall.Core.Types.{IpAddr}
use serverwall.Core.Acl.{AclDecision, check_path}
use serverwall.Waf.Request.{HttpRequestContext, is_blocked}
use serverwall.Waf.Engine.{WafEngine, inspect}
use serverwall.Waf.RateLimit.{RateLimitKey, Float, RateLimiter, check_key}
use serverwall.Proxy.Pipeline.{is_globally_allowed}
use serverwall.Proxy.Http.Settings.{
  Hyper, Request, FrontendConfig, BotDetectionConfig, known_bad_bot_signatures,
}
use serverwall.Proxy.Http.Guards.{
  denies, path_denied, is_domain, request_host, domain_denied, text_or_empty, is_blocked_bot,
  ja3_listed, bot_denied, key_text, check_limiters, waf_context, waf_denied,
}
use serverwall.Proxy.Http.Exchange.{HttpProxy, forbidden, too_many_requests}
use serverwall.Proxy.Http.Handler.{Shared, admit}

-- The first path rule that matches does not deny.
abbrev pub PathPasses :
    {Regex : Type 0} → (Regex → Text → Bool) → Option (List (List Regex × Bool)) → Text → Type 0
PathPasses is_match none path = Unit
PathPasses is_match (some acl) path = check_path is_match acl path ≢ some AclDecision.deny

path_passes :
    {Regex : Type 0} (is_match : Regex → Text → Bool) (acl : Option (List (List Regex × Bool)))
    (path : Text)
    → (path_denied is_match acl path ≡ false) ↔ PathPasses is_match acl path
unfolding path_denied denies
path_passes is_match none path = (λ _. tt, λ _. refl)
path_passes is_match (some acl) path = (λ h. ground arith, λ h. ground arith)

-- A request without a host passes; a host is not blocked, and is listed if any is.
abbrev pub HostPasses : List Text → List Text → List (Text × Text) → Type 0
HostPasses domain_allow domain_block headers =
    let host = request_host headers in
    (is_empty host ≡ true)
    ⊎ ((is_domain host domain_block ≡ false)
        × ((is_empty domain_allow ≡ true) ⊎ (is_domain host domain_allow ≡ true)))

tests_iff :
    (no_allow no_block no_host blocked listed : Bool)
    → (no_block ≡ true → blocked ≡ false)
    → ((if no_allow && no_block || no_host then false else blocked || (not no_allow && not listed))
        ≡ false)
      ↔ ((no_host ≡ true) ⊎ ((blocked ≡ false) × ((no_allow ≡ true) ⊎ (listed ≡ true))))
tests_iff no_allow no_block no_host blocked listed h = (λ e. ground arith, λ e. ground arith)

unlisted_if_empty : (host : Text) (ds : List Text) → is_empty ds ≡ true → is_domain host ds ≡ false
unlisted_if_empty host [] h = refl
unlisted_if_empty host (d ∷ ds) h = absurd (cc)

host_passes :
    (allow block : List Text) (headers : List (Text × Text))
    → (domain_denied allow block headers ≡ false) ↔ HostPasses allow block headers
unfolding domain_denied
host_passes allow block headers =
    let host = request_host headers in
    tests_iff (is_empty allow) (is_empty block) (is_empty host) (is_domain host block)
      (is_domain host allow) (unlisted_if_empty host block)

-- Where bots are looked for: a name that contains a good bot's passes, as does one that contains no
-- signature; the fingerprint, if there is one, is not on the list.
abbrev pub NamePasses : Text → BotDetectionConfig → Type 0
NamePasses user_agent config =
    (any (λ good. contains (to_lowercase good) (to_lowercase user_agent)) config.known_good_bots
      ≡ true)
    ⊎ (any (λ sig. contains sig (to_lowercase user_agent)) known_bad_bot_signatures ≡ false)

abbrev pub BotPasses : BotDetectionConfig → List (Text × Text) → Option Text → Type 0
BotPasses config headers ja3 =
    (config.enabled ≡ false)
    ⊎ (NamePasses (text_or_empty (get (codes "user-agent") headers)) config
        × (ja3_listed ja3 config.ja3_fingerprint_block_list ≡ false))

blocked_iff :
    (good bad : Bool) → ((if good then false else bad) ≡ false) ↔ ((good ≡ true) ⊎ (bad ≡ false))
blocked_iff good bad = (λ e. ground arith, λ e. ground arith)

name_passes :
    (ua : Text) (config : BotDetectionConfig)
    → (is_blocked_bot ua config ≡ false) ↔ NamePasses ua config
unfolding is_blocked_bot
name_passes ua config = blocked_iff _ _

enabled_iff :
    {P : Type 0} (enabled name listed : Bool)
    → (name ≡ false) ↔ P
    → ((enabled && (name || listed)) ≡ false) ↔ ((enabled ≡ false) ⊎ (P × (listed ≡ false)))
enabled_iff false name listed (to, from) = (λ e. inl refl, λ e. refl)
enabled_iff true false listed (to, from) = (λ e. inr (to refl, e), λ e. ground arith)
enabled_iff true true listed (to, from) =
    (λ e. absurd (cc), λ e. elim e [ inl h ↦ absurd (cc h) | inr (p, h) ↦ absurd (cc (from p)) ])

bot_passes :
    (config : BotDetectionConfig) (headers : List (Text × Text)) (ja3 : Option Text)
    → (bot_denied config headers ja3 ≡ false) ↔ BotPasses config headers ja3
unfolding bot_denied
bot_passes config headers ja3 =
    let name = text_or_empty (get (codes "user-agent") headers) in
    enabled_iff config.enabled (is_blocked_bot name config)
      (ja3_listed ja3 config.ja3_fingerprint_block_list) (name_passes name config)

-- Each limiter that counts the request under a key has a token for it.
module _ {F : Type 0} (f : Float F) (now : ℕ) (show_ip : IpAddr → Text) (ip : IpAddr)
    (headers : List (Text × Text)) where
  abbrev pub WithinLimit : RateLimiter F × RateLimitKey → Type 0
  WithinLimit (limiter, key) =
      let k = key_text show_ip ip headers key in
      (is_empty k ≡ true) ⊎ ((check_key f limiter k now).1 ≡ true)

  limits_pass :
      (limiters : List (RateLimiter F × RateLimitKey))
      → ((check_limiters f now show_ip ip headers limiters).1 ≡ true) ↔ All WithinLimit limiters
  unfolding check_limiters
  limits_pass [] = (λ _. tt, λ _. refl)
  limits_pass ((limiter, key) ∷ limiters) =
      let (to, from) = limits_pass limiters in (λ h. ground arith, λ (h, hs). ground arith)

-- The firewall, where it is on and not bypassed, does not block.
abbrev pub WafPasses :
    (IpAddr → Text) → Option WafEngine → FrontendConfig → Bool → HttpRequestContext → Type 0
WafPasses show_ip none config bypassed ctx = Unit
WafPasses show_ip (some engine) config bypassed ctx =
    (config.waf_enabled ≡ false)
    ⊎ ((bypassed ≡ true) ⊎ (is_blocked (inspect show_ip engine ctx).decision ≡ false))

inspected_iff :
    (on bypassed blocked : Bool)
    → ((if on && not bypassed then blocked else false) ≡ false)
      ↔ ((on ≡ false) ⊎ ((bypassed ≡ true) ⊎ (blocked ≡ false)))
inspected_iff on bypassed blocked = (λ e. ground arith, λ e. ground arith)

waf_passes :
    (show_ip : IpAddr → Text) (waf : Option WafEngine) (config : FrontendConfig) (bypassed : Bool)
    (ctx : HttpRequestContext)
    → (waf_denied show_ip waf config bypassed ctx ≡ false)
      ↔ WafPasses show_ip waf config bypassed ctx
unfolding waf_denied
waf_passes show_ip none config bypassed ctx = (λ _. tt, λ _. refl)
waf_passes show_ip (some engine) config bypassed ctx =
    inspected_iff config.waf_enabled bypassed (is_blocked (inspect show_ip engine ctx).decision)

-- Five tests in a row let through what each of them does.
abbrev refused_by : {A B : Type 0} → Bool → Bool → Bool → Bool → Bool → A → A → B → B → Option A × B
refused_by a b c d e x y s t =
    if a
    then (some x, s)
    else if b
    then (some x, s)
    else if c
    then (some x, s)
    else if not d
    then (some y, t)
    else if e
    then (some x, t)
    else (Option.none, t)

tests_in_order :
    {A B : Type 0} (a b c d e : Bool) (x y : A) (s t : B)
    → ((refused_by a b c d e x y s t).0 ≡ none)
      ↔ ((a ≡ false) × (b ≡ false) × (c ≡ false) × (d ≡ true) × (e ≡ false))
tests_in_order a b c d e x y s t = (λ h. ground arith, λ (h, i, j, k, l). ground arith)

module _ {Net S Regex F : Type 0} (hyper : Hyper) (f : Float F) (net_contains : Net → IpAddr → Bool)
    (is_match : Regex → Text → Bool) (proxy : HttpProxy Regex) (now : ℕ) (ip : IpAddr)
    (ja3 : Option Text) where
  -- What a request has to meet, its headers and body read.
  abbrev pub Admissible : Shared Net S F → Request → List (Text × Text) → List ℕ → Type 0
  Admissible st req headers body =
      PathPasses is_match proxy.path_acl req.uri.path
      × HostPasses proxy.domain_allow proxy.domain_block headers
      × BotPasses proxy.bot_detection headers ja3
      × All (WithinLimit f now hyper.show_ip ip headers) st.rate_limiters
      × WafPasses hyper.show_ip proxy.waf proxy.frontend_config
          (proxy.acl_bypass_waf && is_globally_allowed net_contains st.pipeline ip)
          (waf_context req headers body ip ja3)

  -- Exactly these requests pass the tests of the handler.
  pub admit-Admissible :
      (st : Shared Net S F) (req : Request) (headers : List (Text × Text)) (body : List ℕ)
      → ((admit hyper f net_contains is_match proxy now ip ja3 st req headers body).0 ≡ none)
        ↔ Admissible st req headers body
  unfolding admit
  admit-Admissible st req headers body =
      let (to, from) = tests_in_order _ _ _ _ _ forbidden too_many_requests _ _ in
      let (path_to, path_from) = path_passes is_match proxy.path_acl req.uri.path in
      let (host_to, host_from) = host_passes proxy.domain_allow proxy.domain_block headers in
      let (bot_to, bot_from) = bot_passes proxy.bot_detection headers ja3 in
      let (limits_to, limits_from) = limits_pass f now hyper.show_ip ip headers st.rate_limiters in
      let (waf_to, waf_from) = waf_passes hyper.show_ip proxy.waf proxy.frontend_config _ _ in
      (
        λ h. let (a, b, c, d, e) = to h in (path_to a, host_to b, bot_to c, limits_to d, waf_to e),
        λ (a, b, c, d, e). from (path_from a, host_from b, bot_from c, limits_from d, waf_from e),
      )
