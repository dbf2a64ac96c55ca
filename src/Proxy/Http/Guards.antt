-- ===== src/Proxy/Http/Guards.antt =====
-- http_proxy.rs, `handle_request` up to the choice of a backend: each test that may refuse a request.
use serverwall.Base.{
  ℕ, Bool, true, false, ◌&&◌, ◌||◌, List, [], ◌∷◌, Option, none, some, if◌then◌else◌, not, any,
  is_empty, Text, codes, text_eq, contains, to_lowercase, split, get, insert,
}
use serverwall.Core.Types.{IpAddr}
use serverwall.Core.Acl.{AclDecision, check_path}
use serverwall.Waf.Request.{HttpRequestContext, from_parts, is_blocked}
use serverwall.Waf.Engine.{WafEngine, inspect}
use serverwall.Waf.RateLimit.{RateLimitKey, client_ip, header, Float, RateLimiter, check_key}
use serverwall.Proxy.Http.Settings.{
  Hyper, Request, FrontendConfig, BotDetectionConfig, known_bad_bot_signatures,
}

-- The first of the parts, `split(d).next()`.
first_part : List Text → Text → Text
first_part [] whole = whole
first_part (p ∷ ps) whole = p

unfoldable pub text_or_empty : Option Text → Text
text_or_empty none = []
text_or_empty (some t) = t

module _ (hyper : Hyper) where
  readable : Text → Option Text → List (Text × Text) → List (Text × Text)
  readable name none entries = entries
  readable name (some value) entries = insert (to_lowercase name) value entries

  -- The map of the headers: of a name that comes twice, the last value that is text stays.
  unfoldable pub header_map : List (Text × List ℕ) → List (Text × Text) → List (Text × Text)
  unfolding readable
  header_map [] entries = entries
  header_map ((name, value) ∷ headers) entries =
      header_map headers (readable name (hyper.to_str value) entries)

module _ {Regex : Type 0} (is_match : Regex → Text → Bool) where
  unfoldable pub denies : Option AclDecision → Bool
  denies (some AclDecision.deny) = true
  denies _ = false

  unfoldable pub path_denied : Option (List (List Regex × Bool)) → Text → Bool
  unfolding denies
  path_denied none path = false
  path_denied (some acl) path = denies (check_path is_match acl path)

host_of : Option Text → Text
unfolding first_part
host_of none = []
host_of (some h) = to_lowercase (first_part (split b':' h) h)

abbrev pub is_domain : Text → List Text → Bool
is_domain host domains = any (λ d. text_eq host (to_lowercase d)) domains

-- The host of the request, without its port.
unfoldable pub request_host : List (Text × Text) → Text
unfolding host_of
request_host headers = host_of (get (codes "host") headers)

unfoldable pub domain_denied : List Text → List Text → List (Text × Text) → Bool
unfolding request_host
domain_denied domain_allow domain_block headers =
    let host = request_host headers in
    if is_empty domain_allow && is_empty domain_block || is_empty host
    then false
    else is_domain host domain_block
      || (not (is_empty domain_allow) && not (is_domain host domain_allow))

-- A good bot is let through whatever else its name contains.
unfoldable pub is_blocked_bot : Text → BotDetectionConfig → Bool
is_blocked_bot user_agent config =
    let ua_lower = to_lowercase user_agent in
    if any (λ good. contains (to_lowercase good) ua_lower) config.known_good_bots
    then false
    else any (λ sig. contains sig ua_lower) known_bad_bot_signatures

unfoldable pub ja3_listed : Option Text → List Text → Bool
ja3_listed none blocked = false
ja3_listed (some ja3) blocked = any (λ b. text_eq b ja3) blocked

unfoldable pub bot_denied : BotDetectionConfig → List (Text × Text) → Option Text → Bool
unfolding text_or_empty is_blocked_bot ja3_listed
bot_denied config headers ja3 =
    config.enabled
    && (is_blocked_bot (text_or_empty (get (codes "user-agent") headers)) config
        || ja3_listed ja3 config.ja3_fingerprint_block_list)

-- The key that a limiter counts a request under.
unfoldable pub key_text : (IpAddr → Text) → IpAddr → List (Text × Text) → RateLimitKey → Text
unfolding text_or_empty
key_text show_ip ip headers client_ip = show_ip ip
key_text show_ip ip headers (header h) = text_or_empty (get (to_lowercase h) headers)

module _ {F : Type 0} (f : Float F) (now : ℕ) (show_ip : IpAddr → Text) (ip : IpAddr)
    (headers : List (Text × Text)) where
  -- The limiters in order; the first that refuses ends the loop. An empty key is not counted.
  unfoldable pub check_limiters :
      List (RateLimiter F × RateLimitKey) → List (RateLimiter F × RateLimitKey) × Bool
  unfolding key_text
  check_limiters [] = ([], true)
  check_limiters ((limiter, key) ∷ limiters) =
      let k = key_text show_ip ip headers key in
      let (rest, allowed) = check_limiters limiters in
      if is_empty k
      then ((limiter, key) ∷ rest, allowed)
      else let (counted, within) = check_key f limiter k now in
        if within then ((counted, key) ∷ rest, allowed) else ((counted, key) ∷ limiters, false)

-- What the firewall is given of a request.
unfoldable pub waf_context :
    Request → List (Text × Text) → List ℕ → IpAddr → Option Text → HttpRequestContext
unfolding from_parts
waf_context req headers body ip ja3 = from_parts req.method req.uri.text headers body ip ja3

unfoldable pub waf_denied :
    (IpAddr → Text) → Option WafEngine → FrontendConfig → Bool → HttpRequestContext → Bool
waf_denied show_ip none config bypassed ctx = false
waf_denied show_ip (some engine) config bypassed ctx =
    if config.waf_enabled && not bypassed
    then is_blocked (inspect show_ip engine ctx).decision
    else false
