-- ===== src/Proxy/Http/Handler.antt =====
-- http_proxy.rs, `HttpProxy` and `handle_request`: the tests in their order, the choice of a backend
-- under a guard, the exchange with it and the answer. A request reads the clock once.
pub mod Admission
pub mod Routing
pub mod Sent
pub mod Released
use serverwall.Base.{
  ℕ, zero, suc, Bool, true, false, ◌&&◌, List, [], ◌∷◌, Option, none, some, if◌then◌else◌, not,
  length, get_elem?, Text, codes, text_eq, is_empty,
}
use serverwall.Core.Types.{Backend, IpAddr, open_guard, drop_guard}
use serverwall.Core.Config.{ProtocolType}
use serverwall.Waf.Engine.{WafEngine}
use serverwall.Waf.RateLimit.{RateLimitKey, Float, RateLimiter}
use serverwall.Proxy.Pipeline.{
  RequestPipeline, Result, ok, err, is_globally_allowed, select_backend,
}
use serverwall.Proxy.Http.Settings.{
  Hyper, Request, Response, BalanceMethod, FrontendConfig, SecurityHeadersConfig,
  BotDetectionConfig, CookieSecurityConfig, error_response, Builder,
}
use serverwall.Proxy.Http.Exchange.{
  HttpProxy, Forwarded, forbidden, too_many_requests, bad_gateway, send_on, sticky_tag,
}
use serverwall.Proxy.Http.Guards.{
  header_map, path_denied, domain_denied, bot_denied, check_limiters, waf_context, waf_denied,
}
use serverwall.Proxy.Http.Outbound.{OutboundRequest, outbound_request}

-- The fields that requests change, and what all of them share.
pub record Shared (Net S F : Type 0) : Type 0 where
  pub rate_limiters : List (RateLimiter F × RateLimitKey)
  pub pipeline : RequestPipeline Net S

-- `sent` is what went to a backend.
pub record Handled (Net S F : Type 0) : Type 0 where
  pub response : Response
  pub sent : Option (Backend × OutboundRequest)
  pub shared : Shared Net S F

-- The position of the backend that `find_backend_by_tag` finds.
unfoldable pub tag_position : List Backend → Text → Option ℕ
tag_position [] tag = none
tag_position (b ∷ bs) tag =
    let later = tag_position bs tag in
    if text_eq b.tag tag && (b.enabled && b.healthy)
    then some zero
    else elim later [ none ↦ none | some i ↦ some (suc i) ]

tag_choice : List Backend → Option Text → Option ℕ
unfolding tag_position
tag_choice bs none = none
tag_choice bs (some tag) = tag_position bs tag

module _ {Net S : Type 0} where
  balanced : Result ℕ × RequestPipeline Net S → Option ℕ × RequestPipeline Net S
  balanced (ok i, p) = (some i, p)
  balanced (err e, p) = (none, p)

  route : RequestPipeline Net S → IpAddr → Option ℕ → Option ℕ × RequestPipeline Net S
  unfolding balanced
  route p ip none = balanced (select_backend p ip)
  route p ip (some i) = (some i, record p { backends = open_guard p.backends i })

  -- A backend with its guard opened: the one of the cookie, or else the balancer's.
  unfoldable pub choose_backend :
      RequestPipeline Net S → IpAddr → Option Text → Option ℕ × RequestPipeline Net S
  unfolding route tag_choice
  choose_backend p ip sticky_tag = route p ip (tag_choice p.backends sticky_tag)

module _ {Net S Regex F : Type 0} (hyper : Hyper) (f : Float F) (net_contains : Net → IpAddr → Bool)
    (is_match : Regex → Text → Bool) (proxy : HttpProxy Regex) (now : ℕ) (ip : IpAddr)
    (ja3 : Option Text) where
  -- The tests of a request, in their order: the answer of the first that refuses it, and the limiters
  -- as they are then.
  unfoldable pub admit :
      Shared Net S F
      → Request
      → List (Text × Text)
      → List ℕ
      → Option Response × List (RateLimiter F × RateLimitKey)
  admit st req headers body =
      let (counted, within) = check_limiters f now hyper.show_ip ip headers st.rate_limiters in
      let bypassed = proxy.acl_bypass_waf && is_globally_allowed net_contains st.pipeline ip in
      if path_denied is_match proxy.path_acl req.uri.path
      then (some forbidden, st.rate_limiters)
      else if domain_denied proxy.domain_allow proxy.domain_block headers
      then (some forbidden, st.rate_limiters)
      else if bot_denied proxy.bot_detection headers ja3
      then (some forbidden, st.rate_limiters)
      else if not within
      then (some too_many_requests, counted)
      else if waf_denied hyper.show_ip proxy.waf proxy.frontend_config bypassed
          (waf_context req headers body ip ja3)
      then (some forbidden, counted)
      else (none, counted)

  module _ (forward : Backend → OutboundRequest → Forwarded) (request_id : Text) where
    finish :
        List (RateLimiter F × RateLimitKey)
        → RequestPipeline Net S
        → Response × Option (Backend × OutboundRequest)
        → Handled Net S F
    finish limiters p (response, sent) = record {
      response = response;
      sent = sent;
      shared = record { rate_limiters = limiters; pipeline = p };
    }

    at_backend :
        List (RateLimiter F × RateLimitKey)
        → Request
        → List (Text × Text)
        → List ℕ
        → RequestPipeline Net S
        → ℕ
        → Option Backend
        → Handled Net S F
    unfolding send_on finish
    at_backend limiters req headers body p i none = finish limiters p (bad_gateway, none)
    at_backend limiters req headers body p i (some backend) =
        let out =
          outbound_request hyper proxy.frontend_config backend req.method req.uri headers body ip
            request_id in
        finish limiters (record p { backends = drop_guard p.backends i })
          (send_on hyper proxy forward headers backend out)

    on_backend :
        List (RateLimiter F × RateLimitKey)
        → Request
        → List (Text × Text)
        → List ℕ
        → Option ℕ × RequestPipeline Net S
        → Handled Net S F
    unfolding at_backend
    on_backend limiters req headers body (none, p) = finish limiters p (bad_gateway, none)
    on_backend limiters req headers body (some i, p) =
        at_backend limiters req headers body p i (get_elem? p.backends i)

    admitted :
        Shared Net S F
        → Request
        → List (Text × Text)
        → List ℕ
        → Option Response × List (RateLimiter F × RateLimitKey)
        → Handled Net S F
    unfolding on_backend sticky_tag
    admitted st req headers body (some refusal, limiters) =
        finish limiters st.pipeline (refusal, none)
    admitted st req headers body (none, limiters) =
        on_backend limiters req headers body
          (choose_backend st.pipeline ip (sticky_tag hyper proxy headers))

    read_body : Shared Net S F → Request → List (Text × Text) → Option (List ℕ) → Handled Net S F
    unfolding admitted
    read_body st req headers none =
        finish st.rate_limiters st.pipeline (error_response 400 (codes "Bad Request"), none)
    read_body st req headers (some body) = admitted st req headers body (admit st req headers body)

    unfoldable pub handle_request : Shared Net S F → Request → Handled Net S F
    unfolding read_body
    handle_request st req =
        let headers = header_map hyper req.headers [] in read_body st req headers req.body
