-- ===== src/Proxy/Http/Exchange.antt =====
-- http_proxy.rs, `HttpProxy` and `handle_request`: what happens with a chosen backend.
pub mod Stripped
use serverwall.Base.{
  ℕ, Bool, true, false, List, [], ◌∷◌, Option, none, some, if◌then◌else◌, length, Text, codes,
}
use serverwall.Core.Types.{Backend}
use serverwall.Core.Config.{ProtocolType}
use serverwall.Waf.Engine.{WafEngine}
use serverwall.Proxy.Http.Settings.{
  Hyper, Response, BalanceMethod, FrontendConfig, SecurityHeadersConfig, BotDetectionConfig,
  CookieSecurityConfig, error_response,
}
use serverwall.Proxy.Http.Cookies.{parse_cookie}
use serverwall.Proxy.Http.Outbound.{OutboundRequest}
use serverwall.Proxy.Http.Responses.{
  BackendResponse, compress, copy_response_headers, add_security_headers, add_session_cookie,
  add_hsts, add_encoding, response_of,
}

-- The fields of `HttpProxy` that stay as they are, for compiled patterns of type `Regex`.
pub record HttpProxy (Regex : Type 0) : Type 0 where
  pub waf : Option WafEngine
  pub frontend_config : FrontendConfig
  pub security_headers : SecurityHeadersConfig
  pub path_acl : Option (List (List Regex × Bool))
  pub bot_detection : BotDetectionConfig
  pub hsts_max_age : Option ℕ
  pub hsts_include_subdomains : Bool
  pub cookie_security : CookieSecurityConfig
  pub acl_bypass_waf : Bool
  pub domain_allow : List Text
  pub domain_block : List Text

-- How `forward_to_backend` ends: the connection or its handshake fails, the request is sent and its
-- answer does not come, or the answer comes.
pub data Forwarded : Type 0 where
  not_connected unanswered : Forwarded
  answered_by : BackendResponse → Forwarded

-- What the backend gets: nothing where there is no connection to it.
unfoldable pub sent_if_connected :
    Backend → OutboundRequest → Forwarded → Option (Backend × OutboundRequest)
sent_if_connected backend out not_connected = none
sent_if_connected backend out unanswered = some (backend, out)
sent_if_connected backend out (answered_by answer) = some (backend, out)

unfoldable pub is_sticky : BalanceMethod → Bool
is_sticky BalanceMethod.sticky_session = true
is_sticky _ = false

unfoldable pub is_tls_frontend : ProtocolType → Bool
is_tls_frontend ProtocolType.https = true
is_tls_frontend _ = false

abbrev pub forbidden : Response
forbidden = error_response 403 (codes "Forbidden")

abbrev pub too_many_requests : Response
too_many_requests = error_response 429 (codes "Too Many Requests")

abbrev pub bad_gateway : Response
bad_gateway = error_response 502 (codes "Bad Gateway")

module _ {Regex : Type 0} (hyper : Hyper) (proxy : HttpProxy Regex) where
  -- The answer of the backend as the client gets it.
  unfoldable pub client_response :
      List (Text × Text) → Backend → BackendResponse → List ℕ → Response
  client_response headers backend answer body =
      let config : FrontendConfig = proxy.frontend_config in
      let is_tls = is_tls_frontend config.protocol in
      let sticky = is_sticky config.balancer in
      let (sent_body, did_compress) =
        compress hyper proxy.security_headers headers answer.headers body in
      let copied =
        copy_response_headers hyper proxy.security_headers proxy.cookie_security is_tls did_compress
          answer.headers (some []) in
      let secured = add_security_headers hyper proxy.security_headers copied in
      let routed =
        add_session_cookie hyper sticky config.session_cookie backend.tag is_tls secured in
      let strict = add_hsts hyper proxy.hsts_max_age proxy.hsts_include_subdomains routed in
      response_of (add_encoding hyper did_compress (length sent_body) strict) answer.status
        sent_body

  answered : List (Text × Text) → Backend → Forwarded → Response
  unfolding client_response
  answered headers backend not_connected = bad_gateway
  answered headers backend unanswered = bad_gateway
  answered headers backend (answered_by answer) = elim answer.body [
    | none ↦ bad_gateway
    | some body ↦ client_response headers backend answer body
  ]

  unfoldable pub send_on :
      (Backend → OutboundRequest → Forwarded)
      → List (Text × Text)
      → Backend
      → Option OutboundRequest
      → Response × Option (Backend × OutboundRequest)
  unfolding answered sent_if_connected
  send_on forward headers backend none = (error_response 500 (codes "Internal Server Error"), none)
  send_on forward headers backend (some out) =
      let outcome = forward backend out in
      (answered headers backend outcome, sent_if_connected backend out outcome)

  unfoldable pub sticky_tag : List (Text × Text) → Option Text
  sticky_tag headers =
      let config : FrontendConfig = proxy.frontend_config in
      if is_sticky config.balancer then parse_cookie headers config.session_cookie else none
