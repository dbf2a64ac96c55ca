-- ===== src/Tests/Http.antt =====
-- One HTTP request through the proxy, with a client that sends an address of its own making.
mod Requests
use serverwall.Base.{
  ℕ, zero, suc, ◌+◌, ◌-◌, ◌*◌, ◌/◌, ◌<◌, ◌≡◌, refl, ◌⊎◌, inl, inr, Bool, true, false, List, [], ◌∷◌,
  Option, none, some, if◌then◌else◌, ltb, leb, Text, codes, All, to_lowercase, lower_char, contains,
  split, split_once, trim, get, insert, get_elem?, arith,
}
use serverwall.Core.Types.{IpAddr, SocketAddr, Backend, v4, open_guard, is_available}
use serverwall.Core.Acl.{AccessControlEngine, AclDefaultAction}
use serverwall.Core.Config.{ProtocolType}
use serverwall.Core.Balancer.Available.{IsAvailableAt}
use serverwall.Core.Balancer.RoundRobin.{round_robin}
use serverwall.Waf.RateLimit.{RateLimitKey, Float, RateLimiter, check_key}
use serverwall.Proxy.Pipeline.{RequestPipeline}
use serverwall.Proxy.Http.Settings.{
  Hyper, Uri, Request, BalanceMethod, CustomHeader, FrontendConfig, FrontendHeadersConfig,
  BotDetectionConfig, CookieSecurityConfig, SecurityHeadersConfig,
}
use serverwall.Proxy.Http.Guards.{
  header_map, path_denied, domain_denied, bot_denied, request_host, text_or_empty, ja3_listed,
  check_limiters, waf_denied,
}
use serverwall.Proxy.Http.Cookies.{parse_cookie}
use serverwall.Proxy.Http.Outbound.{OutboundRequest, outbound_request}
use serverwall.Proxy.Http.Outbound.Headers.{is_hop_by_hop, outbound_request-is_hop_by_hop}
use serverwall.Proxy.Http.Outbound.Forged.{outbound_request_first}
use serverwall.Proxy.Http.Responses.{BackendResponse}
use serverwall.Proxy.Http.Exchange.{
  HttpProxy, Forwarded, answered_by, client_response, sticky_tag, is_sticky,
}
use serverwall.Proxy.Http.Exchange.Stripped.{is_revealing, client_response-is_revealing}
use serverwall.Proxy.Http.Handler.{
  Shared, Handled, admit, choose_backend, tag_position, handle_request,
}
use serverwall.Proxy.Http.Handler.Admission.{Admissible}
use serverwall.Proxy.Http.Handler.Routing.{IsTaggedAt}
use serverwall.Proxy.Http.Handler.Sent.{handle_request-Admissible, handle_request-Reaches}
use serverwall.Proxy.Http.Handler.Released.{counts, handle_request-counts}

abbrev hyper : Hyper
hyper = record {
  to_str = λ v. some v;
  from_str = λ t. some t;
  from_bytes = λ t. some (to_lowercase t);
  is_uri = λ _. true;
  gzip = λ _. none;
  show_ip = λ _. codes "192.0.2.7";
  show_addr = λ _. codes "10.0.0.1:80";
}

abbrev whole : Float ℕ
whole = record {
  of_ℕ = λ n. n;
  seconds = λ n. n / 1000000000;
  add = λ a b. a + b;
  sub = λ a b. a - b;
  mul = λ a b. a * b;
  div = λ a b. a / b;
  min = λ a b. if ltb a b then a else b;
  lt = ltb;
  le = leb;
}

abbrev config : FrontendConfig
config = record {
  protocol = ProtocolType.https;
  balancer = BalanceMethod.sticky_session;
  waf_enabled = true;
  headers = record {
    x_forwarded_for = false;
    x_real_ip = true;
    x_forwarded_proto = true;
    x_forwarded_host = false;
    x_forwarded_port = false;
    x_request_id = false;
    custom = [];
  };
  session_cookie = codes "_s";
}

abbrev proxy : HttpProxy Text
proxy = record {
  waf = none;
  frontend_config = config;
  security_headers = record {
    add_x_content_type_options = true;
    add_x_frame_options = none;
    add_referrer_policy = none;
    add_content_security_policy = none;
    remove_server_header = false;
    remove_x_powered_by = true;
    compress_responses = false;
    compress_min_size = 1024;
    compress_types = [];
  };
  path_acl = none;
  bot_detection = record {
    enabled = true;
    ja3_fingerprint_block_list = [];
    challenge_suspicious = false;
    known_good_bots = codes "goodbot" ∷ [];
    verify_good_bots = false;
  };
  hsts_max_age = some 300;
  hsts_include_subdomains = false;
  cookie_security = record {
    enforce_secure_flag = true;
    enforce_httponly_flag = true;
    enforce_samesite = none;
    max_cookie_size = 4096;
  };
  acl_bypass_waf = false;
  domain_allow = codes "example.org" ∷ [];
  domain_block = [];
}

abbrev backend : Backend
backend = record {
  id = codes "b1";
  tag = codes "a1b2c3";
  address = record { ip = v4 10 0 0 1; port = 80 };
  weight = 1;
  tls = false;
  tls_verify = false;
  tls_sni = none;
  max_connections = some 8;
  enabled = true;
  active_connections = 2;
  total_connections = 5;
  healthy = true;
}

abbrev opened : Backend
opened = record backend { active_connections = 3; total_connections = 6 }

abbrev shared : Shared ℕ ℕ ℕ
shared = record {
  rate_limiters =
      (record { buckets = []; max_requests = 10; refill_rate = 1 }, RateLimitKey.client_ip) ∷ [];
  pipeline = record {
    acl = record { block_list = none; allow_list = none; default_action = AclDefaultAction.allow };
    global_ip_acl = none;
    geo = none;
    balancer = round_robin;
    state = 0;
    backends = backend ∷ [];
  };
}

abbrev client : IpAddr
client = v4 192 0 2 7

abbrev request : Request
request = record {
  method = codes "GET";
  uri = record {
    text = codes "/list";
    path = codes "/list";
    path_and_query = some (codes "/list");
  };
  headers =
      (codes "host", codes "Example.org:443")
      ∷ (codes "connection", codes "close")
      ∷ (codes "user-agent", codes "curl/8 GoodBot")
      ∷ (codes "x-real-ip", codes "127.0.0.1")
      ∷ (codes "cookie", codes "a=1; _s=a1b2c3")
      ∷ [];
  body = some [];
}

abbrev entries : List (Text × Text)
entries = header_map hyper request.headers []

abbrev sent : OutboundRequest
sent = record {
  method = codes "GET";
  uri = codes "http://10.0.0.1:80/list";
  headers =
      (codes "host", codes "Example.org:443")
      ∷ (codes "user-agent", codes "curl/8 GoodBot")
      ∷ (codes "x-real-ip", codes "127.0.0.1")
      ∷ (codes "cookie", codes "a=1; _s=a1b2c3")
      ∷ (codes "x-real-ip", codes "192.0.2.7")
      ∷ (codes "x-forwarded-proto", codes "https")
      ∷ [];
  body = [];
}

abbrev no_net : ℕ → IpAddr → Bool
no_net net ip = false

abbrev no_match : Text → Text → Bool
no_match re t = false

abbrev answer : BackendResponse
answer = record {
  status = 200;
  headers =
      (codes "server", codes "nginx")
      ∷ (codes "x-runtime", codes "7")
      ∷ (codes "set-cookie", codes "id=1; Path=/")
      ∷ [];
  body = some (codes "ok");
}

abbrev forward : Backend → OutboundRequest → Forwarded
forward b out = answered_by answer
