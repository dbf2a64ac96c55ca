-- ===== src/Waf/Request.antt =====
-- serverwall-waf/src/request.rs and response.rs: what the firewall sees of a request, and what it
-- decides. A map of headers or cookies is the list of its entries, each name once.
use serverwall.Base.{
  ℕ, List, [], ◌∷◌, Option, none, some, Bool, true, false, if◌then◌else◌, is_empty, Text, codes,
  trim, to_uppercase, split, split_once, get, insert, from_utf8_lossy, length,
}
use serverwall.Core.Types.{IpAddr}

-- `WafDecision`.
pub data WafDecision : Type 0 where
  allow block log : WafDecision
  redirect : Text → WafDecision
  challenge : WafDecision

unfoldable pub status_code : WafDecision → ℕ
status_code WafDecision.allow = 200
status_code WafDecision.block = 403
status_code WafDecision.log = 200
status_code (WafDecision.redirect _) = 302
status_code WafDecision.challenge = 429

abbrev pub is_blocked : WafDecision → Bool
is_blocked WafDecision.block = true
is_blocked _ = false

pub record HttpRequestContext : Type 0 where
  pub method : Text
  pub uri : Text
  pub path : Text
  pub query_string : Text
  pub headers : List (Text × Text)
  pub cookies : List (Text × Text)
  pub body : List ℕ
  pub remote_addr : IpAddr
  pub protocol : Text
  pub ja3_fingerprint : Option Text

-- The name and the value of one cookie.
key_value : Text → Text × Text
key_value pair = elim (split_once b'=' pair) [
  | none ↦ (trim pair, [])
  | some (key, value) ↦ (trim key, trim value)
]

-- A later cookie overwrites an earlier one of its name; one without a name is left out.
parse_cookies : List Text → List (Text × Text) → List (Text × Text)
parse_cookies [] jar = jar
parse_cookies (pair ∷ pairs) jar =
    let (key, value) = key_value (trim pair) in
    parse_cookies pairs (if is_empty key then jar else insert key value jar)

first_of : Option Text → Option Text → Option Text
first_of (some a) b = some a
first_of none b = b

cookies_of : Option Text → List (Text × Text)
cookies_of none = []
cookies_of (some header) = parse_cookies (split b';' header) []

unfoldable pub from_parts :
    Text → Text → List (Text × Text) → List ℕ → IpAddr → Option Text → HttpRequestContext
unfolding key_value parse_cookies first_of cookies_of
from_parts method uri headers body client_ip ja3_fingerprint =
    let (path, query_string) : Text × Text = elim (split_once b'?' uri) [
      | none ↦ (uri, [])
      | some (a, b) ↦ (a, b)
    ] in
    record {
      method = to_uppercase method;
      uri = uri;
      path = path;
      query_string = query_string;
      headers = headers;
      cookies = cookies_of (first_of (get (codes "cookie") headers) (get (codes "Cookie") headers));
      body = body;
      remote_addr = client_ip;
      protocol = elim (get (codes "x-forwarded-proto") headers) [
        | none ↦ codes "http"
        | some p ↦ p
      ];
      ja3_fingerprint = ja3_fingerprint;
    }

unfoldable pub user_agent : HttpRequestContext → Option Text
unfolding first_of
user_agent ctx =
    first_of (get (codes "user-agent") ctx.headers) (get (codes "User-Agent") ctx.headers)

unfoldable pub body_str : HttpRequestContext → Text
body_str ctx = from_utf8_lossy ctx.body

unfoldable pub body_size : HttpRequestContext → ℕ
body_size ctx = length ctx.body

unfoldable pub header_count : HttpRequestContext → ℕ
header_count ctx = length ctx.headers
