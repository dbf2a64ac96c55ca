-- ===== src/Proxy/Http/Settings.antt =====
-- The settings of config/schema.rs that http_proxy.rs reads, its constants, and what it takes from
-- `hyper`.
use serverwall.Base.{ℕ, Bool, List, [], ◌∷◌, Option, Text, codes}
use serverwall.Core.Types.{IpAddr, SocketAddr}
use serverwall.Core.Config.{ProtocolType}

pub data BalanceMethod : Type 0 where
  round_robin least_connections ip_hash sticky_session : BalanceMethod

pub record CustomHeader : Type 0 where
  pub name : Text
  pub value : Text

pub record FrontendHeadersConfig : Type 0 where
  pub x_forwarded_for : Bool
  pub x_real_ip : Bool
  pub x_forwarded_proto : Bool
  pub x_forwarded_host : Bool
  pub x_forwarded_port : Bool
  pub x_request_id : Bool
  pub custom : List CustomHeader

-- The fields of `FrontendConfig` that the handler reads.
pub record FrontendConfig : Type 0 where
  pub protocol : ProtocolType
  pub balancer : BalanceMethod
  pub waf_enabled : Bool
  pub headers : FrontendHeadersConfig
  pub session_cookie : Text

pub record BotDetectionConfig : Type 0 where
  pub enabled : Bool
  pub ja3_fingerprint_block_list : List Text
  pub challenge_suspicious : Bool
  pub known_good_bots : List Text
  pub verify_good_bots : Bool

pub record CookieSecurityConfig : Type 0 where
  pub enforce_secure_flag : Bool
  pub enforce_httponly_flag : Bool
  pub enforce_samesite : Option Text
  pub max_cookie_size : ℕ

pub record SecurityHeadersConfig : Type 0 where
  pub add_x_content_type_options : Bool
  pub add_x_frame_options : Option Text
  pub add_referrer_policy : Option Text
  pub add_content_security_policy : Option Text
  pub remove_server_header : Bool
  pub remove_x_powered_by : Bool
  pub compress_responses : Bool
  pub compress_min_size : ℕ
  pub compress_types : List Text

-- A name of a header is in lower case, as `hyper` keeps it, and a value is its bytes: `to_str` reads
-- one as text, `from_str` makes one of a text, `from_bytes` makes a name. `is_uri` says whether a
-- text is accepted as a request's URI, and `gzip` compresses.
pub record Hyper : Type 0 where
  pub to_str : List ℕ → Option Text
  pub from_str : Text → Option (List ℕ)
  pub from_bytes : Text → Option Text
  pub is_uri : Text → Bool
  pub gzip : List ℕ → Option (List ℕ)
  pub show_ip : IpAddr → Text
  pub show_addr : SocketAddr → Text

pub record Uri : Type 0 where
  pub text : Text
  pub path : Text
  pub path_and_query : Option Text

-- The body is `none` where reading it fails.
pub record Request : Type 0 where
  pub method : Text
  pub uri : Uri
  pub headers : List (Text × List ℕ)
  pub body : Option (List ℕ)

pub record Response : Type 0 where
  pub status : ℕ
  pub headers : List (Text × List ℕ)
  pub body : List ℕ

abbrev pub hop_by_hop_headers : List Text
hop_by_hop_headers =
    codes "connection"
    ∷ codes "keep-alive"
    ∷ codes "proxy-authenticate"
    ∷ codes "proxy-authorization"
    ∷ codes "proxy-connection"
    ∷ codes "te"
    ∷ codes "trailer"
    ∷ codes "transfer-encoding"
    ∷ codes "upgrade"
    ∷ []

abbrev pub fingerprint_headers : List Text
fingerprint_headers =
    codes "x-aspnet-version"
    ∷ codes "x-aspnetmvc-version"
    ∷ codes "x-generator"
    ∷ codes "x-runtime"
    ∷ codes "x-rack-cache"
    ∷ codes "x-pingback"
    ∷ codes "x-powered-cms"
    ∷ codes "x-cf-powered-by"
    ∷ []

abbrev pub known_bad_bot_signatures : List Text
known_bad_bot_signatures =
    codes "masscan"
    ∷ codes "nikto"
    ∷ codes "sqlmap"
    ∷ codes "nmap"
    ∷ codes "zgrab"
    ∷ codes "python-requests"
    ∷ codes "go-http-client"
    ∷ codes "curl/"
    ∷ codes "wget/"
    ∷ codes "libwww-perl"
    ∷ codes "scrapy"
    ∷ codes "semrushbot"
    ∷ codes "ahrefsbot"
    ∷ codes "mj12bot"
    ∷ codes "dotbot"
    ∷ codes "blexbot"
    ∷ codes "majestic"
    ∷ codes "petalbot"
    ∷ codes "bytespider"
    ∷ codes "claudebot"
    ∷ []

-- A message that is being built: its headers, `none` after a value that is refused.
abbrev pub Builder : Type 0
Builder = Option (List (Text × List ℕ))

-- `error_response`: the text is ASCII.
unfoldable pub error_response : ℕ → Text → Response
error_response status body = record {
  status = status;
  headers = (codes "content-type", codes "text/plain") ∷ [];
  body = body;
}
