-- ===== src/Proxy/Http/Outbound.antt =====
-- http_proxy.rs, `handle_request`: the request that is sent to the backend.
pub mod Headers
pub mod Forged
use serverwall.Base.{
  ℕ, Bool, true, false, List, [], ◌∷◌, ◌++◌, Option, none, some, if◌then◌else◌, Text, codes,
  contains_text, to_lowercase, last_part, get,
}
use serverwall.Core.Types.{IpAddr, Backend}
use serverwall.Core.Config.{ProtocolType}
use serverwall.Proxy.Http.Settings.{
  Hyper, Uri, Builder, CustomHeader, FrontendHeadersConfig, FrontendConfig, hop_by_hop_headers,
}

pub record OutboundRequest : Type 0 where
  pub method : Text
  pub uri : Text
  pub headers : List (Text × List ℕ)
  pub body : List ℕ

-- `builder.header`: a header more, with a value that was made before or is made of a text.
unfoldable pub push : Text → List ℕ → Builder → Builder
push name value none = none
push name value (some headers) = some (headers ++ ((name, value) ∷ []))

module _ (hyper : Hyper) where
  push_made : Text → Option (List ℕ) → Builder → Builder
  unfolding push
  push_made name none b = none
  push_made name (some value) b = push name value b

  unfoldable pub header : Text → Text → Builder → Builder
  unfolding push_made
  header name text b = push_made name (hyper.from_str text) b

  pub push_valid : Option Text → Option (List ℕ) → Builder → Builder
  unfolding push
  push_valid (some name) (some value) b = push name value b
  push_valid none value b = b
  push_valid (some name) none b = b

  -- A header whose name and value are valid; another one is left out.
  unfoldable pub push_checked : Text → Text → Builder → Builder
  unfolding push_valid
  push_checked name value b = push_valid (hyper.from_bytes name) (hyper.from_str value) b

  unfoldable pub copy_headers : List (Text × Text) → Builder → Builder
  unfolding push_checked
  copy_headers [] b = b
  copy_headers ((name, value) ∷ entries) b = copy_headers entries (
      if contains_text hop_by_hop_headers (to_lowercase name) then b else push_checked name value b)

  unfoldable pub add_custom : List CustomHeader → Builder → Builder
  unfolding push_checked
  add_custom [] b = b
  add_custom (custom ∷ customs) b = add_custom customs (push_checked custom.name custom.value b)

  header_if : Bool → Text → Text → Builder → Builder
  unfolding header
  header_if true name text b = header name text b
  header_if false name text b = b

  header_of : Bool → Text → Option Text → Builder → Builder
  unfolding header_if
  header_of on name none b = b
  header_of on name (some text) b = header_if on name text b

  forwarded_for : Option Text → IpAddr → Text
  forwarded_for none client_ip = hyper.show_ip client_ip
  forwarded_for (some existing) client_ip = existing ++ (codes ", " ++ hyper.show_ip client_ip)

  proto : ProtocolType → Text
  proto ProtocolType.https = codes "https"
  proto _ = codes "http"

  port_of : Option Text → Option Text
  port_of none = none
  port_of (some host) = some (last_part b':' host)

  -- The headers of the proxy, in front of the custom ones.
  unfoldable pub inject_headers :
      FrontendConfig → List (Text × Text) → IpAddr → Text → Builder → Builder
  unfolding header_if header_of forwarded_for proto port_of add_custom
  inject_headers config headers client_ip request_id b =
      let hc : FrontendHeadersConfig = config.headers in
      let b1 =
        header_if hc.x_forwarded_for (codes "x-forwarded-for")
          (forwarded_for (get (codes "x-forwarded-for") headers) client_ip) b in
      let b2 = header_if hc.x_real_ip (codes "x-real-ip") (hyper.show_ip client_ip) b1 in
      let b3 =
        header_if hc.x_forwarded_proto (codes "x-forwarded-proto") (proto config.protocol) b2 in
      let b4 =
        header_of hc.x_forwarded_host (codes "x-forwarded-host") (get (codes "host") headers) b3 in
      let b5 =
        header_of hc.x_forwarded_port (codes "x-forwarded-port")
          (port_of (get (codes "host") headers)) b4 in
      let b6 = header_if hc.x_request_id (codes "x-request-id") request_id b5 in
      add_custom hc.custom b6

  path_or_root : Option Text → Text
  path_or_root none = codes "/"
  path_or_root (some pq) = pq

  unfoldable pub backend_uri : Backend → Uri → Text
  unfolding path_or_root
  backend_uri backend uri =
      codes "http://" ++ (hyper.show_addr backend.address ++ path_or_root uri.path_and_query)

  pub request_of : Builder → Text → Text → List ℕ → Option OutboundRequest
  request_of none method uri body = none
  request_of (some headers) method uri body =
      some (record { method = method; uri = uri; headers = headers; body = body })

  -- The request, or `none` where the builder refuses a part of it.
  unfoldable pub outbound_request :
      FrontendConfig
      → Backend
      → Text
      → Uri
      → List (Text × Text)
      → List ℕ
      → IpAddr
      → Text
      → Option OutboundRequest
  unfolding backend_uri copy_headers inject_headers request_of
  outbound_request config backend method uri headers body client_ip request_id =
      let to = backend_uri backend uri in
      let start : Builder = if hyper.is_uri to then some [] else none in
      request_of (inject_headers config headers client_ip request_id (copy_headers headers start))
        method to body
