-- ===== src/Proxy/Http/Outbound/Headers.antt =====
-- http_proxy.rs, `handle_request`: which headers a backend gets.
use serverwall.Base.{
  ℕ, ◌≡◌, refl, Bool, true, false, List, [], ◌∷◌, ◌++◌, Option, none, some, if_both, All, Text,
  codes, contains_text, to_lowercase, get, arith,
}
use serverwall.Core.Types.{IpAddr, Backend}
use serverwall.Proxy.Http.Settings.{
  Hyper, Uri, Builder, CustomHeader, FrontendHeadersConfig, FrontendConfig,
}
use serverwall.Proxy.Http.Outbound.{
  OutboundRequest, push, push_made, header, push_valid, push_checked, copy_headers, add_custom,
  header_if, header_of, inject_headers, request_of, outbound_request, backend_uri, port_of, proto,
  forwarded_for,
}

-- The hop-by-hop headers of RFC 2616, 13.5.1, with the singular `Trailer`, and `Proxy-Connection`.
abbrev pub hop_names : List Text
hop_names =
    codes "connection"
    ∷ codes "keep-alive"
    ∷ codes "proxy-authenticate"
    ∷ codes "proxy-authorization"
    ∷ codes "proxy-connection"
    ∷ codes "te"
    ∷ codes "trailer"
    ∷ codes "transfer-encoding"
    ∷ codes "upgrade"
    ∷ []

abbrev pub is_hop_by_hop : Text → Bool
is_hop_by_hop name = contains_text hop_names name

-- What every header with a name of some kind keeps, the builder keeps.
module _ (hyper : Hyper) (P : Builder → Type 0) (Good : Text → Type 0) (refused : P none)
    (grows : (name : Text) (value : List ℕ) (b : Builder)
      → Good name
      → P b
      → P (push name value b)) where
  pub header-keeps :
      (name text : Text) (b : Builder) → Good name → P b → P (header hyper name text b)
  unfolding header push_made
  header-keeps name text b good h =
      elim (hyper.from_str text) as (λ o. P (push_made hyper name o b)) [
        | none ↦ refused
        | some value ↦ grows name value b good h
      ]

  pub valid-keeps :
      (n : Option Text) (v : Option (List ℕ)) (b : Builder)
      → ((name : Text) → n ≡ some name → Good name)
      → P b
      → P (push_valid hyper n v b)
  unfolding push_valid
  valid-keeps (some name) (some value) b good h = grows name value b (good name refl) h
  valid-keeps none v b good h = h
  valid-keeps (some name) none b good h = h

  if-keeps :
      (on : Bool) (name text : Text) (b : Builder)
      → Good name
      → P b
      → P (header_if hyper on name text b)
  unfolding header_if
  if-keeps true name text b good h = header-keeps name text b good h
  if-keeps false name text b good h = h

  of-keeps :
      (on : Bool) (name : Text) (o : Option Text) (b : Builder)
      → Good name
      → P b
      → P (header_of hyper on name o b)
  unfolding header_of
  of-keeps on name none b good h = h
  of-keeps on name (some text) b good h = if-keeps on name text b good h

  custom-keeps :
      (customs : List CustomHeader) (b : Builder)
      → All (λ c. (name : Text) → hyper.from_bytes c.name ≡ some name → Good name) customs
      → P b
      → P (add_custom hyper customs b)
  unfolding add_custom push_checked
  custom-keeps [] b goods h = h
  custom-keeps (c ∷ customs) b (good, goods) h =
      custom-keeps customs _ goods
        (valid-keeps (hyper.from_bytes c.name) (hyper.from_str c.value) b good h)

  pub copy-keeps :
      (entries : List (Text × Text)) (b : Builder)
      → ((entry name : Text)
          → is_hop_by_hop (to_lowercase entry) ≡ false
          → hyper.from_bytes entry ≡ some name
          → Good name)
      → P b
      → P (copy_headers hyper entries b)
  unfolding copy_headers push_checked
  copy-keeps [] b good h = h
  copy-keeps ((name, value) ∷ entries) b good h = copy-keeps entries _ good (
      if_both P (is_hop_by_hop (to_lowercase name)) b _ (λ _. h)
        (λ e.
          valid-keeps (hyper.from_bytes name) (hyper.from_str value) b (λ n q. good name n e q) h))

  pub inject-keeps :
      (config : FrontendConfig) (entries : List (Text × Text)) (ip : IpAddr) (request_id : Text)
      (b : Builder)
      → All
          (λ c. (name : Text) → hyper.from_bytes c.name ≡ some name → Good name)
          config.headers.custom
      → Good (codes "x-forwarded-for")
      → Good (codes "x-real-ip")
      → Good (codes "x-forwarded-proto")
      → Good (codes "x-forwarded-host")
      → Good (codes "x-forwarded-port")
      → Good (codes "x-request-id")
      → P b
      → P (inject_headers hyper config entries ip request_id b)
  unfolding inject_headers
  inject-keeps config entries ip request_id b goods xff real scheme host port id h =
      let hc : FrontendHeadersConfig = config.headers in
      let existing = get (codes "x-forwarded-for") entries in
      custom-keeps hc.custom _ goods (
        if-keeps hc.x_request_id _ request_id _ id (
          of-keeps hc.x_forwarded_port _ (port_of hyper (get (codes "host") entries)) _ port (
            of-keeps hc.x_forwarded_host _ (get (codes "host") entries) _ host (
              if-keeps hc.x_forwarded_proto _ (proto hyper config.protocol) _ scheme (
                if-keeps hc.x_real_ip _ (hyper.show_ip ip) _ real
                  (if-keeps hc.x_forwarded_for _ (forwarded_for hyper existing ip) b xff h))))))

  pub request-keeps :
      (o : Builder) (method uri : Text) (body : List ℕ) (out : OutboundRequest)
      → request_of hyper o method uri body ≡ some out
      → P o
      → P (some out.headers)
  unfolding request_of
  request-keeps none method uri body out e h = absurd (cc)
  request-keeps (some headers) method uri body out e h =
      let same : headers ≡ out.headers = ground arith in rw same at h

-- A custom header of the configuration has none of these names.
abbrev pub IsEndToEnd : Hyper → CustomHeader → Type 0
IsEndToEnd hyper c =
    (name : Text) → hyper.from_bytes c.name ≡ some name → is_hop_by_hop name ≡ false

abbrev IsPlain : Builder → Type 0
IsPlain none = Unit
IsPlain (some headers) = All (λ h. is_hop_by_hop h.0 ≡ false) headers

pub All-snoc {ℓ} :
    {A : Type ℓ} (P : A → Type 0) (xs : List A) (y : A) → All P xs → P y → All P (xs ++ (y ∷ []))
All-snoc P [] y h k = (k, tt)
All-snoc P (x ∷ xs) y (h, hs) k = (h, All-snoc P xs y hs k)

push-IsPlain :
    (name : Text) (value : List ℕ) (b : Builder)
    → is_hop_by_hop name ≡ false
    → IsPlain b
    → IsPlain (push name value b)
unfolding push
push-IsPlain name value none e h = tt
push-IsPlain name value (some headers) e h = All-snoc _ headers (name, value) h e

-- No header that a backend gets is called Connection, Keep-Alive, Proxy-Authenticate,
-- Proxy-Authorization, Proxy-Connection, TE, Trailer, Transfer-Encoding or Upgrade, whatever the
-- client sends, if names are kept in lower case and the configuration adds no header of such a name.
pub outbound_request-is_hop_by_hop :
    (hyper : Hyper) (config : FrontendConfig) (b : Backend) (method : Text) (uri : Uri)
    (entries : List (Text × Text)) (body : List ℕ) (ip : IpAddr) (request_id : Text)
    (out : OutboundRequest)
    → ((entry name : Text) → hyper.from_bytes entry ≡ some name → name ≡ to_lowercase entry)
    → All (IsEndToEnd hyper) config.headers.custom
    → outbound_request hyper config b method uri entries body ip request_id ≡ some out
    → All (λ h. is_hop_by_hop h.0 ≡ false) out.headers
unfolding outbound_request
outbound_request-is_hop_by_hop hyper config b method uri entries body ip request_id out lower
      customs e =
    request-keeps hyper IsPlain _ tt push-IsPlain _ method _ body out e (
      inject-keeps hyper IsPlain _ tt push-IsPlain config entries ip request_id _ customs refl refl
        refl refl refl refl
        (copy-keeps hyper IsPlain (λ name. is_hop_by_hop name ≡ false) tt push-IsPlain entries _
          (λ entry name h q. rw (lower entry name q) h)
          (if_both {A = Builder} IsPlain (hyper.is_uri (backend_uri hyper b uri)) (some []) none
            (λ _. tt) (λ _. tt))))
