-- ===== src/Proxy/Http/Responses.antt =====
-- http_proxy.rs, `handle_request`: the answer to the client, made of the answer of the backend.
use serverwall.Base.{
  ℕ, Bool, true, false, ◌&&◌, ◌||◌, List, [], ◌∷◌, ◌++◌, Option, none, some, if◌then◌else◌, not,
  any, leb, length, Text, codes, text_eq, contains_text, contains, starts_with, to_lowercase,
  decimal, get,
}
use serverwall.Proxy.Http.Settings.{
  Hyper, Builder, Response, SecurityHeadersConfig, CookieSecurityConfig, error_response,
  hop_by_hop_headers, fingerprint_headers,
}
use serverwall.Proxy.Http.Cookies.{enforce_set_cookie}
use serverwall.Proxy.Http.Outbound.{push, header}

-- The body is `none` where reading it fails.
pub record BackendResponse : Type 0 where
  pub status : ℕ
  pub headers : List (Text × List ℕ)
  pub body : Option (List ℕ)

wants_gzip : Option Text → Bool
wants_gzip none = false
wants_gzip (some v) = contains (codes "gzip") v

has_encoding : Option (List ℕ) → Bool
has_encoding none = false
has_encoding (some v) = true

module _ (hyper : Hyper) where
  text_of : Option (List ℕ) → Text
  text_of none = []
  text_of (some v) = elim (hyper.to_str v) [ none ↦ [] | some t ↦ t ]

  unfoldable pub should_compress :
      SecurityHeadersConfig → List (Text × Text) → List (Text × List ℕ) → List ℕ → Bool
  unfolding wants_gzip has_encoding text_of
  should_compress security headers answered body =
      let content_type = text_of (get (codes "content-type") answered) in
      security.compress_responses
      && (wants_gzip (get (codes "accept-encoding") headers)
          && (not (has_encoding (get (codes "content-encoding") answered))
              && (any (λ t. starts_with t content_type) security.compress_types
                  && leb security.compress_min_size (length body))))

  compressed : Bool → Option (List ℕ) → List ℕ → List ℕ × Bool
  compressed true (some smaller) body = (smaller, true)
  compressed true none body = (body, false)
  compressed false result body = (body, false)

  -- The body to send, and whether it was compressed.
  unfoldable pub compress :
      SecurityHeadersConfig → List (Text × Text) → List (Text × List ℕ) → List ℕ → List ℕ × Bool
  unfolding should_compress compressed
  compress security headers answered body =
      compressed (should_compress security headers answered body) (hyper.gzip body) body

  unfoldable pub is_dropped : SecurityHeadersConfig → Bool → Text → Bool
  is_dropped security did_compress lower =
      contains_text hop_by_hop_headers lower
      || (text_eq lower (codes "server")
          || (text_eq lower (codes "content-length") && did_compress
              || (text_eq lower (codes "x-powered-by") && security.remove_x_powered_by
                  || contains_text fingerprint_headers lower)))

  unfoldable pub set_cookie : Option Text → Builder → Builder
  unfolding header
  set_cookie none b = b
  set_cookie (some rewritten) b = header hyper (codes "set-cookie") rewritten b

  unfoldable pub copy_cookie : CookieSecurityConfig → Bool → Option Text → Builder → Builder
  unfolding set_cookie enforce_set_cookie
  copy_cookie cookies is_tls none b = b
  copy_cookie cookies is_tls (some v) b = set_cookie (enforce_set_cookie v cookies is_tls) b

  unfoldable pub copy_response_headers :
      SecurityHeadersConfig
      → CookieSecurityConfig
      → Bool
      → Bool
      → List (Text × List ℕ)
      → Builder
      → Builder
  unfolding is_dropped copy_cookie push
  copy_response_headers security cookies is_tls did_compress [] b = b
  copy_response_headers security cookies is_tls did_compress ((name, value) ∷ answered) b =
      let lower = to_lowercase name in
      copy_response_headers security cookies is_tls did_compress answered (
        if is_dropped security did_compress lower
        then b
        else if text_eq lower (codes "set-cookie")
        then copy_cookie cookies is_tls (hyper.to_str value) b
        else push name value b)

  unfoldable pub header_for : Text → Option Text → Builder → Builder
  unfolding header
  header_for name none b = b
  header_for name (some text) b = header hyper name text b

  unfoldable pub add_security_headers : SecurityHeadersConfig → Builder → Builder
  unfolding header header_for
  add_security_headers security b =
      let b1 =
        if security.add_x_content_type_options
        then header hyper (codes "x-content-type-options") (codes "nosniff") b
        else b in
      let b2 = header_for (codes "x-frame-options") security.add_x_frame_options b1 in
      let b3 = header_for (codes "referrer-policy") security.add_referrer_policy b2 in
      header_for (codes "content-security-policy") security.add_content_security_policy b3

  -- The cookie that routes the client back to the same backend.
  unfoldable pub session_cookie_value : Text → Text → Bool → Text
  session_cookie_value name tag is_tls =
      name
      ++ (codes "="
          ++ (tag
              ++ (codes "; Path=/; HttpOnly; SameSite=Lax"
                  ++ (if is_tls then codes "; Secure" else []))))

  unfoldable pub add_session_cookie : Bool → Text → Text → Bool → Builder → Builder
  unfolding header session_cookie_value
  add_session_cookie true name tag is_tls b =
      header hyper (codes "set-cookie") (session_cookie_value name tag is_tls) b
  add_session_cookie false name tag is_tls b = b

  unfoldable pub add_hsts : Option ℕ → Bool → Builder → Builder
  unfolding header
  add_hsts none include_subdomains b = b
  add_hsts (some max_age) include_subdomains b =
      header hyper (codes "strict-transport-security")
        (codes "max-age="
          ++ (decimal max_age ++ (if include_subdomains then codes "; includeSubDomains" else [])))
        b

  unfoldable pub add_encoding : Bool → ℕ → Builder → Builder
  unfolding header
  add_encoding false len b = b
  add_encoding true len b = header hyper (codes "content-length") (decimal len) (
      header hyper (codes "vary") (codes "Accept-Encoding")
        (header hyper (codes "content-encoding") (codes "gzip") b))

-- `response.body(…)`: the answer, or the error of the builder.
unfoldable pub response_of : Builder → ℕ → List ℕ → Response
unfolding error_response
response_of none status body = error_response 500 (codes "Internal Server Error")
response_of (some headers) status body = record { status = status; headers = headers; body = body }
