-- ===== src/Proxy/Http/Exchange/Stripped.antt =====
-- http_proxy.rs, `handle_request`: the headers of a backend's answer that a client never sees.
use serverwall.Base.{
  ℕ, ◌≡◌, refl, Bool, true, false, ◌&&◌, ◌||◌, List, [], ◌∷◌, Option, none, some, if_both, All,
  Text, codes, text_eq, contains_text, to_lowercase, arith, length,
}
use serverwall.Core.Types.{Backend}
use serverwall.Proxy.Http.Settings.{
  Hyper, Builder, SecurityHeadersConfig, CookieSecurityConfig, error_response,
}
use serverwall.Proxy.Http.Outbound.{push, header}
use serverwall.Proxy.Http.Outbound.Headers.{is_hop_by_hop, All-snoc, header-keeps}
use serverwall.Proxy.Http.Cookies.{enforce_set_cookie}
use serverwall.Proxy.Http.Responses.{
  BackendResponse, compress, is_dropped, set_cookie, copy_cookie, copy_response_headers, header_for,
  add_security_headers, add_session_cookie, session_cookie_value, add_hsts, add_encoding,
  response_of,
}
use serverwall.Proxy.Http.Exchange.{HttpProxy, is_sticky, is_tls_frontend, client_response}

-- The names of headers that tell what the server behind the proxy is made with.
abbrev pub product_names : List Text
product_names =
    codes "x-aspnet-version"
    ∷ codes "x-aspnetmvc-version"
    ∷ codes "x-generator"
    ∷ codes "x-runtime"
    ∷ codes "x-rack-cache"
    ∷ codes "x-pingback"
    ∷ codes "x-powered-cms"
    ∷ codes "x-cf-powered-by"
    ∷ []

-- One of these names, one of the hop-by-hop names, or `Server`; `X-Powered-By` where the setting says
-- so.
abbrev pub is_revealing : SecurityHeadersConfig → Text → Bool
is_revealing security name =
    is_hop_by_hop name
    || (text_eq name (codes "server")
        || (text_eq name (codes "x-powered-by") && security.remove_x_powered_by
            || contains_text product_names name))

abbrev IsClean : SecurityHeadersConfig → Builder → Type 0
IsClean security none = Unit
IsClean security (some headers) = All (λ h. is_revealing security h.0 ≡ false) headers

push-IsClean :
    (security : SecurityHeadersConfig) (name : Text) (value : List ℕ) (b : Builder)
    → is_revealing security name ≡ false
    → IsClean security b
    → IsClean security (push name value b)
unfolding push
push-IsClean security name value none e h = tt
push-IsClean security name value (some headers) e h =
    All-snoc (λ x. is_revealing security x.0 ≡ false) headers (name, value) h e

kept_clean :
    (hop server len powered stack : Bool)
    → (hop || (server || (len || (powered || stack)))) ≡ false
    → (hop || (server || (powered || stack))) ≡ false
kept_clean hop server len powered stack h = ground arith

module _ (hyper : Hyper) (security : SecurityHeadersConfig) where
  header-IsClean :
      (name text : Text) (b : Builder)
      → is_revealing security name ≡ false
      → IsClean security b
      → IsClean security (header hyper name text b)
  header-IsClean name text b =
      header-keeps hyper (IsClean security) (λ n. is_revealing security n ≡ false) tt
        (push-IsClean security) name text b

  set_cookie-IsClean :
      (o : Option Text) (b : Builder) → IsClean security b → IsClean security (set_cookie hyper o b)
  unfolding set_cookie
  set_cookie-IsClean none b h = h
  set_cookie-IsClean (some t) b h = header-IsClean (codes "set-cookie") t b refl h

  copy_cookie-IsClean :
      (cookies : CookieSecurityConfig) (is_tls : Bool) (o : Option Text) (b : Builder)
      → IsClean security b
      → IsClean security (copy_cookie hyper cookies is_tls o b)
  unfolding copy_cookie
  copy_cookie-IsClean cookies is_tls none b h = h
  copy_cookie-IsClean cookies is_tls (some t) b h =
      set_cookie-IsClean (enforce_set_cookie t cookies is_tls) b h

  copy-IsClean :
      (cookies : CookieSecurityConfig) (is_tls compressed : Bool) (answered : List (Text × List ℕ))
      (b : Builder)
      → All (λ h. to_lowercase h.0 ≡ h.0) answered
      → IsClean security b
      → IsClean security (copy_response_headers hyper security cookies is_tls compressed answered b)
  unfolding copy_response_headers is_dropped
  copy-IsClean cookies is_tls compressed [] b lower h = h
  copy-IsClean cookies is_tls compressed ((name, value) ∷ answered) b (same, lower) h =
      copy-IsClean cookies is_tls compressed answered _ lower (
        if_both {A = Builder} (IsClean security)
          (is_dropped hyper security compressed (to_lowercase name)) b _ (λ _. h)
          (λ kept.
            if_both {A = Builder} (IsClean security)
              (text_eq (to_lowercase name) (codes "set-cookie"))
              (copy_cookie hyper cookies is_tls (hyper.to_str value) b) (push name value b)
              (λ _. copy_cookie-IsClean cookies is_tls (hyper.to_str value) b h)
              (λ _.
                push-IsClean security name value b
                  (kept_clean (is_hop_by_hop name) (text_eq name (codes "server"))
                    (text_eq name (codes "content-length") && compressed)
                    (text_eq name (codes "x-powered-by") && security.remove_x_powered_by)
                    (contains_text product_names name) (rw same at kept))
                  h)))

  header_for-IsClean :
      (name : Text) (o : Option Text) (b : Builder)
      → is_revealing security name ≡ false
      → IsClean security b
      → IsClean security (header_for hyper name o b)
  unfolding header_for
  header_for-IsClean name none b e h = h
  header_for-IsClean name (some t) b e h = header-IsClean name t b e h

  security-IsClean :
      (b : Builder) → IsClean security b → IsClean security (add_security_headers hyper security b)
  unfolding add_security_headers
  security-IsClean b h = header_for-IsClean _ security.add_content_security_policy _ refl (
      header_for-IsClean _ security.add_referrer_policy _ refl (
        header_for-IsClean _ security.add_x_frame_options _ refl (
          if_both {A = Builder} (IsClean security) security.add_x_content_type_options _ b
            (λ _. header-IsClean (codes "x-content-type-options") (codes "nosniff") b refl h)
            (λ _. h))))

  session-IsClean :
      (sticky : Bool) (name tag : Text) (is_tls : Bool) (b : Builder)
      → IsClean security b
      → IsClean security (add_session_cookie hyper sticky name tag is_tls b)
  unfolding add_session_cookie
  session-IsClean true name tag is_tls b h =
      header-IsClean (codes "set-cookie") (session_cookie_value hyper name tag is_tls) b refl h
  session-IsClean false name tag is_tls b h = h

  hsts-IsClean :
      (max_age : Option ℕ) (subdomains : Bool) (b : Builder)
      → IsClean security b
      → IsClean security (add_hsts hyper max_age subdomains b)
  unfolding add_hsts
  hsts-IsClean none subdomains b h = h
  hsts-IsClean (some age) subdomains b h = header-IsClean _ _ b refl h

  encoding-IsClean :
      (compressed : Bool) (len : ℕ) (b : Builder)
      → IsClean security b
      → IsClean security (add_encoding hyper compressed len b)
  unfolding add_encoding
  encoding-IsClean true len b h = header-IsClean (codes "content-length") _ _ refl (
      header-IsClean (codes "vary") _ _ refl (header-IsClean (codes "content-encoding") _ b refl h))
  encoding-IsClean false len b h = h

response_of-IsClean :
    (security : SecurityHeadersConfig) (b : Builder) (status : ℕ) (body : List ℕ)
    → IsClean security b
    → All (λ h. is_revealing security h.0 ≡ false) (response_of b status body).headers
unfolding response_of error_response
response_of-IsClean security none status body h = (refl, tt)
response_of-IsClean security (some headers) status body h = h

-- Whatever a backend answers, with names in lower case, the client sees no header with one of the
-- hop-by-hop names, no Server header, none of the eight headers of products, and no X-Powered-By if
-- the setting removes it; the other settings have no part in that.
pub client_response-is_revealing :
    {Regex : Type 0} (hyper : Hyper) (proxy : HttpProxy Regex) (headers : List (Text × Text))
    (backend : Backend) (answer : BackendResponse) (body : List ℕ)
    → All (λ h. to_lowercase h.0 ≡ h.0) answer.headers
    → All
        (λ h. is_revealing proxy.security_headers h.0 ≡ false)
        (client_response hyper proxy headers backend answer body).headers
unfolding client_response
client_response-is_revealing hyper proxy headers backend answer body lower =
    let is_tls = is_tls_frontend proxy.frontend_config.protocol in
    let (sent_body, did_compress) =
      compress hyper proxy.security_headers headers answer.headers body in
    let security = proxy.security_headers in
    response_of-IsClean security _ answer.status sent_body (
      encoding-IsClean hyper security did_compress (length sent_body) _ (
        hsts-IsClean hyper security proxy.hsts_max_age proxy.hsts_include_subdomains _ (
          session-IsClean hyper security (is_sticky proxy.frontend_config.balancer)
            proxy.frontend_config.session_cookie backend.tag is_tls _
            (security-IsClean hyper security _ (
              copy-IsClean hyper security proxy.cookie_security is_tls did_compress answer.headers
                (some []) lower tt)))))
