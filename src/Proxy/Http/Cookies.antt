-- ===== src/Proxy/Http/Cookies.antt =====
-- http_proxy.rs, `enforce_set_cookie` and `parse_cookie`.
use serverwall.Base.{
  Bool, ◌&&◌, List, [], ◌∷◌, ◌++◌, Option, none, some, if◌then◌else◌, not, ltb, any, retain, map,
  Text, codes, text_eq, byte_len, trim, to_lowercase, starts_with, split, split_once, get,
}
use serverwall.Proxy.Http.Settings.{CookieSecurityConfig}

unless_present : Bool → Text → Text → List Text → List Text → List Text
unless_present enforced lower_name attribute lower attrs =
    if enforced && not (any (λ a. text_eq a lower_name) lower)
    then attrs ++ (attribute ∷ [])
    else attrs

with_samesite : Option Text → List Text → List Text
with_samesite none attrs = attrs
with_samesite (some samesite) attrs =
    retain (λ a. not (starts_with (codes "samesite") (to_lowercase a))) attrs
    ++ ((codes "SameSite=" ++ samesite) ∷ [])

-- The attributes after the policy; `lower` is taken before anything is added.
unfoldable pub enforced_attributes : CookieSecurityConfig → Bool → List Text → List Text
unfolding unless_present with_samesite
enforced_attributes cfg is_tls attrs =
    let lower = map to_lowercase attrs in
    with_samesite cfg.enforce_samesite (
      unless_present cfg.enforce_httponly_flag (codes "httponly") (codes "HttpOnly") lower (
        unless_present (cfg.enforce_secure_flag && is_tls) (codes "secure") (codes "Secure") lower
          attrs))

unfoldable pub attach : Text → List Text → Text
attach result [] = result
attach result (attr ∷ attrs) = attach (result ++ (codes "; " ++ attr)) attrs

enforce_parts : Text → List Text → CookieSecurityConfig → Bool → Option Text
unfolding enforced_attributes attach
enforce_parts value [] cfg is_tls = some value
enforce_parts value (part ∷ parts) cfg is_tls =
    let name_value = trim part in
    if ltb 0 cfg.max_cookie_size && ltb cfg.max_cookie_size (byte_len name_value)
    then none
    else some (attach name_value (enforced_attributes cfg is_tls (map trim parts)))

-- A `Set-Cookie` header with the policy applied, `none` for a cookie that is too large.
unfoldable pub enforce_set_cookie : Text → CookieSecurityConfig → Bool → Option Text
unfolding enforce_parts
enforce_set_cookie value cfg is_tls = enforce_parts value (split b';' value) cfg is_tls

cookie_value : Text → Option (Text × Text) → Option Text → Option Text
cookie_value name none later = later
cookie_value name (some (k, v)) later = if text_eq (trim k) name then some (trim v) else later

named_cookie : Text → List Text → Option Text
unfolding cookie_value
named_cookie name [] = none
named_cookie name (pair ∷ pairs) =
    cookie_value name (split_once b'=' (trim pair)) (named_cookie name pairs)

cookie_in : Option Text → Text → Option Text
unfolding named_cookie
cookie_in none name = none
cookie_in (some header) name = named_cookie name (split b';' header)

unfoldable pub parse_cookie : List (Text × Text) → Text → Option Text
unfolding cookie_in
parse_cookie headers name = cookie_in (get (codes "cookie") headers) name
