-- ===== src/Proxy/Http/Handler/Released.antt =====
-- http_proxy.rs, `handle_request`: the guard of a request is dropped when it ends.
use serverwall.Base.{
  Bool, ℕ, zero, suc, ◌+◌, ◌<◌, ◌≡◌, refl, ap, sym, ◌∙◌, List, [], ◌∷◌, Option, none, some,
  get_elem?, arith, Text, All, map,
}
use serverwall.Core.Types.{
  Backend, IpAddr, count_opened, count_closed, open_guard, drop_guard, fetch_inc, fetch_dec,
  usize_mod,
}
use serverwall.Waf.RateLimit.{RateLimitKey, Float, RateLimiter}
use serverwall.Proxy.Pipeline.{RequestPipeline}
use serverwall.Proxy.Http.Settings.{Hyper, Request, Response}
use serverwall.Proxy.Http.Guards.{header_map}
use serverwall.Proxy.Http.Outbound.{OutboundRequest}
use serverwall.Proxy.Http.Exchange.{HttpProxy, Forwarded, sticky_tag}
use serverwall.Proxy.Http.Handler.{
  Shared, Handled, handle_request, choose_backend, finish, at_backend, on_backend, admitted,
  read_body,
}
use serverwall.Proxy.Http.Handler.Routing.{IsChosen, choose_backend-IsChosen}

abbrev pub counts : List Backend → List ℕ
counts bs = map (λ (b : Backend). b.active_connections) bs

-- No counter is at the bound of its type.
abbrev pub IsBounded : Backend → Type 0
IsBounded b = b.active_connections + 1 < usize_mod

dec-inc : (n : ℕ) → n + 1 < usize_mod → fetch_dec (fetch_inc n) ≡ n
unfolding fetch_dec fetch_inc
dec-inc n h = omega arith

drop-open :
    (bs : List Backend) (i : ℕ)
    → All IsBounded bs
    → counts (drop_guard (open_guard bs i) i) ≡ counts bs
unfolding drop_guard open_guard count_opened count_closed
drop-open [] i h = refl
drop-open (b ∷ bs) zero (h, hs) = rw (dec-inc b.active_connections h)
drop-open (b ∷ bs) (suc i) (h, hs) = ap (◌∷◌ b.active_connections) (drop-open bs i hs)

get_elem?-open :
    (bs : List Backend) (i : ℕ) → get_elem? (open_guard bs i) i ≡ none → open_guard bs i ≡ bs
unfolding open_guard
get_elem?-open [] i h = refl
get_elem?-open (b ∷ bs) zero h = absurd (cc)
get_elem?-open (b ∷ bs) (suc i) h = ap (◌∷◌ b) (get_elem?-open bs i h)

module _ {Net S Regex F : Type 0} (hyper : Hyper) (f : Float F) (net_contains : Net → IpAddr → Bool)
    (is_match : Regex → Text → Bool) (proxy : HttpProxy Regex) (now : ℕ) (ip : IpAddr)
    (ja3 : Option Text) (forward : Backend → OutboundRequest → Forwarded) (request_id : Text)
    (st : Shared Net S F) (req : Request) where
  abbrev Releases : Handled Net S F → Type 0
  Releases result = counts result.shared.pipeline.backends ≡ counts st.pipeline.backends

  at_backend-Releases :
      (limiters : List (RateLimiter F × RateLimitKey)) (entries : List (Text × Text))
      (body : List ℕ) (q : RequestPipeline Net S) (i : ℕ) (o : Option Backend)
      → get_elem? (open_guard st.pipeline.backends i) i ≡ o
      → q.backends ≡ open_guard st.pipeline.backends i
      → All IsBounded st.pipeline.backends
      → Releases (
          at_backend hyper f net_contains is_match proxy now ip ja3 forward request_id limiters req
            entries body q i o)
  unfolding at_backend finish
  at_backend-Releases limiters entries body q i none e opened h =
      (ap counts (opened ∙ get_elem?-open st.pipeline.backends i e))
  at_backend-Releases limiters entries body q i (some b) e opened h =
      (ap (λ bs. counts (drop_guard bs i)) opened ∙ drop-open st.pipeline.backends i h)

  on_backend-Releases :
      (limiters : List (RateLimiter F × RateLimitKey)) (entries : List (Text × Text))
      (body : List ℕ) (tag : Option Text) (r : Option ℕ × RequestPipeline Net S)
      → IsChosen st.pipeline ip tag r
      → All IsBounded st.pipeline.backends
      → Releases (
          on_backend hyper f net_contains is_match proxy now ip ja3 forward request_id limiters req
            entries body r)
  unfolding on_backend finish
  on_backend-Releases limiters entries body tag (none, q) (free, same) h = (ap counts same)
  on_backend-Releases limiters entries body tag (some i, q) (opened, at) h =
      at_backend-Releases limiters entries body q i (get_elem? q.backends i)
        (ap (λ bs. get_elem? bs i) (sym opened)) opened h

  admitted-Releases :
      (entries : List (Text × Text)) (body : List ℕ)
      (r : Option Response × List (RateLimiter F × RateLimitKey))
      → All IsBounded st.pipeline.backends
      → Releases (
          admitted hyper f net_contains is_match proxy now ip ja3 forward request_id st req entries
            body r)
  unfolding admitted finish
  admitted-Releases entries body (some x, limiters) h = refl
  admitted-Releases entries body (none, limiters) h =
      let tag = sticky_tag hyper proxy entries in
      on_backend-Releases limiters entries body tag (choose_backend st.pipeline ip tag)
        (choose_backend-IsChosen st.pipeline ip tag) h

  read_body-Releases :
      (entries : List (Text × Text)) (o : Option (List ℕ))
      → All IsBounded st.pipeline.backends
      → Releases (
          read_body hyper f net_contains is_match proxy now ip ja3 forward request_id st req entries
            o)
  unfolding read_body finish
  read_body-Releases entries none h = refl
  read_body-Releases entries (some body) h = admitted-Releases entries body _ h

  -- When a request ends, however it ends, each backend counts as many active connections as before,
  -- if no counter was at the bound of its type.
  pub handle_request-counts :
      All IsBounded st.pipeline.backends
      → counts
          (handle_request hyper f net_contains is_match proxy now ip ja3 forward request_id st
            req).shared.pipeline.backends
        ≡ counts st.pipeline.backends
  unfolding handle_request
  handle_request-counts h = read_body-Releases (header_map hyper req.headers []) req.body h
