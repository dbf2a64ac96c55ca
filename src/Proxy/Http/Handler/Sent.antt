-- ===== src/Proxy/Http/Handler/Sent.antt =====
-- http_proxy.rs, `handle_request`: which requests reach a backend.
use serverwall.Base.{
  ℕ, zero, suc, ◌≡◌, ◌≢◌, refl, ◌⊎◌, inl, inr, Bool, List, [], ◌∷◌, Option, none, some, get_elem?,
  arith, Text, ap, Option-cases, ◌∙◌,
}
use serverwall.Core.Types.{Backend, IpAddr, open_guard}
use serverwall.Core.Balancer.Available.{IsAvailableAt}
use serverwall.Waf.RateLimit.{RateLimitKey, Float, RateLimiter}
use serverwall.Proxy.Pipeline.{RequestPipeline}
use serverwall.Proxy.Http.Settings.{Hyper, Request, Response}
use serverwall.Proxy.Http.Guards.{header_map}
use serverwall.Proxy.Http.Outbound.{OutboundRequest, outbound_request}
use serverwall.Proxy.Http.Exchange.{
  HttpProxy, Forwarded, not_connected, unanswered, answered_by, sent_if_connected, send_on,
  sticky_tag,
}
use serverwall.Proxy.Http.Handler.{
  Shared, Handled, handle_request, choose_backend, admit, finish, at_backend, on_backend, admitted,
  read_body,
}
use serverwall.Proxy.Http.Handler.Admission.{Admissible, admit-Admissible}
use serverwall.Proxy.Http.Handler.Routing.{IsTaggedAt, IsChosen, choose_backend-IsChosen}

sent_some :
    (c : Backend) (q : OutboundRequest) (r : Forwarded) (x : Backend × OutboundRequest)
    → sent_if_connected c q r ≡ some x
    → (c ≡ x.0) × (q ≡ x.1)
unfolding sent_if_connected
sent_some c q not_connected x h = absurd (cc)
sent_some c q unanswered x h = (cc, cc)
sent_some c q (answered_by a) x h = (cc, cc)

connected_sent :
    (c : Backend) (q : OutboundRequest) (r : Forwarded)
    → r ≢ not_connected
    → sent_if_connected c q r ≡ some (c, q)
unfolding sent_if_connected
connected_sent c q not_connected h = absurd (h refl)
connected_sent c q unanswered h = refl
connected_sent c q (answered_by a) h = refl

module _ {Net S Regex F : Type 0} (hyper : Hyper) (f : Float F) (net_contains : Net → IpAddr → Bool)
    (is_match : Regex → Text → Bool) (proxy : HttpProxy Regex) (now : ℕ) (ip : IpAddr)
    (ja3 : Option Text) (forward : Backend → OutboundRequest → Forwarded) (request_id : Text)
    (st : Shared Net S F) (req : Request) where
  abbrev handle : Handled Net S F
  handle = handle_request hyper f net_contains is_match proxy now ip ja3 forward request_id st req

  abbrev entries : List (Text × Text)
  entries = header_map hyper req.headers []

  abbrev IsBuilt : Backend → List ℕ → OutboundRequest → Type 0
  IsBuilt b body out =
      outbound_request hyper proxy.frontend_config b req.method req.uri entries body ip request_id
      ≡ some out

  abbrev choice : Option ℕ × RequestPipeline Net S
  choice = choose_backend st.pipeline ip (sticky_tag hyper proxy entries)

  send_on_sent :
      (c b : Backend) (o : Option OutboundRequest) (out : OutboundRequest)
      → (send_on hyper proxy forward entries c o).1 ≡ some (b, out)
      → (c ≡ b) × (o ≡ some out)
  unfolding send_on
  send_on_sent c b none out h = absurd (cc)
  send_on_sent c b (some q) out h =
      let (same, built) = sent_some c q (forward c q) (b, out) h in (same, ap some built)

  on_backend_sent :
      (limiters : List (RateLimiter F × RateLimitKey)) (body : List ℕ)
      (r : Option ℕ × RequestPipeline Net S) (b : Backend) (out : OutboundRequest)
      → (on_backend hyper f net_contains is_match proxy now ip ja3 forward request_id limiters req
          entries body r).sent
        ≡ some (b, out)
      → (i : ℕ) × (r.0 ≡ some i) × (get_elem? r.1.backends i ≡ some b) × IsBuilt b body out
  unfolding on_backend at_backend finish
  on_backend_sent limiters body (none, p) b out h = absurd (cc)
  on_backend_sent limiters body (some i, p) b out h = elim (Option-cases (get_elem? p.backends i)) [
    | inl e ↦ absurd (cc (rw e at h))
    | inr (c, e) ↦
        let (same, built) = send_on_sent c b _ out (rw e at h) in
        (i, refl, e ∙ ap some same, rw same at built)
  ]

  admitted_sent :
      (body : List ℕ) (r : Option Response × List (RateLimiter F × RateLimitKey)) (b : Backend)
      (out : OutboundRequest)
      → (admitted hyper f net_contains is_match proxy now ip ja3 forward request_id st req entries
          body r).sent
        ≡ some (b, out)
      → (r.0 ≡ none)
        × (i : ℕ) × (choice.0 ≡ some i)
        × (get_elem? choice.1.backends i ≡ some b)
        × IsBuilt b body out
  unfolding admitted
  admitted_sent body (some refusal, limiters) b out h = absurd (cc)
  admitted_sent body (none, limiters) b out h =
      let (i, chosen, at, built) = on_backend_sent limiters body choice b out h in
      (refl, i, chosen, at, built)

  read_body_sent :
      (o : Option (List ℕ)) (b : Backend) (out : OutboundRequest)
      → (read_body hyper f net_contains is_match proxy now ip ja3 forward request_id st req entries
          o).sent
        ≡ some (b, out)
      → (body : List ℕ) × (o ≡ some body)
        × ((admit hyper f net_contains is_match proxy now ip ja3 st req entries body).0 ≡ none)
        × (i : ℕ) × (choice.0 ≡ some i)
        × (get_elem? choice.1.backends i ≡ some b)
        × IsBuilt b body out
  unfolding read_body
  read_body_sent none b out h = absurd (cc)
  read_body_sent (some body) b out h =
      let (passed, i, chosen, at, built) =
        admitted_sent body
          (admit hyper f net_contains is_match proxy now ip ja3 st req entries body) b out h in
      (body, refl, passed, i, chosen, at, built)

  chosen_by :
      (tag : Option Text) (r : Option ℕ × RequestPipeline Net S) (i : ℕ)
      → IsChosen st.pipeline ip tag r
      → r.0 ≡ some i
      → (r.1.backends ≡ open_guard st.pipeline.backends i)
        × (IsAvailableAt st.pipeline.backends i ⊎ IsTaggedAt tag st.pipeline.backends i)
  chosen_by tag (none, q) i h e = absurd (cc)
  chosen_by tag (some j, q) i (opened, at) e =
      let same : j ≡ i = ground arith in (rw same at opened, rw same at at)

  -- What reaches a backend: the request's body could be read, the request meets every test, and the
  -- backend, whose guard is open then, was available, or is enabled and healthy and has the tag of
  -- the session cookie; what is sent is the outbound request for it.
  pub handle_request-Admissible :
      (b : Backend) (out : OutboundRequest)
      → handle.sent ≡ some (b, out)
      → (body : List ℕ) × (req.body ≡ some body)
        × Admissible hyper f net_contains is_match proxy now ip ja3 st req entries body
        × (i : ℕ) × (get_elem? (open_guard st.pipeline.backends i) i ≡ some b)
        × (IsAvailableAt st.pipeline.backends i
            ⊎ IsTaggedAt (sticky_tag hyper proxy entries) st.pipeline.backends i)
        × IsBuilt b body out
  unfolding handle_request
  handle_request-Admissible b out h =
      let (body, read, passed, i, chosen, at, built) = read_body_sent req.body b out h in
      let (opened, good) =
        chosen_by (sticky_tag hyper proxy entries) choice i
          (choose_backend-IsChosen st.pipeline ip (sticky_tag hyper proxy entries)) chosen in
      let (to, from) =
        admit-Admissible hyper f net_contains is_match proxy now ip ja3 st req entries body in
      (body, read, to passed, i, rw opened at at, good, built)

  exists_opened :
      (bs : List Backend) (i : ℕ) (c : Backend)
      → get_elem? bs i ≡ some c
      → (b : Backend) × (get_elem? (open_guard bs i) i ≡ some b)
  unfolding open_guard
  exists_opened [] i c h = absurd (cc)
  exists_opened (x ∷ xs) zero c h = (_, refl)
  exists_opened (x ∷ xs) (suc i) c h = exists_opened xs i c h

  on_backend_reaches :
      (limiters : List (RateLimiter F × RateLimitKey)) (body : List ℕ) (tag : Option Text)
      (r : Option ℕ × RequestPipeline Net S) (j : ℕ)
      → IsChosen st.pipeline ip tag r
      → IsAvailableAt st.pipeline.backends j
      → ((b : Backend) → (out : OutboundRequest) × IsBuilt b body out)
      → ((b : Backend) (out : OutboundRequest) → forward b out ≢ not_connected)
      → (b : Backend) × (out : OutboundRequest) × ((on_backend hyper f net_contains is_match proxy
            now ip ja3 forward request_id limiters req entries body r).sent
          ≡ some (b, out))
  unfolding on_backend at_backend finish send_on
  on_backend_reaches limiters body tag (none, q) j (free, same) at builds connects =
      absurd (free j at)
  on_backend_reaches limiters body tag (some i, q) j (opened, at) up builds connects =
      let (c, there) = position_of at in
      let (b, here) = exists_opened st.pipeline.backends i c there in
      let (out, built) = builds b in
      (b, out, rw (opened, here, built) (connected_sent b out (forward b out) (connects b out)))
    where
      position_of :
          IsAvailableAt st.pipeline.backends i ⊎ IsTaggedAt tag st.pipeline.backends i
          → (c : Backend) × (get_elem? st.pipeline.backends i ≡ some c)
      position_of (inl (c, e, available)) = (c, e)
      position_of (inr (t, c, e, there, named, on, healthy)) = (c, there)

  abbrev Reaches : Handled Net S F → Type 0
  Reaches result = (b : Backend) × (out : OutboundRequest) × (result.sent ≡ some (b, out))

  admitted-Reaches :
      (body : List ℕ) (j : ℕ) (r : Option Response × List (RateLimiter F × RateLimitKey))
      → r.0 ≡ none
      → IsAvailableAt st.pipeline.backends j
      → ((b : Backend) → (out : OutboundRequest) × IsBuilt b body out)
      → ((b : Backend) (out : OutboundRequest) → forward b out ≢ not_connected)
      → Reaches (
          admitted hyper f net_contains is_match proxy now ip ja3 forward request_id st req entries
            body r)
  unfolding admitted
  admitted-Reaches body j (some x, limiters) e up builds connects = absurd (cc)
  admitted-Reaches body j (none, limiters) e up builds connects =
      on_backend_reaches limiters body (sticky_tag hyper proxy entries) choice j
        (choose_backend-IsChosen st.pipeline ip (sticky_tag hyper proxy entries)) up builds connects

  read_body-Reaches :
      (o : Option (List ℕ)) (body : List ℕ) (j : ℕ)
      → o ≡ some body
      → Admissible hyper f net_contains is_match proxy now ip ja3 st req entries body
      → IsAvailableAt st.pipeline.backends j
      → ((b : Backend) → (out : OutboundRequest) × IsBuilt b body out)
      → ((b : Backend) (out : OutboundRequest) → forward b out ≢ not_connected)
      → Reaches (
          read_body hyper f net_contains is_match proxy now ip ja3 forward request_id st req entries
            o)
  unfolding read_body
  read_body-Reaches none body j e passes up builds connects = absurd (cc)
  read_body-Reaches (some read) body j e passes up builds connects =
      let same : body ≡ read = ground arith in
      let (to, from) =
        admit-Admissible hyper f net_contains is_match proxy now ip ja3 st req entries read in
      admitted-Reaches read j _ (from (rw same at passes)) up (rw same at builds) connects

  -- A request whose body can be read and that meets every test does reach a backend, if one is
  -- available, the outbound request can be built for every backend, and every backend accepts the
  -- connection.
  pub handle_request-Reaches :
      (body : List ℕ) (j : ℕ)
      → req.body ≡ some body
      → Admissible hyper f net_contains is_match proxy now ip ja3 st req entries body
      → IsAvailableAt st.pipeline.backends j
      → ((b : Backend) → (out : OutboundRequest) × IsBuilt b body out)
      → ((b : Backend) (out : OutboundRequest) → forward b out ≢ not_connected)
      → Reaches handle
  unfolding handle_request
  handle_request-Reaches body j read passes up builds connects =
      read_body-Reaches req.body body j read passes up builds connects
