-- ===== src/Tests/Http/Requests.antt =====
-- The request, the choice of its backend and the answer.
use serverwall.Base.{
  ℕ, ◌≡◌, ◌≢◌, refl, ◌⊎◌, inl, inr, false, List, [], ◌∷◌, none, some, Text, codes, All,
  to_lowercase, lower_char, contains, split, split_once, trim, get, insert, get_elem?, arith,
}
use serverwall.Core.Types.{Backend, open_guard, is_available}
use serverwall.Core.Balancer.Available.{IsAvailableAt}
use serverwall.Waf.RateLimit.{check_key}
use serverwall.Proxy.Http.Guards.{
  header_map, path_denied, domain_denied, bot_denied, request_host, text_or_empty, ja3_listed,
  check_limiters, waf_denied,
}
use serverwall.Proxy.Http.Cookies.{parse_cookie}
use serverwall.Proxy.Http.Outbound.{OutboundRequest, outbound_request}
use serverwall.Proxy.Http.Outbound.Headers.{is_hop_by_hop, outbound_request-is_hop_by_hop}
use serverwall.Proxy.Http.Outbound.Forged.{outbound_request_first}
use serverwall.Proxy.Http.Exchange.{not_connected, client_response, sticky_tag, is_sticky}
use serverwall.Proxy.Http.Exchange.Stripped.{is_revealing, client_response-is_revealing}
use serverwall.Proxy.Http.Handler.{admit, choose_backend, tag_position, handle_request}
use serverwall.Proxy.Http.Handler.Admission.{Admissible}
use serverwall.Proxy.Http.Handler.Routing.{IsTaggedAt}
use serverwall.Proxy.Http.Handler.Sent.{handle_request-Admissible, handle_request-Reaches}
use serverwall.Proxy.Http.Handler.Released.{counts, handle_request-counts}
use serverwall.Tests.Http.{
  hyper, whole, config, proxy, backend, opened, shared, client, request, entries, sent, no_net,
  no_match, answer, forward,
}

built :
    outbound_request hyper config opened (codes "GET") request.uri entries [] client [] ≡ some sent
unfolding outbound_request get header_map insert lower_char
built = refl

reached :
    (handle_request hyper whole no_net no_match proxy 0 client none forward [] shared request).sent
    ≡ some (opened, sent)
unfolding handle_request admit path_denied domain_denied bot_denied check_limiters check_key
    waf_denied choose_backend sticky_tag is_sticky parse_cookie tag_position open_guard
    outbound_request get header_map insert lower_char contains split split_once trim
reached = refl

handle_request-Admissible_example :
    (body : List ℕ) × (request.body ≡ some body)
    × Admissible hyper whole no_net no_match proxy 0 client none shared request entries body
    × (i : ℕ) × (get_elem? (open_guard shared.pipeline.backends i) i ≡ some opened)
    × (IsAvailableAt shared.pipeline.backends i
        ⊎ IsTaggedAt (sticky_tag hyper proxy entries) shared.pipeline.backends i)
    × (outbound_request hyper config opened request.method request.uri entries body client []
        ≡ some sent)
handle_request-Admissible_example =
    handle_request-Admissible hyper whole no_net no_match proxy 0 client none forward [] shared
      request opened sent reached

passes : Admissible hyper whole no_net no_match proxy 0 client none shared request entries []
unfolding header_map get insert lower_char split contains check_key request_host text_or_empty
    ja3_listed
passes = (tt, inr (refl, inr refl), inr (inl refl, refl), (inr refl, tt), tt)

builds :
    (b : Backend)
    → (out : OutboundRequest) × (outbound_request hyper config b request.method request.uri entries
          [] client []
        ≡ some out)
unfolding outbound_request get header_map insert lower_char
builds b = (_, refl)

up : IsAvailableAt shared.pipeline.backends 0
unfolding is_available
up = (backend, refl, refl)

connects : (b : Backend) (out : OutboundRequest) → forward b out ≢ not_connected
connects b out h = absurd (cc)

handle_request-Reaches_example :
    (b : Backend) × (out : OutboundRequest) × ((handle_request hyper whole no_net no_match proxy 0
        client none forward [] shared request).sent
      ≡ some (b, out))
handle_request-Reaches_example =
    handle_request-Reaches hyper whole no_net no_match proxy 0 client none forward [] shared request
      [] 0 refl passes up builds connects

handle_request-counts_example :
    counts
      (handle_request hyper whole no_net no_match proxy 0 client none forward [] shared
        request).shared.pipeline.backends
    ≡ 2 ∷ []
handle_request-counts_example =
    handle_request-counts hyper whole no_net no_match proxy 0 client none forward [] shared request
      (omega arith, tt)

outbound_request-is_hop_by_hop_example : All (λ h. is_hop_by_hop h.0 ≡ false) sent.headers
outbound_request-is_hop_by_hop_example =
    outbound_request-is_hop_by_hop hyper config opened (codes "GET") request.uri entries [] client
      [] sent (λ entry name h. cc h) tt built

kept : All (λ e. (name : Text) → hyper.from_bytes e.0 ≡ some name → name ≡ e.0) entries
unfolding header_map insert lower_char
kept = (λ name h. cc h, (λ name h. cc h, (λ name h. cc h, (λ name h. cc h, (λ name h. cc h, tt)))))

sent_twice : get (codes "x-real-ip") entries ≡ some (codes "127.0.0.1")
unfolding get header_map insert lower_char
sent_twice = refl

from_real_ip : hyper.from_bytes (codes "x-real-ip") ≡ some (codes "x-real-ip")
unfolding lower_char
from_real_ip = refl

plain : is_hop_by_hop (to_lowercase (codes "x-real-ip")) ≡ false
unfolding lower_char
plain = refl

outbound_request_first_example : get (codes "x-real-ip") sent.headers ≡ some (codes "127.0.0.1")
outbound_request_first_example =
    outbound_request_first hyper config opened (codes "GET") request.uri entries [] client [] sent
      (codes "x-real-ip") (codes "127.0.0.1") (codes "127.0.0.1") kept from_real_ip refl plain
      sent_twice built

lower : All (λ h. to_lowercase h.0 ≡ h.0) answer.headers
unfolding lower_char
lower = (refl, (refl, (refl, tt)))

client_response-is_revealing_example :
    All
      (λ h. is_revealing proxy.security_headers h.0 ≡ false)
      (client_response hyper proxy entries opened answer (codes "ok")).headers
client_response-is_revealing_example =
    client_response-is_revealing hyper proxy entries opened answer (codes "ok") lower
