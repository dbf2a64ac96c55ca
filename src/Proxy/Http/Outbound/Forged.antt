-- ===== src/Proxy/Http/Outbound/Forged.antt =====
-- http_proxy.rs, `handle_request`: the headers that the proxy sets come after those that the client
-- sent under the same names.
use serverwall.Base.{
  ℕ, ◌≡◌, refl, sym, ◌∙◌, false, List, [], ◌∷◌, ◌++◌, none, some, if_both, Bool-cases, inl, inr,
  All, Text, text_eq, text_eq_iff, text_eq_refl, to_lowercase, get, arith,
}
use serverwall.Core.Types.{IpAddr, Backend}
use serverwall.Proxy.Http.Settings.{Hyper, Uri, Builder, CustomHeader, FrontendConfig}
use serverwall.Proxy.Http.Outbound.{
  OutboundRequest, push, push_checked, copy_headers, outbound_request, backend_uri,
}
use serverwall.Proxy.Http.Outbound.Headers.{
  is_hop_by_hop, valid-keeps, copy-keeps, inject-keeps, request-keeps,
}

module _ (n : Text) where
  -- A header of this name is the first one, or there is none yet.
  abbrev Gives : List ℕ → Builder → Type 0
  Gives w none = Unit
  Gives w (some headers) = get n headers ≡ some w

  abbrev Lacks : Builder → Type 0
  Lacks none = Unit
  Lacks (some headers) = get n headers ≡ none

  get-append_some :
      (headers rest : List (Text × List ℕ)) (w : List ℕ)
      → get n headers ≡ some w
      → get n (headers ++ rest) ≡ some w
  unfolding get
  get-append_some [] rest w h = absurd (cc)
  get-append_some ((m, v) ∷ headers) rest w h = ground (arith, get-append_some headers rest w)

  get-append_none :
      (headers rest : List (Text × List ℕ))
      → get n headers ≡ none
      → get n (headers ++ rest) ≡ get n rest
  unfolding get
  get-append_none [] rest h = refl
  get-append_none ((m, v) ∷ headers) rest h = ground (arith, get-append_none headers rest)

  push-Gives :
      (w : List ℕ) (name : Text) (value : List ℕ) (b : Builder)
      → Unit {0}
      → Gives w b
      → Gives w (push name value b)
  unfolding push
  push-Gives w name value none _ h = tt
  push-Gives w name value (some headers) _ h = get-append_some headers _ w h

  push-Lacks :
      (name : Text) (value : List ℕ) (b : Builder)
      → text_eq n name ≡ false
      → Lacks b
      → Lacks (push name value b)
  unfolding push get
  push-Lacks name value none e h = tt
  push-Lacks name value (some headers) e h = get-append_none headers _ h ∙ rw e

  push_first : (w : List ℕ) (b : Builder) → Lacks b → Gives w (push n w b)
  unfolding push get
  push_first w none h = tt
  push_first w (some headers) h = get-append_none headers _ h ∙ rw (text_eq_refl n)

  -- The first entry of the name is the one that is copied first.
  copy-Gives :
      (hyper : Hyper) (entries : List (Text × Text)) (b : Builder) (v : Text) (w : List ℕ)
      → All (λ e. (name : Text) → hyper.from_bytes e.0 ≡ some name → name ≡ e.0) entries
      → hyper.from_bytes n ≡ some n
      → hyper.from_str v ≡ some w
      → is_hop_by_hop (to_lowercase n) ≡ false
      → get n entries ≡ some v
      → Lacks b
      → Gives w (copy_headers hyper entries b)
  unfolding copy_headers push_checked get
  copy-Gives hyper [] b v w kept name value plain at h = absurd (cc)
  copy-Gives hyper ((m, u) ∷ entries) b v w (same, kept) name value plain at h =
      elim (Bool-cases (text_eq n m)) [
        | inl e ↦
            let here : m ≡ n = sym ((text_eq_iff n m).0 e) in
            let first : u ≡ v = ground arith in
            copy-keeps hyper (Gives w) (λ _. Unit) tt (push-Gives w) entries _ (λ _ _ _ _. tt)
              (rw (here, first, plain, name, value) (push_first w b h))
        | inr e ↦ copy-Gives hyper entries _ v w kept name value plain (rw e at at) (
            if_both {A = Builder} Lacks (is_hop_by_hop (to_lowercase m)) b _ (λ _. h)
              (λ _.
                valid-keeps hyper Lacks (λ name. text_eq n name ≡ false) tt push-Lacks
                  (hyper.from_bytes m) (hyper.from_str u) b (λ name q. rw (same name q) e) h))
      ]

any_name :
    (hyper : Hyper) (customs : List CustomHeader)
    → All (λ c. (name : Text) → hyper.from_bytes c.name ≡ some name → Unit {0}) customs
any_name hyper [] = tt
any_name hyper (c ∷ customs) = (λ _ _. tt, any_name hyper customs)

-- A header that the client sends under a name that is passed on is the first of its name that the
-- backend gets, also where the proxy sets a header of that name, as it does for the address.
pub outbound_request_first :
    (hyper : Hyper) (config : FrontendConfig) (b : Backend) (method : Text) (uri : Uri)
    (entries : List (Text × Text)) (body : List ℕ) (ip : IpAddr) (request_id : Text)
    (out : OutboundRequest) (n v : Text) (w : List ℕ)
    → All (λ e. (name : Text) → hyper.from_bytes e.0 ≡ some name → name ≡ e.0) entries
    → hyper.from_bytes n ≡ some n
    → hyper.from_str v ≡ some w
    → is_hop_by_hop (to_lowercase n) ≡ false
    → get n entries ≡ some v
    → outbound_request hyper config b method uri entries body ip request_id ≡ some out
    → get n out.headers ≡ some w
unfolding outbound_request get
outbound_request_first hyper config b method uri entries body ip request_id out n v w kept name
      value plain at e =
    request-keeps hyper (Gives n w) (λ _. Unit) tt (push-Gives n w) _ method _ body out e
      (inject-keeps hyper (Gives n w) (λ _. Unit) tt (push-Gives n w) config entries ip request_id _
        (any_name hyper config.headers.custom) tt tt tt tt tt tt
        (copy-Gives n hyper entries _ v w kept name value plain at (
          if_both {A = Builder} (Lacks n) (hyper.is_uri (backend_uri hyper b uri)) (some []) none
            (λ _. refl) (λ _. tt))))
