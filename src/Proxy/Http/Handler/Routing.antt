-- ===== src/Proxy/Http/Handler/Routing.antt =====
-- Which backend the handler chooses for a request, and what that does to the pool.
use serverwall.Base.{
  ℕ, zero, suc, ◌≡◌, refl, ◌⊎◌, inl, inr, true, ◌&&◌, List, [], ◌∷◌, Option, none, some, get_elem?,
  arith, Text, text_eq, text_eq_iff,
}
use serverwall.Core.Types.{Backend, IpAddr, open_guard}
use serverwall.Core.Balancer.Available.{IsAvailableAt}
use serverwall.Proxy.Pipeline.{RequestPipeline, Result, ok, err, select_backend}
use serverwall.Proxy.Pipeline.Selection.{Selected, select_backend-Selected}
use serverwall.Proxy.Http.Handler.{tag_position, tag_choice, balanced, route, choose_backend}

-- The backend at a position has the tag of the cookie and is enabled and healthy.
abbrev pub IsTaggedAt : Option Text → List Backend → ℕ → Type 0
IsTaggedAt tag bs i =
    (t : Text) × (b : Backend) × (tag ≡ some t)
    × (get_elem? bs i ≡ some b)
    × (b.tag ≡ t)
    × (b.enabled ≡ true)
    × (b.healthy ≡ true)

tag_position-IsTaggedAt :
    (bs : List Backend) (t : Text) (i : ℕ)
    → tag_position bs t ≡ some i
    → (b : Backend) × (get_elem? bs i ≡ some b)
      × (b.tag ≡ t)
      × (b.enabled ≡ true)
      × (b.healthy ≡ true)
unfolding tag_position
tag_position-IsTaggedAt [] t i h = absurd (cc)
tag_position-IsTaggedAt (b ∷ bs) t zero h =
    let both : (text_eq b.tag t && (b.enabled && b.healthy)) ≡ true = ground arith in
    (b, refl, (text_eq_iff b.tag t).0 (ground arith), ground arith, ground arith)
tag_position-IsTaggedAt (b ∷ bs) t (suc i) h = tag_position-IsTaggedAt bs t i (ground arith)

module _ {Net S : Type 0} (p : RequestPipeline Net S) (ip : IpAddr) where
  -- A position whose backend was available, or has the cookie's tag; its guard is open. There is none
  -- where no backend was available, and then the pool is untouched.
  abbrev pub IsChosen : Option Text → Option ℕ × RequestPipeline Net S → Type 0
  IsChosen tag (some i, q) =
      (q.backends ≡ open_guard p.backends i)
      × (IsAvailableAt p.backends i ⊎ IsTaggedAt tag p.backends i)
  IsChosen tag (none, q) = ((i : ℕ) → ¬ IsAvailableAt p.backends i) × (q.backends ≡ p.backends)

  balanced-IsChosen :
      (tag : Option Text) (r : Result ℕ × RequestPipeline Net S)
      → Selected p ip r
      → IsChosen tag (balanced r)
  unfolding balanced
  balanced-IsChosen tag (ok i, q) (at, e) = (e, inl at)
  balanced-IsChosen tag (err x, q) (free, e, same) = (free, same)

  route-IsChosen :
      (tag : Option Text) (o : Option ℕ)
      → tag_choice p.backends tag ≡ o
      → IsChosen tag (route p ip o)
  unfolding route tag_choice
  route-IsChosen tag none e =
      balanced-IsChosen tag (select_backend p ip) (select_backend-Selected p ip)
  route-IsChosen none (some i) e = absurd (cc)
  route-IsChosen (some t) (some i) e =
      let (b, at, same, on, up) = tag_position-IsTaggedAt p.backends t i e in
      (refl, inr (t, b, refl, at, same, on, up))

  pub choose_backend-IsChosen : (tag : Option Text) → IsChosen tag (choose_backend p ip tag)
  unfolding choose_backend
  choose_backend-IsChosen tag = route-IsChosen tag (tag_choice p.backends tag) refl
