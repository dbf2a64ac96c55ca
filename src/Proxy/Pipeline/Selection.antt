-- ===== src/Proxy/Pipeline/Selection.antt =====
-- What the selection of a backend does to the pool, for every balancer.
use serverwall.Base.{
  ℕ, zero, suc, ◌<◌, ◌≤◌, ◌≡◌, refl, ap, true, false, List, [], ◌∷◌, Option, none, some, arith,
  text_eq_refl, get_elem?, codes,
}
use serverwall.Core.Types.{Backend, IpAddr, is_available, modify, count_opened, open_guard}
use serverwall.Core.Balancer.Available.{IsAvailableAt}
use serverwall.Proxy.Pipeline.{
  RequestPipeline, Result, ok, err, no_healthy_backends, guarded, select_backend,
  find_backend_by_tag,
}

-- A backend with a limit has no more active connections than it.
abbrev pub IsWithinMax : Backend → Type 0
IsWithinMax b = (m : ℕ) → b.max_connections ≡ some m → b.active_connections ≤ m

abbrev pub PoolWithinMax : List Backend → Type 0
PoolWithinMax bs = (i : ℕ) (b : Backend) → get_elem? bs i ≡ some b → IsWithinMax b

available_below :
    (b : Backend) (m : ℕ)
    → is_available b ≡ true
    → b.max_connections ≡ some m
    → b.active_connections < m
unfolding is_available
available_below b m up limit = ground arith

count_opened-IsWithinMax : (b : Backend) → is_available b ≡ true → IsWithinMax (count_opened b)
unfolding count_opened
count_opened-IsWithinMax b up m limit = omega (arith, available_below b m up limit)

modify-within :
    (bs : List Backend) (i : ℕ)
    → IsAvailableAt bs i
    → PoolWithinMax bs
    → PoolWithinMax (modify count_opened bs i)
modify-within [] i at h j b e = absurd (cc)
modify-within (x ∷ xs) zero (c, here, up) h zero b e = λ m limit.
    let same : count_opened x ≡ b = ground arith in
    rw same at (count_opened-IsWithinMax x (ground arith)) m limit
modify-within (x ∷ xs) zero at h (suc j) b e = h (suc j) b e
modify-within (x ∷ xs) (suc i) at h zero b e = h zero b e
modify-within (x ∷ xs) (suc i) at h (suc j) b e =
    modify-within xs i at (λ k c q. h (suc k) c q) j b e

module _ {Net S : Type 0} (p : RequestPipeline Net S) (ip : IpAddr) where
  -- What a selection may return: a position whose backend was available, with a guard opened on it,
  -- or the error, when no backend was available, and then the pool is untouched.
  abbrev pub Selected : Result ℕ × RequestPipeline Net S → Type 0
  Selected (ok i, q) = IsAvailableAt p.backends i × (q.backends ≡ open_guard p.backends i)
  Selected (err e, q) =
      ((i : ℕ) → ¬ IsAvailableAt p.backends i)
      × (e ≡ no_healthy_backends (codes "unknown"))
      × (q.backends ≡ p.backends)

  guarded-Selected :
      (r : Option ℕ × S)
      → p.balancer.select p.state p.backends (some ip) ≡ r
      → Selected (guarded p r)
  unfolding guarded
  guarded-Selected (none, s) e =
      (p.balancer.select_none p.state p.backends (some ip) (ap (λ x. x.0) e), refl, refl)
  guarded-Selected (some i, s) e =
      (p.balancer.select_available p.state p.backends (some ip) i (ap (λ x. x.0) e), refl)

  -- With every balancer, a request gets a backend that is available and whose guard is then open,
  -- unless no backend is available; then it gets the error and the pool stays as it was.
  pub select_backend-Selected : Selected (select_backend p ip)
  unfolding select_backend
  select_backend-Selected = guarded-Selected (p.balancer.select p.state p.backends (some ip)) refl

  keeps :
      (r : Result ℕ × RequestPipeline Net S)
      → Selected r
      → PoolWithinMax p.backends
      → PoolWithinMax r.1.backends
  unfolding open_guard
  keeps (ok i, q) (at, e) h = rw e (modify-within p.backends i at h)
  keeps (err x, q) (free, e, same) h = rw same h

  -- A selection whose guard is opened before the next request selects keeps every backend within
  -- its limit of connections.
  pub select_backend-PoolWithinMax :
      PoolWithinMax p.backends → PoolWithinMax (select_backend p ip).1.backends
  select_backend-PoolWithinMax h = keeps (select_backend p ip) select_backend-Selected h

-- A session cookie's tag finds the first backend of the pool with that tag that is enabled and
-- healthy, also when that backend has reached its limit and is not available.
pub find_backend_by_tag_full :
    {Net S : Type 0} (p : RequestPipeline Net S) (b : Backend) (bs : List Backend) (m : ℕ)
    → p.backends ≡ b ∷ bs
    → b.enabled ≡ true
    → b.healthy ≡ true
    → b.max_connections ≡ some m
    → m ≤ b.active_connections
    → (find_backend_by_tag p b.tag ≡ some b) × (is_available b ≡ false)
unfolding find_backend_by_tag is_available
find_backend_by_tag_full p b bs m pool on up limit full =
    (rw pool (ground (arith, text_eq_refl b.tag)), ground arith)
