-- ===== src/Proxy/Pipeline/Probes.antt =====
-- serverwall-core/src/health/checker.rs and serverwall-proxy/src/pipeline.rs: selection after a round
-- of health checks.
use serverwall.Base.{ℕ, ◌≡◌, some, Bool, true, get_elem?, arith}
use serverwall.Core.Types.{Backend, IpAddr, is_available}
use serverwall.Core.Health.{check_round, checked_backend, check_round-get, check_round-at}
use serverwall.Proxy.Pipeline.{RequestPipeline, Result, ok, err, select_backend}
use serverwall.Proxy.Pipeline.Selection.{Selected, select_backend-Selected}

-- The backend as if it was healthy is available.
abbrev pub Usable : Backend → Type 0
Usable b = is_available (record b { healthy = true }) ≡ true

available_probe :
    (probe : Backend → Bool) (b : Backend)
    → is_available (checked_backend probe b) ≡ true
    → probe b ≡ true
unfolding is_available checked_backend
available_probe probe b h = ground arith

probe_available :
    (probe : Backend → Bool) (b : Backend)
    → probe b ≡ true
    → Usable b
    → is_available (checked_backend probe b) ≡ true
unfolding is_available checked_backend
probe_available probe b h u = rw h u

module _ {Net S : Type 0} (probe : Backend → Bool) (p : RequestPipeline Net S) (ip : IpAddr) where
  -- A backend that passed its probe, or an error, when every usable backend failed it.
  abbrev pub Probed : Result ℕ × RequestPipeline Net S → Type 0
  Probed (ok i, q) = (b : Backend) × (get_elem? p.backends i ≡ some b) × (probe b ≡ true)
  Probed (err e, q) =
      (i : ℕ) → ¬ ((b : Backend) × (get_elem? p.backends i ≡ some b) × (probe b ≡ true) × Usable b)

  abbrev pub after_round : RequestPipeline Net S
  after_round = record p { backends = check_round probe p.backends }

  Selected-Probed : (r : Result ℕ × RequestPipeline Net S) → Selected after_round ip r → Probed r
  Selected-Probed (ok i, q) ((b', at, up), opened) =
      let (b, here, e) = check_round-get probe p.backends i b' at in
      (b, here, available_probe probe b (rw e up))
  Selected-Probed (err e, q) (free, _, _) = λ i (b, here, passed, usable). free i (
    checked_backend probe b,
    check_round-at probe p.backends i b here,
    probe_available probe b passed usable,
  )

  -- Straight after a round of health checks, with every balancer, a request gets a backend that
  -- passed its probe, or an error, and then every enabled backend below its limit failed it.
  pub select_backend-Probed : Probed (select_backend after_round ip)
  select_backend-Probed =
      Selected-Probed (select_backend after_round ip) (select_backend-Selected after_round ip)
