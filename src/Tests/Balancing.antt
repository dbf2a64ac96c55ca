-- ===== src/Tests/Balancing.antt =====
-- A pool of four backends, one of them down and one at its limit.
use serverwall.Base.{
  ℕ, ◌+◌, ◌*◌, ◌≡◌, refl, Bool, true, false, List, [], ◌∷◌, Option, none, some, arith, codes,
  length, get_elem?, trim, strip_prefix,
}
use serverwall.Core.Types.{Backend, IpAddr, v4, is_available, active_count, open_guard, drop_guard}
use serverwall.Core.Types.Guards.{
  opened, dropped, Reach, start, next, IsCounted, guards_of, Reach-IsCounted,
}
use serverwall.Core.Balancer.Available.{available, available_from, IsAvailableAt}
use serverwall.Core.Balancer.RoundRobin.{round_robin}
use serverwall.Core.Balancer.RoundRobin.Fairness.{select_times, times_chosen, select_times_even}
use serverwall.Core.Balancer.LeastConn
use serverwall.Core.Balancer.LeastConn.{IsLeast, IsFirst, select-IsLeast}
use serverwall.Core.Balancer.IpHash.{SameAvailability}
use serverwall.Core.Acl.{AclDefaultAction}
use serverwall.Proxy.Pipeline.{RequestPipeline, select_backend}
use serverwall.Core.Health.{parse_duration}
use serverwall.Proxy.Pipeline.Probes.{Probed, after_round, select_backend-Probed}
use serverwall.Proxy.Pipeline.Selection.{
  Selected, PoolWithinMax, select_backend-Selected, select_backend-PoolWithinMax,
}

abbrev backend : ℕ → Option ℕ → ℕ → Bool → Backend
backend n max active healthy = record {
  id = codes "mail";
  tag = codes "a1b2c3";
  address = record { ip = v4 10 0 0 n; port = 25 };
  weight = 1;
  tls = false;
  tls_verify = false;
  tls_sni = none;
  max_connections = max;
  enabled = true;
  active_connections = active;
  total_connections = active;
  healthy = healthy;
}

abbrev pool : List Backend
pool =
    backend 1 none 3 true
    ∷ backend 2 none 0 false
    ∷ backend 3 (some 5) 1 true
    ∷ backend 4 (some 2) 2 true
    ∷ []

abbrev client : IpAddr
client = v4 192 0 2 7

third_up : IsAvailableAt pool 2
unfolding is_available
third_up = (backend 3 (some 5) 1 true, refl, refl)

two_up : length (available pool) ≡ 2
unfolding available available_from is_available
two_up = refl

-- Six requests from the counter's value 7.
select_times_even_example : times_chosen 2 (select_times (3 * length (available pool)) 7 pool) ≡ 3
select_times_even_example = select_times_even 3 7 pool 2 third_up (rw two_up (omega arith))

least_third : (LeastConn.select tt pool (some client)).0 ≡ some 2
unfolding LeastConn.select is_available active_count
least_third = refl

select-IsLeast_example :
    (b : Backend) × (get_elem? pool 2 ≡ some b)
    × (is_available b ≡ true)
    × IsLeast (active_count b) pool
    × IsFirst 2 (active_count b) pool
select-IsLeast_example = select-IsLeast pool (some client) 2 least_third

abbrev busier : List Backend
busier =
    backend 5 none 9 true
    ∷ backend 6 none 4 false
    ∷ backend 7 none 0 true
    ∷ backend 8 (some 1) 1 true
    ∷ []

alike : SameAvailability pool busier
unfolding is_available
alike = refl

abbrev hash : IpAddr → ℕ
hash (v4 a b c d) = a * 1000 + d
hash _ = 5

abbrev idle : List Backend
idle = backend 1 none 0 true ∷ backend 2 none 0 true ∷ []

-- Two guards on the first backend, one on the second; the older one on the first is dropped.
run : Reach (idle, []) (drop_guard (open_guard (open_guard (open_guard idle 0) 1) 0) 0, 0 ∷ 1 ∷ [])
run =
    next
      (next (next (next start (opened idle [] 0)) (opened (open_guard idle 0) (0 ∷ []) 1))
        (opened (open_guard (open_guard idle 0) 1) (1 ∷ 0 ∷ []) 0))
      (dropped (open_guard (open_guard (open_guard idle 0) 1) 0) (0 ∷ 1 ∷ []) 0 [] (0 ∷ 1 ∷ 0 ∷ [])
        refl)

idle-IsCounted : IsCounted (idle, [])
unfolding guards_of
idle-IsCounted ℕ.zero b e = ground arith
idle-IsCounted (ℕ.suc ℕ.zero) b e = ground arith
idle-IsCounted (ℕ.suc (ℕ.suc i)) b e = absurd (cc)

Reach-IsCounted_example :
    IsCounted (drop_guard (open_guard (open_guard (open_guard idle 0) 1) 0) 0, 0 ∷ 1 ∷ [])
Reach-IsCounted_example = Reach-IsCounted run idle-IsCounted

abbrev pipeline : RequestPipeline ℕ ℕ
pipeline = record {
  acl = record { block_list = none; allow_list = none; default_action = AclDefaultAction.allow };
  global_ip_acl = none;
  geo = none;
  balancer = round_robin;
  state = 3;
  backends = pool;
}

select_backend-Selected_example : Selected pipeline client (select_backend pipeline client)
select_backend-Selected_example = select_backend-Selected pipeline client

pool-PoolWithinMax : PoolWithinMax pool
pool-PoolWithinMax ℕ.zero b e m limit = ground arith
pool-PoolWithinMax (ℕ.suc ℕ.zero) b e m limit = ground arith
pool-PoolWithinMax (ℕ.suc (ℕ.suc ℕ.zero)) b e m limit = ground arith
pool-PoolWithinMax (ℕ.suc (ℕ.suc (ℕ.suc ℕ.zero))) b e m limit = ground arith
pool-PoolWithinMax (ℕ.suc (ℕ.suc (ℕ.suc (ℕ.suc i)))) b e m limit = absurd (cc)

select_backend-PoolWithinMax_example : PoolWithinMax (select_backend pipeline client).1.backends
select_backend-PoolWithinMax_example =
    select_backend-PoolWithinMax pipeline client pool-PoolWithinMax

abbrev full_pipeline : RequestPipeline ℕ ℕ
full_pipeline = record pipeline { backends = backend 4 (some 2) 2 true ∷ pool }

-- Only backends without a limit pass the probe.
abbrev unlimited_up : Backend → Bool
unlimited_up b = elim b.max_connections [ none ↦ true | some _ ↦ false ]

select_backend-Probed_example :
    Probed unlimited_up pipeline client
      (select_backend (after_round unlimited_up pipeline client) client)
select_backend-Probed_example = select_backend-Probed unlimited_up pipeline client

-- An hour is not a unit.
hour : parse_duration (codes "1h") ≡ 10000
unfolding parse_duration trim strip_prefix
hour = refl
