-- ===== src/Proxy/Pipeline.antt =====
-- serverwall-proxy/src/pipeline.rs: from an accepted connection to a selected backend. The balancer
-- is any value of the interface `LoadBalancer`; the parameters of the access-control engine and of
-- the country rules are passed on.
pub mod Access
pub mod Selection
pub mod Probes
use serverwall.Base.{
  ℕ, Bool, true, false, ◌&&◌, List, Option, none, some, if◌then◌else◌, Text, codes, text_eq, find,
}
use serverwall.Core.Types.{Backend, IpAddr, open_guard}
use serverwall.Core.Acl.{AclDecision, AccessControlEngine, GeoEngine, evaluate, check_country}
use serverwall.Core.Balancer.Available.{LoadBalancer}

pub data ServerWallError : Type 0 where
  access_denied : IpAddr → ServerWallError
  no_healthy_backends : Text → ServerWallError

pub data Result (A : Type 0) : Type 0 where
  ok : A → Result A
  err : ServerWallError → Result A

-- `state` is what the balancer keeps; `backends` are shared, by position.
pub record RequestPipeline (Net S : Type 0) : Type 0 where
  pub acl : AccessControlEngine Net
  pub global_ip_acl : Option (AccessControlEngine Net)
  pub geo : Option GeoEngine
  pub balancer : LoadBalancer S
  pub state : S
  pub backends : List Backend

-- A denial ends the checks; otherwise the rest of them runs.
unless_denied : AclDecision → IpAddr → Result (Unit {0}) → Result (Unit {0})
unless_denied AclDecision.deny ip rest = err (access_denied ip)
unless_denied AclDecision.allow ip rest = rest

check_geo : (IpAddr → Option Text) → Option GeoEngine → IpAddr → Result (Unit {0})
check_geo country_of none ip = ok tt
check_geo country_of (some geo) ip = unless_denied (check_country country_of geo ip) ip (ok tt)

check_global :
    {Net : Type 0} (net_contains : Net → IpAddr → Bool)
    → Option (AccessControlEngine Net)
    → IpAddr
    → Result (Unit {0})
    → Result (Unit {0})
check_global net_contains none ip rest = rest
check_global net_contains (some global) ip rest =
    unless_denied (evaluate net_contains global ip) ip rest

module _ {Net : Type 0} (net_contains : Net → IpAddr → Bool)
    (country_of : IpAddr → Option Text) where
  unfoldable pub check_acl : {S : Type 0} → RequestPipeline Net S → IpAddr → Result (Unit {0})
  unfolding unless_denied check_geo check_global
  check_acl p ip =
      check_global net_contains p.global_ip_acl ip
        (unless_denied (evaluate net_contains p.acl ip) ip (check_geo country_of p.geo ip))

module _ {Net : Type 0} (net_contains : Net → IpAddr → Bool) where
  globally_allowed : Option (AccessControlEngine Net) → IpAddr → Bool
  globally_allowed none ip = false
  globally_allowed (some global) ip = elim (evaluate net_contains global ip) [
    | AclDecision.allow ↦ true
    | AclDecision.deny ↦ false
  ]

  unfoldable pub is_globally_allowed : {S : Type 0} → RequestPipeline Net S → IpAddr → Bool
  unfolding globally_allowed
  is_globally_allowed p ip = globally_allowed p.global_ip_acl ip

module _ {Net S : Type 0} where
  -- The chosen position, its guard opened.
  guarded : RequestPipeline Net S → Option ℕ × S → Result ℕ × RequestPipeline Net S
  guarded p (none, s) = (err (no_healthy_backends (codes "unknown")), record p { state = s })
  guarded p (some i, s) = (ok i, record p { state = s; backends = open_guard p.backends i })

  unfoldable pub select_backend : RequestPipeline Net S → IpAddr → Result ℕ × RequestPipeline Net S
  unfolding guarded
  select_backend p ip = guarded p (p.balancer.select p.state p.backends (some ip))

  unfoldable pub find_backend_by_tag : RequestPipeline Net S → Text → Option Backend
  find_backend_by_tag p tag = find (λ b. text_eq b.tag tag && (b.enabled && b.healthy)) p.backends
