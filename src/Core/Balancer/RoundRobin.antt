-- ===== src/Core/Balancer/RoundRobin.antt =====
-- serverwall-core/src/balancer/round_robin.rs. The state is the atomic counter.
pub mod Fairness
use serverwall.Base.{
  ℕ, suc, ◌<◌, ◌≡◌, List, Option, none, some, arith, if◌then◌else◌, is_empty, length,
}
use serverwall.Core.Types.{Backend, IpAddr, fetch_inc, usize_mod}
use serverwall.Core.Balancer.Available.{
  available, IsAvailableAt, LoadBalancer, available_sound, available_complete, pick, pick-none,
}

unfoldable pub select : ℕ → List Backend → Option IpAddr → Option ℕ × ℕ
select counter bs client_ip =
    if is_empty (available bs)
    then (none, counter)
    else (pick (available bs) counter, fetch_inc counter)

pub select-pick :
    (c : ℕ) (bs : List Backend) (ip : Option IpAddr) → (select c bs ip).0 ≡ pick (available bs) c
unfolding select pick
select-pick c bs ip = ground arith

pub select-suc :
    (c : ℕ) (bs : List Backend) (ip : Option IpAddr)
    → 0 < length (available bs)
    → suc c < usize_mod
    → (select c bs ip).1 ≡ suc c
unfolding select fetch_inc
select-suc c bs ip h fits = ground arith

select_available :
    (c : ℕ) (bs : List Backend) (ip : Option IpAddr) (i : ℕ)
    → (select c bs ip).0 ≡ some i
    → IsAvailableAt bs i
unfolding pick
select_available c bs ip i h = available_sound bs _ i (rw (select-pick c bs ip) at h)

select_none :
    (c : ℕ) (bs : List Backend) (ip : Option IpAddr)
    → (select c bs ip).0 ≡ none
    → (i : ℕ) → ¬ IsAvailableAt bs i
select_none c bs ip h =
    available_complete bs (pick-none (available bs) c (rw (select-pick c bs ip) at h))

pub round_robin : LoadBalancer ℕ
round_robin = record {
  select = select;
  select_available = select_available;
  select_none = select_none;
}
