-- ===== src/Core/Balancer/IpHash.antt =====
-- serverwall-core/src/balancer/ip_hash.rs. `DefaultHasher` is the parameter `hash`, which gives the
-- 64-bit hash of an address. It keeps no state.
use serverwall.Base.{
  ℕ, suc, ◌%◌, ◌≡◌, refl, List, [], ◌∷◌, Option, none, some, arith, if◌then◌else◌, is_empty, map,
}
use serverwall.Core.Types.{Backend, IpAddr, v4, is_available, usize_mod}
use serverwall.Core.Balancer.Available.{
  available_from, available, IsAvailableAt, LoadBalancer, available_sound, available_complete, pick,
  pick-none,
}

client_or_localhost : Option IpAddr → IpAddr
client_or_localhost none = v4 127 0 0 1
client_or_localhost (some ip) = ip

-- The backends agree position by position on whether they take traffic.
abbrev pub SameAvailability : List Backend → List Backend → Type 0
SameAvailability bs cs = map is_available bs ≡ map is_available cs

available_from-same :
    (k : ℕ) (bs cs : List Backend)
    → SameAvailability bs cs
    → available_from k bs ≡ available_from k cs
unfolding available_from
available_from-same k [] [] h = refl
available_from-same k [] (c ∷ cs) h = absurd (cc)
available_from-same k (b ∷ bs) [] h = absurd (cc)
available_from-same k (b ∷ bs) (c ∷ cs) h = ground (arith, available_from-same (suc k) bs cs)

module _ (hash : IpAddr → ℕ) where
  unfoldable pub select : Unit {0} → List Backend → Option IpAddr → Option ℕ × Unit {0}
  unfolding client_or_localhost
  select s bs client_ip =
      if is_empty (available bs)
      then (none, s)
      else (pick (available bs) (hash (client_or_localhost client_ip) % usize_mod), s)

  -- A client keeps its backend while the same backends are available, whatever their counters and
  -- addresses; with no address a client counts as localhost.
  pub select_consistent :
      (bs cs : List Backend) (ip : Option IpAddr)
      → SameAvailability bs cs
      → (select tt bs ip ≡ select tt cs ip)
        × (select tt bs none ≡ select tt cs (some (v4 127 0 0 1)))
  unfolding select available
  select_consistent bs cs ip h =
      let same : available_from 0 bs ≡ available_from 0 cs = available_from-same 0 bs cs h in
      (rw same, rw same)

  select-pick :
      (s : Unit {0}) (bs : List Backend) (ip : Option IpAddr)
      → (select s bs ip).0 ≡ pick (available bs) (hash (client_or_localhost ip) % usize_mod)
  unfolding select pick
  select-pick s bs ip = ground arith

  select_available :
      (s : Unit {0}) (bs : List Backend) (ip : Option IpAddr) (i : ℕ)
      → (select s bs ip).0 ≡ some i
      → IsAvailableAt bs i
  unfolding pick
  select_available s bs ip i h = available_sound bs _ i (rw (select-pick s bs ip) at h)

  select_none :
      (s : Unit {0}) (bs : List Backend) (ip : Option IpAddr)
      → (select s bs ip).0 ≡ none
      → (i : ℕ) → ¬ IsAvailableAt bs i
  select_none s bs ip h =
      available_complete bs (pick-none (available bs) _ (rw (select-pick s bs ip) at h))

  pub ip_hash : LoadBalancer (Unit {0})
  ip_hash = record {
    select = select;
    select_available = select_available;
    select_none = select_none;
  }
