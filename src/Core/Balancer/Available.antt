-- ===== src/Core/Balancer/Available.antt =====
-- The positions of the available backends, which the balancers filter first, and the interface.
use serverwall.Base.{
  ℕ, zero, suc, ◌+◌, ◌%◌, ◌<◌, ◌≡◌, refl, Bool, true, List, [], ◌∷◌, Option, none, some, arith,
  if◌then◌else◌, length, get_elem?, get_elem?-lt, Bool-cases, inl, inr,
}
use serverwall.Core.Types.{Backend, IpAddr, is_available}

-- `enumerate().filter(is_available).map(|(i, _)| i)`, counting from `i`.
unfoldable pub available_from : ℕ → List Backend → List ℕ
available_from i [] = []
available_from i (b ∷ bs) =
    if is_available b then i ∷ available_from (suc i) bs else available_from (suc i) bs

unfoldable pub available : List Backend → List ℕ
available bs = available_from 0 bs

-- The backend at position `i` of the pool exists and takes traffic.
abbrev pub IsAvailableAt : List Backend → ℕ → Type 0
IsAvailableAt bs i = (b : Backend) × (get_elem? bs i ≡ some b) × (is_available b ≡ true)

-- A balancer keeps a state; its choice is an available backend, and it refuses only when none is.
pub record LoadBalancer (S : Type 0) : Type 0 where
  pub select : S → List Backend → Option IpAddr → Option ℕ × S
  pub select_available :
      (s : S) (bs : List Backend) (ip : Option IpAddr) (i : ℕ)
      → (select s bs ip).0 ≡ some i
      → IsAvailableAt bs i
  pub select_none :
      (s : S) (bs : List Backend) (ip : Option IpAddr)
      → (select s bs ip).0 ≡ none
      → (i : ℕ) → ¬ IsAvailableAt bs i

from_sound :
    (k : ℕ) (bs : List Backend) (j i : ℕ)
    → get_elem? (available_from k bs) j ≡ some i
    → (n : ℕ) × (i ≡ k + n) × IsAvailableAt bs n
unfolding available_from
from_sound k [] j i h = absurd (cc)
from_sound k (b ∷ bs) zero i h = elim (Bool-cases (is_available b)) [
  | inl up ↦ (0, ground arith, (b, refl, up))
  | inr down ↦
      let (n, e, at) = from_sound (suc k) bs zero i (rw down at h) in (suc n, omega arith, at)
]
from_sound k (b ∷ bs) (suc j) i h = elim (Bool-cases (is_available b)) [
  | inl up ↦ let (n, e, at) = from_sound (suc k) bs j i (rw up at h) in (suc n, omega arith, at)
  | inr down ↦
      let (n, e, at) = from_sound (suc k) bs (suc j) i (rw down at h) in (suc n, omega arith, at)
]

-- Each listed position is that of an available backend.
pub available_sound :
    (bs : List Backend) (j i : ℕ) → get_elem? (available bs) j ≡ some i → IsAvailableAt bs i
unfolding available
available_sound bs j i h =
    let (n, e, at) = from_sound 0 bs j i h in let same : n ≡ i = omega arith in rw same at at

from_complete :
    (k : ℕ) (bs : List Backend) → available_from k bs ≡ [] → (i : ℕ) → ¬ IsAvailableAt bs i
unfolding available_from
from_complete k [] h i (b, e, up) = cc
from_complete k (b ∷ bs) h i at = elim (Bool-cases (is_available b)) [
  | inl up ↦ let bad : i ∷ [] ≡ [] = ground arith in cc
  | inr down ↦ step i at (from_complete (suc k) bs (rw down at h)) down
]
  where
    step :
        (i : ℕ)
        → IsAvailableAt (b ∷ bs) i
        → ((n : ℕ) → ¬ IsAvailableAt bs n)
        → is_available b ≡ Bool.false
        → ⊥
    step zero (c, e, up) none_in down = ground arith
    step (suc n) at none_in down = none_in n at

pub available_complete : (bs : List Backend) → available bs ≡ [] → (i : ℕ) → ¬ IsAvailableAt bs i
unfolding available
available_complete bs = from_complete 0 bs

-- The choice that round robin and the hash share: an index modulo the available positions.
unfoldable pub pick : List ℕ → ℕ → Option ℕ
pick xs c = get_elem? xs (c % length xs)

pub pick-some : (xs : List ℕ) (c : ℕ) → 0 < length xs → (i : ℕ) × (pick xs c ≡ some i)
unfolding pick
pick-some xs c h = get_elem?-lt xs (c % length xs) (omega arith)

pub pick-none : (xs : List ℕ) (c : ℕ) → pick xs c ≡ none → xs ≡ []
pick-none [] c h = refl
pick-none (x ∷ xs) c h = let (i, e) = pick-some (x ∷ xs) c (omega arith) in cc
