-- ===== src/Core/Balancer/LeastConn.antt =====
-- serverwall-core/src/balancer/least_conn.rs. It keeps no state.
use mathlib.Core.Option
use serverwall.Base.{
  ℕ, zero, suc, ◌+◌, ◌<◌, ◌≤◌, ◌≡◌, refl, ◌⊎◌, inl, inr, true, false, List, [], ◌∷◌, Option, none,
  some, arith, sym, if◌then◌else◌, ltb, get_elem?, Bool-cases, Option-cases,
}
use serverwall.Core.Types.{Backend, IpAddr, is_available, active_count}
use serverwall.Core.Balancer.Available.{IsAvailableAt, LoadBalancer}

-- One step of `min_by_key`: a later element wins only with a smaller key.
better : ℕ → ℕ → Option (ℕ × ℕ) → Option (ℕ × ℕ)
better i k none = some (i, k)
better i k (some (j, m)) = if ltb k m then some (i, k) else some (j, m)

-- `filter(is_available).min_by_key(active_count)` over the positions from `i`, with the best so far.
min_by_count : ℕ → List Backend → Option (ℕ × ℕ) → Option (ℕ × ℕ)
min_by_count i [] best = best
min_by_count i (b ∷ bs) best =
    min_by_count (suc i) bs (if is_available b then better i (active_count b) best else best)

unfoldable pub select : Unit {0} → List Backend → Option IpAddr → Option ℕ × Unit {0}
unfolding min_by_count better
select s bs client_ip = (Option.map (λ p. p.0) (min_by_count 0 bs none), s)

-- No available backend has fewer connections than `k`; none before position `n` has as few.
abbrev pub IsLeast : ℕ → List Backend → Type 0
IsLeast k bs =
    (j : ℕ) (c : Backend) → get_elem? bs j ≡ some c → is_available c ≡ true → k ≤ active_count c

abbrev pub IsFirst : ℕ → ℕ → List Backend → Type 0
IsFirst n k bs =
    (j : ℕ) (c : Backend)
    → j < n
    → get_elem? bs j ≡ some c
    → is_available c ≡ true
    → k < active_count c

-- The best so far is kept, or is beaten by the first of the least backends.
abbrev Kept : Option (ℕ × ℕ) → List Backend → ℕ → ℕ → Type 0
Kept best bs p k = (best ≡ some (p, k)) × IsLeast k bs

abbrev Beaten : Option (ℕ × ℕ) → ℕ → List Backend → ℕ → ℕ → Type 0
Beaten best i bs p k =
    (n : ℕ) × (b : Backend) × (p ≡ i + n)
    × (get_elem? bs n ≡ some b)
    × (is_available b ≡ true)
    × (active_count b ≡ k)
    × IsLeast k bs
    × IsFirst n k bs
    × ((q m : ℕ) → best ≡ some (q, m) → k < m)

IsLeast-cons :
    (k : ℕ) (b : Backend) (bs : List Backend)
    → (is_available b ≡ true → k ≤ active_count b)
    → IsLeast k bs
    → IsLeast k (b ∷ bs)
IsLeast-cons k b bs head rest zero c e up = ground arith
IsLeast-cons k b bs head rest (suc j) c e up = rest j c e up

IsFirst-cons :
    (n k : ℕ) (b : Backend) (bs : List Backend)
    → (is_available b ≡ true → k < active_count b)
    → IsFirst n k bs
    → IsFirst (suc n) k (b ∷ bs)
IsFirst-cons n k b bs head rest zero c lt e up = ground arith
IsFirst-cons n k b bs head rest (suc j) c lt e up = rest j c (omega arith) e up

-- The new best is the new element, below the old best, or the old best, not above the new element.
better-cases :
    (i k : ℕ) (best : Option (ℕ × ℕ)) (p m : ℕ)
    → better i k best ≡ some (p, m)
    → ((p ≡ i) × (m ≡ k) × ((q n : ℕ) → best ≡ some (q, n) → k < n))
      ⊎ ((best ≡ some (p, m)) × (m ≤ k))
unfolding better
better-cases i k none p m h = inl (ground arith, ground arith, λ q n e. absurd (cc))
better-cases i k (some (j, n)) p m h = elim (Bool-cases (ltb k n)) [
  | inl less ↦ inl (ground arith, ground arith, λ q n' e. ground arith)
  | inr more ↦ inr (ground arith, ground arith)
]

better-some :
    (i k : ℕ) (best : Option (ℕ × ℕ))
    → (q : ℕ) × (n : ℕ) × (better i k best ≡ some (q, n))
      × (n ≤ k)
      × ((q' n' : ℕ) → best ≡ some (q', n') → n ≤ n')
unfolding better
better-some i k none = (i, k, refl, omega arith, λ q n e. absurd (cc))
better-some i k (some (j, m)) = elim (Bool-cases (ltb k m)) [
  | inl less ↦ (i, k, ground arith, omega arith, λ q n e. ground arith)
  | inr more ↦ (j, m, ground arith, ground arith, λ q n e. ground arith)
]

min_by_count_lem :
    (i : ℕ) (bs : List Backend) (best : Option (ℕ × ℕ)) (p k : ℕ)
    → min_by_count i bs best ≡ some (p, k)
    → Kept best bs p k ⊎ Beaten best i bs p k
unfolding min_by_count
min_by_count_lem i [] best p k h = inl (h, λ j c e up. absurd (cc))
min_by_count_lem i (b ∷ bs) best p k h = elim (Bool-cases (is_available b)) [
  | inl up ↦
      up_case up (min_by_count_lem (suc i) bs (better i (active_count b) best) p k (rw up at h))
  | inr down ↦ down_case down (min_by_count_lem (suc i) bs best p k (rw down at h))
]
  where
    down_case :
        is_available b ≡ false
        → Kept best bs p k ⊎ Beaten best (suc i) bs p k
        → Kept best (b ∷ bs) p k ⊎ Beaten best i (b ∷ bs) p k
    down_case down (inl (e, least)) = inl (e, IsLeast-cons k b bs (λ up. absurd (cc)) least)
    down_case down (inr (n, c, e, at, up, key, least, first, beats)) = inr (
      suc n,
      c,
      omega arith,
      at,
      up,
      key,
      IsLeast-cons k b bs (λ u. absurd (cc)) least,
      IsFirst-cons n k b bs (λ u. absurd (cc)) first,
      beats,
    )

    up_case :
        is_available b ≡ true
        → Kept (better i (active_count b) best) bs p k
          ⊎ Beaten (better i (active_count b) best) (suc i) bs p k
        → Kept best (b ∷ bs) p k ⊎ Beaten best i (b ∷ bs) p k
    up_case up (inl (e, least)) = elim (better-cases i (active_count b) best p k e) [
      | inl (here, key, beats) ↦ inr (
        0,
        b,
        omega arith,
        refl,
        up,
        sym key,
        IsLeast-cons k b bs (λ u. omega arith) least,
        λ j c lt e u. elim lt [ ],
        rw (← key) at beats,
      )
      | inr (old, le) ↦ inl (old, IsLeast-cons k b bs (λ u. le) least)
    ]
    up_case up (inr (n, c, e, at, uc, key, least, first, beats)) =
        let (q, m, new, le, low) = better-some i (active_count b) best in
        let less : k < m = beats q m new in
        inr (
          suc n,
          c,
          omega arith,
          at,
          uc,
          key,
          IsLeast-cons k b bs (λ u. omega arith) least,
          IsFirst-cons n k b bs (λ u. omega arith) first,
          λ q' m' old. omega (arith, low q' m' old),
        )

-- A chosen backend is available, no available backend has fewer connections, and each one before it
-- in the pool has more.
pub select-IsLeast :
    (bs : List Backend) (ip : Option IpAddr) (i : ℕ)
    → (select tt bs ip).0 ≡ some i
    → (b : Backend) × (get_elem? bs i ≡ some b)
      × (is_available b ≡ true)
      × IsLeast (active_count b) bs
      × IsFirst i (active_count b) bs
unfolding select
select-IsLeast bs ip i h = elim (Option-cases (min_by_count 0 bs none)) [
  | inl e ↦ absurd (ground arith)
  | inr ((p, k), e) ↦ elim (min_by_count_lem 0 bs none p k e) [
    | inl (old, least) ↦ absurd (cc)
    | inr (n, b, pos, at, up, key, least, first, beats) ↦
        let here : n ≡ i = ground arith in
        (b, rw here at at, up, rw (← key) at least, rw (← key, here) at first)
  ]
]

select_available :
    (s : Unit {0}) (bs : List Backend) (ip : Option IpAddr) (i : ℕ)
    → (select s bs ip).0 ≡ some i
    → IsAvailableAt bs i
select_available s bs ip i h =
    let (b, at, up, least, first) = select-IsLeast bs ip i h in (b, at, up)

min_by_count-some :
    (i : ℕ) (bs : List Backend) (p k : ℕ) → (q : ℕ × ℕ) × (min_by_count i bs (some (p, k)) ≡ some q)
unfolding min_by_count
min_by_count-some i [] p k = ((p, k), refl)
min_by_count-some i (b ∷ bs) p k =
    let (q, m, new, le, low) = better-some i (active_count b) (some (p, k)) in
    elim (Bool-cases (is_available b)) [
      | inl up ↦ rw (up, new) (min_by_count-some (suc i) bs q m)
      | inr down ↦ rw down (min_by_count-some (suc i) bs p k)
    ]

min_by_count-none :
    (i : ℕ) (bs : List Backend) → min_by_count i bs none ≡ none → (n : ℕ) → ¬ IsAvailableAt bs n
unfolding min_by_count better
min_by_count-none i [] h n (b, e, up) = cc
min_by_count-none i (b ∷ bs) h n (c, e, up) = elim (Bool-cases (is_available b)) [
  | inl here ↦
      let (q, found) = min_by_count-some (suc i) bs i (active_count b) in
      let nothing : min_by_count (suc i) bs (some (i, active_count b)) ≡ none = rw here at h in cc
  | inr down ↦ later n e down (min_by_count-none (suc i) bs (rw down at h))
]
  where
    later :
        (n : ℕ)
        → get_elem? (b ∷ bs) n ≡ some c
        → is_available b ≡ false
        → ((m : ℕ) → ¬ IsAvailableAt bs m)
        → ⊥
    later zero e down rest = ground arith
    later (suc m) e down rest = rest m (c, e, up)

select_none :
    (s : Unit {0}) (bs : List Backend) (ip : Option IpAddr)
    → (select s bs ip).0 ≡ none
    → (i : ℕ) → ¬ IsAvailableAt bs i
unfolding select
select_none s bs ip h = elim (Option-cases (min_by_count 0 bs none)) [
  | inl e ↦ min_by_count-none 0 bs e
  | inr (p, e) ↦ absurd (ground arith)
]

pub least_connections : LoadBalancer (Unit {0})
least_connections = record {
  select = select;
  select_available = select_available;
  select_none = select_none;
}
