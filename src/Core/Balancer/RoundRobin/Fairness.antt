-- ===== src/Core/Balancer/RoundRobin/Fairness.antt =====
-- The choices of round robin over a run of requests.
use native.Mathlib.Nat.{suc-mod, mod-eq_of_lt, mod-add-mod, mod_self, zero-add, add-zero, suc-add}
use mathlib.Core.Path.{ap₂}
use serverwall.Base.{
  ℕ, zero, suc, ◌+◌, ◌-◌, ◌*◌, ◌%◌, ◌<◌, ◌≤◌, ◌≡◌, refl, ap, sym, ◌∙◌, List, [], ◌∷◌, ◌++◌, Option,
  none, some, arith, if◌then◌else◌, ◌==◌, is_empty, Bool-cases, inl, inr, true, length, get_elem?,
}
use serverwall.Core.Types.{Backend, is_available, usize_mod}
use serverwall.Core.Balancer.Available.{
  available_from, available, IsAvailableAt, available_complete, pick,
}
use serverwall.Core.Balancer.RoundRobin.{select, select-pick, select-suc}

-- The choices of `n` requests in a row, while the backends stay as they are.
unfoldable pub select_times : ℕ → ℕ → List Backend → List (Option ℕ)
select_times zero c bs = []
select_times (suc n) c bs = (select c bs none).0 ∷ select_times n (select c bs none).1 bs

-- How often a backend was chosen.
unfoldable pub times_chosen : ℕ → List (Option ℕ) → ℕ
times_chosen i [] = 0
times_chosen i (none ∷ ps) = times_chosen i ps
times_chosen i (some j ∷ ps) = (if i == j then 1 else 0) + times_chosen i ps

times_chosen-append :
    (i : ℕ) (ps qs : List (Option ℕ))
    → times_chosen i (ps ++ qs) ≡ times_chosen i ps + times_chosen i qs
unfolding times_chosen
times_chosen-append i [] qs = omega arith
times_chosen-append i (none ∷ ps) qs = times_chosen-append i ps qs
times_chosen-append i (some j ∷ ps) qs = omega (arith, times_chosen-append i ps qs)

-- The values of `f` at `n` numbers in a row, from `c` on.
from {ℓ} : {A : Type ℓ} → (ℕ → A) → ℕ → ℕ → List A
from f zero c = []
from f (suc n) c = f c ∷ from f n (suc c)

from-add {ℓ} :
    {A : Type ℓ} (f : ℕ → A) (a b c : ℕ) → from f (a + b) c ≡ from f a c ++ from f b (c + a)
unfolding from
from-add f zero b c = rw (zero-add, add-zero)
from-add f (suc a) b c =
    let later : c + suc a ≡ suc c + a = omega arith in
    rw (suc-add, later) (ap (◌∷◌ (f c)) (from-add f a b (suc c)))

picks-window :
    (xs : List ℕ) (n c : ℕ)
    → c % length xs + n ≤ length xs
    → from (pick xs) n c ≡ from (get_elem? xs) n (c % length xs)
unfolding from pick
picks-window xs zero c h = refl
picks-window xs (suc zero) c h = refl
picks-window xs (suc (suc n)) c h =
    let next : suc c % length xs ≡ suc (c % length xs) =
      suc-mod c (length xs) ∙ mod-eq_of_lt (omega arith) in
    let rest : from (pick xs) (suc n) (suc c) ≡ from (get_elem? xs) (suc n) (suc c % length xs) =
      picks-window xs (suc n) (suc c) (omega arith) in
    ap (◌∷◌ (pick xs c)) (rw (← next) rest)

from-suc :
    (x : ℕ) (xs : List ℕ) (n r : ℕ) → from (get_elem? (x ∷ xs)) n (suc r) ≡ from (get_elem? xs) n r
unfolding from
from-suc x xs zero r = refl
from-suc x xs (suc n) r = ap (◌∷◌ (get_elem? xs r)) (from-suc x xs n (suc r))

-- How often a position stands in a list.
occurrences : ℕ → List ℕ → ℕ
occurrences i [] = 0
occurrences i (j ∷ js) = (if i == j then 1 else 0) + occurrences i js

times_chosen-all :
    (i : ℕ) (xs : List ℕ) → times_chosen i (from (get_elem? xs) (length xs) 0) ≡ occurrences i xs
unfolding times_chosen from occurrences
times_chosen-all i [] = refl
times_chosen-all i (x ∷ xs) =
    rw (from-suc x xs (length xs) 0) (omega (arith, times_chosen-all i xs))

wraps : (xs : List ℕ) (c : ℕ) → 0 < length xs → (c + (length xs - c % length xs)) % length xs ≡ 0
wraps xs c h =
    let whole : c % length xs + (length xs - c % length xs) ≡ length xs = omega arith in
    sym (mod-add-mod c (length xs) (length xs - c % length xs)) ∙ rw whole (mod_self (length xs))

-- A round of as many choices as there are available backends.
times_chosen-round :
    (i : ℕ) (xs : List ℕ) (c : ℕ)
    → 0 < length xs
    → times_chosen i (from (pick xs) (length xs) c) ≡ occurrences i xs
times_chosen-round i xs c h =
    let split : length xs ≡ (length xs - r) + r = omega arith in
    let join : length xs ≡ r + (length xs - r) = omega arith in
    let picked : times_chosen i (from (pick xs) (length xs) c)
        ≡ times_chosen i tail + times_chosen i front =
      ap (λ n. times_chosen i (from (pick xs) n c)) split
      ∙ ap (times_chosen i) (from-add (pick xs) (length xs - r) r c)
      ∙ times_chosen-append i _ _
      ∙ ap₂ (λ ps qs. times_chosen i ps + times_chosen i qs) first second in
    let whole : times_chosen i (from (get_elem? xs) (length xs) 0)
        ≡ times_chosen i front + times_chosen i tail =
      ap (λ n. times_chosen i (from (get_elem? xs) n 0)) join
      ∙ ap (times_chosen i) (from-add (get_elem? xs) r (length xs - r) 0)
      ∙ times_chosen-append i _ _
      ∙ ap (λ n. times_chosen i front + times_chosen i (from (get_elem? xs) (length xs - r) n))
          (zero-add r) in
    omega (arith, picked, whole, times_chosen-all i xs)
  where
    r : ℕ
    r = c % length xs

    tail : List (Option ℕ)
    tail = from (get_elem? xs) (length xs - r) r

    front : List (Option ℕ)
    front = from (get_elem? xs) r 0

    first : from (pick xs) (length xs - r) c ≡ tail
    first = picks-window xs (length xs - r) c (omega arith)

    second : from (pick xs) r (c + (length xs - r)) ≡ front
    second =
        rw (wraps xs c h) at
          (picks-window xs r (c + (length xs - r)) (rw (wraps xs c h) (omega arith)))

times_chosen-rounds :
    (i : ℕ) (xs : List ℕ) (m c : ℕ)
    → 0 < length xs
    → times_chosen i (from (pick xs) (m * length xs) c) ≡ m * occurrences i xs
unfolding from times_chosen
times_chosen-rounds i xs zero c h =
    let none_left : 0 * length xs ≡ 0 = omega arith in rw none_left (omega arith)
times_chosen-rounds i xs (suc m) c h =
    let round : suc m * length xs ≡ length xs + m * length xs = grind arith in
    rw
      (
        round,
        from-add (pick xs) (length xs) (m * length xs) c,
        times_chosen-append i (from (pick xs) (length xs) c) _,
      )
      (grind (arith, times_chosen-round i xs c h, times_chosen-rounds i xs m (c + length xs) h))

select_times-from :
    (bs : List Backend) (n c : ℕ)
    → 0 < length (available bs)
    → c + n ≤ usize_mod
    → select_times n c bs ≡ from (pick (available bs)) n c
unfolding select_times from
select_times-from bs zero c h fits = refl
select_times-from bs (suc zero) c h fits = ap (λ p. p ∷ []) (select-pick c bs none)
select_times-from bs (suc (suc n)) c h fits =
    let next : (select c bs none).1 ≡ suc c = select-suc c bs none h (omega arith) in
    rw next (ap₂ ◌∷◌ (select-pick c bs none) (select_times-from bs (suc n) (suc c) h (omega arith)))

occurrences-below : (j k : ℕ) (bs : List Backend) → j < k → occurrences j (available_from k bs) ≡ 0
unfolding occurrences available_from
occurrences-below j k [] h = refl
occurrences-below j k (b ∷ bs) h = ground (arith, occurrences-below j (suc k) bs)

occurrences-available_from :
    (k : ℕ) (bs : List Backend) (i : ℕ)
    → IsAvailableAt bs i
    → occurrences (k + i) (available_from k bs) ≡ 1
unfolding occurrences available_from
occurrences-available_from k [] i (b, e, up) = absurd (cc)
occurrences-available_from k (b ∷ bs) zero (c, e, up) =
    let here : is_available b ≡ true = ground arith in
    rw here (ground (arith, occurrences-below (k + 0) (suc k) bs (omega arith)))
occurrences-available_from k (b ∷ bs) (suc i) at =
    let later : k + suc i ≡ suc k + i = omega arith in
    rw later (ground (arith, occurrences-available_from (suc k) bs i at))

length-available : (bs : List Backend) (i : ℕ) → IsAvailableAt bs i → 0 < length (available bs)
length-available bs i at = elim (Bool-cases (is_empty (available bs))) [
  | inl e ↦ absurd (available_complete bs (ground arith) i at)
  | inr e ↦ ground arith
]

-- While the backends stay as they are, each available one is chosen exactly `m` times in any `m`
-- rounds of as many requests as there are available backends, from any value of the counter at
-- which it does not wrap during those requests.
pub select_times_even :
    (m c : ℕ) (bs : List Backend) (i : ℕ)
    → IsAvailableAt bs i
    → c + m * length (available bs) ≤ usize_mod
    → times_chosen i (select_times (m * length (available bs)) c bs) ≡ m
unfolding available
select_times_even m c bs i at fits =
    let some_up = length-available bs i at in
    let once : occurrences i (available bs) ≡ 1 =
      rw zero-add at (occurrences-available_from 0 bs i at) in
    rw
      (
        select_times-from bs (m * length (available bs)) c some_up fits,
        times_chosen-rounds i (available bs) m c some_up,
        once,
      )
      (omega arith)
