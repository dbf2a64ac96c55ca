-- ===== src/Core/Types/Guards.antt =====
-- What connection guards do to the counters of a pool, over every interleaving of the requests that
-- open and drop them.
use native.Mathlib.Nat.{zero-add}
use serverwall.Base.{
  ℕ, zero, suc, ◌+◌, ◌%◌, ◌≡◌, refl, ap, ◌∙◌, Bool, true, false, List, [], ◌∷◌, ◌++◌, some, arith,
  ◌==◌, if◌then◌else◌, get_elem?,
}
use serverwall.Core.Types.{
  Backend, modify, count_opened, count_closed, open_guard, drop_guard, fetch_inc, fetch_dec,
  usize_mod,
}

-- How many guards of a list are for the backend at position `i`.
unfoldable pub guards_of : ℕ → List ℕ → ℕ
guards_of i [] = 0
guards_of i (j ∷ js) = (if i == j then 1 else 0) + guards_of i js

-- A pool with the positions that its live guards are for. A request opens a guard on some backend,
-- and any live guard may be the next to be dropped.
pub data Step : List Backend × List ℕ → List Backend × List ℕ → Type 0 where
  opened : (bs : List Backend) (live : List ℕ) (i : ℕ) → Step (bs, live) (open_guard bs i, i ∷ live)
  dropped :
      (bs : List Backend) (before : List ℕ) (i : ℕ) (after live : List ℕ)
      → live ≡ before ++ (i ∷ after)
      → Step (bs, live) (drop_guard bs i, before ++ after)

pub data Reach (s : List Backend × List ℕ) : List Backend × List ℕ → Type 0 where
  start : Reach s s
  next : {t u : List Backend × List ℕ} → Reach s t → Step t u → Reach s u

-- Each backend counts its live guards, up to the wrap of the counter.
abbrev pub IsCounted : List Backend × List ℕ → Type 0
IsCounted (bs, live) =
    (i : ℕ) (b : Backend)
    → get_elem? bs i ≡ some b
    → b.active_connections ≡ guards_of i live % usize_mod

guards_of-remove :
    (i j : ℕ) (before after : List ℕ)
    → guards_of i (before ++ (j ∷ after))
      ≡ (if i == j then 1 else 0) + guards_of i (before ++ after)
unfolding guards_of
guards_of-remove i j [] after = refl
guards_of-remove i j (k ∷ before) after = omega (arith, guards_of-remove i j before after)

modify_at :
    (f : Backend → Backend) (bs : List Backend) (i j : ℕ) (b : Backend)
    → get_elem? (modify f bs i) j ≡ some b
    → (c : Backend) × (get_elem? bs j ≡ some c) × (b ≡ (if j == i then f c else c))
modify_at f [] i j b h = absurd (cc)
modify_at f (x ∷ xs) zero zero b h = (x, refl, ground arith)
modify_at f (x ∷ xs) zero (suc j) b h = (b, h, ground arith)
modify_at f (x ∷ xs) (suc i) zero b h = (x, refl, ground arith)
modify_at f (x ∷ xs) (suc i) (suc j) b h =
    let (c, e, q) = modify_at f xs i j b h in (c, e, ground arith)

inc_mod : (n : ℕ) → fetch_inc (n % usize_mod) ≡ (1 + n) % usize_mod
unfolding fetch_inc
inc_mod n = omega arith

dec_mod : (n : ℕ) → fetch_dec ((1 + n) % usize_mod) ≡ n % usize_mod
unfolding fetch_dec
dec_mod n = omega arith

opened_count :
    (t : Bool) (c b : Backend) (n : ℕ)
    → b ≡ (if t then count_opened c else c)
    → c.active_connections ≡ n % usize_mod
    → b.active_connections ≡ ((if t then 1 else 0) + n) % usize_mod
unfolding count_opened
opened_count true c b n q h = ap (λ x. x.active_connections) q ∙ ap fetch_inc h ∙ inc_mod n
opened_count false c b n q h = ap (λ x. x.active_connections) q ∙ h ∙ rw zero-add

closed_count :
    (t : Bool) (c b : Backend) (n : ℕ)
    → b ≡ (if t then count_closed c else c)
    → c.active_connections ≡ ((if t then 1 else 0) + n) % usize_mod
    → b.active_connections ≡ n % usize_mod
unfolding count_closed
closed_count true c b n q h = ap (λ x. x.active_connections) q ∙ ap fetch_dec h ∙ dec_mod n
closed_count false c b n q h = ap (λ x. x.active_connections) q ∙ h ∙ rw zero-add

Step-IsCounted : {s t : List Backend × List ℕ} → Step s t → IsCounted s → IsCounted t
unfolding open_guard drop_guard guards_of
Step-IsCounted (opened bs live i) h j b e =
    let (c, at, q) = modify_at count_opened bs i j b e in
    opened_count (j == i) c b (guards_of j live) q (h j c at)
Step-IsCounted (dropped bs before i after live l) h j b e =
    let (c, at, q) = modify_at count_closed bs i j b e in
    closed_count (j == i) c b (guards_of j (before ++ after)) q
      (h j c at ∙ ap (λ n. n % usize_mod) (ap (guards_of j) l ∙ guards_of-remove j i before after))

-- Whatever the order in which requests open and drop guards, each backend's counter of active
-- connections is the number of its live guards, up to the wrap of the counter, if it was so at
-- the start.
pub Reach-IsCounted : {s t : List Backend × List ℕ} → Reach s t → IsCounted s → IsCounted t
Reach-IsCounted start h = h
Reach-IsCounted (next r st) h = Step-IsCounted st (Reach-IsCounted r h)
