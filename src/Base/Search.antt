-- ===== src/Base/Search.antt =====
-- What the Boolean searches of a list find.
use Prim.Native.Nat.{ℕ, zero, suc, ◌<◌}
use mathlib.Core.Path.{◌≡◌, refl, sym, ap, ◌∙◌}
use mathlib.Core.Logic.{◌↔◌, inl, inr}
use mathlib.Core.Bool.{Bool, true, false, ◌&&◌}
use mathlib.Core.List.{List, [], ◌∷◌, Memᴰ}
use native.Mathlib.Omega.{arith}
use serverwall.Base.Tests.{Bool-cases}
use serverwall.Base.Lists.{any, all, All}

module _ {ℓ} {A : Type ℓ} (p : A → Bool) where
  pub any-false : (xs : List A) → (any p xs ≡ false) ↔ All (λ x. p x ≡ false) xs
  any-false [] = (λ _. tt, λ _. refl)
  any-false (x ∷ xs) = (λ h. ground (arith, any-false xs), λ h. ground (arith, any-false xs))

  pub any_of_mem : (x : A) (xs : List A) → Memᴰ x xs → p x ≡ true → any p xs ≡ true
  any_of_mem x [] m h = elim m [ ]
  any_of_mem x (y ∷ xs) (Memᴰ.head e) h = let here : p y ≡ true = ap p (sym e) ∙ h in ground arith
  any_of_mem x (y ∷ xs) (Memᴰ.tail m) h = ground (arith, any_of_mem x xs m h)

  pub mem_of_any : (xs : List A) → any p xs ≡ true → (x : A) × Memᴰ x xs × (p x ≡ true)
  mem_of_any [] h = absurd (cc)
  mem_of_any (x ∷ xs) h = elim (Bool-cases (p x)) [
    | inl here ↦ (x, Memᴰ.head refl, here)
    | inr next ↦ let (y, m, e) = mem_of_any xs (rw next at h) in (y, Memᴰ.tail m, e)
  ]

  pub any-true : (xs : List A) → (any p xs ≡ true) ↔ ((x : A) × Memᴰ x xs × (p x ≡ true))
  any-true xs = (mem_of_any xs, λ (x, m, h). any_of_mem x xs m h)

  pub all-true : (xs : List A) → (all p xs ≡ true) ↔ All (λ x. p x ≡ true) xs
  all-true [] = (λ _. tt, λ _. refl)
  all-true (x ∷ xs) = (λ h. ground (arith, all-true xs), λ h. ground (arith, all-true xs))

-- A test that holds of every number below a bound, to be evaluated on small tables.
unfoldable pub holds_below : (ℕ → Bool) → ℕ → Bool
holds_below p zero = true
holds_below p (suc bound) = holds_below p bound && p bound

pub holds_below-lt :
    (p : ℕ → Bool) (bound c : ℕ) → holds_below p bound ≡ true → c < bound → p c ≡ true
unfolding holds_below
holds_below-lt p zero c all_hold less = elim less [ ]
holds_below-lt p (suc bound) c all_hold less = ground (arith, holds_below-lt p bound c)
