-- ===== src/Base/Parts.antt =====
-- Cutting text into parts, and `replace`.
use Prim.Native.Nat.{ℕ, zero, suc, ◌-◌}
use mathlib.Core.List.{List, [], ◌∷◌, ◌++◌}
use mathlib.Core.Option.{Option, none, some}
use serverwall.Base.Tests.{◌==◌, if◌then◌else◌}
use serverwall.Base.Lists.{length}
use serverwall.Base.Texts.{Text, starts_with, text_eq}

-- Before and after the first `d`, if there is one: `split_once(d)`.
unfoldable pub split_once : ℕ → Text → Option (Text × Text)
split_once d [] = none
split_once d (c ∷ s) =
    if c == d
    then some ([], s)
    else elim (split_once d s) [ none ↦ none | some (a, b) ↦ some (c ∷ a, b) ]

-- A character in front of the first part.
in_front : ℕ → List Text → List Text
in_front c [] = (c ∷ []) ∷ []
in_front c (p ∷ ps) = (c ∷ p) ∷ ps

-- `split(d)`: the parts between the separators, one at least.
unfoldable pub split : ℕ → Text → List Text
unfolding in_front
split d [] = [] ∷ []
split d (c ∷ s) = let rest = split d s in if c == d then [] ∷ rest else in_front c rest

-- `replace(from, to)` for a text `from` that is not empty; `skip` characters were matched already.
unfoldable pub replace_from : Text → Text → ℕ → Text → Text
unfolding starts_with
replace_from from to skip [] = []
replace_from from to (suc skip) (c ∷ s) = replace_from from to skip s
replace_from from to zero (c ∷ s) =
    let matched = to ++ replace_from from to (length from - 1) s in
    let other = c ∷ replace_from from to 0 s in if starts_with from (c ∷ s) then matched else other

unfoldable pub replace : Text → Text → Text → Text
unfolding replace_from
replace from to s = replace_from from to 0 s

-- A map as a list of its entries: `get`, and `insert`, which overwrites the entry of its key.
unfoldable pub get {ℓ} : {A : Type ℓ} → Text → List (Text × A) → Option A
get k [] = none
get k ((key, v) ∷ m) = if text_eq k key then some v else get k m

unfoldable pub insert {ℓ} : {A : Type ℓ} → Text → A → List (Text × A) → List (Text × A)
insert k v [] = (k, v) ∷ []
insert k v ((key, old) ∷ m) =
    let rest = insert k v m in if text_eq k key then (key, v) ∷ m else (key, old) ∷ rest
