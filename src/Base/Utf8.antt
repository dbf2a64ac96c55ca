-- ===== src/Base/Utf8.antt =====
-- `String::from_utf8` and `String::from_utf8_lossy`: the bytes of UTF-8 as code points. A piece is
-- a code point, or `none` for a malformed run of bytes as the standard library delimits it.
use Prim.Native.Nat.{ℕ, zero, suc, ◌+◌, ◌-◌, ◌*◌, ◌%◌}
use mathlib.Core.Bool.{◌&&◌}
use mathlib.Core.List.{List, [], ◌∷◌, ◌++◌, map}
use mathlib.Core.Option.{Option, none, some}
use serverwall.Base.Tests.{ltb, leb, if◌then◌else◌}
use serverwall.Base.Texts.{Text}

-- Between characters, or inside one: how many bytes follow the next, its range, the bits so far.
pub data Utf8State : Type 0 where
  start : Utf8State
  within : ℕ → ℕ → ℕ → ℕ → Utf8State

lead : ℕ → List (Option ℕ) × Utf8State
lead b =
    if ltb b 0x80
    then (some b ∷ [], start)
    else if ltb b 0xC2
    then (none ∷ [], start)
    else if ltb b 0xE0
    then ([], within 0 0x80 0xBF (b - 0xC0))
    else if ltb b 0xE1
    then ([], within 1 0xA0 0xBF (b - 0xE0))
    else if leb 0xED b && leb b 0xED
    then ([], within 1 0x80 0x9F (b - 0xE0))
    else if ltb b 0xF0
    then ([], within 1 0x80 0xBF (b - 0xE0))
    else if ltb b 0xF1
    then ([], within 2 0x90 0xBF (b - 0xF0))
    else if ltb b 0xF4
    then ([], within 2 0x80 0xBF (b - 0xF0))
    else if ltb b 0xF5
    then ([], within 2 0x80 0x8F (b - 0xF0))
    else (none ∷ [], start)

continued : ℕ → ℕ → List (Option ℕ) × Utf8State
continued zero acc = (some acc ∷ [], start)
continued (suc n) acc = ([], within n 0x80 0xBF acc)

-- A byte outside the range ends the malformed run and starts anew.
feed : Utf8State → ℕ → List (Option ℕ) × Utf8State
unfolding lead continued
feed start b = lead b
feed (within n low high acc) b =
    if leb low b && leb b high
    then continued n (acc * 64 + b % 64)
    else let (out, next) = lead b in (none ∷ out, next)

pieces : Utf8State → List ℕ → List (Option ℕ)
unfolding feed
pieces start [] = []
pieces (within n low high acc) [] = none ∷ []
pieces state (b ∷ bytes) = let (out, next) = feed state b in out ++ pieces next bytes

whole : List (Option ℕ) → Option Text
whole [] = some []
whole (none ∷ ps) = none
whole (some c ∷ ps) = elim (whole ps) [ none ↦ none | some t ↦ some (c ∷ t) ]

or_replacement : Option ℕ → ℕ
or_replacement none = 0xFFFD
or_replacement (some c) = c

unfoldable pub from_utf8 : List ℕ → Option Text
unfolding whole pieces
from_utf8 bytes = whole (pieces start bytes)

unfoldable pub from_utf8_lossy : List ℕ → Text
unfolding or_replacement pieces
from_utf8_lossy bytes = map or_replacement (pieces start bytes)
