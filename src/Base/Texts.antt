-- ===== src/Base/Texts.antt =====
-- Text as a list of code points, with the operations of Rust's `str` that the source uses. Case and
-- blanks are those of ASCII.
use Prim.Native.Nat.{ℕ, zero, suc, ◌+◌, ◌-◌, ◌/◌, ◌%◌}
use Prim.Native.Char.{code}
use Prim.Native.String.{String}
use mathlib.Core.Path.{◌≡◌, refl}
use mathlib.Core.Logic.{◌↔◌}
use mathlib.Core.Bool.{Bool, true, false, ◌&&◌, ◌||◌}
use mathlib.Core.List.{List, [], ◌∷◌, ◌++◌, map, reverse}
use mathlib.Core.Option.{Option, none, some}
use native.Mathlib.Omega.{arith}
use serverwall.Base.Tests.{ltb, leb, ◌==◌, if◌then◌else◌}
use serverwall.Base.Lists.{any}

abbrev pub Text : Type 0
Text = List ℕ

-- The code points of a literal. `String` has its own `[]` and `∷`.
abbrev pub codes : String → Text
codes String.[] = []
codes (String.◌∷◌ c s) = code c ∷ codes s

abbrev pub text_eq : Text → Text → Bool
text_eq [] [] = true
text_eq [] (d ∷ t) = false
text_eq (c ∷ s) [] = false
text_eq (c ∷ s) (d ∷ t) = c == d && text_eq s t

pub text_eq_iff : (s t : Text) → (text_eq s t ≡ true) ↔ (s ≡ t)
text_eq_iff [] [] = (λ _. refl, λ _. refl)
text_eq_iff [] (d ∷ t) = (λ h. cc, λ h. cc)
text_eq_iff (c ∷ s) [] = (λ h. cc, λ h. cc)
text_eq_iff (c ∷ s) (d ∷ t) =
    (λ h. ground (arith, text_eq_iff s t), λ h. ground (arith, text_eq_iff s t))

pub text_eq_refl : (s : Text) → text_eq s s ≡ true
text_eq_refl s = (text_eq_iff s s).1 refl

-- `contains` of a set or a vector of texts.
abbrev pub contains_text : List Text → Text → Bool
contains_text ts s = any (text_eq s) ts

-- `len()` counts the bytes of UTF-8.
abbrev pub char_len : ℕ → ℕ
char_len c = if ltb c 128 then 1 else if ltb c 2048 then 2 else if ltb c 65536 then 3 else 4

abbrev pub byte_len : Text → ℕ
byte_len [] = 0
byte_len (c ∷ s) = char_len c + byte_len s

unfoldable pub lower_char : ℕ → ℕ
lower_char c = if leb b'A' c && leb c b'Z' then c + 32 else c

unfoldable pub upper_char : ℕ → ℕ
upper_char c = if leb b'a' c && leb c b'z' then c - 32 else c

abbrev pub to_lowercase : Text → Text
to_lowercase = map lower_char

abbrev pub to_uppercase : Text → Text
to_uppercase = map upper_char

unfoldable pub is_whitespace : ℕ → Bool
is_whitespace c = c == 32 || (leb 9 c && leb c 13)

-- `trim_start_matches`, `trim_end_matches`, `trim_matches` with a test on characters; `trim`.
unfoldable pub trim_start : (ℕ → Bool) → Text → Text
trim_start p [] = []
trim_start p (c ∷ s) = if p c then trim_start p s else c ∷ s

unfoldable pub trim_end : (ℕ → Bool) → Text → Text
unfolding trim_start
trim_end p s = reverse (trim_start p (reverse s))

unfoldable pub trim_matches : (ℕ → Bool) → Text → Text
unfolding trim_start trim_end
trim_matches p s = trim_end p (trim_start p s)

unfoldable pub trim : Text → Text
unfolding trim_matches is_whitespace
trim = trim_matches is_whitespace

unfoldable pub strip_prefix : Text → Text → Option Text
strip_prefix [] s = some s
strip_prefix (p ∷ ps) [] = none
strip_prefix (p ∷ ps) (c ∷ s) = if p == c then strip_prefix ps s else none

unfoldable pub starts_with : Text → Text → Bool
starts_with [] s = true
starts_with (p ∷ ps) [] = false
starts_with (p ∷ ps) (c ∷ s) = p == c && starts_with ps s

-- `str::contains` of a text.
unfoldable pub contains : Text → Text → Bool
unfolding starts_with
contains p [] = starts_with p []
contains p (c ∷ s) = starts_with p (c ∷ s) || contains p s

-- What follows the last `d`, and `none` where there is no `d`: `rsplit_once(d)`, second half.
unfoldable pub after_last : ℕ → Text → Option Text
after_last d [] = none
after_last d (c ∷ s) = elim (after_last d s) [
  | some t ↦ some t
  | none ↦ if c == d then some s else none
]

-- `rsplit(d).next()`: all of the text where there is no `d`.
unfoldable pub last_part : ℕ → Text → Text
unfolding after_last
last_part d s = elim (after_last d s) [ some t ↦ t | none ↦ s ]

-- `join`.
unfoldable pub join : Text → List Text → Text
join sep [] = []
join sep (s ∷ []) = s
join sep (s ∷ (t ∷ ts)) = s ++ (sep ++ join sep (t ∷ ts))

-- The decimal digits that `{}` prints for a number; the fuel is the number itself.
decimal_from : ℕ → ℕ → Text → Text
decimal_from zero n acc = acc
decimal_from (suc f) n acc =
    let rest = decimal_from f (n / 10) ((b'0' + n % 10) ∷ acc) in
    if ltb n 10 then (b'0' + n) ∷ acc else rest

unfoldable pub decimal : ℕ → Text
unfolding decimal_from
decimal n = decimal_from (suc n) n []
