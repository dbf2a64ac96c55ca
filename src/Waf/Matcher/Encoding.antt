-- ===== src/Waf/Matcher/Encoding.antt =====
-- serverwall-waf/src/rules/matcher.rs: percent-encoding against the transformations of a built-in
-- rule, which puts a value in lower case before it decodes it.
use mathlib.Core.List.{Memᴰ}
use serverwall.Base.{
  ℕ, ◌+◌, ◌-◌, ◌/◌, ◌%◌, ◌<◌, ◌≡◌, refl, Bool, ◌&&◌, List, [], ◌∷◌, true, false, if◌then◌else◌, ltb,
  ◌==◌, ==_iff, Text, text_eq, text_eq_iff, to_lowercase, lower_char, All, holds_below,
  holds_below-lt, arith,
}
use serverwall.Waf.Rules.{Transformation, WafRule, regex_rule}
use serverwall.Waf.Rules.Builtin.{all_builtin_rules}
use serverwall.Waf.Matcher.{percent, decode_from, url_decode, apply_transformations, transformed}

unfoldable pub hex : ℕ → ℕ
hex d = if ltb d 10 then b'0' + d else b'a' + (d - 10)

-- Every character as a percent sign and two digits.
unfoldable pub percent_encode : Text → Text
unfolding hex
percent_encode [] = []
percent_encode (c ∷ s) = b'%' ∷ hex (c / 16) ∷ hex (c % 16) ∷ percent_encode s

hex_lowered : holds_below (λ d. lower_char (hex d) == hex d) 16 ≡ true
unfolding holds_below hex lower_char
hex_lowered = refl

hex_decoded :
    holds_below (λ c. text_eq (percent (hex (c / 16) ∷ hex (c % 16) ∷ [])) (c ∷ [])) 256 ≡ true
unfolding holds_below hex percent
hex_decoded = refl

lower_char-hex : (d : ℕ) → d < 16 → lower_char (hex d) ≡ hex d
lower_char-hex d h =
    (==_iff _ _).0 (holds_below-lt (λ d. lower_char (hex d) == hex d) 16 d hex_lowered h)

percent-hex : (c : ℕ) → c < 256 → percent (hex (c / 16) ∷ hex (c % 16) ∷ []) ≡ c ∷ []
percent-hex c h = (text_eq_iff _ (c ∷ [])).0 (
    holds_below-lt (λ c. text_eq (percent (hex (c / 16) ∷ hex (c % 16) ∷ [])) (c ∷ [])) 256 c
      hex_decoded h)

lower_percent_sign : lower_char b'%' ≡ b'%'
unfolding lower_char
lower_percent_sign = refl

lowercase-percent_encode :
    (s : Text) → All (λ c. c < 256) s → to_lowercase (percent_encode s) ≡ percent_encode s
unfolding percent_encode
lowercase-percent_encode [] h = refl
lowercase-percent_encode (c ∷ s) (h, hs) = rw (
  lower_char-hex (c / 16) (omega arith),
  lower_char-hex (c % 16) (omega arith),
  lowercase-percent_encode s hs,
  lower_percent_sign,
)

-- Percent-encoding is undone.
url_decode-encode : (s : Text) → All (λ c. c < 256) s → url_decode (percent_encode s) ≡ s
unfolding url_decode decode_from percent_encode
url_decode-encode [] h = refl
url_decode-encode (c ∷ s) (h, hs) = rw (percent-hex c h, url_decode-encode s hs)

lowered_percent_encode :
    (s : Text)
    → All (λ c. c < 256) s
    → apply_transformations
        (percent_encode s)
        (Transformation.lowercase ∷ Transformation.url_decode ∷ [])
      ≡ s
unfolding apply_transformations transformed
lowered_percent_encode s h = rw (lowercase-percent_encode s h) (url_decode-encode s h)

-- Whether the transformations are these two, in this order.
lowers_first : List Transformation → Bool
lowers_first (Transformation.lowercase ∷ (Transformation.url_decode ∷ [])) = true
lowers_first _ = false

lowers_all : List WafRule → Bool
unfolding lowers_first
lowers_all [] = true
lowers_all (r ∷ rules) = lowers_first r.transformations && lowers_all rules

builtin_lowers : lowers_all all_builtin_rules ≡ true
unfolding lowers_all lowers_first all_builtin_rules regex_rule
builtin_lowers = refl

lowers_each :
    (rules : List WafRule) (r : WafRule)
    → lowers_all rules ≡ true
    → Memᴰ r rules
    → lowers_first r.transformations ≡ true
unfolding lowers_all
lowers_each [] r h mem = elim mem [ ]
lowers_each (x ∷ rules) r h (Memᴰ.head e) = rw e (ground arith)
lowers_each (x ∷ rules) r h (Memᴰ.tail mem) = lowers_each rules r (ground arith) mem

lowers-percent_encode :
    (ts : List Transformation) (s : Text)
    → lowers_first ts ≡ true
    → All (λ c. c < 256) s
    → apply_transformations (percent_encode s) ts ≡ s
unfolding lowers_first
lowers-percent_encode (Transformation.lowercase ∷ (Transformation.url_decode ∷ [])) s e h =
    lowered_percent_encode s h
lowers-percent_encode _ s e h = absurd (cc)

-- Every built-in rule puts a value in lower case before it decodes it: a value of characters below
-- 256 that comes percent-encoded reaches the pattern as it was encoded, its upper-case letters
-- included.
pub builtin-percent_encode :
    (rule : WafRule) (s : Text)
    → Memᴰ rule all_builtin_rules
    → All (λ c. c < 256) s
    → apply_transformations (percent_encode s) rule.transformations ≡ s
builtin-percent_encode rule s mem h =
    lowers-percent_encode rule.transformations s
      (lowers_each all_builtin_rules rule builtin_lowers mem) h
