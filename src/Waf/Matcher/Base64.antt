-- ===== src/Waf/Matcher/Base64.antt =====
-- serverwall-waf/src/rules/matcher.rs: `simple_base64_decode` against an encoder written from the
-- format.
use Prim.Native.Nat.{bit_or}
use serverwall.Base.{
  ℕ, ◌+◌, ◌*◌, ◌/◌, ◌%◌, ◌<◌, ◌≡◌, refl, List, [], ◌∷◌, none, some, Bool, true, ◌&&◌, ◌==◌, ==_iff,
  get_elem?, All, arith, not, holds_below, holds_below-lt,
}
use serverwall.Waf.Matcher.{base64_table, position, value_at, decode_chunk, simple_base64_decode}

-- The character of a value of six bits.
unfoldable pub digit : ℕ → ℕ
digit v = elim (get_elem? base64_table v) [ none ↦ 0 | some c ↦ c ]

-- Three bytes are four digits; the rest is filled with `=`.
unfoldable pub base64_encode : List ℕ → List ℕ
unfolding digit
base64_encode [] = []
base64_encode (x ∷ []) = digit (x / 4) ∷ digit (x % 4 * 16) ∷ b'=' ∷ b'=' ∷ []
base64_encode (x ∷ y ∷ []) =
    digit (x / 4) ∷ digit (x % 4 * 16 + y / 16) ∷ digit (y % 16 * 4) ∷ b'=' ∷ []
base64_encode (x ∷ y ∷ z ∷ bytes) =
    digit (x / 4)
    ∷ digit (x % 4 * 16 + y / 16)
    ∷ digit (y % 16 * 4 + z / 64)
    ∷ digit (z % 64)
    ∷ base64_encode bytes

is_digit : ℕ → Bool
unfolding position digit
is_digit v =
    elim (position (digit v) base64_table) [ none ↦ Bool.false | some n ↦ n == v ]
    && not (digit v == b'=')

digits_table : holds_below is_digit 64 ≡ true
unfolding holds_below is_digit
digits_table = refl

first_table : holds_below (λ x. bit_or (x / 4 * 4 % 256) (x % 4) == x) 256 ≡ true
unfolding holds_below
first_table = refl

second_table : holds_below (λ y. bit_or (y / 16 * 16) (y % 16) == y) 256 ≡ true
unfolding holds_below
second_table = refl

third_table : holds_below (λ z. bit_or (z / 64 * 64) (z % 64) == z) 256 ≡ true
unfolding holds_below
third_table = refl

digit-position :
    (v : ℕ) → v < 64 → (position (digit v) base64_table ≡ some v) × ((digit v == b'=') ≡ Bool.false)
unfolding is_digit
digit-position v h =
    let k : is_digit v ≡ true = holds_below-lt is_digit 64 v digits_table h in ground arith

-- The bytes that the shifts of the decoder give.
first_byte : (x r : ℕ) → x < 256 → r < 16 → bit_or (x / 4 * 4 % 256) ((x % 4 * 16 + r) / 16) ≡ x
first_byte x r h k =
    let e : (x % 4 * 16 + r) / 16 ≡ x % 4 = omega arith in
    rw e ((==_iff _ x).0 (holds_below-lt _ 256 x first_table h))

second_byte :
    (u y r : ℕ)
    → u < 4
    → y < 256
    → r < 4
    → bit_or ((u * 16 + y / 16) * 16 % 256) ((y % 16 * 4 + r) / 4) ≡ y
second_byte u y r g h k =
    let e : (y % 16 * 4 + r) / 4 ≡ y % 16 = omega arith in
    let f : (u * 16 + y / 16) * 16 % 256 ≡ y / 16 * 16 = omega arith in
    rw (e, f) ((==_iff _ y).0 (holds_below-lt _ 256 y second_table h))

third_byte : (u z : ℕ) → u < 16 → z < 256 → bit_or ((u * 4 + z / 64) * 64 % 256) (z % 64) ≡ z
third_byte u z g h =
    let f : (u * 4 + z / 64) * 64 % 256 ≡ z / 64 * 64 = omega arith in
    rw f ((==_iff _ z).0 (holds_below-lt _ 256 z third_table h))

-- The last digits of a text of one byte, or of two, have no more bits.
first_byte_alone : (x : ℕ) → x < 256 → bit_or (x / 4 * 4 % 256) (x % 4 * 16 / 16) ≡ x
first_byte_alone x h =
    let e : x % 4 * 16 / 16 ≡ x % 4 = omega arith in
    rw e ((==_iff _ x).0 (holds_below-lt _ 256 x first_table h))

second_byte_alone :
    (u y : ℕ) → u < 4 → y < 256 → bit_or ((u * 16 + y / 16) * 16 % 256) (y % 16 * 4 / 4) ≡ y
second_byte_alone u y g h =
    let e : y % 16 * 4 / 4 ≡ y % 16 = omega arith in
    let f : (u * 16 + y / 16) * 16 % 256 ≡ y / 16 * 16 = omega arith in
    rw (e, f) ((==_iff _ y).0 (holds_below-lt _ 256 y second_table h))

-- A chunk of digits of known values, which are no `=`.
abbrev Digit : ℕ → ℕ → Type 0
Digit c v = (position c base64_table ≡ some v) × ((c == b'=') ≡ Bool.false)

decode_two :
    (a b : ℕ) {p q : ℕ}
    → Digit a p
    → Digit b q
    → decode_chunk (a ∷ b ∷ b'=' ∷ b'=' ∷ []) ≡ some (bit_or (p * 4 % 256) (q / 16) ∷ [])
unfolding decode_chunk value_at
decode_two a b (e, k) (f, l) = rw (k, l, e, f)

decode_three :
    (a b c : ℕ) {p q r : ℕ}
    → Digit a p
    → Digit b q
    → Digit c r
    → decode_chunk (a ∷ b ∷ c ∷ b'=' ∷ [])
      ≡ some (bit_or (p * 4 % 256) (q / 16) ∷ bit_or (q * 16 % 256) (r / 4) ∷ [])
unfolding decode_chunk value_at
decode_three a b c (e, k) (f, l) (g, m) = rw (k, l, m, e, f, g)

decode_four :
    (a b c d : ℕ) {p q r s : ℕ}
    → Digit a p
    → Digit b q
    → Digit c r
    → Digit d s
    → decode_chunk (a ∷ b ∷ c ∷ d ∷ [])
      ≡ some (
          bit_or (p * 4 % 256) (q / 16)
          ∷ bit_or (q * 16 % 256) (r / 4)
          ∷ bit_or (r * 64 % 256) s
          ∷ [])
unfolding decode_chunk value_at
decode_four a b c d (e, k) (f, l) (g, m) (h, n) = rw (k, l, m, n, e, f, g, h)

-- What the format makes of a list of bytes, the decoder gives back.
pub simple_base64_decode-encode :
    (bytes : List ℕ)
    → All (λ b. b < 256) bytes
    → simple_base64_decode (base64_encode bytes) ≡ some bytes
unfolding simple_base64_decode base64_encode
simple_base64_decode-encode [] h = refl
simple_base64_decode-encode (x ∷ []) (h, _) = rw (
  decode_two _ _ (digit-position (x / 4) (omega arith)) (digit-position (x % 4 * 16) (omega arith)),
  first_byte_alone x h,
)
simple_base64_decode-encode (x ∷ y ∷ []) (h, (k, _)) = rw (
  decode_three _ _ _ (digit-position (x / 4) (omega arith))
      (digit-position (x % 4 * 16 + y / 16) (omega arith))
      (digit-position (y % 16 * 4) (omega arith)),
  first_byte x (y / 16) h (omega arith),
  second_byte_alone (x % 4) y (omega arith) k,
)
simple_base64_decode-encode (x ∷ y ∷ z ∷ bytes) (h, (k, (l, hs))) = rw (
  decode_four _ _ _ _ (digit-position (x / 4) (omega arith))
      (digit-position (x % 4 * 16 + y / 16) (omega arith))
      (digit-position (y % 16 * 4 + z / 64) (omega arith)) (digit-position (z % 64) (omega arith)),
  first_byte x (y / 16) h (omega arith),
  second_byte (x % 4) y (z / 64) (omega arith) k (omega arith),
  third_byte (y % 16) z (omega arith) l,
  simple_base64_decode-encode bytes hs,
)
