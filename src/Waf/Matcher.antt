-- ===== src/Waf/Matcher.antt =====
-- serverwall-waf/src/rules/matcher.rs: the values that a target names, and the transformations
-- that are applied to a value before it is matched.
pub mod Base64
pub mod Paths
pub mod Encoding
use Prim.Native.Nat.{bit_or}
use serverwall.Base.{
  ℕ, zero, suc, ◌+◌, ◌-◌, ◌*◌, ◌/◌, ◌%◌, List, [], ◌∷◌, ◌++◌, Option, none, some, Bool, true, false,
  ◌&&◌, ◌||◌, if◌then◌else◌, ltb, leb, ◌==◌, not, and_then, is_empty, Text, codes, text_eq, trim,
  to_lowercase, is_whitespace, replace, contains, retain, map, take, length, get_elem?, all,
  byte_len, from_utf8,
}
use serverwall.Core.Types.{IpAddr}
use serverwall.Waf.Request.{HttpRequestContext, user_agent, body_str}
use serverwall.Waf.Rules.{RuleTarget, Transformation}

unless_empty : Text → List Text
unless_empty text = if is_empty text then [] else text ∷ []

values : List (Text × Text) → List Text
values entries = map (λ (e : Text × Text). e.1) entries

-- `show_ip` prints an address.
unfoldable pub extract_targets : (IpAddr → Text) → HttpRequestContext → RuleTarget → List Text
unfolding unless_empty values
extract_targets show_ip ctx RuleTarget.request_uri = ctx.uri ∷ []
extract_targets show_ip ctx RuleTarget.path = ctx.path ∷ []
extract_targets show_ip ctx RuleTarget.query_string = unless_empty ctx.query_string
extract_targets show_ip ctx RuleTarget.request_headers = values ctx.headers
extract_targets show_ip ctx (RuleTarget.header_value name) =
    values
      (retain (λ (e : Text × Text). text_eq (to_lowercase e.0) (to_lowercase name)) ctx.headers)
extract_targets show_ip ctx RuleTarget.request_body = unless_empty (body_str ctx)
extract_targets show_ip ctx RuleTarget.cookies = values ctx.cookies
extract_targets show_ip ctx RuleTarget.user_agent = elim (user_agent ctx) [
  | none ↦ []
  | some agent ↦ agent ∷ []
]
extract_targets show_ip ctx RuleTarget.remote_addr = show_ip ctx.remote_addr ∷ []

hex_value : ℕ → Option ℕ
hex_value c =
    if leb b'0' c && leb c b'9'
    then some (c - b'0')
    else if leb b'a' c && leb c b'f'
    then some (c - b'a' + 10)
    else if leb b'A' c && leb c b'F'
    then some (c - b'A' + 10)
    else none

hex_digits : ℕ → Text → Option ℕ
unfolding hex_value
hex_digits acc [] = some acc
hex_digits acc (c ∷ s) =
    and_then (hex_value c) (λ d. let n = acc * 16 + d in if ltb n 256 then hex_digits n s else none)

-- `u8::from_str_radix(_, 16)`, which takes a plus sign before the digits.
from_hex : Text → Option ℕ
unfolding hex_digits
from_hex [] = none
from_hex (c ∷ s) =
    if c == b'+' then (if is_empty s then none else hex_digits 0 s) else hex_digits 0 (c ∷ s)

-- What a percent sign and the two characters after it, if there are as many, stand for.
percent : Text → Text
unfolding from_hex
percent hex =
    if byte_len hex == 2
    then elim (from_hex hex) [ none ↦ b'%' ∷ hex | some byte ↦ byte ∷ [] ]
    else b'%' ∷ hex

plus_to_space : ℕ → ℕ
plus_to_space c = if c == b'+' then b' ' else c

-- `skip` characters were taken already.
decode_from : ℕ → Text → Text
unfolding percent plus_to_space
decode_from skip [] = []
decode_from (suc skip) (c ∷ s) = decode_from skip s
decode_from zero (c ∷ s) =
    let escaped = percent (take 2 s) ++ decode_from 2 s in
    let plain = plus_to_space c ∷ decode_from 0 s in if c == b'%' then escaped else plain

unfoldable pub url_decode : Text → Text
unfolding decode_from
url_decode input = decode_from 0 input

unfoldable pub html_entity_decode : Text → Text
html_entity_decode s0 =
    let s1 = replace (codes "&amp;") (codes "&") s0 in
    let s2 = replace (codes "&lt;") (codes "<") s1 in
    let s3 = replace (codes "&gt;") (codes ">") s2 in
    let s4 = replace (codes "&quot;") (codes "\"") s3 in
    let s5 = replace (codes "&#39;") (codes "'") s4 in
    let s6 = replace (codes "&apos;") (codes "'") s5 in
    let s7 = replace (codes "&#x27;") (codes "'") s6 in
    let s8 = replace (codes "&#x2f;") (codes "/") s7 in
    let s9 = replace (codes "&#x2F;") (codes "/") s8 in
    let s10 = replace (codes "&#34;") (codes "\"") s9 in
    let s11 = replace (codes "&#60;") (codes "<") s10 in replace (codes "&#62;") (codes ">") s11

-- `while result.contains("//")`, with fuel.
collapse : ℕ → Text → Text
collapse zero s = s
collapse (suc fuel) s =
    let rest = collapse fuel (replace (codes "//") (codes "/") s) in
    if contains (codes "//") s then rest else s

pub slash : ℕ → ℕ
slash c = if c == b'\\' then b'/' else c

-- Each round takes a character at least.
unfoldable pub normalize_path : Text → Text
unfolding collapse slash
normalize_path input =
    let result = map slash input in
    replace (codes "/./") (codes "/") (collapse (suc (length result)) result)

abbrev pub base64_table : Text
base64_table = codes "ABCDEFGHIJKLMNOPQRSTUVWXYZabcdefghijklmnopqrstuvwxyz0123456789+/"

position : ℕ → Text → Option ℕ
position c [] = none
position c (d ∷ table) = if d == c then some 0 else and_then (position c table) (λ n. some (n + 1))

-- The value of the character at an index of a chunk.
value_at : List ℕ → ℕ → Option ℕ
unfolding position
value_at chunk i = and_then (get_elem? chunk i) (λ c. position c base64_table)

-- One chunk, with the shifts of a byte.
decode_chunk : List ℕ → Option (List ℕ)
unfolding value_at
decode_chunk chunk =
    let len = length (retain (λ b. not (b == b'=')) chunk) in
    if ltb len 2
    then none
    else and_then (value_at chunk 0) (λ a. and_then (value_at chunk 1) (λ b.
      let first = bit_or (a * 4 % 256) (b / 16) in
      if leb len 2
      then some (first ∷ [])
      else and_then (value_at chunk 2) (λ c.
        let second = bit_or (b * 16 % 256) (c / 4) in
        if leb len 3
        then some (first ∷ second ∷ [])
        else and_then (value_at chunk 3)
            (λ d. some (first ∷ second ∷ bit_or (c * 64 % 256) d ∷ [])))))

unfoldable pub simple_base64_decode : List ℕ → Option (List ℕ)
unfolding decode_chunk
simple_base64_decode [] = some []
simple_base64_decode (a ∷ b ∷ c ∷ d ∷ input) =
    and_then (decode_chunk (a ∷ b ∷ c ∷ d ∷ []))
      (λ bytes. and_then (simple_base64_decode input) (λ more. some (bytes ++ more)))
simple_base64_decode chunk = decode_chunk chunk

is_base64 : ℕ → Bool
is_base64 c =
    (leb b'A' c && leb c b'Z')
    || (leb b'a' c && leb c b'z')
    || (leb b'0' c && leb c b'9')
    || c == b'+'
    || c == b'/'
    || c == b'='

unfoldable pub decode_base64 : Text → Option Text
unfolding is_base64 simple_base64_decode
decode_base64 input =
    let trimmed = trim input in
    if is_empty trimmed || not (all is_base64 trimmed)
    then none
    else and_then (simple_base64_decode trimmed) from_utf8

unfoldable pub transformed : Transformation → Text → Text
unfolding url_decode html_entity_decode decode_base64 normalize_path
transformed Transformation.lowercase s = to_lowercase s
transformed Transformation.url_decode s = url_decode s
transformed Transformation.html_entity_decode s = html_entity_decode s
transformed Transformation.base64_decode s = elim (decode_base64 s) [ none ↦ s | some text ↦ text ]
transformed Transformation.remove_whitespace s = retain (λ c. not (is_whitespace c)) s
transformed Transformation.normalize_path s = normalize_path s
transformed Transformation.none s = s

unfoldable pub apply_transformations : Text → List Transformation → Text
unfolding transformed
apply_transformations input [] = input
apply_transformations input (t ∷ ts) = apply_transformations (transformed t input) ts
