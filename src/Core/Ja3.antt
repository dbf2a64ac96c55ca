-- ===== src/Core/Ja3.antt =====
-- serverwall-core/src/tls/ja3.rs: the fingerprint of a TLS ClientHello. A position in a slice is the
-- list of the bytes from it on; reading or slicing past the end panics in Rust, and does so here. The digest of
-- the crate `md5`, printed in hexadecimal, is a parameter.
pub mod Total
pub mod Hello
pub mod Loops
pub mod Extensions
pub mod RoundTrip
use serverwall.Base.{
  ℕ, zero, suc, ◌+◌, ◌-◌, ◌*◌, ◌/◌, Bool, true, false, ◌&&◌, List, [], ◌∷◌, ◌++◌, Option, none,
  some, if◌then◌else◌, any, map, ltb, leb, ◌==◌, length, take, drop, Text, codes, join, decimal,
}

abbrev pub grease_values : List ℕ
grease_values =
    0x0a0a ∷ 0x1a1a ∷ 0x2a2a ∷ 0x3a3a ∷ 0x4a4a ∷ 0x5a5a ∷ 0x6a6a ∷ 0x7a7a ∷ 0x8a8a ∷ 0x9a9a ∷ 0xaaaa
    ∷ 0xbaba ∷ 0xcaca ∷ 0xdada ∷ 0xeaea ∷ 0xfafa ∷ []

unfoldable pub is_grease : ℕ → Bool
is_grease val = any (λ g. g == val) grease_values

pub record Ja3Params : Type 0 where
  pub version : ℕ
  pub ciphers : List ℕ
  pub extensions : List ℕ
  pub groups : List ℕ
  pub point_formats : List ℕ

-- `Option`, and the two ways of a run that gives none: a panic, and fuel that does not suffice.
pub data Parse (A : Type 0) : Type 0 where
  done : A → Parse A
  not_hello : Parse A
  panicked : Parse A
  out_of_fuel : Parse A

infixl 5 ◌>>=◌
abbrev pub ◌>>=◌ : {A B : Type 0} → Parse A → (A → Parse B) → Parse B
done a >>= f = f a
not_hello >>= f = not_hello
panicked >>= f = panicked
out_of_fuel >>= f = out_of_fuel

-- `if !condition { return None; }`.
unfoldable pub require : {A : Type 0} → Bool → Parse A → Parse A
require true next = next
require false next = not_hello

unfoldable pub byte : List ℕ → Parse ℕ
byte [] = panicked
byte (a ∷ s) = done a

-- `u16::from_be_bytes`, and the three shifted bytes of a handshake's length, which share no bit.
unfoldable pub word : List ℕ → Parse ℕ
word (a ∷ (b ∷ s)) = done (a * 256 + b)
word _ = panicked

unfoldable pub word24 : List ℕ → Parse ℕ
word24 (a ∷ (b ∷ (c ∷ s))) = done (a * 65536 + b * 256 + c)
word24 _ = panicked

-- `&s[n..]`.
unfoldable pub slice_from : ℕ → List ℕ → Parse (List ℕ)
slice_from zero s = done s
slice_from (suc n) [] = panicked
slice_from (suc n) (x ∷ s) = slice_from n s

-- A value that is not GREASE.
unfoldable pub keep : ℕ → List ℕ → List ℕ
keep c cs = if is_grease c then cs else c ∷ cs

-- The loop over the suites, of so many rounds; it breaks where two bytes are not left.
unfoldable pub cipher_loop : ℕ → List ℕ → Parse (List ℕ)
unfolding word keep
cipher_loop zero s = done []
cipher_loop (suc n) s =
    if ltb (length s) 2
    then done []
    else word s >>= (λ c. cipher_loop n (drop 2 s) >>= (λ rest. done (keep c rest)))

-- The loop over the groups; `left` bytes of the list are to come.
unfoldable pub group_loop : ℕ → ℕ → List ℕ → Parse (List ℕ)
unfolding word keep
group_loop zero left s = if leb 2 (length s) && ltb 0 left then out_of_fuel else done []
group_loop (suc fuel) left s =
    if leb 2 (length s) && ltb 0 left
    then word s >>= (λ g. group_loop fuel (left - 2) (drop 2 s) >>= (λ rest. done (keep g rest)))
    else done []

-- The loop over the point formats has as many rounds as the list is said to be long; a round past the
-- end adds nothing.
unfoldable pub point_loop : ℕ → List ℕ → List ℕ
point_loop zero s = []
point_loop (suc n) [] = point_loop n []
point_loop (suc n) (x ∷ s) = x ∷ point_loop n s

pub record FoundExtensions : Type 0 where
  pub extensions : List ℕ
  pub groups : List ℕ
  pub point_formats : List ℕ

unfoldable pub groups_of : ℕ → List ℕ → Parse (List ℕ)
unfolding word group_loop
groups_of ext_type ext_data =
    if ext_type == 0x000a && leb 2 (length ext_data)
    then word ext_data >>= (λ list_len. group_loop (length ext_data) list_len (drop 2 ext_data))
    else done []

unfoldable pub points_of : ℕ → List ℕ → Parse (List ℕ)
unfolding byte point_loop
points_of ext_type ext_data =
    if ext_type == 0x000b && leb 1 (length ext_data)
    then byte ext_data >>= (λ list_len. done (point_loop list_len (drop 1 ext_data)))
    else done []

-- The body of the loop for an extension whose data is complete.
unfoldable pub add_extension : ℕ → List ℕ → FoundExtensions → Parse FoundExtensions
unfolding groups_of points_of
add_extension ext_type ext_data found =
    if is_grease ext_type
    then done found
    else groups_of ext_type ext_data >>= (λ groups. points_of ext_type ext_data >>= (λ points.
      done (record {
        extensions = found.extensions ++ (ext_type ∷ []);
        groups = found.groups ++ groups;
        point_formats = found.point_formats ++ points;
      })))

-- The loop over the extensions.
unfoldable pub extension_loop : ℕ → List ℕ → FoundExtensions → Parse FoundExtensions
unfolding word add_extension
extension_loop zero s found = if leb 4 (length s) then out_of_fuel else done found
extension_loop (suc fuel) s found =
    if leb 4 (length s)
    then word s >>= (λ ext_type. word (drop 2 s) >>= (λ ext_len.
      let rest = drop 4 s in
      if ltb (length rest) ext_len
      then done found
      else add_extension ext_type (take ext_len rest) found
        >>= (λ more. extension_loop fuel (drop ext_len rest) more)))
    else done found

abbrev pub nothing_found : FoundExtensions
nothing_found = record { extensions = []; groups = []; point_formats = [] }

params_of : ℕ → List ℕ → FoundExtensions → Ja3Params
params_of version ciphers found = record {
  version = version;
  ciphers = ciphers;
  extensions = found.extensions;
  groups = found.groups;
  point_formats = found.point_formats;
}

-- From the length of the extensions on; a hello may end before it.
unfoldable pub parse_extensions : ℕ → List ℕ → List ℕ → Parse Ja3Params
unfolding word require extension_loop params_of
parse_extensions version ciphers s =
    if ltb (length s) 2
    then done (params_of version ciphers nothing_found)
    else word s >>= (λ ext_total.
      let rest = drop 2 s in
      require (leb ext_total (length rest)) (
        extension_loop ext_total (take ext_total rest) nothing_found
        >>= (λ found. done (params_of version ciphers found))))

-- From the length of the compression methods on.
unfoldable pub parse_compression : ℕ → List ℕ → List ℕ → Parse Ja3Params
unfolding byte require parse_extensions
parse_compression version ciphers s =
    require (leb 1 (length s))
      (byte s >>= (λ comp_len. parse_extensions version ciphers (drop (1 + comp_len) s)))

-- From the length of the suites on.
unfoldable pub parse_ciphers : ℕ → List ℕ → Parse Ja3Params
unfolding word require cipher_loop parse_compression
parse_ciphers version s = require (leb 2 (length s)) (
    word s >>= (λ cs_len.
      let rest = drop 2 s in
      require (leb cs_len (length rest)) (
        cipher_loop ((cs_len + 1) / 2) rest
        >>= (λ ciphers. parse_compression version ciphers (drop cs_len rest)))))

-- From the version on: the random bytes and the session are skipped.
unfoldable pub parse_hello : List ℕ → Parse Ja3Params
unfolding byte word require parse_ciphers
parse_hello hello = require (leb 2 (length hello)) (
    word hello >>= (λ version. require (leb 34 (length hello)) (
      let session = drop 34 hello in
      require (leb 1 (length session))
        (byte session >>= (λ sid_len. parse_ciphers version (drop (1 + sid_len) session))))))

-- The handshake: its kind and its length, and the hello in it.
unfoldable pub parse_handshake : List ℕ → Parse Ja3Params
unfolding byte word24 require parse_hello
parse_handshake hs = require (leb 4 (length hs)) (
    byte hs >>= (λ kind. require (kind == 0x01) (
      word24 (drop 1 hs) >>= (λ hs_len.
        let body = drop 4 hs in
        require (leb hs_len (length body)) (parse_hello (take hs_len body))))))

unfoldable pub parse_client_hello : List ℕ → Parse Ja3Params
unfolding byte require slice_from parse_handshake
parse_client_hello bytes =
    require (leb 5 (length bytes)) (
      byte bytes
      >>= (λ content. require (content == 0x16) (slice_from 5 bytes >>= parse_handshake)))

module _ (md5_hex : Text → Text) where
  dashed : List ℕ → Text
  dashed values = join (codes "-") (map decimal values)

  unfoldable pub hash_params : Ja3Params → Text
  unfolding dashed
  hash_params p = md5_hex (
      join (codes ",") (
        decimal p.version
        ∷ dashed p.ciphers
        ∷ dashed p.extensions
        ∷ dashed p.groups
        ∷ dashed p.point_formats
        ∷ []))

  unfoldable pub compute_from_bytes : List ℕ → Parse Text
  unfolding parse_client_hello hash_params
  compute_from_bytes bytes = parse_client_hello bytes >>= (λ params. done (hash_params params))
