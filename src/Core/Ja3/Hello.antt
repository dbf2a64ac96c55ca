-- ===== src/Core/Ja3/Hello.antt =====
-- tls/ja3.rs: a ClientHello and its bytes, written from the layout above `parse_client_hello`.
use serverwall.Base.{
  ℕ, ◌*◌, ◌/◌, ◌%◌, ◌≡◌, Bool, false, List, [], ◌∷◌, ◌++◌, ◌==◌, not, map, length, retain,
}
use serverwall.Core.Ja3.{is_grease, Ja3Params}

pub data Extension : Type 0 where
  supported_groups : List ℕ → Extension
  ec_point_formats : List ℕ → Extension
  other : ℕ → List ℕ → Extension

pub record ClientHello : Type 0 where
  pub version : ℕ
  pub random : List ℕ
  pub session_id : List ℕ
  pub cipher_suites : List ℕ
  pub compression_methods : List ℕ
  pub extensions : List Extension

unfoldable pub words : List ℕ → List ℕ
words [] = []
words (v ∷ vs) = v / 256 ∷ v % 256 ∷ words vs

abbrev pub extension_type : Extension → ℕ
extension_type (supported_groups gs) = 0x000a
extension_type (ec_point_formats ps) = 0x000b
extension_type (other t bytes) = t

unfoldable pub extension_bytes : Extension → List ℕ
unfolding words
extension_bytes (supported_groups gs) = words (2 * length gs ∷ gs)
extension_bytes (ec_point_formats ps) = length ps ∷ ps
extension_bytes (other t bytes) = bytes

unfoldable pub encode_extensions : List Extension → List ℕ
unfolding words extension_bytes
encode_extensions [] = []
encode_extensions (e ∷ es) =
    words (extension_type e ∷ length (extension_bytes e) ∷ [])
    ++ (extension_bytes e ++ encode_extensions es)

unfoldable pub encode_hello : ClientHello → List ℕ
unfolding words encode_extensions
encode_hello h =
    let exts = encode_extensions h.extensions in
    words (h.version ∷ [])
    ++ (h.random
        ++ (length h.session_id
            ∷ (h.session_id
                ++ (words (2 * length h.cipher_suites ∷ [])
                    ++ (words h.cipher_suites
                        ++ (length h.compression_methods
                            ∷ (h.compression_methods ++ (words (length exts ∷ []) ++ exts))))))))

-- The handshake in its record, whose version and length the parser does not read.
unfoldable pub framed : ℕ → ℕ → List ℕ → List ℕ
unfolding words
framed record_version record_length hello =
    let n = length hello in
    0x16
    ∷ (words (record_version ∷ record_length ∷ [])
        ++ (0x01 ∷ n / 65536 ∷ n / 256 % 256 ∷ n % 256 ∷ hello))

unfoldable pub encode_client_hello : ℕ → ℕ → ClientHello → List ℕ
unfolding framed encode_hello
encode_client_hello record_version record_length h =
    framed record_version record_length (encode_hello h)

abbrev pub is_kept : ℕ → Bool
is_kept v = not (is_grease v)

abbrev pub all_groups : List Extension → List ℕ
all_groups [] = []
all_groups (supported_groups gs ∷ es) = gs ++ all_groups es
all_groups (_ ∷ es) = all_groups es

abbrev pub all_points : List Extension → List ℕ
all_points [] = []
all_points (ec_point_formats ps ∷ es) = ps ++ all_points es
all_points (_ ∷ es) = all_points es

-- What the fingerprint is made of.
abbrev pub offered : ClientHello → Ja3Params
offered h = record {
  version = h.version;
  ciphers = retain is_kept h.cipher_suites;
  extensions = retain is_kept (map extension_type h.extensions);
  groups = retain is_kept (all_groups h.extensions);
  point_formats = all_points h.extensions;
}

-- An extension of another kind is none of the two that have a data type of their own.
abbrev pub IsOther : Extension → Type 0
IsOther (other t bytes) = ((t == 0x000a) ≡ false) × ((t == 0x000b) ≡ false)
IsOther _ = Unit
