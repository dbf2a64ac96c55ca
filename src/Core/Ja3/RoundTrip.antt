-- ===== src/Core/Ja3/RoundTrip.antt =====
-- tls/ja3.rs: what the parser reads from the bytes of a ClientHello.
use serverwall.Base.{
  ℕ, suc, ◌+◌, ◌*◌, ◌/◌, ◌%◌, ◌≤◌, ◌≡◌, ◌∙◌, ap, true, false, List, [], ◌∷◌, ◌++◌, ltb, leb, length,
  length-append, drop, retain, All, arith,
}
use serverwall.Core.Ja3.{
  done, require, nothing_found, parse_extensions, parse_compression, parse_ciphers, parse_hello,
  parse_handshake, slice_from, parse_client_hello, params_of,
}
use serverwall.Core.Ja3.Hello.{
  Extension, ClientHello, words, extension_bytes, encode_extensions, encode_hello, framed,
  encode_client_hello, is_kept, offered, IsOther,
}
use serverwall.Core.Ja3.Loops.{
  join_bytes, drop-append, length-words, cipher_loop-words, take_all, leb_refl,
}
use serverwall.Core.Ja3.Extensions.{gathered, extension_loop-gathered}

length-encode : (es : List Extension) → length es ≤ length (encode_extensions es)
unfolding encode_extensions words
length-encode [] = omega arith
length-encode (e ∷ es) =
    omega (arith, length-encode es, length-append (extension_bytes e) (encode_extensions es))

read_extensions :
    (version : ℕ) (ciphers : List ℕ) (es : List Extension)
    → All IsOther es
    → parse_extensions version ciphers
        (words (length (encode_extensions es) ∷ []) ++ encode_extensions es)
      ≡ done (params_of version ciphers (gathered es nothing_found))
unfolding parse_extensions words require
read_extensions version ciphers es h =
    let s = encode_extensions es in
    let two : ltb (length (words (length s ∷ []) ++ s)) 2 ≡ false = ground arith in
    rw (
      two,
      join_bytes (length s),
      leb_refl (length s),
      take_all s,
      extension_loop-gathered es (length s) nothing_found (length-encode es) h,
    )

read_compression :
    (version : ℕ) (ciphers methods s : List ℕ)
    → parse_compression version ciphers (length methods ∷ (methods ++ s))
      ≡ parse_extensions version ciphers s
unfolding parse_compression require
read_compression version ciphers methods s =
    let one : leb 1 (length (length methods ∷ (methods ++ s))) ≡ true = ground arith in
    let next : 1 + length methods ≡ suc (length methods) = omega arith in
    rw (one, next, drop-append methods s)

read_ciphers :
    (version : ℕ) (suites s : List ℕ)
    → parse_ciphers version (words (2 * length suites ∷ []) ++ (words suites ++ s))
      ≡ parse_compression version (retain is_kept suites) s
unfolding parse_ciphers require words
read_ciphers version suites s =
    let n = 2 * length suites in
    let two : leb 2 (length (words (n ∷ []) ++ (words suites ++ s))) ≡ true = ground arith in
    let fits : leb n (length (words suites ++ s)) ≡ true =
      ground (arith, length-append (words suites) s, length-words suites) in
    let half : (n + 1) / 2 ≡ length suites = omega arith in
    let after : drop n (words suites ++ s) ≡ s =
      rw (length-words suites) at (drop-append (words suites) s) in
    rw (two, join_bytes n, fits, half, cipher_loop-words suites s, after)

-- The bytes after the version and the random bytes.
after_random : ClientHello → List ℕ
unfolding words encode_extensions
after_random h =
    let exts = encode_extensions h.extensions in
    length h.session_id
    ∷ (h.session_id
        ++ (words (2 * length h.cipher_suites ∷ [])
            ++ (words h.cipher_suites
                ++ (length h.compression_methods
                    ∷ (h.compression_methods ++ (words (length exts ∷ []) ++ exts))))))

read_session :
    (h : ClientHello)
    → All IsOther h.extensions
    → parse_ciphers h.version (drop (1 + length h.session_id) (after_random h)) ≡ done (offered h)
unfolding after_random params_of gathered
read_session h others =
    let exts = encode_extensions h.extensions in
    let compressed =
      length h.compression_methods
      ∷ (h.compression_methods ++ (words (length exts ∷ []) ++ exts)) in
    let suites = words (2 * length h.cipher_suites ∷ []) ++ (words h.cipher_suites ++ compressed) in
    let next : 1 + length h.session_id ≡ suc (length h.session_id) = omega arith in
    rw (next, drop-append h.session_id suites)
      (read_ciphers h.version h.cipher_suites compressed
        ∙ read_compression h.version (retain is_kept h.cipher_suites) h.compression_methods _
        ∙ read_extensions h.version (retain is_kept h.cipher_suites) h.extensions others)

drop_random : (random s : List ℕ) → length random ≡ 32 → drop 32 (random ++ s) ≡ s
drop_random random s h = rw h at (drop-append random s)

read_hello :
    (h : ClientHello)
    → length h.random ≡ 32
    → All IsOther h.extensions
    → parse_hello (encode_hello h) ≡ done (offered h)
unfolding parse_hello encode_hello words require after_random
read_hello h r others =
    let s = after_random h in
    let hello = words (h.version ∷ []) ++ (h.random ++ s) in
    let two : leb 2 (length hello) ≡ true = ground arith in
    let enough : leb 34 (length hello) ≡ true = ground (arith, length-append h.random s) in
    let one : leb 1 (length s) ≡ true = ground arith in
    rw (two, join_bytes h.version, enough, drop_random h.random s r, one) (read_session h others)

join_three : (n : ℕ) → n / 65536 * 65536 + n / 256 % 256 * 256 + n % 256 ≡ n
join_three n = omega arith

read_record :
    (record_version record_length : ℕ) (hello : List ℕ)
    → parse_client_hello (framed record_version record_length hello) ≡ parse_hello hello
unfolding parse_client_hello parse_handshake slice_from framed words require
read_record record_version record_length hello =
    let n = length hello in
    let handshake = 0x01 ∷ n / 65536 ∷ n / 256 % 256 ∷ n % 256 ∷ hello in
    let five : leb 5 (length (framed record_version record_length hello)) ≡ true = ground arith in
    let four : leb 4 (length handshake) ≡ true = ground arith in
    rw (five, four, join_three n, leb_refl n) (ap parse_hello (take_all hello))

-- Of the bytes of a ClientHello the parser reads what was encoded, GREASE values left out; so the
-- record's version and length, the random bytes, the session and the compression methods have no
-- part in the fingerprint. The random bytes are 32, and the groups and the point formats stand in
-- extensions of their types.
pub parse_client_hello-encode :
    (record_version record_length : ℕ) (h : ClientHello)
    → length h.random ≡ 32
    → All IsOther h.extensions
    → parse_client_hello (encode_client_hello record_version record_length h) ≡ done (offered h)
unfolding encode_client_hello
parse_client_hello-encode record_version record_length h r others =
    read_record record_version record_length (encode_hello h) ∙ read_hello h r others
