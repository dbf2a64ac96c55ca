-- ===== src/Tests/Tls.antt =====
-- A ClientHello of a browser, with GREASE values, and one with a list of suites of odd length.
use serverwall.Base.{ℕ, ◌≡◌, refl, List, [], ◌∷◌, ◌++◌, codes, take, join, decimal}
use serverwall.Core.Ja3.{parse_client_hello, done, Ja3Params, compute_from_bytes, is_grease}
use serverwall.Core.Ja3.Hello.{
  ClientHello, supported_groups, ec_point_formats, other, encode_client_hello,
}
use serverwall.Core.Ja3.RoundTrip.{parse_client_hello-encode}
use serverwall.Core.Ja3.Total.{IsAnswer, parse_client_hello-IsAnswer}

abbrev eight : List ℕ
eight = 9 ∷ 8 ∷ 7 ∷ 6 ∷ 5 ∷ 4 ∷ 3 ∷ 2 ∷ []

abbrev random : List ℕ
random = eight ++ (eight ++ (eight ++ eight))

abbrev browser : ClientHello
browser = record {
  version = 771;
  random = random;
  session_id = 1 ∷ 2 ∷ [];
  cipher_suites = 0x0a0a ∷ 4865 ∷ 4866 ∷ [];
  compression_methods = 0 ∷ [];
  extensions =
      other 0x1a1a []
      ∷ other 0 (0 ∷ 0 ∷ [])
      ∷ supported_groups (0x2a2a ∷ 29 ∷ 23 ∷ [])
      ∷ ec_point_formats (0 ∷ [])
      ∷ [];
}

abbrev fingerprint : Ja3Params
fingerprint = record {
  version = 771;
  ciphers = 4865 ∷ 4866 ∷ [];
  extensions = 0 ∷ 10 ∷ 11 ∷ [];
  groups = 29 ∷ 23 ∷ [];
  point_formats = 0 ∷ [];
}

parse_client_hello-encode_example :
    parse_client_hello (encode_client_hello 769 512 browser) ≡ done fingerprint
unfolding is_grease
parse_client_hello-encode_example =
    parse_client_hello-encode 769 512 browser refl ((refl, refl), ((refl, refl), (tt, (tt, tt))))

parse_client_hello-IsAnswer_example :
    IsAnswer (parse_client_hello (take 60 (encode_client_hello 769 512 browser)))
parse_client_hello-IsAnswer_example =
    parse_client_hello-IsAnswer (take 60 (encode_client_hello 769 512 browser))

hashed :
    compute_from_bytes (λ t. t) (encode_client_hello 769 512 browser)
    ≡ done (codes "771,4865-4866,0-10-11,29-23,0")
unfolding compute_from_bytes encode_client_hello is_grease join decimal
hashed = refl

-- The list of suites has three bytes; the second suite is its last byte and the length of the
-- compression methods.
abbrev odd_hello : List ℕ
odd_hello =
    22
    ∷ 3
    ∷ 1
    ∷ 0
    ∷ 46
    ∷ 1
    ∷ 0
    ∷ 0
    ∷ 42
    ∷ 3
    ∷ 3
    ∷ (random ++ (0 ∷ 0 ∷ 3 ∷ 19 ∷ 1 ∷ 19 ∷ 1 ∷ 0 ∷ []))

odd :
    parse_client_hello odd_hello
    ≡ done (record {
      version = 771;
      ciphers = 4865 ∷ 4865 ∷ [];
      extensions = [];
      groups = [];
      point_formats = [];
    })
unfolding parse_client_hello is_grease
odd = refl
