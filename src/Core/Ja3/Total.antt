-- ===== src/Core/Ja3/Total.antt =====
-- tls/ja3.rs: the parser never reads past the end of a slice, and its loops end.
use serverwall.Base.{
  ℕ, zero, suc, ◌+◌, ◌-◌, ◌/◌, ◌≤◌, ◌≡◌, refl, Bool, true, false, ◌&&◌, List, [], ◌∷◌, if_both, ltb,
  leb, ◌==◌, length, take, drop, arith,
}
use serverwall.Core.Ja3.{
  Parse, done, not_hello, panicked, out_of_fuel, ◌>>=◌, require, byte, word, word24, cipher_loop,
  group_loop, groups_of, points_of, FoundExtensions, add_extension, extension_loop,
  parse_extensions, parse_compression, parse_ciphers, parse_hello, parse_handshake, slice_from,
  parse_client_hello, Ja3Params, is_grease,
}

-- The parser gives parameters or `None`.
abbrev pub IsAnswer : {A : Type 0} → Parse A → Type 0
IsAnswer (done a) = Unit
IsAnswer not_hello = Unit
IsAnswer panicked = ⊥
IsAnswer out_of_fuel = ⊥

bind-IsAnswer :
    {A B : Type 0} (p : Parse A) (f : A → Parse B)
    → IsAnswer p
    → ((a : A) → IsAnswer (f a))
    → IsAnswer (p >>= f)
bind-IsAnswer (done a) f h k = k a
bind-IsAnswer not_hello f h k = tt
bind-IsAnswer panicked f h k = h
bind-IsAnswer out_of_fuel f h k = h

require-IsAnswer :
    {A : Type 0} (b : Bool) (p : Parse A) → (b ≡ true → IsAnswer p) → IsAnswer (require b p)
unfolding require
require-IsAnswer true p h = h refl
require-IsAnswer false p h = tt

leb→le : (a b : ℕ) → leb a b ≡ true → a ≤ b
leb→le a b h = ground arith

byte-IsAnswer : (s : List ℕ) → 1 ≤ length s → IsAnswer (byte s)
unfolding byte
byte-IsAnswer [] h = absurd (omega arith)
byte-IsAnswer (a ∷ s) h = tt

word-IsAnswer : (s : List ℕ) → 2 ≤ length s → IsAnswer (word s)
unfolding word
word-IsAnswer [] h = absurd (omega arith)
word-IsAnswer (a ∷ []) h = absurd (omega arith)
word-IsAnswer (a ∷ (b ∷ s)) h = tt

word24-IsAnswer : (s : List ℕ) → 3 ≤ length s → IsAnswer (word24 s)
unfolding word24
word24-IsAnswer [] h = absurd (omega arith)
word24-IsAnswer (a ∷ []) h = absurd (omega arith)
word24-IsAnswer (a ∷ (b ∷ [])) h = absurd (omega arith)
word24-IsAnswer (a ∷ (b ∷ (c ∷ s))) h = tt

length-drop : (n : ℕ) (s : List ℕ) → length (drop n s) ≡ length s - n
length-drop zero s = omega arith
length-drop (suc n) [] = omega arith
length-drop (suc n) (x ∷ s) = omega (arith, length-drop n s)

cipher_loop-IsAnswer : (n : ℕ) (s : List ℕ) → IsAnswer (cipher_loop n s)
unfolding cipher_loop
cipher_loop-IsAnswer zero s = tt
cipher_loop-IsAnswer (suc n) s =
    if_both {A = Parse (List ℕ)} IsAnswer (ltb (length s) 2) _ _ (λ _. tt)
      (λ e. bind-IsAnswer (word s) _ (word-IsAnswer s (ground arith)) (λ c.
        bind-IsAnswer (cipher_loop n (drop 2 s)) _ (cipher_loop-IsAnswer n (drop 2 s))
          (λ rest. tt)))

group_loop-IsAnswer :
    (fuel left : ℕ) (s : List ℕ) → length s ≤ fuel → IsAnswer (group_loop fuel left s)
unfolding group_loop
group_loop-IsAnswer zero left s h =
    if_both {A = Parse (List ℕ)} IsAnswer (leb 2 (length s) && ltb 0 left) _ _
      (λ e. absurd (ground arith)) (λ _. tt)
group_loop-IsAnswer (suc fuel) left s h =
    if_both {A = Parse (List ℕ)} IsAnswer (leb 2 (length s) && ltb 0 left) _ _
      (λ e. bind-IsAnswer (word s) _ (word-IsAnswer s (ground arith)) (λ g.
        bind-IsAnswer (group_loop fuel (left - 2) (drop 2 s)) _
          (group_loop-IsAnswer fuel (left - 2) (drop 2 s) (omega (arith, length-drop 2 s)))
          (λ rest. tt)))
      (λ _. tt)

groups_of-IsAnswer : (t : ℕ) (s : List ℕ) → IsAnswer (groups_of t s)
unfolding groups_of
groups_of-IsAnswer t s =
    if_both {A = Parse (List ℕ)} IsAnswer (t == 0x000a && leb 2 (length s)) _ _
      (λ e.
        bind-IsAnswer (word s) _ (word-IsAnswer s (ground arith))
          (λ left. group_loop-IsAnswer (length s) left (drop 2 s) (omega (arith, length-drop 2 s))))
      (λ _. tt)

points_of-IsAnswer : (t : ℕ) (s : List ℕ) → IsAnswer (points_of t s)
unfolding points_of
points_of-IsAnswer t s =
    if_both {A = Parse (List ℕ)} IsAnswer (t == 0x000b && leb 1 (length s)) _ _
      (λ e. bind-IsAnswer (byte s) _ (byte-IsAnswer s (ground arith)) (λ n. tt)) (λ _. tt)

add_extension-IsAnswer :
    (t : ℕ) (s : List ℕ) (found : FoundExtensions) → IsAnswer (add_extension t s found)
unfolding add_extension
add_extension-IsAnswer t s found =
    if_both {A = Parse FoundExtensions} IsAnswer (is_grease t) _ _ (λ _. tt)
      (λ _.
        bind-IsAnswer (groups_of t s) _ (groups_of-IsAnswer t s)
          (λ groups. bind-IsAnswer (points_of t s) _ (points_of-IsAnswer t s) (λ points. tt)))

extension_loop-IsAnswer :
    (fuel : ℕ) (s : List ℕ) (found : FoundExtensions)
    → length s ≤ fuel
    → IsAnswer (extension_loop fuel s found)
unfolding extension_loop
extension_loop-IsAnswer zero s found h =
    if_both {A = Parse FoundExtensions} IsAnswer (leb 4 (length s)) _ _ (λ e. absurd (ground arith))
      (λ _. tt)
extension_loop-IsAnswer (suc fuel) s found h =
    if_both {A = Parse FoundExtensions} IsAnswer (leb 4 (length s)) _ _
      (λ e. bind-IsAnswer (word s) _ (word-IsAnswer s (ground arith)) (λ t.
        bind-IsAnswer (word (drop 2 s)) _
          (word-IsAnswer (drop 2 s) (ground (arith, length-drop 2 s)))
          (λ len.
            if_both {A = Parse FoundExtensions} IsAnswer (ltb (length (drop 4 s)) len) _ _ (λ _. tt)
              (λ _.
                bind-IsAnswer (add_extension t (take len (drop 4 s)) found) _
                  (add_extension-IsAnswer t (take len (drop 4 s)) found)
                  (λ more.
                    extension_loop-IsAnswer fuel (drop len (drop 4 s)) more
                      (ground (arith, length-drop 4 s, length-drop len (drop 4 s))))))))
      (λ _. tt)

length-take-le : (n : ℕ) (s : List ℕ) → length (take n s) ≤ n
length-take-le zero s = omega arith
length-take-le (suc n) [] = omega arith
length-take-le (suc n) (x ∷ s) = omega (arith, length-take-le n s)

parse_extensions-IsAnswer :
    (version : ℕ) (ciphers s : List ℕ) → IsAnswer (parse_extensions version ciphers s)
unfolding parse_extensions
parse_extensions-IsAnswer version ciphers s =
    if_both {A = Parse Ja3Params} IsAnswer (ltb (length s) 2) _ _ (λ _. tt)
      (λ e. bind-IsAnswer (word s) _ (word-IsAnswer s (ground arith)) (λ total.
        require-IsAnswer (leb total (length (drop 2 s))) _ (λ _.
          bind-IsAnswer (extension_loop total (take total (drop 2 s)) _) _
            (extension_loop-IsAnswer total (take total (drop 2 s)) _
              (length-take-le total (drop 2 s)))
            (λ found. tt))))

parse_compression-IsAnswer :
    (version : ℕ) (ciphers s : List ℕ) → IsAnswer (parse_compression version ciphers s)
unfolding parse_compression
parse_compression-IsAnswer version ciphers s = require-IsAnswer (leb 1 (length s)) _ (λ e.
    bind-IsAnswer (byte s) _ (byte-IsAnswer s (leb→le 1 _ e))
      (λ n. parse_extensions-IsAnswer version ciphers (drop (1 + n) s)))

parse_ciphers-IsAnswer : (version : ℕ) (s : List ℕ) → IsAnswer (parse_ciphers version s)
unfolding parse_ciphers
parse_ciphers-IsAnswer version s = require-IsAnswer (leb 2 (length s)) _ (λ e.
    bind-IsAnswer (word s) _ (word-IsAnswer s (leb→le 2 _ e)) (λ n.
      require-IsAnswer (leb n (length (drop 2 s))) _ (λ _.
        bind-IsAnswer (cipher_loop ((n + 1) / 2) (drop 2 s)) _
          (cipher_loop-IsAnswer ((n + 1) / 2) (drop 2 s))
          (λ ciphers. parse_compression-IsAnswer version ciphers (drop n (drop 2 s))))))

parse_hello-IsAnswer : (s : List ℕ) → IsAnswer (parse_hello s)
unfolding parse_hello
parse_hello-IsAnswer s = require-IsAnswer (leb 2 (length s)) _ (λ e.
    bind-IsAnswer (word s) _ (word-IsAnswer s (leb→le 2 _ e)) (λ version.
      require-IsAnswer (leb 34 (length s)) _ (λ _.
        require-IsAnswer (leb 1 (length (drop 34 s))) _ (λ f.
          bind-IsAnswer (byte (drop 34 s)) _ (byte-IsAnswer (drop 34 s) (leb→le 1 _ f))
            (λ n. parse_ciphers-IsAnswer version (drop (1 + n) (drop 34 s)))))))

parse_handshake-IsAnswer : (hs : List ℕ) → IsAnswer (parse_handshake hs)
unfolding parse_handshake
parse_handshake-IsAnswer hs = require-IsAnswer (leb 4 (length hs)) _ (λ f.
    bind-IsAnswer (byte hs) _ (byte-IsAnswer hs (ground arith)) (λ kind.
      require-IsAnswer (kind == 0x01) _ (λ _.
        bind-IsAnswer (word24 (drop 1 hs)) _
          (word24-IsAnswer (drop 1 hs) (ground (arith, length-drop 1 hs)))
          (λ n.
            require-IsAnswer (leb n (length (drop 4 hs))) _
              (λ _. parse_hello-IsAnswer (take n (drop 4 hs)))))))

slice_from-IsAnswer : (n : ℕ) (s : List ℕ) → n ≤ length s → IsAnswer (slice_from n s)
unfolding slice_from
slice_from-IsAnswer zero s h = tt
slice_from-IsAnswer (suc n) [] h = absurd (omega arith)
slice_from-IsAnswer (suc n) (x ∷ s) h = slice_from-IsAnswer n s (omega arith)

-- On every input the parser gives parameters or `None`: it never reads or slices past the end, so it
-- does not panic, and its loops over the groups and over the extensions end after no more rounds than
-- there are bytes to read.
pub parse_client_hello-IsAnswer : (bytes : List ℕ) → IsAnswer (parse_client_hello bytes)
unfolding parse_client_hello
parse_client_hello-IsAnswer bytes = require-IsAnswer (leb 5 (length bytes)) _ (λ e.
    bind-IsAnswer (byte bytes) _ (byte-IsAnswer bytes (ground arith)) (λ content.
      require-IsAnswer (content == 0x16) _ (λ _.
        bind-IsAnswer (slice_from 5 bytes) _ (slice_from-IsAnswer 5 bytes (leb→le 5 _ e))
          (λ hs. parse_handshake-IsAnswer hs))))
