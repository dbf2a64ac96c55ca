-- ===== src/Core/Ja3/Loops.antt =====
-- tls/ja3.rs: the loops on encoded lists.
use serverwall.Base.{
  ℕ, zero, suc, ◌+◌, ◌-◌, ◌*◌, ◌/◌, ◌%◌, ◌≤◌, ◌≡◌, refl, ap, true, false, ◌&&◌, List, [], ◌∷◌, ◌++◌,
  ltb, leb, length, length-append, take, drop, retain, arith,
}
use serverwall.Core.Ja3.{done, keep, cipher_loop, group_loop, point_loop}
use serverwall.Core.Ja3.Hello.{words, is_kept}

pub join_bytes : (v : ℕ) → v / 256 * 256 + v % 256 ≡ v
join_bytes v = omega arith

pub take-append : (s t : List ℕ) → take (length s) (s ++ t) ≡ s
take-append [] t = refl
take-append (x ∷ s) t = ap (◌∷◌ x) (take-append s t)

pub drop-append : (s t : List ℕ) → drop (length s) (s ++ t) ≡ t
drop-append [] t = refl
drop-append (x ∷ s) t = drop-append s t

pub length-words : (vs : List ℕ) → length (words vs) ≡ 2 * length vs
unfolding words
length-words [] = refl
length-words (v ∷ vs) = omega (arith, length-words vs)

keep-retain : (v : ℕ) (vs : List ℕ) → keep v (retain is_kept vs) ≡ retain is_kept (v ∷ vs)
unfolding keep
keep-retain v vs = ground arith

pub cipher_loop-words :
    (vs s : List ℕ) → cipher_loop (length vs) (words vs ++ s) ≡ done (retain is_kept vs)
unfolding cipher_loop words
cipher_loop-words [] s = refl
cipher_loop-words (v ∷ vs) s =
    let enough : ltb (length (words (v ∷ vs) ++ s)) 2 ≡ false = ground arith in
    rw (enough, join_bytes v, cipher_loop-words vs s) (ap done (keep-retain v vs))

pub group_loop-words :
    (gs : List ℕ) (fuel : ℕ)
    → length gs ≤ fuel
    → group_loop fuel (2 * length gs) (words gs) ≡ done (retain is_kept gs)
unfolding group_loop words
group_loop-words [] zero h = refl
group_loop-words [] (suc fuel) h = refl
group_loop-words (g ∷ gs) zero h = absurd (omega arith)
group_loop-words (g ∷ gs) (suc fuel) h =
    let enough : (leb 2 (length (words (g ∷ gs))) && ltb 0 (2 * length (g ∷ gs))) ≡ true =
      ground arith in
    let less : 2 * length (g ∷ gs) - 2 ≡ 2 * length gs = omega arith in
    rw (enough, join_bytes g, less, group_loop-words gs fuel (omega arith))
      (ap done (keep-retain g gs))

pub point_loop-all : (ps : List ℕ) → point_loop (length ps) ps ≡ ps
unfolding point_loop
point_loop-all [] = refl
point_loop-all (p ∷ ps) = ap (◌∷◌ p) (point_loop-all ps)

pub take_all : (s : List ℕ) → take (length s) s ≡ s
take_all [] = refl
take_all (x ∷ s) = ap (◌∷◌ x) (take_all s)

pub leb_refl : (n : ℕ) → leb n n ≡ true
leb_refl n = ground arith

pub leb-append : (s t : List ℕ) → leb (length s) (length (s ++ t)) ≡ true
leb-append s t = ground (arith, length-append s t)
