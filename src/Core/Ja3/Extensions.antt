-- ===== src/Core/Ja3/Extensions.antt =====
-- tls/ja3.rs: what is found in encoded extensions.

use mathlib.Core.List.{append-nil, append_assoc}
use serverwall.Base.{
  ℕ, zero, suc, ◌*◌, ◌≤◌, ◌≡◌, refl, sym, ap, true, false, List, [], ◌∷◌, ◌++◌, if◌then◌else◌,
  Bool-cases, inl, inr, ltb, leb, ◌==◌, map, length, length-append, retain, All, arith,
}
use serverwall.Core.Ja3.{
  done, is_grease, groups_of, points_of, FoundExtensions, add_extension, extension_loop,
}
use serverwall.Core.Ja3.Hello.{
  Extension, supported_groups, ec_point_formats, other, words, extension_type, extension_bytes,
  encode_extensions, is_kept, all_groups, all_points, IsOther,
}
use serverwall.Core.Ja3.Loops.{
  join_bytes, take-append, drop-append, length-words, group_loop-words, point_loop-all,
}

retain-append :
    (xs ys : List ℕ) → retain is_kept (xs ++ ys) ≡ retain is_kept xs ++ retain is_kept ys
retain-append [] ys = refl
retain-append (x ∷ xs) ys = ground (arith, retain-append xs ys)

-- What the loop has found after an extension, and after some of them.
after : Extension → FoundExtensions → FoundExtensions
after (supported_groups gs) f = record {
  extensions = f.extensions ++ (0x000a ∷ []);
  groups = f.groups ++ retain is_kept gs;
  point_formats = f.point_formats ++ [];
}
after (ec_point_formats ps) f = record {
  extensions = f.extensions ++ (0x000b ∷ []);
  groups = f.groups ++ [];
  point_formats = f.point_formats ++ ps;
}
after (other t bytes) f = if is_grease t then f else record {
  extensions = f.extensions ++ (t ∷ []);
  groups = f.groups ++ [];
  point_formats = f.point_formats ++ [];
}

unfoldable pub gathered : List Extension → FoundExtensions → FoundExtensions
gathered es f = record {
  extensions = f.extensions ++ retain is_kept (map extension_type es);
  groups = f.groups ++ retain is_kept (all_groups es);
  point_formats = f.point_formats ++ all_points es;
}

gathered-nil : (f : FoundExtensions) → gathered [] f ≡ f
unfolding gathered
gathered-nil f = simp append-nil

groups-is_grease : is_grease 0x000a ≡ false
unfolding is_grease
groups-is_grease = refl

points-is_grease : is_grease 0x000b ≡ false
unfolding is_grease
points-is_grease = refl

gathered-after :
    (e : Extension) (es : List Extension) (f : FoundExtensions)
    → gathered es (after e f) ≡ gathered (e ∷ es) f
unfolding gathered after
gathered-after (supported_groups gs) es f =
    simp (groups-is_grease, append_assoc, append-nil, retain-append gs (all_groups es))
gathered-after (ec_point_formats ps) es f = simp (points-is_grease, append_assoc, append-nil)
gathered-after (other t bytes) es f = elim (Bool-cases (is_grease t)) [
  | inl e ↦ rw e
  | inr e ↦ simp (e, append_assoc, append-nil)
]

groups_read :
    (gs : List ℕ)
    → groups_of 0x000a (extension_bytes (supported_groups gs)) ≡ done (retain is_kept gs)
unfolding groups_of extension_bytes words
groups_read gs =
    let two : leb 2 (length (words (2 * length gs ∷ gs))) ≡ true = ground arith in
    rw (two, join_bytes (2 * length gs))
      (group_loop-words gs (length (words (2 * length gs ∷ gs))) (omega (arith, length-words gs)))

points_read : (ps : List ℕ) → points_of 0x000b (extension_bytes (ec_point_formats ps)) ≡ done ps
unfolding points_of extension_bytes
points_read ps =
    let one : leb 1 (length (length ps ∷ ps)) ≡ true = ground arith in rw (one, point_loop-all ps)

nothing_read :
    (t : ℕ) (s : List ℕ)
    → (t == 0x000a) ≡ false
    → (t == 0x000b) ≡ false
    → (groups_of t s ≡ done []) × (points_of t s ≡ done [])
unfolding groups_of points_of
nothing_read t s h k = (rw h, rw k)

add_extension-after :
    (e : Extension) (f : FoundExtensions)
    → IsOther e
    → add_extension (extension_type e) (extension_bytes e) f ≡ done (after e f)
unfolding add_extension after
add_extension-after (supported_groups gs) f h = rw (groups-is_grease, groups_read gs)
add_extension-after (ec_point_formats ps) f h = rw (points-is_grease, points_read ps)
add_extension-after (other t bytes) f (h, k) = elim (Bool-cases (is_grease t)) [
  | inl e ↦ rw e
  | inr e ↦ let (g, p) = nothing_read t (extension_bytes (other t bytes)) h k in rw (e, g, p)
]

-- With a round for each extension the loop reads all of them.
pub extension_loop-gathered :
    (es : List Extension) (fuel : ℕ) (f : FoundExtensions)
    → length es ≤ fuel
    → All IsOther es
    → extension_loop fuel (encode_extensions es) f ≡ done (gathered es f)
unfolding extension_loop encode_extensions words
extension_loop-gathered [] zero f h all_other = ap done (sym (gathered-nil f))
extension_loop-gathered [] (suc fuel) f h all_other = ap done (sym (gathered-nil f))
extension_loop-gathered (e ∷ es) zero f h all_other = absurd (omega arith)
extension_loop-gathered (e ∷ es) (suc fuel) f h (other_e, all_other) =
    let d = extension_bytes e in
    let s = encode_extensions es in
    let four : leb 4 (length (encode_extensions (e ∷ es))) ≡ true = ground arith in
    let whole : ltb (length (d ++ s)) (length d) ≡ false = ground (arith, length-append d s) in
    rw
      (
        four,
        join_bytes (extension_type e),
        join_bytes (length d),
        whole,
        take-append d s,
        drop-append d s,
        add_extension-after e f other_e,
        extension_loop-gathered es fuel (after e f) (omega arith) all_other,
      )
      (ap done (gathered-after e es f))
