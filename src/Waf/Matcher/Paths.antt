-- ===== src/Waf/Matcher/Paths.antt =====
-- serverwall-waf/src/rules/matcher.rs: `normalize_path`, its loop against one pass that leaves out
-- every slash after a slash, and what it does not normalise.
use serverwall.Base.{
  ℕ, zero, suc, ◌<◌, ◌≤◌, ◌≡◌, refl, ◌∙◌, ap, sym, [], ◌∷◌, Bool, true, false, ◌&&◌, if◌then◌else◌,
  ◌==◌, Bool-cases, inl, inr, Text, codes, length, map, starts_with, contains, replace,
  replace_from, any, arith,
}
use serverwall.Waf.Matcher.{collapse, slash, normalize_path}

-- Leaves out every slash that follows a slash; `after` tells whether the character before was one.
pub squeeze : Bool → Text → Text
squeeze after [] = []
squeeze after (c ∷ s) =
    let skipped = squeeze true s in
    let kept = c ∷ squeeze (c == b'/') s in if after && c == b'/' then skipped else kept

-- `replace("//", "/")` as one pass.
halve : Text → Text
halve [] = []
halve (c ∷ []) = c ∷ []
halve (c ∷ d ∷ s) =
    let pair = b'/' ∷ halve s in
    let one = c ∷ halve (d ∷ s) in if c == b'/' && d == b'/' then pair else one

replace-halve : (s : Text) → replace_from (codes "//") (codes "/") 0 s ≡ halve s
unfolding replace_from starts_with halve
replace-halve [] = refl
replace-halve (c ∷ []) = ground arith
replace-halve (c ∷ d ∷ s) = ground (arith, replace-halve s, replace-halve (d ∷ s))

squeeze-halve : (s : Text) (after : Bool) → squeeze after (halve s) ≡ squeeze after s
unfolding squeeze halve
squeeze-halve [] after = refl
squeeze-halve (c ∷ []) after = refl
squeeze-halve (c ∷ d ∷ s) after =
    ground
      (arith, squeeze-halve s true, squeeze-halve (d ∷ s) true, squeeze-halve (d ∷ s) (c == b'/'))

length-halve-le : (s : Text) → length (halve s) ≤ length s
unfolding halve
length-halve-le [] = omega arith
length-halve-le (c ∷ []) = omega arith
length-halve-le (c ∷ d ∷ s) = ground (arith, length-halve-le s, length-halve-le (d ∷ s))

length-halve-lt : (s : Text) → contains (codes "//") s ≡ true → length (halve s) < length s
unfolding halve contains starts_with
length-halve-lt [] h = cc
length-halve-lt (c ∷ []) h = ground arith
length-halve-lt (c ∷ d ∷ s) h = ground (arith, length-halve-le s, length-halve-lt (d ∷ s))

squeeze-single :
    (s : Text) (after : Bool)
    → contains (codes "//") s ≡ false
    → (after && starts_with (codes "/") s) ≡ false
    → squeeze after s ≡ s
unfolding squeeze contains starts_with
squeeze-single [] after h k = refl
squeeze-single (c ∷ s) after h k = ground (arith, squeeze-single s (c == b'/'))

collapse-squeeze : (fuel : ℕ) (s : Text) → length s < fuel → collapse fuel s ≡ squeeze false s
unfolding collapse replace
collapse-squeeze zero s h = elim h [ ]
collapse-squeeze (suc fuel) s h = elim (Bool-cases (contains (codes "//") s)) [
  | inl more ↦
      rw (more, replace-halve)
        (collapse-squeeze fuel (halve s) (omega (arith, length-halve-lt s more))
          ∙ squeeze-halve s false)
  | inr done ↦ rw done (sym (squeeze-single s false done refl))
]

-- The loop over double slashes ends, and what it leaves is the path, with every backslash a slash,
-- less each slash after a slash.
pub normalize_path-squeeze :
    (input : Text)
    → normalize_path input ≡ replace (codes "/./") (codes "/") (squeeze false (map slash input))
unfolding normalize_path
normalize_path-squeeze input =
    ap (replace (codes "/./") (codes "/"))
      (collapse-squeeze (suc (length (map slash input))) (map slash input) (omega arith))

replace-missing : (from to s : Text) → contains from s ≡ false → replace_from from to 0 s ≡ s
unfolding replace_from contains
replace-missing from to [] h = refl
replace-missing from to (c ∷ s) h = ground (arith, replace-missing from to s)

slash-missing : (s : Text) → any (λ c. c == b'\\') s ≡ false → map slash s ≡ s
unfolding slash
slash-missing [] h = refl
slash-missing (c ∷ s) h = ground (arith, slash-missing s)

-- A path without a backslash, a double slash or `/./` is left as it is, whatever its `..`.
pub normalize_path_unchanged :
    (input : Text)
    → any (λ c. c == b'\\') input ≡ false
    → contains (codes "//") input ≡ false
    → contains (codes "/./") input ≡ false
    → normalize_path input ≡ input
unfolding replace
normalize_path_unchanged input h k l =
    normalize_path-squeeze input
    ∙ rw (slash-missing input h, squeeze-single input false k refl)
        (replace-missing (codes "/./") (codes "/") input l)
