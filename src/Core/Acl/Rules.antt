-- ===== src/Core/Acl/Rules.antt =====
-- What the path rules and the country rules decide.
use serverwall.Base.{
  ◌≡◌, refl, ◌↔◌, ◌≢◌, inl, inr, Bool, true, false, List, [], ◌∷◌, ◌++◌, Option, none, some, arith,
  All, if◌then◌else◌, ap, any, is_empty, Text, contains_text, Bool-cases,
}
use serverwall.Core.Types.{IpAddr}
use serverwall.Core.Acl.{
  AclDecision, GeoEngine, check_path, check_country, lookup_country, known_in,
}

module _ {Regex : Type 0} (is_match : Regex → Text → Bool) where
  -- The decision on a path is that of the first rule of which a pattern matches it.
  pub check_path_first :
      (rules : List (List Regex × Bool)) (path : Text) (d : AclDecision)
      → check_path is_match rules path ≡ some d
      → (before : List (List Regex × Bool)) × (patterns : List Regex) × (block : Bool)
        × (later : List (List Regex × Bool)) × (rules ≡ before ++ ((patterns, block) ∷ later))
        × All (λ r. any (λ re. is_match re path) r.0 ≡ false) before
        × (any (λ re. is_match re path) patterns ≡ true)
        × (d ≡ (if block then AclDecision.deny else AclDecision.allow))
  unfolding check_path
  check_path_first [] path d h = absurd (cc)
  check_path_first ((ps, b) ∷ rules) path d h =
      elim (Bool-cases (any (λ re. is_match re path) ps)) [
        | inl hit ↦ ([], ps, b, rules, refl, tt, hit, ground arith)
        | inr miss ↦
            let (before, qs, c, later, e, none_before, hit, decided) =
              check_path_first rules path d (rw miss at h) in
            ((ps, b) ∷ before, qs, c, later, ap (◌∷◌ (ps, b)) e, (miss, none_before), hit, decided)
      ]

  -- No rule decides on a path exactly when no pattern of any rule matches it.
  pub check_path-none :
      (rules : List (List Regex × Bool)) (path : Text)
      → (check_path is_match rules path ≡ none)
        ↔ All (λ r. any (λ re. is_match re path) r.0 ≡ false) rules
  unfolding check_path
  check_path-none [] path = (λ _. tt, λ _. refl)
  check_path-none ((ps, b) ∷ rules) path = (
    λ h. ground (arith, check_path-none rules path),
    λ h. ground (arith, check_path-none rules path),
  )

known_in_iff :
    (o : Option Text) (set : List Text)
    → (known_in o set ≡ true) ↔ ((cc : Text) × (o ≡ some cc) × (contains_text set cc ≡ true))
unfolding known_in
known_in_iff none set = (λ h. absurd (cc), λ (c, e, h). absurd (cc))
known_in_iff (some c) set = (λ h. (c, refl, h), λ (d, e, h). ground arith)

known_in_nonempty :
    (o : Option Text) (set : List Text) → known_in o set ≡ true → is_empty set ≡ false
unfolding known_in
known_in_nonempty none set h = absurd (cc)
known_in_nonempty (some c) [] h = absurd (cc)
known_in_nonempty (some c) (d ∷ set) h = refl

module _ (country_of : IpAddr → Option Text) where
  -- With a list of allowed countries an address is allowed exactly when its country is known and
  -- listed: one of unknown country is denied. Without that list an address is denied exactly when
  -- its country is known and blocked.
  pub check_country_lem :
      (g : GeoEngine) (ip : IpAddr)
      → (g.allow_countries ≢ []
          → (check_country country_of g ip ≡ AclDecision.allow) ↔ (
              (cc : Text) × (lookup_country country_of ip ≡ some cc)
              × (contains_text g.allow_countries cc ≡ true)))
        × (g.allow_countries ≡ []
            → (check_country country_of g ip ≡ AclDecision.deny) ↔ (
                (cc : Text) × (lookup_country country_of ip ≡ some cc)
                × (contains_text g.block_countries cc ≡ true)))
  unfolding check_country
  check_country_lem g ip =
      let (to, from) = known_in_iff (lookup_country country_of ip) g.allow_countries in
      let (bto, bfrom) = known_in_iff (lookup_country country_of ip) g.block_countries in
      (
        λ h. (λ a. to (ground arith), λ k. ground (arith, from k)),
        λ h. (
          λ a. bto (ground arith),
          λ k.
              let listed =
                known_in_nonempty (lookup_country country_of ip) g.block_countries (bfrom k) in
              ground (arith, bfrom k),
        ),
      )
