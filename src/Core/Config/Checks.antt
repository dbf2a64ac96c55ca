-- ===== src/Core/Config/Checks.antt =====
-- serverwall-core/src/config/loader.rs: the single checks of the validation, and what each finds.
use serverwall.Base.{
  ◌≡◌, ◌↔◌, refl, sym, ◌∙◌, List, [], ◌∷◌, Option, none, some, Bool, true, false, ◌&&◌, ◌||◌, not,
  is_empty, Text, codes, contains, contains_text, text_eq, All, arith, Option-cases, inl, inr,
}
use serverwall.Core.Config.{
  ProtocolType, FrontendConfig, BackendPoolConfig, ScannerConfig, ConfigError, ◌or_else◌, fails_if,
  requires_tls, has_tls_config, is_https, check_frontend, check_each, check_duplicates, check_host,
  check_pool, check_scanner,
}

-- No name occurs twice.
abbrev pub Distinct : List Text → Type 0
Distinct [] = Unit
Distinct (x ∷ xs) = (contains_text xs x ≡ false) × Distinct xs

pub record IsValidFrontend (pools : List Text) (f : FrontendConfig) : Type 0 where
  pub known_pool : contains_text pools f.backend_pool ≡ true
  pub tls_given : requires_tls f ≡ true → has_tls_config f ≡ true
  pub listens : is_empty f.listen ≡ false
  pub waf_on_https : f.waf_enabled ≡ true → f.protocol ≡ ProtocolType.https

pub or_else-none : (a b : Option ConfigError) → ((a or_else b) ≡ none) ↔ ((a ≡ none) × (b ≡ none))
or_else-none none b = (λ h. (refl, h), λ (_, h). h)
or_else-none (some e) b = (λ h. absurd (cc), λ (h, _). absurd (cc))

fails_if-none : (b : Bool) (e : ConfigError) → (fails_if b e ≡ none) ↔ (b ≡ false)
fails_if-none true e = (λ h. absurd (cc), λ h. absurd (cc))
fails_if-none false e = (λ _. refl, λ _. refl)

module _ {ℓ κ} {A : Type ℓ} {P : A → Type κ} (p : A → Option ConfigError) where
  pub check_each-none :
      ((x : A) → (p x ≡ none) ↔ P x) → (xs : List A) → (check_each p xs ≡ none) ↔ All P xs
  unfolding check_each
  check_each-none f [] = (λ _. tt, λ _. refl)
  check_each-none f (x ∷ xs) = (
    λ h. let (a, b) = (or_else-none _ _).0 h in ((f x).0 a, (check_each-none f xs).0 b),
    λ (a, b). (or_else-none _ _).1 ((f x).1 a, (check_each-none f xs).1 b),
  )

is_https_sound : (p : ProtocolType) → (is_https p ≡ true) → p ≡ ProtocolType.https
unfolding is_https
is_https_sound ProtocolType.https h = refl
is_https_sound ProtocolType.smtps h = absurd (cc)
is_https_sound ProtocolType.smtp_starttls h = absurd (cc)
is_https_sound ProtocolType.imaps h = absurd (cc)
is_https_sound ProtocolType.tcp h = absurd (cc)
is_https_sound ProtocolType.stratum h = absurd (cc)

is_https-eq : (p : ProtocolType) → p ≡ ProtocolType.https → is_https p ≡ true
unfolding is_https
is_https-eq p h = rw h

unless-false : (a b : Bool) → ((a && not b) ≡ false) ↔ (a ≡ true → b ≡ true)
unless-false true true = (λ _ _. refl, λ _. refl)
unless-false true false = (λ h. absurd (cc), λ h. absurd (let k = h refl in cc))
unless-false false true = (λ _ _. refl, λ _. refl)
unless-false false false = (λ _ h. absurd (cc), λ _. refl)

not-false : (b : Bool) → (not b ≡ false) ↔ (b ≡ true)
not-false true = (λ _. refl, λ _. refl)
not-false false = (λ h. absurd (cc), λ h. absurd (cc))

pub all_four :
    (a b c d : Option ConfigError)
    → ((a or_else b or_else c or_else d) ≡ none)
      ↔ ((a ≡ none) × (b ≡ none) × (c ≡ none) × (d ≡ none))
all_four none none none d = (λ h. (refl, refl, refl, h), λ (_, _, _, h). h)
all_four none none (some e) d = (λ h. absurd (cc), λ (_, _, h, _). absurd (cc))
all_four none (some e) c d = (λ h. absurd (cc), λ (_, h, _, _). absurd (cc))
all_four (some e) b c d = (λ h. absurd (cc), λ (h, _, _, _). absurd (cc))

pub check_frontend-none :
    (pools : List Text) (f : FrontendConfig)
    → (check_frontend pools f ≡ none) ↔ IsValidFrontend pools f
unfolding check_frontend
check_frontend-none pools f = (
  λ h.
      let (a, b, c, d) = (all_four _ _ _ _).0 h in
      record {
        known_pool = (not-false _).0 ((fails_if-none _ _).0 a);
        tls_given = (unless-false _ _).0 ((fails_if-none _ _).0 b);
        listens = (fails_if-none _ _).0 c;
        waf_on_https =
            λ u. is_https_sound f.protocol ((unless-false _ _).0 ((fails_if-none _ _).0 d) u);
      },
  λ v. (all_four _ _ _ _).1 (
    (fails_if-none _ _).1 ((not-false _).1 v.known_pool),
    (fails_if-none _ _).1 ((unless-false _ _).1 v.tls_given),
    (fails_if-none _ _).1 v.listens,
    (fails_if-none _ _).1 ((unless-false _ _).1 (λ u. is_https-eq f.protocol (v.waf_on_https u))),
  ),
)

text_eq_sym : (s t : Text) → text_eq s t ≡ text_eq t s
text_eq_sym [] [] = refl
text_eq_sym [] (d ∷ t) = refl
text_eq_sym (c ∷ s) [] = refl
text_eq_sym (c ∷ s) (d ∷ t) = ground (arith, text_eq_sym s t)

or-false : (a b : Bool) → ((a || b) ≡ false) ↔ ((a ≡ false) × (b ≡ false))
or-false true b = (λ h. absurd (cc), λ (h, _). absurd (cc))
or-false false b = (λ h. (refl, h), λ (_, h). h)

-- A name that is new to the set and to the names after it.
All-seen :
    (x : Text) (seen xs : List Text)
    → All (λ y. contains_text (x ∷ seen) y ≡ false) xs
      ↔ (All (λ y. contains_text seen y ≡ false) xs × (contains_text xs x ≡ false))
All-seen x seen [] = (λ _. (tt, refl), λ _. tt)
All-seen x seen (y ∷ xs) = (
  λ (h, hs).
      let (k, l) = (All-seen x seen xs).0 hs in
      let (a, b) = (or-false (text_eq y x) (contains_text seen y)).0 h in
      ((b, k), (or-false (text_eq x y) (contains_text xs x)).1 (text_eq_sym x y ∙ a, l)),
  λ ((h, hs), k).
      let (a, b) = (or-false (text_eq x y) (contains_text xs x)).0 k in
      (
        (or-false (text_eq y x) (contains_text seen y)).1 (text_eq_sym y x ∙ a, h),
        (All-seen x seen xs).1 (hs, b),
      ),
)

check_duplicates-none :
    (err : Text → ConfigError) (xs seen : List Text)
    → (check_duplicates err xs seen ≡ none)
      ↔ (All (λ x. contains_text seen x ≡ false) xs × Distinct xs)
unfolding check_duplicates
check_duplicates-none err [] seen = (λ _. (tt, tt), λ _. refl)
check_duplicates-none err (x ∷ xs) seen = (
  λ h.
      let (a, b) = (or_else-none _ _).0 h in
      let (c, d) = (check_duplicates-none err xs (x ∷ seen)).0 b in
      let (e, f) = (All-seen x seen xs).0 c in (((fails_if-none _ _).0 a, e), (f, d)),
  λ ((a, e), (f, d)). (or_else-none _ _).1 (
    (fails_if-none _ _).1 a,
    (check_duplicates-none err xs (x ∷ seen)).1 ((All-seen x seen xs).1 (e, f), d),
  ),
)

unseen : (xs : List Text) → All (λ x. contains_text [] x ≡ false) xs
unseen [] = tt
unseen (x ∷ xs) = (refl, unseen xs)

pub check_duplicates-Distinct :
    (err : Text → ConfigError) (xs : List Text) → (check_duplicates err xs [] ≡ none) ↔ Distinct xs
check_duplicates-Distinct err xs = (
  λ h. ((check_duplicates-none err xs []).0 h).1,
  λ h. (check_duplicates-none err xs []).1 (unseen xs, h),
)

pub check_pool-none :
    {B : Type 0} (p : BackendPoolConfig B) → (check_pool p ≡ none) ↔ (is_empty p.backend ≡ false)
unfolding check_pool
check_pool-none p = fails_if-none _ _

pub check_scanner-none :
    (s : ScannerConfig) → (check_scanner s ≡ none) ↔ (contains (codes "{file}") s.command ≡ true)
unfolding check_scanner
check_scanner-none s =
    (λ h. (not-false _).0 ((fails_if-none _ _).0 h), λ h. (fails_if-none _ _).1 ((not-false _).1 h))

pub check_host-none :
    {Net : Type 0} (parse_network : Text → Option Net) (host : Text)
    → (check_host parse_network host ≡ none) ↔ ((net : Net) × (parse_network host ≡ some net))
unfolding check_host
check_host-none parse_network host = elim (Option-cases (parse_network host)) [
  | inl e ↦ (
    λ h. absurd (let k = rw (e, check_host) at h in cc),
    λ (net, h). absurd (let k = sym e ∙ h in cc),
  )
  | inr (net, e) ↦ (λ _. (net, e), λ _. rw (e, check_host))
]
