-- ===== src/Waf/RateLimit/Buckets.antt =====
-- serverwall-waf/src/rate_limit/mod.rs: keys do not disturb each other, and what `cleanup` forgets.
use serverwall.Base.{
  ℕ, ◌≡◌, ◌≢◌, refl, List, [], ◌∷◌, none, Bool, true, false, Text, text_eq, text_eq_iff, get,
  insert, retain, All, Bool-cases, inl, inr, arith, sym, ◌∙◌,
}
use serverwall.Waf.RateLimit.{Float, TokenBucket, RateLimiter, check_key, is_recent, cleanup}

text_eq-false : (s t : Text) → s ≢ t → text_eq s t ≡ false
text_eq-false s t h = elim (Bool-cases (text_eq s t)) [
  | inl same ↦ absurd (h ((text_eq_iff s t).0 same))
  | inr other ↦ other
]

get-insert_ne :
    {A : Type 0} (k k' : Text) (v : A) (m : List (Text × A))
    → k ≢ k'
    → get k' (insert k v m) ≡ get k' m
unfolding get insert
get-insert_ne k k' v [] h = rw (text_eq-false k' k (λ e. h (sym e)))
get-insert_ne k k' v ((key, old) ∷ m) h = elim (Bool-cases (text_eq k key)) [
  | inl same ↦
      let e = (text_eq_iff k key).0 same in rw (same, text_eq-false k' key (λ d. h (e ∙ sym d)))
  | inr other ↦ rw other (ground (arith, get-insert_ne k k' v m h))
]

get-retain_none :
    {A : Type 0} (p : Text × A → Bool) (k : Text) (m : List (Text × A))
    → All (λ (e : Text × A). text_eq k e.0 ≡ true → p e ≡ false) m
    → get k (retain p m) ≡ none
unfolding get
get-retain_none p k [] h = refl
get-retain_none p k (e ∷ m) (h, hs) = elim (Bool-cases (p e)) [
  | inl kept ↦ rw kept (elim (Bool-cases (text_eq k e.0)) [
    | inl same ↦ absurd (let d = h same in cc)
    | inr other ↦ rw other (get-retain_none p k m hs)
  ])
  | inr dropped ↦ rw dropped (get-retain_none p k m hs)
]

module _ {F : Type 0} (f : Float F) (l : RateLimiter F) (key : Text) (now : ℕ) where
  -- A request never changes the bucket of another key.
  pub check_key-other :
      (other : Text)
      → key ≢ other
      → get other (check_key f l key now).0.buckets ≡ get other l.buckets
  unfolding check_key
  check_key-other other h = get-insert_ne key other _ l.buckets h

  -- Once `cleanup` has run, a key whose bucket was not used for 300 seconds, however empty it was and
  -- however slowly it fills, is answered as if it had made no request before.
  pub check_key-cleanup :
      (cleaned : ℕ)
      → All
          (λ (e : Text × TokenBucket F). text_eq key e.0 ≡ true → is_recent cleaned e.1 ≡ false)
          l.buckets
      → (check_key f (cleanup l cleaned) key now).1
        ≡ (check_key f (record l { buckets = [] }) key now).1
  unfolding check_key cleanup get
  check_key-cleanup cleaned h = rw (get-retain_none _ key l.buckets h)
