-- ===== src/Antispam/RateLimit/Windows.antt =====
-- serverwall-antispam/src/predata/rate_limit.rs: how many instants of a window are recent after
-- another one is recorded.
use serverwall.Base.{
  ℕ, ◌+◌, ◌-◌, ◌≤◌, ◌≡◌, refl, ◌∙◌, ap, sym, List, [], ◌∷◌, ◌++◌, Option, some, Bool, true, false,
  ◌&&◌, if◌then◌else◌, ltb, Bool-cases, inl, inr, retain, length, length-append, get, insert, Text,
  text_eq, text_eq_iff, arith,
}
use serverwall.Antispam.RateLimit.{
  Window, WindowMap, record_at, count_at, entry, or_new_window, touch,
}

if_twice :
    {A : Type 0} (x y z : A) (b : Bool)
    → (if b then x else z) ≡ (if b then x else (if b then y else z))
if_twice x y z true = refl
if_twice x y z false = refl

if_swapped :
    {A : Type 0} (x y z : A) (b c : Bool)
    → (b ≡ true → c ≡ true → ⊥)
    → (if b then y else (if c then x else z)) ≡ (if c then x else (if b then y else z))
if_swapped x y z true true h = absurd (h refl refl)
if_swapped x y z true false h = refl
if_swapped x y z false true h = refl
if_swapped x y z false false h = refl

-- A text is not equal to two texts that differ.
apart :
    (key other k : Text)
    → text_eq key k ≡ false
    → text_eq other k ≡ true
    → text_eq other key ≡ true
    → ⊥
apart key other k further i j =
    let e = sym ((text_eq_iff other key).0 j) ∙ (text_eq_iff other k).0 i in
    let same = (text_eq_iff key k).1 e in cc

or_new_window_if :
    (b : Bool) (ts : Window) (o : Option Window)
    → or_new_window (if b then some ts else o) ≡ (if b then ts else or_new_window o)
unfolding or_new_window
or_new_window_if true ts o = refl
or_new_window_if false ts o = refl

entry-cons :
    (other k : Text) (ts : Window) (m : WindowMap)
    → entry other ((k, ts) ∷ m) ≡ (if text_eq other k then ts else entry other m)
unfolding entry get
entry-cons other k ts m = or_new_window_if (text_eq other k) ts (get other m)

entry-insert :
    (key other : Text) (ts : Window) (m : WindowMap)
    → entry other (insert key ts m) ≡ (if text_eq other key then ts else entry other m)
unfolding insert
entry-insert key other ts [] = entry-cons other key ts []
entry-insert key other ts ((k, old) ∷ m) = elim (Bool-cases (text_eq key k)) [
  | inl here ↦
      let e = (text_eq_iff key k).0 here in
      rw (here, entry-cons other k ts m, entry-cons other k old m, e)
        (if_twice _ _ _ (text_eq other k))
  | inr further ↦
      rw
        (
          further,
          entry-cons other k old (insert key ts m),
          entry-cons other k old m,
          entry-insert key other ts m,
        )
        (if_swapped _ _ _ (text_eq other k) (text_eq other key)
          (λ i j. apart key other k further i j))
]

-- What is recorded at an earlier instant and lives now.
module _ (now window at : ℕ) (earlier : at ≤ now) where
  count_at-pruned :
      (ts : Window)
      → count_at now window (retain (λ t. ltb (at - t) window) ts) ≡ count_at now window ts
  unfolding count_at
  count_at-pruned [] = refl
  count_at-pruned (t ∷ ts) = ground (arith, count_at-pruned ts)

retain-append :
    {A : Type 0} (p : A → Bool) (xs ys : List A) → retain p (xs ++ ys) ≡ retain p xs ++ retain p ys
retain-append p [] ys = refl
retain-append p (x ∷ xs) ys = ground (arith, retain-append p xs ys)

abbrev pub one_if : Bool → ℕ
one_if b = if b then 1 else 0

one_kept :
    (now window t : ℕ)
    → length (retain (λ x. ltb (now - x) window) (t ∷ [])) ≡ one_if (ltb (now - t) window)
one_kept now window t = elim (Bool-cases (ltb (now - t) window)) [
  | inl live ↦ rw live
  | inr dead ↦ rw dead
]

count_at-append :
    (now window : ℕ) (ts : Window) (t : ℕ)
    → count_at now window (ts ++ (t ∷ [])) ≡ count_at now window ts + one_if (ltb (now - t) window)
unfolding count_at
count_at-append now window ts t =
    ap length (retain-append (λ x. ltb (now - x) window) ts (t ∷ []))
    ∙ (length-append (retain (λ x. ltb (now - x) window) ts) _
        ∙ ap (λ n. count_at now window ts + n) (one_kept now window t))

-- An instant recorded under a key adds one to the recent ones of this key, if it is recent itself.
pub count_at-touch :
    (now window at : ℕ) (key k : Text) (m : WindowMap)
    → at ≤ now
    → count_at now window (entry key (touch at window k m))
      ≡ count_at now window (entry key m) + one_if (text_eq key k && ltb (now - at) window)
unfolding touch record_at
count_at-touch now window at key k m h = elim (Bool-cases (text_eq key k)) [
  | inl same ↦
      let e = (text_eq_iff key k).0 same in
      rw (entry-insert k key _ m, same, count_at-append, count_at-pruned now window at h, e)
  | inr differs ↦ rw (entry-insert k key _ m, differs) (omega arith)
]
