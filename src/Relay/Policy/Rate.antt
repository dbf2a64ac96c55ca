-- ===== src/Relay/Policy/Rate.antt =====
-- Runs of sends of one domain, and the hourly limit.
use serverwall.Base.{
  ℕ, ◌<◌, ◌≤◌, ◌≡◌, refl, ◌∙◌, ap, Bool, true, false, List, [], ◌∷◌, ◌++◌, arith, length,
  length-append, leb, if_both,
}
use serverwall.Relay.Policy.{recent, record_send}

recent-++ : (now : ℕ) (xs ys : List ℕ) → recent now (xs ++ ys) ≡ recent now xs ++ recent now ys
unfolding recent
recent-++ now [] ys = refl
recent-++ now (x ∷ xs) ys = ground (arith, recent-++ now xs ys)

-- Purging twice is purging once, later.
recent-recent :
    (early late : ℕ) (xs : List ℕ) → early ≤ late → recent late (recent early xs) ≡ recent late xs
unfolding recent
recent-recent early late [] h = refl
recent-recent early late (x ∷ xs) h = ground (arith, recent-recent early late xs h)

recent-le :
    (early late : ℕ) (xs : List ℕ)
    → early ≤ late
    → length (recent late xs) ≤ length (recent early xs)
unfolding recent
recent-le early late [] h = omega arith
recent-le early late (x ∷ xs) h = ground (arith, recent-le early late xs h)

recent_one : (now x : ℕ) → length (recent now (x ∷ [])) ≤ 1
unfolding recent
recent_one now x = ground arith

-- A run of sends at the given instants: the entries and all sends that were let through.
after : Bool → ℕ → List ℕ → List ℕ
after true now accepted = accepted ++ (now ∷ [])
after false now accepted = accepted

unfoldable pub sends : ℕ → List ℕ → List ℕ × List ℕ → List ℕ × List ℕ
unfolding after
sends max [] s = s
sends max (now ∷ later) (entries, accepted) =
    sends max later
      ((record_send max now entries).1, after (record_send max now entries).0 now accepted)

-- Each instant is no earlier than `t` and than those before it.
abbrev pub Ordered : ℕ → List ℕ → Type 0
Ordered t [] = Unit
Ordered t (now ∷ later) = (t ≤ now) × Ordered now later

abbrev pub last_instant : ℕ → List ℕ → ℕ
last_instant t [] = t
last_instant t (now ∷ later) = last_instant now later

-- The entries tell the sends of the last hour, now and later, and these are within the limit.
record IsLimited (max t : ℕ) (entries accepted : List ℕ) : Type 0 where
  same : (now : ℕ) → t ≤ now → recent now entries ≡ recent now accepted
  bound : length (recent t accepted) ≤ max

step-IsLimited :
    (max t now : ℕ) (entries accepted : List ℕ)
    → t ≤ now
    → IsLimited max t entries accepted
    → IsLimited max now
        (record_send max now entries).1
        (after (record_send max now entries).0 now accepted)
unfolding record_send after
step-IsLimited max t now entries accepted le h =
    if_both {A = Bool × List ℕ}
      (λ (r : Bool × List ℕ). IsLimited max now r.1 (after r.0 now accepted))
      (leb max (length (recent now entries))) _ _
      (λ full. record {
        same = λ n later. recent-recent now n entries later ∙ h.same n (omega arith);
        bound = omega (arith, recent-le t now accepted le, h.bound);
      })
      (λ room. record {
        same = λ n later.
            rw
              (
                recent-++ n (recent now entries) (now ∷ []),
                recent-++ n accepted (now ∷ []),
                recent-recent now n entries later,
                h.same n (omega arith),
              )
              refl;
        bound =
            let few : length (recent now entries) < max = ground arith in
            let sum = length-append (recent now accepted) (recent now (now ∷ [])) in
            rw (recent-++ now accepted (now ∷ []))
              (omega (arith, sum, few, recent_one now now, ap length (h.same now le)));
      })

sends-IsLimited :
    (max t : ℕ) (times entries accepted : List ℕ)
    → Ordered t times
    → IsLimited max t entries accepted
    → IsLimited max
        (last_instant t times)
        (sends max times (entries, accepted)).0
        (sends max times (entries, accepted)).1
unfolding sends
sends-IsLimited max t [] entries accepted o h = h
sends-IsLimited max t (now ∷ later) entries accepted (le, o) h =
    sends-IsLimited max now later _ _ o (step-IsLimited max t now entries accepted le h)

-- However the sends of a domain follow each other, of those that were let through no more than the
-- limit lie in the hour before the last of them, or before any later instant.
pub sends-recent :
    (max now : ℕ) (times : List ℕ)
    → Ordered 0 times
    → last_instant 0 times ≤ now
    → length (recent now (sends max times ([], [])).1) ≤ max
unfolding recent
sends-recent max now times o le =
    let h =
      sends-IsLimited max 0 times [] [] o (record { same = λ n l. refl; bound = omega arith }) in
    omega (arith, h.bound, recent-le (last_instant 0 times) now (sends max times ([], [])).1 le)
