-- ===== src/Relay/Policy.antt =====
-- serverwall-relay/src/outbound_policy: the limits on what a trusted host may send. An error is the
-- violation instead of its text. Instants are seconds; the map of counters is a list of the entries
-- by domain, and `now` is the clock. A message is taken to be valid text.
pub mod Rate
use serverwall.Base.{
  ℕ, suc, ◌+◌, Bool, true, false, ◌||◌, List, [], ◌∷◌, ◌++◌, Option, none, some, if◌then◌else◌,
  Text, codes, text_eq, to_lowercase, contains, contains_text, is_empty, length, retain, ltb, leb,
  map, any, ◌==◌, starts_with,
}
use serverwall.Relay.Spool.Files.{lookup, write}

pub data Violation : Type 0 where
  domain_not_allowed rate_exceeded : Text → Violation
  too_many_recipients too_large : ℕ → ℕ → Violation
  dangerous_attachment suspicious_url : Text → Violation

pub record ContentPolicy : Type 0 where
  pub dangerous_extensions : List Text
  pub check_urls : Bool
  pub max_message_size : ℕ

pub record Policy : Type 0 where
  pub allowed_domains : List Text
  pub max_recipients : ℕ
  pub max_per_hour : ℕ
  pub content : ContentPolicy

-- `none` is `Ok(())`.
unfoldable pub check_alignment : List Text → Text → Option Violation
check_alignment allowed domain =
    if is_empty allowed
    then none
    else if contains_text allowed (to_lowercase domain)
    then none
    else some (domain_not_allowed domain)

unfoldable pub check_recipients : ℕ → ℕ → Option Violation
check_recipients max count = if ltb max count then some (too_many_recipients count max) else none

entries_of : Option (List ℕ) → List ℕ
entries_of none = []
entries_of (some entries) = entries

-- The sends of the last hour.
unfoldable pub recent : ℕ → List ℕ → List ℕ
recent now entries = retain (λ ts. ltb now (ts + 3600)) entries

-- Purged, with this send if there is room.
unfoldable pub record_send : ℕ → ℕ → List ℕ → Bool × List ℕ
unfolding recent
record_send max now entries =
    if leb max (length (recent now entries))
    then (false, recent now entries)
    else (true, recent now entries ++ (now ∷ []))

rate_result : Text → List (Text × List ℕ) → Bool × List ℕ → Option Violation × List (Text × List ℕ)
rate_result domain counters (true, entries) = (none, write (to_lowercase domain) entries counters)
rate_result domain counters (false, entries) =
    (some (rate_exceeded domain), write (to_lowercase domain) entries counters)

unfoldable pub check_rate :
    ℕ → ℕ → Text → List (Text × List ℕ) → Option Violation × List (Text × List ℕ)
unfolding entries_of rate_result record_send
check_rate max now domain counters =
    rate_result domain counters
      (record_send max now (entries_of (lookup (to_lowercase domain) counters)))

-- `lines()`, a carriage return at the end of a line included.
lines_of : Text → List Text
lines_of [] = []
lines_of (c ∷ cs) =
    let rest = lines_of cs in
    if c == 10 then [] ∷ rest else elim rest [ [] ↦ (c ∷ []) ∷ [] | l ∷ ls ↦ (c ∷ l) ∷ ls ]

first_extension : List Text → Text → Option Text
first_extension [] line = none
first_extension (ext ∷ exts) line =
    if contains (codes "." ++ ext) line then some ext else first_extension exts line

first_attachment : List Text → List Text → Option Text
unfolding first_extension
first_attachment exts [] = none
first_attachment exts (line ∷ lines) =
    let rest = first_attachment exts lines in
    if contains (codes "filename=") (to_lowercase line)
      || contains (codes "name=") (to_lowercase line)
    then (elim (first_extension exts (to_lowercase line)) [ some ext ↦ some ext | none ↦ rest ])
    else rest

first_pattern : List Text → Text → Option Text
first_pattern [] message = none
first_pattern (p ∷ ps) message = if contains p message then some p else first_pattern ps message

abbrev suspicious_patterns : List Text
suspicious_patterns =
    codes "data:text/html"
    ∷ codes "javascript:"
    ∷ codes ".tk/"
    ∷ codes ".ml/"
    ∷ codes "bit.ly/"
    ∷ []

url_violation : Bool → Text → Option Violation
unfolding first_pattern
url_violation false message = none
url_violation true message = elim (first_pattern suspicious_patterns message) [
  | none ↦ none
  | some p ↦ some (suspicious_url p)
]

unfoldable pub check_content : ContentPolicy → Text → Option Violation
unfolding first_attachment lines_of url_violation
check_content c message =
    if ltb c.max_message_size (length message)
    then some (too_large (length message) c.max_message_size)
    else elim (first_attachment c.dangerous_extensions (lines_of message)) [
      | some ext ↦ some (dangerous_attachment ext)
      | none ↦ url_violation c.check_urls message
    ]

after_rate :
    Option Violation × List (Text × List ℕ)
    → Option Violation
    → Option Violation × List (Text × List ℕ)
after_rate (some v, counters) content = (some v, counters)
after_rate (none, counters) content = (content, counters)

-- The checks in their order; the counter of the domain is taken up even if the content is refused.
unfoldable pub check :
    Policy → ℕ → Text → ℕ → Text → List (Text × List ℕ) → Option Violation × List (Text × List ℕ)
unfolding check_alignment check_recipients check_rate check_content after_rate
check p now domain count message counters = elim (check_alignment p.allowed_domains domain) [
  | some v ↦ (some v, counters)
  | none ↦ elim (check_recipients p.max_recipients count) [
    | some v ↦ (some v, counters)
    | none ↦
        after_rate (check_rate p.max_per_hour now domain counters) (check_content p.content message)
  ]
]
