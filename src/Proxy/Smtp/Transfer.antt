-- ===== src/Proxy/Smtp/Transfer.antt =====
-- serverwall-proxy/src/proxy/smtp_proxy.rs, the end of `forward_to_backend`: what it writes after the
-- backend's answer to DATA. The backend reads lines and ends the data by the rule of `read_data`.
use mathlib.Core.List.{append-nil, append_assoc}
use serverwall.Base.{
  ℕ, ◌≡◌, refl, ap, false, List, [], ◌∷◌, ◌++◌, arith, if◌then◌else◌, Text, codes, starts_with, All,
  ◌==◌,
}
use serverwall.Proxy.Smtp.{is_end, unstuff, read_data}

-- Texts one after the other.
abbrev pub joined : List Text → Text
joined [] = []
joined (l ∷ ls) = l ++ joined ls

-- The header lines, the message, the end of the data.
unfoldable pub transfer : List Text → Text → Text
transfer headers message = joined headers ++ (message ++ codes "\r\n.\r\n")

-- `read_line` until the text is used up: a line keeps its line break.
first_line : ℕ → List Text → List Text
first_line c [] = (c ∷ []) ∷ []
first_line c (l ∷ ls) = (c ∷ l) ∷ ls

unfoldable pub split_lines : Text → List Text
unfolding first_line
split_lines [] = []
split_lines (c ∷ cs) =
    let rest = split_lines cs in if c == 10 then (c ∷ []) ∷ rest else first_line c rest

-- One line with its line break.
abbrev pub IsLine : Text → Type 0
IsLine [] = ⊥
IsLine (c ∷ []) = c ≡ 10
IsLine (c ∷ (d ∷ t)) = (c == 10 ≡ false) × IsLine (d ∷ t)

-- A line that does not start with a dot.
abbrev pub IsPlain : Text → Type 0
IsPlain l = IsLine l × (starts_with (codes ".") l ≡ false)

split_lines-line : (l rest : Text) → IsLine l → split_lines (l ++ rest) ≡ l ∷ split_lines rest
unfolding split_lines
split_lines-line [] rest h = elim h [ ]
split_lines-line (c ∷ []) rest h = rw h refl
split_lines-line (c ∷ (d ∷ t)) rest (h, k) = rw (h, split_lines-line (d ∷ t) rest k) refl

split_lines-joined :
    (ls : List Text) (rest : Text)
    → All IsPlain ls
    → split_lines (joined ls ++ rest) ≡ ls ++ split_lines rest
split_lines-joined [] rest h = refl
split_lines-joined (l ∷ ls) rest ((line, plain), later) =
    rw (append_assoc l (joined ls) rest, split_lines-line l (joined ls ++ rest) line)
      (ap (◌∷◌ l) (split_lines-joined ls rest later))

plain_end : (l : Text) → starts_with (codes ".") l ≡ false → is_end l ≡ false
unfolding is_end starts_with
plain_end [] h = refl
plain_end (c ∷ t) h = ground arith

plain_unstuff : (l : Text) → starts_with (codes ".") l ≡ false → unstuff l ≡ l
unfolding unstuff starts_with
plain_unstuff [] h = refl
plain_unstuff (c ∷ []) h = ground arith
plain_unstuff (c ∷ (d ∷ t)) h = ground arith

read_data-plain :
    (ls rest : List Text)
    → All IsPlain ls
    → ((read_data (ls ++ rest)).0 ≡ joined ls ++ (read_data rest).0)
      × ((read_data (ls ++ rest)).1 ≡ (read_data rest).1)
unfolding read_data
read_data-plain [] rest h = (refl, refl)
read_data-plain (l ∷ ls) rest ((line, plain), later) =
    let (body, left) = read_data-plain ls rest later in
    (
      rw
          (
            plain_end l plain,
            plain_unstuff l plain,
            body,
            append_assoc l (joined ls) (read_data rest).0,
          )
          refl,
      rw (plain_end l plain, left) refl,
    )

-- What the backend reads of a message that begins with plain lines.
backend_reads :
    (headers lines : List Text) (m : Text)
    → All IsPlain headers
    → All IsPlain lines
    → let read = read_data (split_lines (transfer headers (joined lines ++ m))) in
      let left = read_data (split_lines (m ++ codes "\r\n.\r\n")) in
      (read.0 ≡ joined headers ++ (joined lines ++ left.0)) × (read.1 ≡ left.1)
unfolding transfer
backend_reads headers lines m h k =
    let rest = split_lines (m ++ codes "\r\n.\r\n") in
    let (body, left) = read_data-plain headers (lines ++ rest) h in
    let (body', left') = read_data-plain lines rest k in
    rw
      (
        append_assoc (joined lines) m (codes "\r\n.\r\n"),
        split_lines-joined headers (joined lines ++ (m ++ codes "\r\n.\r\n")) h,
        split_lines-joined lines (m ++ codes "\r\n.\r\n") k,
        body,
        left,
        body',
        left',
      )
      (refl, refl)

-- A message all lines of which are complete and start with no dot reaches the backend whole, after
-- the header lines and with one line break more, and the backend reads nothing after it.
pub transfer-plain :
    (headers lines : List Text)
    → All IsPlain headers
    → All IsPlain lines
    → let read =
        read_data (split_lines (transfer headers (read_data (lines ++ (codes ".\r\n" ∷ []))).0)) in
      (read.0 ≡ joined headers ++ (joined lines ++ codes "\r\n")) × (read.1 ≡ [])
unfolding split_lines read_data is_end unstuff starts_with
transfer-plain headers lines h k =
    let (body, left) = read_data-plain lines (codes ".\r\n" ∷ []) k in
    rw body (backend_reads headers lines [] h k)

-- The doubled dot of a line that consists of two dots is removed when the message is received and
-- not put back, so at the backend the message ends there, if the header lines and the lines before it
-- are complete and start with no dot, and what follows it in the message is what the backend reads
-- next, as commands.
pub transfer-dots :
    (headers before after : List Text)
    → All IsPlain headers
    → All IsPlain before
    → let read =
        read_data
          (split_lines (transfer headers (read_data (before ++ (codes "..\r\n" ∷ after))).0)) in
      (read.0 ≡ joined headers ++ joined before)
      × (read.1 ≡ split_lines ((read_data after).0 ++ codes "\r\n.\r\n"))
unfolding split_lines read_data is_end unstuff starts_with
transfer-dots headers before after h k =
    let (body, left) = read_data-plain before (codes "..\r\n" ∷ after) k in
    let (all, rest) = backend_reads headers before (codes ".\r\n" ++ (read_data after).0) h k in
    rw (body) (rw (append-nil (joined before)) at all, rest)
