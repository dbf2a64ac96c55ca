-- ===== src/Relay/Receiver/Admission/Sessions.antt =====
-- The whole session of the receiver.
use serverwall.Base.{
  ℕ, zero, suc, ◌<◌, ◌≤◌, ◌≡◌, refl, inl, inr, Bool, true, false, List, [], ◌∷◌, Option, none, some,
  arith, Text, last_part, length, Bool-cases, if_both, is_empty,
}
use serverwall.Core.Smtp.{
  SmtpCommand, ehlo, helo, mail_from, rcpt_to, begin_data, quit, rset, parse_command,
}
use serverwall.Relay.Spool.{Spool}
use serverwall.Relay.Policy.{check}
use serverwall.Relay.Receiver.{
  Env, Session, SessionState, connected, greeted, in_mail_from, in_rcpt_to, Next, again, done, say,
  extract_address, is_end, unstuff, with_line, read_message, on_rcpt_to, data_from, data_in, handle,
  go_on, command_loop, serve,
}
use serverwall.Relay.Receiver.Admission.{
  Admissible, StateOk, Admitted, IsOk, say-IsOk, on_mail_from-IsOk, rcpt_in-IsOk, greeted-IsOk,
  judged-IsOk,
}

with_line-le :
    (line : Text) (r : Option (Text × List Text)) (n : ℕ) (message : Text) (rest : List Text)
    → ((m : Text) → r ≡ some (m, rest) → length rest ≤ n)
    → with_line line r ≡ some (message, rest)
    → length rest ≤ n
unfolding with_line
with_line-le line none n message rest ih h = absurd (cc)
with_line-le line (some (m, left)) n message rest ih h =
    let same : left ≡ rest = cc in ih m (rw same refl)

read_message-le :
    (lines : List Text) (message : Text) (rest : List Text)
    → read_message lines ≡ some (message, rest)
    → length rest ≤ length lines
unfolding read_message
read_message-le [] message rest h = absurd (cc)
read_message-le (line ∷ lines) message rest h = elim (Bool-cases (is_end line)) [
  | inl e ↦ ground arith
  | inr e ↦
      let shorter =
        with_line-le (unstuff line) (read_message lines) (length lines) message rest
          (λ m k. read_message-le lines m rest k) (rw (e, read_message) at h) in
      omega arith
]

module _ (env : Env) (before : Spool) where
  -- A command leaves no more lines than it was given.
  abbrev NextOk : ℕ → Next → Type 0
  NextOk n (again s rest) = IsOk env before s × (length rest ≤ n)
  NextOk n (done s) = IsOk env before s

  data_from-NextOk :
      (sender : Text) (rcpts : List Text) (s : Session) (n : ℕ) (r : Option (Text × List Text))
      → ((message : Text) (rest : List Text) → r ≡ some (message, rest) → length rest ≤ n)
      → Admissible env before sender rcpts
      → IsOk env before s
      → NextOk n (data_from env sender rcpts s r)
  unfolding data_from
  data_from-NextOk sender rcpts s n none le fine h = h
  data_from-NextOk sender rcpts s n (some (message, rest)) le fine h =
      let (o, counters) =
        check env.policy (env.clock s.handled) (last_part b'@' sender) (length rcpts) message
          s.counters in
      let k = judged-IsOk env before sender rcpts message o counters s fine h in
      (record { state = k.state; spool = k.spool }, le message rest refl)

  data_in-NextOk :
      (t : SessionState) (lines : List Text) (s : Session)
      → StateOk env before t
      → IsOk env before s
      → NextOk (length lines) (data_in env t lines s)
  unfolding data_in
  data_in-NextOk (in_rcpt_to sender rcpts) lines s ok h =
      if_both {A = Next} (NextOk (length lines)) (is_empty rcpts) _ _
        (λ _. (say-IsOk env before _ s h, omega arith))
        (λ _.
          data_from-NextOk sender rcpts _ (length lines) (read_message lines)
            (read_message-le lines) ok (say-IsOk env before _ s h))
  data_in-NextOk connected lines s ok h = (say-IsOk env before _ s h, omega arith)
  data_in-NextOk greeted lines s ok h = (say-IsOk env before _ s h, omega arith)
  data_in-NextOk (in_mail_from sender) lines s ok h = (say-IsOk env before _ s h, omega arith)

  handle-NextOk :
      (c : SmtpCommand) (lines : List Text) (s : Session)
      → IsOk env before s
      → NextOk (length lines) (handle env c lines s)
  unfolding handle on_rcpt_to
  handle-NextOk (ehlo d) lines s h = (greeted-IsOk env before _ s h, omega arith)
  handle-NextOk (helo d) lines s h = (greeted-IsOk env before _ s h, omega arith)
  handle-NextOk (mail_from addr) lines s h = (on_mail_from-IsOk env before addr s h, omega arith)
  handle-NextOk (rcpt_to addr) lines s h =
      (rcpt_in-IsOk env before s.state (extract_address addr) s h.state h, omega arith)
  handle-NextOk begin_data lines s h = data_in-NextOk s.state lines s h.state h
  handle-NextOk rset lines s h = (greeted-IsOk env before _ s h, omega arith)
  handle-NextOk quit lines s h = say-IsOk env before _ s h
  handle-NextOk _ lines s h = (say-IsOk env before _ s h, omega arith)

  go_on-IsOk :
      (n : ℕ) (next : Next) (loop : List Text → Session → Option Session)
      → NextOk n next
      → ((rest : List Text) (s : Session)
          → length rest ≤ n
          → IsOk env before s
          → (t : Session) × (loop rest s ≡ some t) × IsOk env before t)
      → (t : Session) × (go_on next loop ≡ some t) × IsOk env before t
  go_on-IsOk n (again s rest) loop (h, le) k = k rest s le h
  go_on-IsOk n (done s) loop h k = (s, refl, h)

  loop-IsOk :
      (fuel : ℕ) (lines : List Text) (s : Session)
      → length lines < fuel
      → IsOk env before s
      → (t : Session) × (command_loop env fuel lines s ≡ some t) × IsOk env before t
  unfolding command_loop
  loop-IsOk zero lines s le h = elim le [ ]
  loop-IsOk (suc fuel) [] s le h = (s, refl, h)
  loop-IsOk (suc fuel) (line ∷ lines) s le h =
      go_on-IsOk (length lines) _ (command_loop env fuel)
        (handle-NextOk (parse_command line) lines s h)
        (λ rest t k ok. loop-IsOk fuel rest t (omega arith) ok)

-- Every session of the receiver ends, and each message in the spool after it was there before or has
-- a sender of an allowed domain and between one recipient and the limit. A peer that is not trusted,
-- or that has to use TLS first, adds nothing.
pub serve-Admitted :
    (env : Env) (lines : List Text) (sp : Spool) (counters : List (Text × List ℕ))
    → ((t : Session) × (serve env true false lines sp counters ≡ some t) × Admitted env sp t.spool)
      × ((require_tls : Bool)
          → (t : Session) × (serve env false require_tls lines sp counters ≡ some t)
            × (t.spool ≡ sp))
      × ((t : Session) × (serve env true true lines sp counters ≡ some t) × (t.spool ≡ sp))
unfolding serve say
serve-Admitted env lines sp counters =
    let (t, e, ok) =
      loop-IsOk env sp (suc (length lines)) lines _ (omega arith)
        (record { state = tt; spool = λ id q message h. inl h }) in
    ((t, e, ok.spool), (λ require_tls. (_, refl, refl)), (_, refl, refl))
