-- ===== src/Relay/Receiver.antt =====
-- serverwall-relay/src/receiver.rs: the session of a trusted host. The client is the list of its
-- lines; what is sent to it is a list of replies, newest first, by what they say. The clock, the
-- identifiers of new messages, whether the spool can be written and what signing makes of a message
-- are functions of the number of messages handled before.
pub mod Admission
use serverwall.Base.{
  ℕ, suc, ◌+◌, Bool, true, false, ◌||◌, ◌&&◌, List, [], ◌∷◌, ◌++◌, Option, none, some,
  if◌then◌else◌, Text, codes, text_eq, starts_with, drop, last_part, length, is_empty, trim, not,
  ◌==◌, last?,
}
use serverwall.Core.Types.{IpAddr}
use serverwall.Core.Smtp.{
  SmtpCommand, ehlo, helo, mail_from, rcpt_to, begin_data, quit, rset, noop, start_tls, auth,
  parse_command,
}
use serverwall.Relay.Spool.{Envelope, Spool, enqueue}
use serverwall.Relay.Policy.{Policy, Violation, check, check_alignment, check_recipients}

pub data SessionState : Type 0 where
  connected greeted : SessionState
  in_mail_from : Text → SessionState
  in_rcpt_to : Text → List Text → SessionState

pub data Reply : Type 0 where
  access_denied tls_required banner capabilities bad_sequence sender_ok recipient_ok go_ahead
        internal_error plain_ok bye no_auth no_tls unrecognized :
      Reply
  refused : Violation → Reply
  queued : Text → Reply

pub record Env : Type 0 where
  pub policy : Policy
  pub clock : ℕ → ℕ
  pub new_id : ℕ → Text
  pub writable : ℕ → Bool
  pub sign : ℕ → Text → Text → Text

pub record Session : Type 0 where
  pub state : SessionState
  pub spool : Spool
  pub counters : List (Text × List ℕ)
  pub handled : ℕ
  pub replies : List Reply

pub data Next : Type 0 where
  again : Session → List Text → Next
  done : Session → Next

say : Reply → Session → Session
say r s = record s { replies = r ∷ s.replies }

-- A violation is answered and leaves the session as it is.
unless_refused : Option Violation → Session → Session → Session
unfolding say
unless_refused none s t = t
unless_refused (some v) s t = say (refused v) s

without_last : Text → Text
without_last [] = []
without_last (c ∷ []) = []
without_last (c ∷ (d ∷ t)) = c ∷ without_last (d ∷ t)

ends_with_bracket : Option ℕ → Bool
ends_with_bracket none = false
ends_with_bracket (some c) = c == b'>'

-- The address of an argument, without its angle brackets.
unfoldable pub extract_address : Text → Text
unfolding without_last ends_with_bracket
extract_address raw =
    if starts_with (codes "<") (trim raw) && ends_with_bracket (last? (trim raw))
    then without_last (drop 1 (trim raw))
    else trim raw

-- A line has its line break, if any, at its end.
is_end : Text → Bool
is_end line =
    text_eq line (codes ".\r\n") || (text_eq line (codes ".\n") || text_eq line (codes "."))

unstuff : Text → Text
unstuff line = if starts_with (codes "..") line then drop 1 line else line

with_line : Text → Option (Text × List Text) → Option (Text × List Text)
with_line line none = none
with_line line (some (message, rest)) = some (line ++ message, rest)

-- The message up to the lone dot, and the lines that are left; `none` where the client leaves early.
unfoldable pub read_message : List Text → Option (Text × List Text)
unfolding is_end unstuff with_line
read_message [] = none
read_message (line ∷ lines) =
    let more = read_message lines in
    if is_end line then some ([], lines) else with_line (unstuff line) more

takes_sender : SessionState → Bool
takes_sender connected = false
takes_sender _ = true

abbrev go_on : Next → (List Text → Session → Option Session) → Option Session
go_on (again s rest) loop = loop rest s
go_on (done s) loop = some s

module _ (env : Env) where
  unfoldable pub on_mail_from : Text → Session → Session
  unfolding takes_sender unless_refused say
  on_mail_from addr s =
      if takes_sender s.state
      then unless_refused
          (check_alignment env.policy.allowed_domains (last_part b'@' (extract_address addr))) s
          (say sender_ok (record s { state = in_mail_from (extract_address addr) }))
      else say bad_sequence s

  add_recipient : Text → List Text → Session → Session
  unfolding unless_refused say
  add_recipient sender rcpts s =
      unless_refused (check_recipients env.policy.max_recipients (length rcpts)) s
        (say recipient_ok (record s { state = in_rcpt_to sender rcpts }))

  rcpt_in : SessionState → Text → Session → Session
  unfolding add_recipient say
  rcpt_in (in_mail_from sender) recipient s = add_recipient sender (recipient ∷ []) s
  rcpt_in (in_rcpt_to sender rcpts) recipient s = add_recipient sender (rcpts ++ (recipient ∷ [])) s
  rcpt_in connected recipient s = say bad_sequence s
  rcpt_in greeted recipient s = say bad_sequence s

  unfoldable pub on_rcpt_to : Text → Session → Session
  unfolding rcpt_in
  on_rcpt_to addr s = rcpt_in s.state (extract_address addr) s

  -- The message goes to the spool.
  store : Text → List Text → Text → Session → Session
  unfolding say
  store sender rcpts message s =
      if env.writable s.handled
      then say (queued (env.new_id s.handled)) (record s {
        spool =
            enqueue (env.new_id s.handled) (env.clock s.handled)
              (record { mail_from = sender; rcpt_to = rcpts })
              (env.sign s.handled (last_part b'@' sender) message) s.spool;
        state = greeted;
      })
      else say internal_error (record s { state = greeted })

  judged : Text → List Text → Text → Option Violation × List (Text × List ℕ) → Session → Session
  unfolding store say
  judged sender rcpts message (some v, counters) s =
      say (refused v) (record s { counters = counters; state = greeted })
  judged sender rcpts message (none, counters) s =
      store sender rcpts message (record s { counters = counters })

  -- The message is read, checked and stored; the session ends where the client left early.
  data_from : Text → List Text → Session → Option (Text × List Text) → Next
  unfolding judged say
  data_from sender rcpts s none = done s
  data_from sender rcpts s (some (message, rest)) =
      let t =
        judged sender rcpts message
          (check env.policy (env.clock s.handled) (last_part b'@' sender) (length rcpts) message
            s.counters)
          s in
      again (record t { handled = s.handled + 1 }) rest

  data_in : SessionState → List Text → Session → Next
  unfolding data_from say
  data_in (in_rcpt_to sender rcpts) lines s =
      if is_empty rcpts
      then again (say bad_sequence s) lines
      else data_from sender rcpts (say go_ahead s) (read_message lines)
  data_in connected lines s = again (say bad_sequence s) lines
  data_in greeted lines s = again (say bad_sequence s) lines
  data_in (in_mail_from sender) lines s = again (say bad_sequence s) lines

  unfoldable pub handle : SmtpCommand → List Text → Session → Next
  unfolding on_mail_from on_rcpt_to data_in say
  handle (ehlo domain) lines s = again (say capabilities (record s { state = greeted })) lines
  handle (helo domain) lines s = again (say capabilities (record s { state = greeted })) lines
  handle (mail_from addr) lines s = again (on_mail_from addr s) lines
  handle (rcpt_to addr) lines s = again (on_rcpt_to addr s) lines
  handle begin_data lines s = data_in s.state lines s
  handle rset lines s = again (say plain_ok (record s { state = greeted })) lines
  handle noop lines s = again (say plain_ok s) lines
  handle quit lines s = done (say bye s)
  handle (auth x) lines s = again (say no_auth s) lines
  handle start_tls lines s = again (say no_tls s) lines
  handle _ lines s = again (say unrecognized s) lines

  -- The loop, on fuel: `none` means that it ran out.
  unfoldable pub command_loop : ℕ → List Text → Session → Option Session
  unfolding handle
  command_loop ℕ.zero lines s = none
  command_loop (suc fuel) [] s = some s
  command_loop (suc fuel) (line ∷ lines) s =
      go_on (handle (parse_command line) lines s) (command_loop fuel)

  -- The whole session of a peer that is trusted or not, with or without the demand of TLS.
  unfoldable pub serve : Bool → Bool → List Text → Spool → List (Text × List ℕ) → Option Session
  unfolding command_loop say
  serve trusted require_tls lines spool counters =
      let s : Session = record {
        state = connected;
        spool = spool;
        counters = counters;
        handled = 0;
        replies = [];
      } in
      if not trusted
      then some (say access_denied s)
      else if require_tls
      then some (say tls_required s)
      else command_loop (suc (length lines)) lines (say banner s)
