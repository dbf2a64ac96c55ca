-- ===== src/Proxy/Smtp/Forward.antt =====
-- serverwall-proxy/src/proxy/smtp_proxy.rs: `forward_to_backend`, the dialogue with the backend. The
-- backend is the list of the lines that it sends, which ends where it closes the connection; a
-- failing write ends the Rust function early.
pub mod Answers
use serverwall.Base.{
  ℕ, zero, suc, ◌+◌, ◌-◌, ◌≡◌, refl, ◌∙◌, ap, sym, List, [], ◌∷◌, ◌++◌, Option, none, some, Bool,
  true, false, ◌&&◌, ◌||◌, if◌then◌else◌, ltb, leb, ◌==◌, and_then, length, All, Text, codes,
  byte_len, char_len, map, arith,
}
use serverwall.Core.Types.{IpAddr}
use serverwall.Antispam.Score.{SpamVerdict, SpamReport}
use serverwall.Antispam.Headers.{auth_value, build_headers}
use serverwall.Proxy.Smtp.Transfer.{transfer}

pub record SmtpHeadersConfig : Type 0 where
  pub add_received : Bool
  pub x_forwarded_for : Bool

-- The lines that the backend still sends, what was written to it, the bytes read.
pub record Dialogue : Type 0 where
  pub replies : List Text
  pub written : List Text
  pub bytes_from_backend : ℕ

-- At the end of the stream `read_line` gives an empty text.
read_from : List Text → Dialogue → Text × Dialogue
read_from [] d = ([], d)
read_from (line ∷ lines) d =
    (line, record d { replies = lines; bytes_from_backend = d.bytes_from_backend + byte_len line })

unfoldable pub read_line : Dialogue → Text × Dialogue
unfolding read_from
read_line d = read_from d.replies d

write_all : Text → Dialogue → Dialogue
write_all text d = record d { written = d.written ++ (text ∷ []) }

-- Whether the byte at this index is a space.
space_at : ℕ → Text → Bool
space_at i [] = false
space_at i (c ∷ s) =
    let later = space_at (i - char_len c) s in
    if i == 0 then c == b' ' else if ltb i (char_len c) then false else later

-- The last line of an answer of several lines, or the end of the stream.
unfoldable pub is_last : Text → Bool
unfolding space_at
is_last line = byte_len line == 0 || (leb 4 (byte_len line) && space_at 3 line)

ehlo_from : List Text → Dialogue → Dialogue
unfolding is_last
ehlo_from [] d = record d { replies = [] }
ehlo_from (line ∷ lines) d =
    let next : Dialogue = record d {
      replies = lines;
      bytes_from_backend = d.bytes_from_backend + byte_len line;
    } in
    let more = ehlo_from lines next in if is_last line then next else more

read_ehlo : Dialogue → Dialogue
unfolding ehlo_from
read_ehlo d = ehlo_from d.replies d

-- A command and the line that answers it, which is not looked at.
exchange : Text → Dialogue → Dialogue
unfolding write_all read_line
exchange command d = (read_line (write_all command d)).1

exchange_all : List Text → Dialogue → Dialogue
unfolding exchange
exchange_all [] d = d
exchange_all (command ∷ commands) d = exchange_all commands (exchange command d)

unfoldable pub header_line : Text × Text → Text
header_line (name, value) = name ++ (codes ": " ++ (value ++ codes "\r\n"))

mail_command : Text → Text
mail_command mail_from = codes "MAIL FROM:<" ++ (mail_from ++ codes ">\r\n")

rcpt_command : Text → Text
rcpt_command rcpt = codes "RCPT TO:<" ++ (rcpt ++ codes ">\r\n")

-- `date` is the present time as text; `show_ip` and `show_score` print an address and an `f64`.
module _ {F : Type 0} (show_ip : IpAddr → Text) (show_score : F → Text)
    (date hostname backend_tag : Text) (smtp_headers : SmtpHeadersConfig) where
  received_header : Text
  received_header =
      codes "Received: from unknown by "
      ++ (hostname ++ (codes " (id=" ++ (backend_tag ++ (codes "); " ++ date))))

  verdict_headers : SpamVerdict → SpamReport F → List (Text × Text)
  unfolding build_headers auth_value
  verdict_headers SpamVerdict.suspect report = build_headers show_score report hostname
  verdict_headers SpamVerdict.clean report =
      (codes "Authentication-Results", auth_value hostname report.auth_results) ∷ []
  verdict_headers SpamVerdict.spam report = []

  unfoldable pub injected_headers : SpamReport F → IpAddr → List (Text × Text)
  unfolding received_header verdict_headers
  injected_headers report client_ip =
      (if smtp_headers.add_received then (codes "Received", received_header) ∷ [] else [])
      ++ ((if smtp_headers.x_forwarded_for
            then (codes "X-Forwarded-For", show_ip client_ip) ∷ []
            else [])
          ++ verdict_headers report.verdict report)

  -- The dialogue with a backend that is connected: the last answer, and where the dialogue is then.
  unfoldable pub dialogue :
      Text → Text → List Text → SpamReport F → IpAddr → List Text → Text × Dialogue
  unfolding read_line write_all read_ehlo exchange exchange_all header_line injected_headers
      transfer mail_command rcpt_command
  dialogue message_data mail_from rcpt_to report client_ip replies =
      let start : Dialogue = record { replies = replies; written = []; bytes_from_backend = 0 } in
      let greeted = write_all (codes "EHLO " ++ (hostname ++ codes "\r\n")) (read_line start).1 in
      let known = exchange (mail_command mail_from) (read_ehlo greeted) in
      let addressed = exchange_all (map rcpt_command rcpt_to) known in
      let headers = map header_line (injected_headers report client_ip) in
      let sent =
        write_all (transfer headers message_data) (exchange (codes "DATA\r\n") addressed) in
      let answered = read_line sent in (answered.0, write_all (codes "QUIT\r\n") answered.1)

  -- `connect` gives the backend's lines, unless the connection fails.
  unfoldable pub forward_to_backend :
      Option (List Text) → IpAddr → Text → Text → List Text → SpamReport F → Option (Text × ℕ)
  unfolding dialogue
  forward_to_backend connect client_ip message_data mail_from rcpt_to report =
      and_then connect (λ replies.
        let (resp, d) = dialogue message_data mail_from rcpt_to report client_ip replies in
        some (resp, d.bytes_from_backend))
