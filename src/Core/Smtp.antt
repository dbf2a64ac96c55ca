-- ===== src/Core/Smtp.antt =====
-- serverwall-core/src/proto/smtp.rs: the commands of a client and the parser of a command line.
use serverwall.Base.{
  none, some, if◌then◌else◌, drop, Text, codes, text_eq, to_uppercase, trim, strip_prefix,
  starts_with,
}

pub data SmtpCommand : Type 0 where
  ehlo : Text → SmtpCommand
  helo : Text → SmtpCommand
  mail_from : Text → SmtpCommand
  rcpt_to : Text → SmtpCommand
  begin_data : SmtpCommand
  quit : SmtpCommand
  rset : SmtpCommand
  noop : SmtpCommand
  start_tls : SmtpCommand
  auth : Text → SmtpCommand
  xclient : Text → SmtpCommand
  unknown : Text → SmtpCommand

-- The commands of one word, then those with an argument that end the chain of tests.
parse_rest : Text → Text → SmtpCommand
parse_rest trimmed upper = elim (strip_prefix (codes "AUTH ") upper) [
  | some rest ↦ auth (trim rest)
  | none ↦ elim (strip_prefix (codes "XCLIENT ") upper) [
    | some rest ↦ xclient (trim rest)
    | none ↦ unknown trimmed
  ]
]

parse_word : Text → Text → SmtpCommand
unfolding parse_rest
parse_word trimmed upper =
    if text_eq upper (codes "DATA")
    then begin_data
    else if text_eq upper (codes "QUIT")
    then quit
    else if text_eq upper (codes "RSET")
    then rset
    else if text_eq upper (codes "NOOP")
    then noop
    else if text_eq upper (codes "STARTTLS")
    then start_tls
    else parse_rest trimmed upper

parse_path : Text → Text → SmtpCommand
unfolding parse_word
parse_path trimmed upper =
    if starts_with (codes "MAIL FROM:") upper
    then mail_from (trim (drop 10 trimmed))
    else if starts_with (codes "RCPT TO:") upper
    then rcpt_to (trim (drop 8 trimmed))
    else parse_word trimmed upper

parse_trimmed : Text → Text → SmtpCommand
unfolding parse_path
parse_trimmed trimmed upper = elim (strip_prefix (codes "EHLO ") upper) [
  | some domain ↦ ehlo (trim domain)
  | none ↦ elim (strip_prefix (codes "HELO ") upper) [
    | some domain ↦ helo (trim domain)
    | none ↦ parse_path trimmed upper
  ]
]

unfoldable pub parse_command : Text → SmtpCommand
unfolding parse_trimmed trim strip_prefix starts_with
parse_command line = parse_trimmed (trim line) (to_uppercase (trim line))
