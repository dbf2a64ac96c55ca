-- ===== src/Proxy/Smtp.antt =====
-- serverwall-proxy/src/proxy/smtp_proxy.rs: one SMTP session. The client is the list of the lines
-- that it sends, which ends where it disconnects; the log holds what the session does, newest first.
-- A reply is taken to be written; an input or output error ends the Rust session early.
mod Replies
pub mod Total
pub mod Safety
pub mod Bypass
pub mod Unlisted
pub mod Transfer
pub mod Forward
pub use Replies.*
use serverwall.Base.{
  ℕ, suc, ◌+◌, Bool, true, false, ◌&&◌, ◌||◌, List, [], ◌∷◌, ◌++◌, Option, none, some,
  if◌then◌else◌, Text, codes, text_eq, byte_len, trim_matches, starts_with, drop, ◌==◌, length,
}
use serverwall.Core.Types.{IpAddr}
use serverwall.Core.Smtp.{
  SmtpCommand, ehlo, helo, mail_from, rcpt_to, begin_data, quit, rset, noop, start_tls,
  parse_command,
}
use serverwall.Antispam.Score.{
  FloatOps, SpamVerdict, clean, suspect, spam, ScoreContribution, SpamReport, new_score,
  default_auth,
}
use serverwall.Antispam.Lists.{
  AllowList, BlockList, allow_matches, block_matches, contains_recipient,
}
use serverwall.Antispam.Pipeline.{
  EnvelopeContext, MessageContext, PipelineDecision, AntispamPipeline, PostResult, run_pre_data,
  run_post_data,
}

pub data SmtpState : Type 0 where
  connected banner_sent helo_received in_mail_from in_rcpt_to in_data proxying quitting : SmtpState

-- What a session does: a reply to the client, or a message handed to the backend.
pub data Event (F : Type 0) : Type 0 where
  replied : Text → Event F
  forwarded : Text → Text → List Text → SpamReport F → Event F

-- The fields of `SmtpProxy` and of the connection that stay as they are. `forward` is what
-- forwarding a message to the backend returns: its reply and the bytes read from it, or an error.
pub record Env (F : Type 0) : Type 0 where
  pub pipeline : AntispamPipeline F
  pub allow_list : AllowList
  pub block_list : BlockList
  pub hostname : Text
  pub ja3_fingerprint : Option Text
  pub peer_ip : IpAddr
  pub connect_time : ℕ
  pub banner_sent_time : ℕ
  pub early_talker : Bool
  pub forward : Text → Text → List Text → SpamReport F → Option (Text × ℕ)

-- The variables of the command loop.
pub record Session (F : Type 0) : Type 0 where
  pub state : SmtpState
  pub mail_from : Text
  pub rcpt_to : List Text
  pub helo_domain : Text
  pub data_buffer : Text
  pub allowed : Bool
  pub command_count : ℕ
  pub bytes_from_client : ℕ
  pub bytes_from_backend : ℕ
  pub log : List (Event F)

-- The command loop goes on with the lines that are left, or ends.
pub data Next (F : Type 0) : Type 0 where
  again : Session F → List Text → Next F
  done : Session F → Next F

unfoldable pub say : {F : Type 0} → Text → Session F → Session F
say reply s = record s {
  bytes_from_backend = s.bytes_from_backend + byte_len reply;
  log = replied reply ∷ s.log;
}

-- The address without its brackets.
unfoldable pub bare : Text → Text
bare = trim_matches (λ c. c == b'<' || c == b'>')

-- The lines after DATA, up to the lone dot, with one dot of a doubled leading dot removed; the lines
-- that are left; the bytes read.
is_end : Text → Bool
is_end line = text_eq line (codes ".\r\n") || text_eq line (codes ".\n")

unstuff : Text → Text
unstuff line = if starts_with (codes "..") line then drop 1 line else line

unfoldable pub read_data : List Text → Text × List Text × ℕ
unfolding is_end unstuff
read_data [] = ([], [], 0)
read_data (line ∷ lines) =
    let more = read_data lines in
    if is_end line
    then ([], lines, byte_len line)
    else (unstuff line ++ more.0, more.1, byte_len line + more.2)

-- `mail_from`, `rcpt_to` and `data_buffer` are cleared; `allowed` is left alone.
unfoldable pub clear_transaction : {F : Type 0} → Session F → Session F
clear_transaction s = record s {
  mail_from = [];
  rcpt_to = [];
  data_buffer = [];
  state = helo_received;
}

abbrev pub expects_data : SmtpState → Bool
expects_data in_rcpt_to = true
expects_data in_mail_from = true
expects_data _ = false

-- RSET before the first HELO keeps the state.
unfoldable pub after_rset : SmtpState → SmtpState
after_rset banner_sent = banner_sent
after_rset connected = connected
after_rset _ = helo_received

-- A line has been read.
unfoldable pub counted : {F : Type 0} → Text → Session F → Session F
counted line s = record s {
  bytes_from_client = s.bytes_from_client + byte_len line;
  command_count = s.command_count + 1;
}

abbrev pub go_on :
    {F : Type 0} → Next F → (List Text → Session F → Option (Session F)) → Option (Session F)
go_on (again s rest) loop = loop rest s
go_on (done s) loop = some s

module _ {F : Type 0} (f : FloatOps F) (show_ip : IpAddr → Text) (env : Env F) where
  unfoldable pub envelope : Session F → EnvelopeContext
  envelope s = record {
    client_ip = env.peer_ip;
    helo_domain = s.helo_domain;
    mail_from = s.mail_from;
    rcpt_to = s.rcpt_to;
    early_talker = env.early_talker;
    connect_time = env.connect_time;
    banner_sent_time = env.banner_sent_time;
    command_count = s.command_count;
    pipelining_detected = false;
    ja3_fingerprint = env.ja3_fingerprint;
  }

  -- The report of a message whose sender or client is allow-listed.
  unfoldable pub allowed_report : SpamReport F
  allowed_report = record {
    score = new_score f;
    verdict = clean;
    contributions = [];
    auth_results = default_auth;
  }

  answer_backend : Option (Text × ℕ) → Session F → Session F
  answer_backend none s = say backend_unavailable s
  answer_backend (some (resp_text, b2c)) s =
      say resp_text (record s { bytes_from_backend = s.bytes_from_backend + b2c })

  -- The message goes to the backend, and its answer, or its absence, to the client.
  unfoldable pub proxy_message : SpamReport F → Session F → Session F
  unfolding say answer_backend
  proxy_message report s =
      answer_backend (env.forward s.data_buffer s.mail_from s.rcpt_to report) (record s {
        state = proxying;
        log = forwarded s.data_buffer s.mail_from s.rcpt_to report ∷ s.log;
      })

  judged : SpamVerdict → SpamReport F → Session F → Session F
  unfolding proxy_message say
  judged spam report s = say rejected_as_spam s
  judged suspect report s = proxy_message report s
  judged clean report s = proxy_message report s

  after_checks : PostResult F → Session F → Session F
  unfolding judged say
  after_checks (PostResult.ok report) s = judged report.verdict report s
  after_checks (PostResult.err (PipelineDecision.reject code reason)) s =
      say (reject_reply code reason) s
  after_checks (PostResult.err (PipelineDecision.temp_fail reason)) s =
      say (temp_fail_reply reason) s
  after_checks (PostResult.err PipelineDecision.continue) s = s
  after_checks (PostResult.err PipelineDecision.accept) s = s

  -- After the checks before DATA let the message pass.
  pub evaluate_message : F → List (ScoreContribution F) → Session F → Session F
  unfolding proxy_message after_checks clear_transaction
  evaluate_message pre_score pre_contribs s =
      if s.allowed
      then clear_transaction (proxy_message allowed_report s)
      else record (clear_transaction (
          after_checks
            (run_post_data f env.pipeline
              (record { envelope = envelope s; raw_message = s.data_buffer }) pre_score pre_contribs
              default_auth)
            s)) { allowed = false }

  after_pre : PipelineDecision × F × List (ScoreContribution F) → Session F → Session F
  unfolding evaluate_message clear_transaction say
  after_pre (PipelineDecision.reject code reason, score, contribs) s =
      clear_transaction (say (reject_reply code reason) s)
  after_pre (PipelineDecision.temp_fail reason, score, contribs) s =
      clear_transaction (say (temp_fail_reply reason) s)
  after_pre (PipelineDecision.continue, score, contribs) s = evaluate_message score contribs s
  after_pre (PipelineDecision.accept, score, contribs) s = evaluate_message score contribs s

  -- The session once the data is read.
  unfoldable pub received : Text × List Text × ℕ → Session F → Session F
  unfolding say
  received (body, rest, bytes) s = record (say go_ahead (record s { state = in_data })) {
    data_buffer = body;
    bytes_from_client = s.bytes_from_client + bytes;
  }

  unfoldable pub on_data : List Text → Session F → Next F
  unfolding say received after_pre
  on_data lines s =
      if expects_data s.state
      then again
          (after_pre (run_pre_data f env.pipeline (envelope (received (read_data lines) s)))
            (received (read_data lines) s))
          (read_data lines).1
      else again (say bad_sequence s) lines

  unfoldable pub on_helo : Text → Session F → Session F
  unfolding say
  on_helo domain s =
      say (capabilities env.hostname) (record s { helo_domain = domain; state = helo_received })

  unfoldable pub on_mail_from : Text → List Text → Session F → Next F
  unfolding say bare
  on_mail_from sender lines s =
      if block_matches show_ip env.block_list env.peer_ip (bare sender)
      then done
          (record (say sender_blocked (record s { mail_from = bare sender })) { state = quitting })
      else again (say sender_ok (record s { mail_from = bare sender; state = in_mail_from })) lines

  unfoldable pub on_rcpt_to : Text → Session F → Session F
  unfolding say bare
  on_rcpt_to recipient s =
      if contains_recipient env.block_list (bare recipient)
      then say recipient_blocked s
      else say recipient_ok (record s {
        rcpt_to = s.rcpt_to ++ (bare recipient ∷ []);
        allowed = s.allowed || allow_matches show_ip env.allow_list env.peer_ip s.mail_from;
        state = in_rcpt_to;
      })

  unfoldable pub on_rset : Session F → Session F
  unfolding say after_rset
  on_rset s = say plain_ok (record s {
    mail_from = [];
    rcpt_to = [];
    data_buffer = [];
    allowed = false;
    state = after_rset s.state;
  })

  unfoldable pub handle : SmtpCommand → List Text → Session F → Next F
  unfolding on_helo on_mail_from on_rcpt_to on_data on_rset say
  handle (ehlo domain) lines s = again (on_helo domain s) lines
  handle (helo domain) lines s = again (on_helo domain s) lines
  handle start_tls lines s = again (say tls_not_available s) lines
  handle (mail_from sender) lines s = on_mail_from sender lines s
  handle (rcpt_to recipient) lines s = again (on_rcpt_to recipient s) lines
  handle begin_data lines s = on_data lines s
  handle rset lines s = again (on_rset s) lines
  handle noop lines s = again (say plain_ok s) lines
  handle quit lines s = done (record (say bye s) { state = quitting })
  handle _ lines s = again (say not_recognized s) lines

  -- The command loop, on fuel: `none` means that it ran out.
  unfoldable pub command_loop : ℕ → List Text → Session F → Option (Session F)
  unfolding handle counted
  command_loop ℕ.zero lines s = none
  command_loop (suc fuel) [] s = some s
  command_loop (suc fuel) (line ∷ lines) s =
      go_on (handle (parse_command line) lines (counted line s)) (command_loop fuel)

  unfoldable pub greeted : Session F
  unfolding say
  greeted =
      record (say (banner env.hostname) (record {
        state = connected;
        mail_from = [];
        rcpt_to = [];
        helo_domain = [];
        data_buffer = [];
        allowed = false;
        command_count = 0;
        bytes_from_client = 0;
        bytes_from_backend = 0;
        log = [];
      })) { state = banner_sent }

  -- The whole session: one round of the loop for each line, and one for the end.
  unfoldable pub proxy : List Text → Option (Session F)
  unfolding command_loop greeted
  proxy lines = command_loop (suc (length lines)) lines greeted
