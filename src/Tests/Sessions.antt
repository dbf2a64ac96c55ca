-- ===== src/Tests/Sessions.antt =====
-- SMTP sessions of a client whose address is on the block list or whose sender is on the allow list.
use mathlib.Core.List.{Memᴰ}
use serverwall.Base.{
  ℕ, ◌≡◌, ◌≢◌, refl, true, false, List, [], ◌∷◌, none, some, Text, codes, trim_matches, lower_char,
  after_last, starts_with,
}
use serverwall.Core.Types.{IpAddr, v4}
use serverwall.Antispam.Score.{SpamReport, SpamVerdict, clean, spam, default_auth}
use serverwall.Antispam.Lists.{allow_matches, block_matches, contains_recipient}
use serverwall.Antispam.Pipeline.{PipelineDecision, PostResult, run_pre_data, run_post_data}
use serverwall.Proxy.Smtp.{
  Env, Session, forwarded, bare, read_data, on_data, on_rcpt_to, greeted, proxy, allowed_report,
  envelope, done, quitting, replied, sender_blocked, proxy_message, received, on_mail_from, say,
}
use serverwall.Proxy.Smtp.Total.{proxy_total}
use serverwall.Proxy.Smtp.Safety.{LogOk, proxy-LogOk}
use serverwall.Proxy.Smtp.Bypass.{session_of, addressed, decided, allowed-leaks}
use serverwall.Proxy.Smtp.Unlisted.{opened, filled, checked_before, block-skipped}
use serverwall.Tests.Checks.{whole, pipeline}

abbrev show_ip : IpAddr → Text
show_ip (v4 a b c d) = a ∷ b ∷ c ∷ d ∷ []
show_ip _ = []

abbrev env : Env ℕ
env = record {
  pipeline = pipeline;
  allow_list = record { ips = []; senders = codes "a@b" ∷ []; sender_domains = [] };
  block_list = record {
    ips = (192 ∷ 0 ∷ 2 ∷ 7 ∷ []) ∷ [];
    senders = codes "spam@x" ∷ [];
    sender_domains = [];
    recipients = codes "root@c" ∷ [];
  };
  hostname = codes "mx";
  ja3_fingerprint = none;
  peer_ip = v4 192 0 2 7;
  connect_time = 0;
  banner_sent_time = 0;
  early_talker = false;
  forward = λ body sender recipients report. some (codes "250 OK", 6);
}

-- The same from an address that is not blocked.
abbrev open_env : Env ℕ
open_env = record env { peer_ip = v4 192 0 2 8 }

abbrev body : List Text
body = codes "Subject: hi\r\n" ∷ codes "\r\n" ∷ codes ".\r\n" ∷ []

abbrev session : List Text
session =
    codes "HELO c\r\n"
    ∷ codes "RCPT TO:<b@c>\r\n"
    ∷ codes "DATA\r\n"
    ∷ codes "hi\r\n"
    ∷ codes ".\r\n"
    ∷ codes "QUIT\r\n"
    ∷ []

proxy_total_example : (t : Session ℕ) × (proxy whole show_ip env session ≡ some t)
proxy_total_example = proxy_total whole show_ip env session

proxy-LogOk_example : LogOk whole show_ip env (proxy_total whole show_ip env session).0.log
proxy-LogOk_example =
    proxy-LogOk whole show_ip env session (proxy_total whole show_ip env session).0
      (proxy_total whole show_ip env session).1

other_free :
    block_matches show_ip open_env.block_list open_env.peer_ip (bare (codes "<evil@y>")) ≡ false
unfolding block_matches bare trim_matches lower_char after_last
other_free = refl

recipient_free : contains_recipient env.block_list (bare (codes "<b@c>")) ≡ false
unfolding contains_recipient bare trim_matches lower_char
recipient_free = refl

abbrev filled_body : Session ℕ
filled_body = filled whole show_ip env (codes "<b@c>") body

abbrev report_of : PostResult ℕ → SpamReport ℕ
report_of (PostResult.ok report) = report
report_of (PostResult.err d) = allowed_report whole show_ip env

abbrev checked_after : PostResult ℕ
checked_after =
    let pre = checked_before whole show_ip env (codes "<b@c>") body in
    run_post_data whole env.pipeline
      (record {
        envelope = envelope whole show_ip env filled_body;
        raw_message = filled_body.data_buffer;
      })
      pre.1 pre.2 default_auth

before_passes :
    (checked_before whole show_ip env (codes "<b@c>") body).0 ≡ PipelineDecision.continue
unfolding run_pre_data envelope received on_rcpt_to greeted bare trim_matches lower_char starts_with
    read_data say contains_recipient after_last
before_passes = refl

after_passes : checked_after ≡ PostResult.ok (report_of checked_after)
unfolding run_pre_data run_post_data envelope received on_rcpt_to greeted bare trim_matches
    lower_char starts_with read_data say contains_recipient after_last
after_passes = refl

found_clean : (report_of checked_after).verdict ≡ clean
unfolding run_pre_data run_post_data envelope received on_rcpt_to greeted bare trim_matches
    lower_char starts_with read_data say contains_recipient after_last
    serverwall.Antispam.Score.verdict serverwall.Antispam.Pipeline.add_all
    serverwall.Antispam.Score.add_score serverwall.Antispam.Score.new_score
found_clean = refl

clean_not_spam : {v : SpamVerdict} → v ≡ clean → v ≢ spam
clean_not_spam e h = absurd (cc)

not_spam : (report_of checked_after).verdict ≢ spam
not_spam = clean_not_spam found_clean

block-skipped_example :
    ((sender : Text) (lines : List Text)
      → (t : Session ℕ) × (on_mail_from whole show_ip env sender lines (greeted whole show_ip env)
          ≡ done t)
        × (t.state ≡ quitting)
        × (t.log ≡ replied sender_blocked ∷ (greeted whole show_ip env).log))
    × (r : SpamReport ℕ) × Memᴰ
        (forwarded (read_data body).0 [] (bare (codes "<b@c>") ∷ []) r)
        (session_of whole show_ip env
          (on_data whole show_ip env body (opened whole show_ip env (codes "<b@c>")))).log
block-skipped_example =
    block-skipped whole show_ip env (codes "<b@c>") body (report_of checked_after) refl
      recipient_free before_passes after_passes not_spam

friend_listed :
    allow_matches show_ip open_env.allow_list open_env.peer_ip (bare (codes "<a@b>")) ≡ true
unfolding allow_matches bare trim_matches lower_char after_last
friend_listed = refl

friend_free :
    block_matches show_ip open_env.block_list open_env.peer_ip (bare (codes "<a@b>")) ≡ false
unfolding block_matches bare trim_matches lower_char after_last
friend_free = refl

-- The session after the transaction of the allow-listed sender, and the next one.
abbrev first_done : Session ℕ
first_done = session_of whole show_ip open_env (
    on_data whole show_ip open_env body (
      addressed whole show_ip open_env (codes "<a@b>") (codes "<b@c>") []
        (greeted whole show_ip open_env)))

abbrev second : Session ℕ
second = addressed whole show_ip open_env (codes "<evil@y>") (codes "<b@c>") [] first_done

second_passes : decided whole show_ip open_env body second ≡ PipelineDecision.continue
unfolding run_pre_data envelope received on_mail_from on_rcpt_to greeted bare trim_matches
    lower_char starts_with read_data say block_matches contains_recipient after_last on_data
    allow_matches proxy_message
second_passes = refl

allowed-leaks_example :
    Memᴰ
      (forwarded
        (read_data body).0
        (bare (codes "<evil@y>"))
        (bare (codes "<b@c>") ∷ [])
        (allowed_report whole show_ip open_env))
      (session_of whole show_ip open_env (on_data whole show_ip open_env body second)).log
allowed-leaks_example =
    allowed-leaks whole show_ip open_env (codes "<a@b>") (codes "<b@c>") (codes "<evil@y>")
      (codes "<b@c>") [] [] body body (greeted whole show_ip open_env) friend_listed friend_free
      recipient_free other_free recipient_free second_passes
