-- ===== src/Tests/Queue.antt =====
-- An outbound queue with a resolver of two hosts, of which the first defers and the second accepts.
use mathlib.Core.List.{Memᴰ}
use serverwall.Base.{
  ◌+◌, ◌≤◌, ◌≡◌, refl, ◌≢◌, Bool, true, false, List, [], ◌∷◌, some, arith, Text, codes, length,
  if◌then◌else◌, ◌==◌, text_eq, text_eq_iff,
}
use serverwall.Core.Types.{IpAddr, v4}
use serverwall.Relay.Spool.{Envelope, Spool, QueuedMessage, enqueue, dequeue, list}
use serverwall.Relay.Spool.Files.{delete, write}
use serverwall.Relay.Scheduler.{RetryScheduler}
use serverwall.Relay.Bounce.{Stamp}
use serverwall.Relay.Delivery.{Manager, is_due, hosts, success, temp_fail, DeliveryResult}
use serverwall.Relay.Delivery.Queue.{Occasion, attempted, process_queue}
use serverwall.Relay.Delivery.Queue.Passes.{
  Distinct, Unused, Settled, queued, process_queue-Settled, enqueue-Settled,
}
use serverwall.Relay.Policy.{recent}
use serverwall.Relay.Policy.Rate.{sends, sends-recent}
use serverwall.Relay.Receiver.{Env, Session, serve}
use serverwall.Relay.Receiver.Admission.{Admitted}
use serverwall.Relay.Receiver.Admission.Sessions.{serve-Admitted}

abbrev envelope : Envelope
envelope = record { mail_from = codes "a@b"; rcpt_to = codes "c@d" ∷ codes "e@d" ∷ [] }

abbrev nothing : Spool
nothing = record { metas = []; msgs = [] }

abbrev one : Spool
one = enqueue (codes "1") 100 envelope (codes "hi") nothing

abbrev scheduler : RetryScheduler
scheduler = record { intervals = 300 ∷ 600 ∷ 3600 ∷ []; max_age = 432000; max_attempts = 5 }

abbrev answer : IpAddr → DeliveryResult
answer (v4 a b c d) = if a == 10 then success (codes "250 OK") else temp_fail (codes "451 later")
answer _ = temp_fail (codes "451 later")

abbrev manager : Manager
manager = record {
  scheduler = scheduler;
  bounce_gen = record { bounce_sender = codes "post@b"; include_original_headers = true };
  resolve = λ domain. hosts (
      record { hostname = codes "mx1"; priority = 5; addresses = v4 192 0 2 1 ∷ [] }
      ∷ record { hostname = codes "mx2"; priority = 9; addresses = v4 10 0 0 1 ∷ [] }
      ∷ []);
  send = λ addr host sender recipients message. answer addr.ip;
  is_writable = λ id. true;
}

abbrev stamp : Stamp
stamp = record {
  message_id = codes "<bounce-1@localhost>";
  date = codes "today";
  boundary = codes "=_bounce_1";
}

-- Two messages that are due.
abbrev two : Spool
two = enqueue (codes "3") 150 envelope (codes "ho") one

abbrev occasion : Text → Occasion
occasion id = record { now = 200; bounce_id = b'9' ∷ id; stamp = stamp }

differ : (s t : Text) → text_eq s t ≡ false → s ≢ t
differ s t h e = let k : text_eq s t ≡ true = (text_eq_iff s t).1 e in cc

two-Distinct : Distinct manager occasion 200 (list two)
unfolding list enqueue delete write
two-Distinct = (
  λ due. (
    differ (codes "3") (codes "93") refl,
    ((λ due. (differ (codes "1") (codes "3") refl, differ (codes "91") (codes "3") refl)), tt),
    ((λ due. (differ (codes "1") (codes "93") refl, differ (codes "91") (codes "93") refl)), tt),
  ),
  ((λ due. (differ (codes "1") (codes "91") refl, tt, tt)), tt),
)

process_queue-Settled_example :
    ((q : QueuedMessage) (message : Text)
      → Memᴰ q (list two)
      → is_due 200 q ≡ true
      → dequeue q.id two ≡ some (q, message)
      → Settled manager occasion q message (process_queue manager occasion 200 two))
    × ((other : Text)
        → Unused manager occasion 200 other (list two)
        → dequeue other (process_queue manager occasion 200 two) ≡ dequeue other two)
process_queue-Settled_example = process_queue-Settled manager occasion 200 two two-Distinct

enqueue-Settled_example :
    let q = queued manager occasion (codes "7") 120 envelope (codes "hey") in
    let sp' = enqueue (codes "7") 120 envelope (codes "hey") two in
    (dequeue (codes "7") sp' ≡ some (q, codes "hey"))
    × Memᴰ q (list sp')
    × (is_due 200 q ≡ true)
    × Settled manager occasion q (codes "hey") (attempted manager occasion (codes "7") sp')
    × ((other : Text) → codes "7" ≢ other → dequeue other sp' ≡ dequeue other two)
enqueue-Settled_example =
    enqueue-Settled manager occasion (codes "7") 120 200 envelope (codes "hey") two (omega arith)
      (differ (codes "7") (codes "97") refl)

abbrev bounced : Envelope
bounced = record { mail_from = codes "post@b"; rcpt_to = codes "a@b" ∷ [] }

-- Four sends in an hour, of which the limit of two lets the first two through, and one later.
sends-recent_example :
    length (recent 4000 (sends 2 (10 ∷ 20 ∷ 20 ∷ 900 ∷ 3700 ∷ []) ([], [])).1) ≤ 2
sends-recent_example =
    sends-recent 2 4000 (10 ∷ 20 ∷ 20 ∷ 900 ∷ 3700 ∷ [])
      (omega arith, (omega arith, (omega arith, (omega arith, (omega arith, tt))))) (omega arith)

abbrev env : Env
env = record {
  policy = record {
    allowed_domains = codes "b" ∷ [];
    max_recipients = 2;
    max_per_hour = 10;
    content = record {
      dangerous_extensions = codes "exe" ∷ [];
      check_urls = true;
      max_message_size = 1000;
    };
  };
  clock = λ n. 100 + n;
  new_id = λ n. n ∷ [];
  writable = λ n. true;
  sign = λ n domain message. message;
}

abbrev lines : List Text
lines =
    codes "EHLO c\r\n"
    ∷ codes "MAIL FROM:<a@b>\r\n"
    ∷ codes "RCPT TO:<c@d>\r\n"
    ∷ codes "DATA\r\n"
    ∷ codes "hi\r\n"
    ∷ codes ".\r\n"
    ∷ codes "QUIT\r\n"
    ∷ []

serve-Admitted_example :
    ((t : Session) × (serve env true false lines one [] ≡ some t) × Admitted env one t.spool)
    × ((require_tls : Bool)
        → (t : Session) × (serve env false require_tls lines one [] ≡ some t) × (t.spool ≡ one))
    × ((t : Session) × (serve env true true lines one [] ≡ some t) × (t.spool ≡ one))
serve-Admitted_example = serve-Admitted env lines one []
