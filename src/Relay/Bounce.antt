-- ===== src/Relay/Bounce.antt =====
-- serverwall-relay/src/bounce.rs: delivery status notifications. What the source makes up for a
-- bounce (its identifier, date and boundary) is a `Stamp`.
pub mod Loops
use serverwall.Base.{
  ℕ, ◌≡◌, refl, Bool, true, false, ◌||◌, List, [], ◌∷◌, ◌++◌, Option, none, some, arith,
  if◌then◌else◌, Text, codes, text_eq, to_lowercase, is_empty, join, starts_with, map, Bool-cases,
  inl, inr,
}
use serverwall.Relay.Spool.{Envelope}

pub record BounceGenerator : Type 0 where
  pub bounce_sender : Text
  pub include_original_headers : Bool

pub record Stamp : Type 0 where
  pub message_id : Text
  pub date : Text
  pub boundary : Text

abbrev or_empty : Option Text → Text
or_empty none = []
or_empty (some t) = t

unfoldable pub new_generator : Option Text → Bool → BounceGenerator
new_generator bounce_sender include_original_headers = record {
  bounce_sender = or_empty bounce_sender;
  include_original_headers = include_original_headers;
}

-- The text before the first occurrence of a separator.
before : Text → Text → Option Text
before separator [] = if starts_with separator [] then some [] else none
before separator (c ∷ cs) =
    let rest = before separator cs in
    if starts_with separator (c ∷ cs)
    then some []
    else elim rest [ none ↦ none | some t ↦ some (c ∷ t) ]

unfoldable pub extract_headers : Text → Text
unfolding before
extract_headers message = elim (before (codes "\r\n\r\n") message) [
  | some headers ↦ headers
  | none ↦ elim (before (codes "\n\n") message) [ some headers ↦ headers | none ↦ message ]
]

-- Senders that get no bounce.
unfoldable pub is_null_sender : Text → Bool
is_null_sender sender =
    is_empty sender
    || (text_eq (to_lowercase sender) (codes "mailer-daemon") || text_eq sender (codes "<>"))

recipient_report : Text → Text → Text
recipient_report error rcpt =
    codes "Final-Recipient: rfc822;"
    ++ (rcpt
        ++ (codes "\r\nAction: failed\r\nStatus: 5.0.0\r\nDiagnostic-Code: smtp; "
            ++ (error ++ codes "\r\n")))

text_part : Stamp → Envelope → Text → Text
text_part stamp original error =
    codes "--"
    ++ (stamp.boundary
        ++ (codes
              "\r\nContent-Type: text/plain; charset=utf-8\r\n\r\nThis is an automatically generated Delivery Status Notification.\r\n\r\nDelivery to the following recipients failed:\r\n\r\n"
            ++ (join (codes ", ") original.rcpt_to
                ++ (codes "\r\n\r\nError: " ++ (error ++ codes "\r\n\r\n")))))

status_part : Stamp → Envelope → Text → Text
unfolding recipient_report
status_part stamp original error =
    codes "--"
    ++ (stamp.boundary
        ++ (codes
              "\r\nContent-Type: message/delivery-status\r\n\r\nReporting-MTA: dns; localhost\r\nArrival-Date: "
            ++ (stamp.date
                ++ (codes "\r\n\r\n"
                    ++ (join (codes "\r\n") (map (recipient_report error) original.rcpt_to)
                        ++ codes "\r\n")))))

headers_part : Stamp → Text → Text
headers_part stamp original_headers =
    codes "--"
    ++ (stamp.boundary
        ++ (codes "\r\nContent-Type: text/rfc822-headers\r\n\r\n"
            ++ (original_headers ++ (codes "\r\n--" ++ (stamp.boundary ++ codes "--\r\n")))))

bounce_headers : BounceGenerator → Stamp → Envelope → Text
bounce_headers g stamp original =
    codes "From: MAILER-DAEMON <"
    ++ (g.bounce_sender
        ++ (codes ">\r\nTo: <"
            ++ (original.mail_from
                ++ (codes ">\r\nDate: "
                    ++ (stamp.date
                        ++ (codes "\r\nMessage-ID: "
                            ++ (stamp.message_id
                                ++ (codes
                                      "\r\nSubject: Delivery Status Notification (Failure)\r\nMIME-Version: 1.0\r\nContent-Type: multipart/report; report-type=delivery-status;\r\n    boundary=\""
                                    ++ (stamp.boundary ++ codes "\"\r\n\r\n")))))))))

pub compose : BounceGenerator → Stamp → Envelope → Text → Text → Text
unfolding bounce_headers text_part status_part headers_part
compose g stamp original error message =
    bounce_headers g stamp original
    ++ (text_part stamp original error
        ++ (status_part stamp original error
            ++ headers_part stamp
                (if g.include_original_headers then extract_headers message else [])))

unfoldable pub generate :
    BounceGenerator → Stamp → Envelope → Text → Text → Option (Envelope × Text)
unfolding is_null_sender compose
generate g stamp original error message =
    if is_null_sender original.mail_from
    then none
    else some (
      record { mail_from = g.bounce_sender; rcpt_to = original.mail_from ∷ [] },
      compose g stamp original error message,
    )
