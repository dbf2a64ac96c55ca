-- ===== src/Proxy/Smtp/Replies.antt =====
-- The replies of the session, as the source writes them.
use serverwall.Base.{◌++◌, ℕ, Text, codes, decimal}

unfoldable pub banner : Text → Text
banner hostname = codes "220 " ++ (hostname ++ codes " ESMTP\r\n")

unfoldable pub capabilities : Text → Text
capabilities hostname =
    codes "250-"
    ++ (hostname
        ++ codes
            "\r\n250-PIPELINING\r\n250-SIZE 26214400\r\n250-ENHANCEDSTATUSCODES\r\n250 8BITMIME\r\n")

pub tls_not_available : Text
tls_not_available = codes "454 4.7.0 TLS not available\r\n"

pub sender_blocked : Text
sender_blocked = codes "550 5.7.1 Sender blocked\r\n"

pub sender_ok : Text
sender_ok = codes "250 2.1.0 Ok\r\n"

pub recipient_blocked : Text
recipient_blocked = codes "550 5.7.1 Recipient blocked\r\n"

pub recipient_ok : Text
recipient_ok = codes "250 2.1.5 Ok\r\n"

pub bad_sequence : Text
bad_sequence = codes "503 5.5.1 Bad sequence of commands\r\n"

pub go_ahead : Text
go_ahead = codes "354 End data with <CR><LF>.<CR><LF>\r\n"

pub backend_unavailable : Text
backend_unavailable = codes "451 4.3.0 Backend unavailable\r\n"

pub rejected_as_spam : Text
rejected_as_spam = codes "550 5.7.1 Message rejected as spam\r\n"

pub plain_ok : Text
plain_ok = codes "250 2.0.0 Ok\r\n"

pub bye : Text
bye = codes "221 2.0.0 Bye\r\n"

pub not_recognized : Text
not_recognized = codes "502 5.5.2 Command not recognized\r\n"

unfoldable pub reject_reply : ℕ → Text → Text
reject_reply code reason = decimal code ++ (codes " 5.7.1 " ++ (reason ++ codes "\r\n"))

unfoldable pub temp_fail_reply : Text → Text
temp_fail_reply reason = codes "451 4.7.1 " ++ (reason ++ codes "\r\n")
