-- ===== src/Waf/Rules/Builtin/ProtocolAttack.antt =====
-- serverwall-waf/src/inspection/protocol_attack.rs: the rules, with the patterns as they stand there.
use serverwall.Base.{List, [], ◌∷◌, codes}
use serverwall.Waf.Rules.{RuleTarget, WafRule, regex_rule}

abbrev uri_targets : List RuleTarget
uri_targets = RuleTarget.request_uri ∷ RuleTarget.path ∷ RuleTarget.query_string ∷ []

abbrev header_targets : List RuleTarget
header_targets = RuleTarget.request_headers ∷ []

abbrev all_targets : List RuleTarget
all_targets =
    RuleTarget.request_uri ∷ RuleTarget.query_string ∷ RuleTarget.request_headers
    ∷ RuleTarget.request_body ∷ []

unfoldable pub protocol_attack_rules : List WafRule
protocol_attack_rules =
    (regex_rule 945100 (codes "Protocol Attack: HTTP request smuggling (CL + TE)") header_targets
      (codes
        "(?i)(?:transfer-encoding\\s*:\\s*chunked.*content-length|content-length.*transfer-encoding\\s*:\\s*chunked)")
      1 5 1)
    ∷ (regex_rule 945110 (codes "Protocol Attack: CRLF injection in headers") all_targets
        (codes "(?:%0[da]|\\\\r|\\\\n)(?:%0[da]|\\\\r|\\\\n|[\\w-]+\\s*:)") 1 5 1)
    ∷ (regex_rule 945120 (codes "Protocol Attack: HTTP response splitting") uri_targets
        (codes "(?i)(?:%0[da](?:%0[da])?(?:set-cookie|content-type|location|http/))") 1 5 1)
    ∷ (regex_rule 945130 (codes "Protocol Attack: HTTP header injection via newlines") all_targets
        (codes "(?:\\r\\n|\\n)[\\w-]+\\s*:") 1 5 1)
    ∷ (regex_rule 945140 (codes "Protocol Attack: invalid HTTP method")
        (RuleTarget.request_uri ∷ []) (codes "(?i)(?:^(?:connect|trace|track|debug)\\s)") 2 4 1)
    ∷ (regex_rule 945200 (codes "Protocol Attack: Transfer-Encoding obfuscation") header_targets
        (codes
          "(?i)(?:transfer-encoding\\s*:\\s*(?:chunked\\s*,|,\\s*chunked|identity|compress|deflate|gzip)\\s*,)")
        2 4 2)
    ∷ (regex_rule 945210 (codes "Protocol Attack: HTTP/0.9 request attempt")
        (RuleTarget.request_uri ∷ []) (codes "(?:^GET\\s+/[^\\s]*\\s*$)") 3 3 2)
    ∷ (regex_rule 945220 (codes "Protocol Attack: absolute URI in request line") uri_targets
        (codes "(?i)(?:^(?:get|post|put|delete|patch)\\s+https?://)") 4 2 2)
    ∷ (regex_rule 945300 (codes "Protocol Attack: X-Forwarded-For header spoofing") header_targets
        (codes
          "(?i)(?:x-forwarded-for\\s*:\\s*(?:127\\.0\\.0\\.1|::1|0\\.0\\.0\\.0|10\\.\\d|172\\.(?:1[6-9]|2\\d|3[01])\\.|192\\.168\\.))")
        4 2 3)
    ∷ (regex_rule 945310 (codes "Protocol Attack: Host header injection") header_targets
        (codes "(?i)(?:host\\s*:\\s*(?:localhost|127\\.0\\.0\\.1|::1|0\\.0\\.0\\.0)(?::\\d+)?)") 4 2
        3)
    ∷ []
