-- ===== src/Waf/Rules/Builtin/SqlInjection.antt =====
-- serverwall-waf/src/inspection/sql_injection.rs: the rules, with the patterns as they stand there.
use serverwall.Base.{List, [], ◌∷◌, codes}
use serverwall.Waf.Rules.{RuleTarget, WafRule, regex_rule}

abbrev targets : List RuleTarget
targets =
    RuleTarget.query_string ∷ RuleTarget.request_body ∷ RuleTarget.request_uri ∷ RuleTarget.cookies
    ∷ []

unfoldable pub sql_injection_rules : List WafRule
sql_injection_rules =
    (regex_rule 941100 (codes "SQL Injection: UNION-based attack") targets
      (codes "(?i)(?:union\\s+(?:all\\s+)?select)") 1 5 1)
    ∷ (regex_rule 941110 (codes "SQL Injection: tautology (OR 1=1, OR true)") targets
        (codes "(?i)(?:'\\s*(?:or|and)\\s+['\\d][\\d\\s]*=\\s*['\\d])") 1 5 1)
    ∷ (regex_rule 941120 (codes "SQL Injection: comment-based bypass (--)") targets
        (codes "(?i)(?:'\\s*;\\s*--\\s*|'\\s*--\\s*)") 2 4 1)
    ∷ (regex_rule 941130 (codes "SQL Injection: DROP/ALTER/TRUNCATE statements") targets
        (codes
          "(?i)(?:;\\s*(?:drop|alter|truncate|create|insert|update|delete)\\s+(?:table|database|schema|index))")
        1 5 1)
    ∷ (regex_rule 941140 (codes "SQL Injection: EXEC/EXECUTE xp_cmdshell") targets
        (codes "(?i)(?:(?:exec|execute)\\s+(?:xp_|sp_)|xp_cmdshell)") 1 5 1)
    ∷ (regex_rule 941200 (codes "SQL Injection: SLEEP/BENCHMARK/WAITFOR timing attacks") targets
        (codes "(?i)(?:sleep\\s*\\(\\s*\\d|benchmark\\s*\\(\\s*\\d|waitfor\\s+delay\\s+')") 2 4 2)
    ∷ (regex_rule 941210 (codes "SQL Injection: stacked queries") targets
        (codes "(?i)(?:;\\s*(?:select|insert|update|delete|drop|alter|create)\\s)") 2 4 2)
    ∷ (regex_rule 941220 (codes "SQL Injection: INFORMATION_SCHEMA/system tables") targets
        (codes "(?i)(?:information_schema|mysql\\.user|sysobjects|syscolumns|pg_catalog)") 2 4 2)
    ∷ (regex_rule 941230 (codes "SQL Injection: LOAD_FILE/INTO OUTFILE") targets
        (codes "(?i)(?:load_file\\s*\\(|into\\s+(?:out|dump)file)") 1 5 2)
    ∷ (regex_rule 941240 (codes "SQL Injection: hex-encoded values") targets
        (codes "(?i)(?:0x[0-9a-f]{8}|char\\s*\\(\\s*\\d+(?:\\s*,\\s*\\d+)+\\s*\\))") 3 3 2)
    ∷ (regex_rule 941300 (codes "SQL Injection: common SQL keywords in suspicious context") targets
        (codes "(?i)(?:'\\s*(?:having|group\\s+by|order\\s+by|limit)\\s)") 3 3 3)
    ∷ (regex_rule 941310 (codes "SQL Injection: SQL function calls") targets
        (codes "(?i)(?:(?:concat|substr|substring|ascii|hex|unhex|conv|cast)\\s*\\()") 4 2 3)
    ∷ (regex_rule 941320 (codes "SQL Injection: single-quote probing") targets
        (codes "(?:(?:^|[^\\w])'\\s*(?:$|[^\\w']))") 4 2 4)
    ∷ []
