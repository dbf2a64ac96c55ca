-- ===== src/Waf/Rules/Builtin/CommandInjection.antt =====
-- serverwall-waf/src/inspection/command_injection.rs: the rules, with the patterns as they stand there.
use serverwall.Base.{List, [], ◌∷◌, codes}
use serverwall.Waf.Rules.{RuleTarget, WafRule, regex_rule}

abbrev targets : List RuleTarget
targets =
    RuleTarget.query_string ∷ RuleTarget.request_body ∷ RuleTarget.request_uri ∷ RuleTarget.cookies
    ∷ []

unfoldable pub command_injection_rules : List WafRule
command_injection_rules =
    (regex_rule 944100 (codes "Command Injection: shell command chaining (;, &&, ||)") targets
      (codes
        "(?:;\\s*(?:cat|ls|id|whoami|uname|pwd|wget|curl|nc|ncat|bash|sh|python|perl|ruby|php)\\b)")
      1 5 1)
    ∷ (regex_rule 944110 (codes "Command Injection: backtick command substitution") targets
        (codes "`[^`]*(?:cat|ls|id|whoami|uname|pwd|wget|curl|nc|bash|sh)[^`]*`") 1 5 1)
    ∷ (regex_rule 944120 (codes "Command Injection: $() command substitution") targets
        (codes "\\$\\([^)]*(?:cat|ls|id|whoami|uname|pwd|wget|curl|nc|bash|sh)[^)]*\\)") 1 5 1)
    ∷ (regex_rule 944130 (codes "Command Injection: pipe to shell commands") targets
        (codes "(?:\\|\\s*(?:cat|ls|id|whoami|uname|bash|sh|python|perl|nc|ncat|wget|curl)\\b)") 1 5
        1)
    ∷ (regex_rule 944140 (codes "Command Injection: /bin/ or /usr/bin/ direct execution") targets
        (codes
          "(?:/(?:usr/)?(?:s?bin|local/bin)/(?:cat|ls|id|whoami|uname|bash|sh|python|perl|nc|wget|curl|chmod|chown))")
        1 5 1)
    ∷ (regex_rule 944200 (codes "Command Injection: && or || chaining with any command") targets
        (codes "(?:(?:&&|\\|\\|)\\s*\\w+\\b)") 3 3 2)
    ∷ (regex_rule 944210 (codes "Command Injection: redirection operators") targets
        (codes "(?:>\\s*/(?:etc|tmp|var|dev)|>>\\s*\\S+|<\\s*/(?:etc|proc|dev))") 2 4 2)
    ∷ (regex_rule 944220 (codes "Command Injection: environment variable injection") targets
        (codes "(?:\\$\\{(?:IFS|PATH|SHELL|HOME|USER|HOSTNAME)\\})") 2 4 2)
    ∷ (regex_rule 944230 (codes "Command Injection: Powershell command patterns") targets
        (codes "(?i)(?:powershell|invoke-(?:expression|webrequest|command)|new-object\\s+system)") 1
        5 2)
    ∷ (regex_rule 944300 (codes "Command Injection: semicolon followed by any word") targets
        (codes "(?:;\\s*\\w+)") 4 2 3)
    ∷ (regex_rule 944310 (codes "Command Injection: line feeds used as command separators") targets
        (codes "(?:%0[ad]|\\\\n|\\\\r)") 4 2 3)
    ∷ []
