-- ===== src/Waf/Rules/Builtin/PathTraversal.antt =====
-- serverwall-waf/src/inspection/path_traversal.rs: the rules, with the patterns as they stand there.
use serverwall.Base.{List, [], ◌∷◌, codes}
use serverwall.Waf.Rules.{RuleTarget, WafRule, regex_rule}

abbrev targets : List RuleTarget
targets =
    RuleTarget.request_uri ∷ RuleTarget.path ∷ RuleTarget.query_string ∷ RuleTarget.request_body
    ∷ []

unfoldable pub path_traversal_rules : List WafRule
path_traversal_rules =
    (regex_rule 943100 (codes "Path Traversal: ../ sequences") targets
      (codes "(?:\\.\\./|\\.\\.\\\\)") 1 5 1)
    ∷ (regex_rule 943110 (codes "Path Traversal: /etc/passwd or /etc/shadow access") targets
        (codes "(?i)/etc/(?:passwd|shadow|hosts|group|resolv\\.conf|issue)") 1 5 1)
    ∷ (regex_rule 943120 (codes "Path Traversal: Windows drive letter access") targets
        (codes "(?i)(?:(?:^|[^a-z])[a-z]:\\\\|\\\\\\\\[a-z0-9])") 2 4 1)
    ∷ (regex_rule 943130 (codes "Path Traversal: null byte injection") targets
        (codes "(?:%00|\\\\x00|\\\\0)") 1 5 1)
    ∷ (regex_rule 943140 (codes "Path Traversal: /proc/self or /dev/ access") targets
        (codes
          "(?:/proc/(?:self|version|cpuinfo|meminfo)|/dev/(?:null|zero|random|urandom|tcp|udp))")
        1 5 1)
    ∷ (regex_rule 943200 (codes "Path Traversal: URL-encoded ../ sequences") targets
        (codes "(?:%2e%2e[/\\\\]|\\.%2e[/\\\\]|%2e\\.[/\\\\]|%252e%252e)") 2 4 2)
    ∷ (regex_rule 943210 (codes "Path Traversal: Windows system file access") targets
        (codes "(?i)(?:windows[\\\\/]system32|windows[\\\\/]win\\.ini|boot\\.ini|web\\.config)") 2 4
        2)
    ∷ (regex_rule 943220 (codes "Path Traversal: UTF-8 encoded traversal") targets
        (codes "(?:%c0%ae|%c1%9c|%c0%af)") 1 5 2)
    ∷ (regex_rule 943230 (codes "Path Traversal: sensitive config file access") targets
        (codes
          "(?i)(?:\\.htaccess|\\.htpasswd|\\.env|\\.git/|\\.svn/|wp-config\\.php|config\\.yml|database\\.yml)")
        2 4 2)
    ∷ (regex_rule 943300 (codes "Path Traversal: backslash-encoded sequences") targets
        (codes "(?:\\\\\\\\\\.\\\\\\\\\\.)") 3 3 3)
    ∷ []
