-- ===== src/Waf/Rules/Builtin/Xss.antt =====
-- serverwall-waf/src/inspection/xss.rs: the rules, with the patterns as they stand there.
use serverwall.Base.{List, [], ◌∷◌, codes}
use serverwall.Waf.Rules.{RuleTarget, WafRule, regex_rule}

abbrev targets : List RuleTarget
targets =
    RuleTarget.query_string ∷ RuleTarget.request_body ∷ RuleTarget.request_uri ∷ RuleTarget.cookies
    ∷ []

unfoldable pub xss_rules : List WafRule
xss_rules =
    (regex_rule 942100 (codes "XSS: <script> tag injection") targets (codes "(?i)<\\s*script[^>]*>")
      1 5 1)
    ∷ (regex_rule 942110 (codes "XSS: javascript: protocol handler") targets
        (codes "(?i)javascript\\s*:") 1 5 1)
    ∷ (regex_rule 942120 (codes "XSS: on-event handler attributes") targets
        (codes
          "(?i)\\bon(?:error|load|click|mouse(?:over|out|down|up)|focus|blur|change|submit|key(?:down|up|press)|unload)\\s*=")
        1 5 1)
    ∷ (regex_rule 942130 (codes "XSS: <iframe>/<object>/<embed> injection") targets
        (codes "(?i)<\\s*(?:iframe|object|embed|applet|form|base)\\b") 1 5 1)
    ∷ (regex_rule 942140 (codes "XSS: data: URI with script content") targets
        (codes "(?i)data\\s*:\\s*(?:text/html|application/xhtml)") 2 4 1)
    ∷ (regex_rule 942200 (codes "XSS: SVG onload/animate attack") targets
        (codes "(?i)<\\s*svg[^>]*\\bon(?:load|error)\\s*=") 2 4 2)
    ∷ (regex_rule 942210 (codes "XSS: HTML entity encoding bypass") targets
        (codes "(?i)(?:&#(?:x0*(?:6[1-9a-f]|7[0-9a])|0*(?:9[7-9]|1[01][0-9]|12[0-2]))\\s*;?)") 3 3
        2)
    ∷ (regex_rule 942220 (codes "XSS: expression() CSS function") targets
        (codes "(?i)(?:expression|behavior)\\s*\\(") 2 4 2)
    ∷ (regex_rule 942230 (codes "XSS: vbscript: protocol handler") targets
        (codes "(?i)vbscript\\s*:") 1 5 2)
    ∷ (regex_rule 942240 (codes "XSS: <img> tag with event handler") targets
        (codes "(?i)<\\s*img[^>]+\\bon(?:error|load)\\s*=") 2 4 2)
    ∷ (regex_rule 942300 (codes "XSS: alert/confirm/prompt/eval function calls") targets
        (codes "(?i)(?:alert|confirm|prompt|eval)\\s*\\(") 3 3 3)
    ∷ (regex_rule 942310 (codes "XSS: document.cookie/document.write access") targets
        (codes "(?i)document\\s*\\.\\s*(?:cookie|write|location|domain)") 3 3 3)
    ∷ (regex_rule 942320 (codes "XSS: innerHTML/outerHTML DOM manipulation") targets
        (codes "(?i)\\.(?:innerHTML|outerHTML|insertAdjacentHTML|write|writeln)\\s*[=(]") 3 3 3)
    ∷ []
