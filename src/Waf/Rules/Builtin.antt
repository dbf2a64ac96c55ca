-- ===== src/Waf/Rules/Builtin.antt =====
-- serverwall-waf/src/inspection/mod.rs: all built-in rules in their order.
mod SqlInjection
mod Xss
mod PathTraversal
mod CommandInjection
mod ProtocolAttack
use serverwall.Base.{List, ◌++◌}
use serverwall.Waf.Rules.{WafRule}
use serverwall.Waf.Rules.Builtin.SqlInjection.{sql_injection_rules}
use serverwall.Waf.Rules.Builtin.Xss.{xss_rules}
use serverwall.Waf.Rules.Builtin.PathTraversal.{path_traversal_rules}
use serverwall.Waf.Rules.Builtin.CommandInjection.{command_injection_rules}
use serverwall.Waf.Rules.Builtin.ProtocolAttack.{protocol_attack_rules}

unfoldable pub all_builtin_rules : List WafRule
unfolding sql_injection_rules xss_rules path_traversal_rules command_injection_rules
    protocol_attack_rules
all_builtin_rules =
    sql_injection_rules
    ++ (xss_rules ++ (path_traversal_rules ++ (command_injection_rules ++ protocol_attack_rules)))
