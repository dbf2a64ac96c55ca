-- ===== src/Tests/Access.antt =====
-- Access control over networks that are ranges of the first octet, paths that match a prefix, and a
-- country database of two entries.
use serverwall.Base.{
  ℕ, ◌≡◌, refl, ◌↔◌, Bool, true, false, List, [], ◌∷◌, Option, none, some, Text, codes, text_eq,
  starts_with, if◌then◌else◌, ◌==◌,
}
use serverwall.Core.Types.{IpAddr, v4}
use serverwall.Core.Acl.{
  AclDecision, AclDefaultAction, AccessControlEngine, FrontendAclConfig, IpAclConfig, GeoEngine, ok,
  evaluate, from_config, from_global_ip, check_path, matcher_new,
}
use serverwall.Core.Acl.Decisions.{Unblocked, Admitted, evaluate_allow}
use serverwall.Proxy.Pipeline.{RequestPipeline, Result, check_acl}
use serverwall.Proxy.Pipeline.Access.{Passes, PassesGlobal, PassesGeo, check_acl_ok}
use serverwall.Core.Balancer.RoundRobin.{round_robin}

-- A network is the first octet of its addresses.
abbrev net_contains : ℕ → IpAddr → Bool
net_contains net (v4 a b c d) = net == a
net_contains net _ = false

abbrev parse_network : Text → Option ℕ
parse_network text =
    if text_eq text (codes "10.0.0.0/8")
    then some 10
    else if text_eq text (codes "192.0.0.0/8")
    then some 192
    else none

abbrev frontend : FrontendAclConfig
frontend = record {
  block_list = codes "10.0.0.0/8" ∷ [];
  allow_list = codes "192.0.0.0/8" ∷ codes "10.0.0.0/8" ∷ [];
  default_action = AclDefaultAction.allow;
}

abbrev listed : AccessControlEngine ℕ
listed = record {
  block_list = some (10 ∷ []);
  allow_list = some (192 ∷ 10 ∷ []);
  default_action = AclDefaultAction.allow;
}

abbrev client : IpAddr
client = v4 192 0 2 7

evaluate_allow_example : (evaluate net_contains listed client ≡ AclDecision.allow) ↔ (
    Unblocked net_contains (some (10 ∷ [])) client
    × Admitted net_contains (some (192 ∷ 10 ∷ [])) AclDefaultAction.allow client)
evaluate_allow_example = evaluate_allow net_contains listed client

frontend_parses : from_config parse_network frontend ≡ ok listed
unfolding from_config matcher_new
frontend_parses = refl

abbrev rules : List (List Text × Bool)
rules =
    ((codes "/static" ∷ []), false)
    ∷ ((codes "/api" ∷ codes "/admin" ∷ []), true)
    ∷ ((codes "/" ∷ []), false)
    ∷ []

abbrev is_match : Text → Text → Bool
is_match pattern path = starts_with pattern path

admin_blocked : check_path is_match rules (codes "/admin/x") ≡ some AclDecision.deny
unfolding check_path starts_with
admin_blocked = refl

abbrev country_of : IpAddr → Option Text
country_of (v4 a b c d) =
    if 192 == a then some (codes "nl") else if 10 == a then some (codes "us") else none
country_of _ = none

abbrev countries : GeoEngine
countries = record { block_countries = codes "US" ∷ []; allow_countries = codes "NL" ∷ [] }

abbrev pipeline : RequestPipeline ℕ ℕ
pipeline = record {
  acl = listed;
  global_ip_acl = some (record {
    block_list = some (10 ∷ []);
    allow_list = none;
    default_action = AclDefaultAction.allow;
  });
  geo = some countries;
  balancer = round_robin;
  state = 0;
  backends = [];
}

check_acl_ok_example : (check_acl net_contains country_of pipeline client ≡ Result.ok tt) ↔ (
    PassesGlobal net_contains country_of pipeline.global_ip_acl client
    × Passes net_contains country_of pipeline.acl client
    × PassesGeo net_contains country_of pipeline.geo client)
check_acl_ok_example = check_acl_ok net_contains country_of pipeline client

abbrev blocking : IpAclConfig
blocking = record { block = codes "10.0.0.0/8" ∷ []; allow = [] }

blocking_parses :
    from_global_ip parse_network blocking
    ≡ ok (record {
      block_list = some (10 ∷ []);
      allow_list = none;
      default_action = AclDefaultAction.allow;
    })
unfolding from_global_ip matcher_new
blocking_parses = refl
