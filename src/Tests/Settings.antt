-- ===== src/Tests/Settings.antt =====
-- A configuration with one frontend.
use serverwall.Base.{
  ℕ, ◌≡◌, ◌↔◌, refl, List, [], ◌∷◌, Option, none, some, true, Text, codes, contains,
}
use serverwall.Core.Config.{
  ProtocolType, FrontendConfig, ServerWallConfig, validate_config, load_config,
}
use serverwall.Core.Config.Validity.{IsValid, validate_config-IsValid, load_config-IsValid}

abbrev site : FrontendConfig
site = record {
  name = codes "site";
  protocol = ProtocolType.https;
  listen = codes "0.0.0.0:443" ∷ [];
  backend_pool = codes "web";
  tls_cert = some (codes "site.pem");
  tls_pfx = none;
  waf_enabled = true;
}

abbrev config : ServerWallConfig ℕ ℕ ℕ ℕ
config = record {
  frontend = site ∷ [];
  backend_pool = record { name = codes "web"; backend = 1 ∷ [] } ∷ [];
  waf_ruleset = [];
  domain_overrides = [];
  scanners = record { name = codes "clam"; command = codes "scan {file}" } ∷ [];
  dkim_domains = [];
  trusted_hosts = codes "10.0.0.0/8" ∷ [];
}

abbrev parse_network : Text → Option ℕ
parse_network text = some 10

validate_config-IsValid_example :
    (validate_config parse_network config ≡ none) ↔ IsValid parse_network config
validate_config-IsValid_example = validate_config-IsValid parse_network config

abbrev parse : Text → Option (ServerWallConfig ℕ ℕ ℕ ℕ)
parse text = some config

abbrev drop_ins : ServerWallConfig ℕ ℕ ℕ ℕ → List (Option Text)
drop_ins c = []

load_config-IsValid_example : IsValid parse_network config
unfolding load_config contains
load_config-IsValid_example =
    load_config-IsValid parse_network parse drop_ins (some (codes "[global]")) config refl
