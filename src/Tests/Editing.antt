-- ===== src/Tests/Editing.antt =====
-- The configuration editor with a drop-in file that defines a frontend, and without one.
use serverwall.Base.{
  ℕ, ◌≡◌, refl, sym, List, [], ◌∷◌, Option, none, some, false, if◌then◌else◌, Text, codes, text_eq,
  arith,
}
use serverwall.Core.Config.{
  ProtocolType, FrontendConfig, ServerWallConfig, ConfigError, ok, err, load_config,
}
use serverwall.Core.Config.Editor.{changed, add_named}
use serverwall.Core.Config.Editor.Operations.{add_frontend, remove_frontend, add_trusted_host}
use serverwall.Core.Config.Editor.Reloading.{
  with_host, with_frontend, add_trusted_host_unloadable, remove_frontend-add_frontend,
}

abbrev site : FrontendConfig
site = record {
  name = codes "site";
  protocol = ProtocolType.tcp;
  listen = codes "0.0.0.0:80" ∷ [];
  backend_pool = codes "web";
  tls_cert = none;
  tls_pfx = none;
  waf_enabled = false;
}

abbrev main_file : ServerWallConfig ℕ ℕ ℕ ℕ
main_file = record {
  frontend = [];
  backend_pool = record { name = codes "web"; backend = 1 ∷ [] } ∷ [];
  waf_ruleset = [];
  domain_overrides = [];
  scanners = [];
  dkim_domains = [];
  trusted_hosts = [];
}

abbrev drop_in : ServerWallConfig ℕ ℕ ℕ ℕ
drop_in = record main_file { frontend = site ∷ []; backend_pool = [] }

abbrev merged : ServerWallConfig ℕ ℕ ℕ ℕ
merged = record main_file { frontend = site ∷ [] }

abbrev edited : ServerWallConfig ℕ ℕ ℕ ℕ
edited = record merged { trusted_hosts = codes "10.0.0.1" ∷ [] }

abbrev parse_network : Text → Option ℕ
parse_network text = some 10

abbrev parse : Text → Option (ServerWallConfig ℕ ℕ ℕ ℕ)
parse text =
    if text_eq text (codes "main")
    then some main_file
    else if text_eq text (codes "drop-in")
    then some drop_in
    else some edited

abbrev drop_ins : ServerWallConfig ℕ ℕ ℕ ℕ → List (Option Text)
drop_ins c = some (codes "drop-in") ∷ []

abbrev print : ServerWallConfig ℕ ℕ ℕ ℕ → Text
print c = codes "written"

loaded : load_config parse_network parse drop_ins (some (codes "main")) ≡ ok merged
unfolding load_config
loaded = refl

host_added :
    add_trusted_host parse_network parse drop_ins print (codes "10.0.0.1") (some (codes "main"))
    ≡ changed (codes "written")
unfolding add_trusted_host load_config add_named
host_added = refl

read_back :
    (c d : ServerWallConfig ℕ ℕ ℕ ℕ)
    → load_config parse_network parse drop_ins (some (codes "main")) ≡ ok c
    → with_host parse_network parse drop_ins print (codes "10.0.0.1") c ≡ changed d
    → parse (print d) ≡ some d
unfolding add_named
read_back c d l m =
    let same : merged ≡ c = ground (arith, loaded, l) in
    let made : with_host parse_network parse drop_ins print (codes "10.0.0.1") merged ≡ changed d =
      rw (sym same) at m in
    let this : edited ≡ d = ground (arith, made) in rw this

add_trusted_host_unloadable_example :
    (e : ConfigError) × (load_config parse_network parse drop_ins (some (codes "written")) ≡ err e)
add_trusted_host_unloadable_example =
    add_trusted_host_unloadable parse_network parse drop_ins print (codes "10.0.0.1")
      (codes "drop-in") drop_in site [] (some (codes "main")) (codes "written") (λ _. refl) refl
      refl read_back host_added

abbrev parse_alone : Text → Option (ServerWallConfig ℕ ℕ ℕ ℕ)
parse_alone text = if text_eq text (codes "main") then some main_file else some merged

abbrev no_drop_ins : ServerWallConfig ℕ ℕ ℕ ℕ → List (Option Text)
no_drop_ins c = []

loaded_alone :
    load_config parse_network parse_alone no_drop_ins (some (codes "main")) ≡ ok main_file
unfolding load_config
loaded_alone = refl

frontend_added :
    add_frontend parse_network parse_alone no_drop_ins print site (some (codes "main"))
    ≡ changed (codes "written")
unfolding add_frontend load_config add_named
frontend_added = refl

read_alone :
    (d : ServerWallConfig ℕ ℕ ℕ ℕ)
    → with_frontend parse_network parse_alone no_drop_ins print site main_file ≡ changed d
    → parse_alone (print d) ≡ some d
unfolding add_named
read_alone d made = let this : merged ≡ d = ground (arith, made) in rw this

remove_frontend-add_frontend_example :
    remove_frontend parse_network parse_alone no_drop_ins print
      (codes "site")
      (some (codes "written"))
    ≡ changed (codes "written")
remove_frontend-add_frontend_example =
    remove_frontend-add_frontend parse_network parse_alone no_drop_ins print site
      (some (codes "main")) main_file (codes "written") (λ _. refl) read_alone loaded_alone
      frontend_added
