-- ===== src/Core/Config/Validity.antt =====
-- serverwall-core/src/config/loader.rs: validation against what a valid configuration is, and what
-- loading gives.
use serverwall.Base.{
  ◌≡◌, ◌↔◌, refl, List, [], Option, none, some, true, false, is_empty, Text, codes, contains, All,
}
use serverwall.Core.Config.{
  BackendPoolConfig, ScannerConfig, ServerWallConfig, ConfigError, ◌or_else◌, duplicate_frontend,
  duplicate_pool, check_frontend, check_each, check_duplicates, check_host, check_pool,
  check_scanner, pool_names, frontend_names, validate_config, ok, load_config, validated, checked,
  with_drop_ins, parse_read,
}
use serverwall.Core.Config.Checks.{
  Distinct, IsValidFrontend, or_else-none, all_four, check_each-none, check_frontend-none,
  check_duplicates-Distinct, check_pool-none, check_scanner-none, check_host-none,
}

-- What validation promises of a configuration.
pub record IsValid {B W O D Net : Type 0} (parse_network : Text → Option Net)
    (c : ServerWallConfig B W O D) : Type 0 where
  pub frontends : All (IsValidFrontend (pool_names c)) c.frontend
  pub pools : All (λ (p : BackendPoolConfig B). is_empty p.backend ≡ false) c.backend_pool
  pub frontend_distinct : Distinct (frontend_names c)
  pub pool_distinct : Distinct (pool_names c)
  pub commands : All (λ (s : ScannerConfig). contains (codes "{file}") s.command ≡ true) c.scanners
  pub hosts : All (λ host. (net : Net) × (parse_network host ≡ some net)) c.trusted_hosts

module _ {B W O D Net : Type 0} (parse_network : Text → Option Net)
    (c : ServerWallConfig B W O D) where
  abbrev part : Option ConfigError
  part =
      check_each (check_frontend (pool_names c)) c.frontend
      or_else check_each check_pool c.backend_pool
      or_else check_duplicates duplicate_frontend (frontend_names c) []
      or_else check_duplicates duplicate_pool (pool_names c) []

  part_lem : (part ≡ none) ↔ (
      All (IsValidFrontend (pool_names c)) c.frontend
      × All (λ (p : BackendPoolConfig B). is_empty p.backend ≡ false) c.backend_pool
      × Distinct (frontend_names c)
      × Distinct (pool_names c))
  part_lem =
      let four =
        all_four (check_each (check_frontend (pool_names c)) c.frontend)
          (check_each check_pool c.backend_pool)
          (check_duplicates duplicate_frontend (frontend_names c) [])
          (check_duplicates duplicate_pool (pool_names c) []) in
      let frontends = check_each-none _ (check_frontend-none (pool_names c)) c.frontend in
      let pools = check_each-none _ check_pool-none c.backend_pool in
      let names = check_duplicates-Distinct duplicate_frontend (frontend_names c) in
      let named = check_duplicates-Distinct duplicate_pool (pool_names c) in
      (
        λ h. let (a, b, k, l) = four.0 h in (frontends.0 a, pools.0 b, names.0 k, named.0 l),
        λ (a, b, k, l). four.1 (frontends.1 a, pools.1 b, names.1 k, named.1 l),
      )

  -- Validation finds no error exactly in a configuration whose frontends name existing pools, have a
  -- certificate where their protocol needs one, listen somewhere and use the firewall with HTTPS
  -- only, whose pools have backends, whose names of frontends and of pools are distinct, whose
  -- scanner commands contain the file's place and whose trusted hosts parse.
  pub validate_config-IsValid : (validate_config parse_network c ≡ none) ↔ IsValid parse_network c
  unfolding validate_config
  validate_config-IsValid =
      let scanners = check_each-none _ check_scanner-none c.scanners in
      let hosts = check_each-none _ (check_host-none parse_network) c.trusted_hosts in
      let last =
        or_else-none (part or_else check_each check_scanner c.scanners)
          (check_each (check_host parse_network) c.trusted_hosts) in
      let before = or_else-none part (check_each check_scanner c.scanners) in
      (
        λ h.
            let (e, f) = last.0 h in
            let (d, g) = before.0 e in
            let (a, b, k, l) = part_lem.0 d in
            record {
              frontends = a;
              pools = b;
              frontend_distinct = k;
              pool_distinct = l;
              commands = scanners.0 g;
              hosts = hosts.0 f;
            },
        λ v. last.1 (
          before.1 (
            part_lem.1 (v.frontends, v.pools, v.frontend_distinct, v.pool_distinct),
            scanners.1 v.commands,
          ),
          hosts.1 v.hosts,
        ),
      )

module _ {B W O D Net : Type 0} (parse_network : Text → Option Net)
    (parse : Text → Option (ServerWallConfig B W O D))
    (drop_ins : ServerWallConfig B W O D → List (Option Text)) where
  checked-ok :
      (c d : ServerWallConfig B W O D) (o : Option ConfigError)
      → checked c o ≡ ok d
      → (o ≡ none) × (c ≡ d)
  unfolding checked
  checked-ok c d none h = (refl, cc)
  checked-ok c d (some e) h = absurd (cc)

  validated-ok :
      (o : Option (ServerWallConfig B W O D)) (d : ServerWallConfig B W O D)
      → validated parse_network parse drop_ins o ≡ ok d
      → IsValid parse_network d
  unfolding validated
  validated-ok none d h = absurd (cc)
  validated-ok (some c) d h =
      let (a, b) = checked-ok c d _ h in (validate_config-IsValid parse_network d).0 (rw (← b) a)

  -- Every configuration that loads, with the files of its drop-in directory, is valid.
  pub load_config-IsValid :
      (file : Option Text) (c : ServerWallConfig B W O D)
      → load_config parse_network parse drop_ins file ≡ ok c
      → IsValid parse_network c
  unfolding load_config
  load_config-IsValid file c h =
      validated-ok
        (with_drop_ins parse_network parse drop_ins (parse_read parse_network parse drop_ins file))
        c h
