-- ===== src/Core/Config.antt =====
-- serverwall-core/src/config/loader.rs: merging and validation of a configuration, on the fields of
-- config/schema.rs that it reads. Parsing TOML is a parameter, as is `IpNetwork`'s parser; an error
-- is the finding instead of its text.
pub mod Checks
pub mod Validity
pub mod Editor
use serverwall.Base.{
  List, [], ◌∷◌, ◌++◌, Option, none, some, Bool, true, false, ◌&&◌, ◌||◌, not, if◌then◌else◌,
  is_empty, Text, codes, contains, contains_text, map,
}

pub data ProtocolType : Type 0 where
  https smtps smtp_starttls imaps tcp stratum : ProtocolType

pub record FrontendConfig : Type 0 where
  pub name : Text
  pub protocol : ProtocolType
  pub listen : List Text
  pub backend_pool : Text
  pub tls_cert : Option Text
  pub tls_pfx : Option Text
  pub waf_enabled : Bool

-- `backend` holds the backends of type `B`.
pub record BackendPoolConfig (B : Type 0) : Type 0 where
  pub name : Text
  pub backend : List B

pub record ScannerConfig : Type 0 where
  pub name : Text
  pub command : Text

-- Rule sets, domain overrides and DKIM domains are of types `W`, `O` and `D`.
pub record ServerWallConfig (B W O D : Type 0) : Type 0 where
  pub frontend : List FrontendConfig
  pub backend_pool : List (BackendPoolConfig B)
  pub waf_ruleset : List W
  pub domain_overrides : List O
  pub scanners : List ScannerConfig
  pub dkim_domains : List D
  pub trusted_hosts : List Text

pub data ConfigError : Type 0 where
  load_failed : ConfigError
  unknown_pool : Text → Text → ConfigError
  missing_tls : Text → ProtocolType → ConfigError
  no_listen : Text → ConfigError
  waf_without_https : Text → ProtocolType → ConfigError
  no_backends : Text → ConfigError
  duplicate_frontend : Text → ConfigError
  duplicate_pool : Text → ConfigError
  scanner_without_file : Text → ConfigError
  bad_trusted_host : Text → ConfigError

-- A check gives its error; the first one counts.
infixl 5 ◌or_else◌
abbrev pub ◌or_else◌ : Option ConfigError → Option ConfigError → Option ConfigError
(some e) or_else next = some e
none or_else next = next

abbrev pub fails_if : Bool → ConfigError → Option ConfigError
fails_if b e = if b then some e else none

unfoldable pub requires_tls : FrontendConfig → Bool
requires_tls frontend = elim frontend.protocol [
  | ProtocolType.https ↦ true
  | ProtocolType.smtps ↦ true
  | ProtocolType.smtp_starttls ↦ true
  | ProtocolType.imaps ↦ true
  | _ ↦ false
]

is_some : Option Text → Bool
is_some none = false
is_some (some _) = true

unfoldable pub has_tls_config : FrontendConfig → Bool
unfolding is_some
has_tls_config frontend = is_some frontend.tls_cert || is_some frontend.tls_pfx

is_https : ProtocolType → Bool
is_https ProtocolType.https = true
is_https _ = false

-- The checks on one frontend in their order.
pub check_frontend : List Text → FrontendConfig → Option ConfigError
unfolding requires_tls has_tls_config is_https
check_frontend pool_names f =
    fails_if (not (contains_text pool_names f.backend_pool)) (unknown_pool f.name f.backend_pool)
    or_else fails_if (requires_tls f && not (has_tls_config f)) (missing_tls f.name f.protocol)
    or_else fails_if (is_empty f.listen) (no_listen f.name)
    or_else fails_if (f.waf_enabled && not (is_https f.protocol))
        (waf_without_https f.name f.protocol)

pub check_each {ℓ} : {A : Type ℓ} → (A → Option ConfigError) → List A → Option ConfigError
check_each p [] = none
check_each p (x ∷ xs) = p x or_else check_each p xs

-- The first name that a set of the names before it holds already.
pub check_duplicates : (Text → ConfigError) → List Text → List Text → Option ConfigError
check_duplicates err [] seen = none
check_duplicates err (x ∷ xs) seen =
    fails_if (contains_text seen x) (err x) or_else check_duplicates err xs (x ∷ seen)

pub check_host : {Net : Type 0} → (Text → Option Net) → Text → Option ConfigError
check_host parse_network host = elim (parse_network host) [
  | none ↦ some (bad_trusted_host host)
  | some _ ↦ none
]

module _ {B W O D : Type 0} where
  abbrev pub pool_names : ServerWallConfig B W O D → List Text
  pool_names c = map (λ (p : BackendPoolConfig B). p.name) c.backend_pool

  abbrev pub frontend_names : ServerWallConfig B W O D → List Text
  frontend_names c = map (λ (f : FrontendConfig). f.name) c.frontend

  unfoldable pub merge_config :
      ServerWallConfig B W O D → ServerWallConfig B W O D → ServerWallConfig B W O D
  merge_config base fragment = record base {
    frontend = base.frontend ++ fragment.frontend;
    backend_pool = base.backend_pool ++ fragment.backend_pool;
    waf_ruleset = base.waf_ruleset ++ fragment.waf_ruleset;
    domain_overrides = base.domain_overrides ++ fragment.domain_overrides;
    dkim_domains = base.dkim_domains ++ fragment.dkim_domains;
  }

pub check_pool : {B : Type 0} → BackendPoolConfig B → Option ConfigError
check_pool p = fails_if (is_empty p.backend) (no_backends p.name)

pub check_scanner : ScannerConfig → Option ConfigError
check_scanner s = fails_if (not (contains (codes "{file}") s.command)) (scanner_without_file s.name)

module _ {B W O D Net : Type 0} (parse_network : Text → Option Net) where
  unfoldable pub validate_config : ServerWallConfig B W O D → Option ConfigError
  unfolding check_frontend check_each check_duplicates check_host check_pool check_scanner
  validate_config c =
      check_each (check_frontend (pool_names c)) c.frontend
      or_else check_each check_pool c.backend_pool
      or_else check_duplicates duplicate_frontend (frontend_names c) []
      or_else check_duplicates duplicate_pool (pool_names c) []
      or_else check_each check_scanner c.scanners
      or_else check_each (check_host parse_network) c.trusted_hosts

pub data Loaded (C : Type 0) : Type 0 where
  ok : C → Loaded C
  err : ConfigError → Loaded C

checked : {C : Type 0} → C → Option ConfigError → Loaded C
checked c none = ok c
checked c (some e) = err e

-- `parse` reads TOML; `drop_ins` gives the files of `conf.d` that the configuration names, in the
-- order of their names, with `none` for one that cannot be read.
module _ {B W O D Net : Type 0} (parse_network : Text → Option Net)
    (parse : Text → Option (ServerWallConfig B W O D))
    (drop_ins : ServerWallConfig B W O D → List (Option Text)) where
  parse_read : Option Text → Option (ServerWallConfig B W O D)
  parse_read none = none
  parse_read (some content) = parse content

  merge_parsed :
      Option (ServerWallConfig B W O D)
      → ServerWallConfig B W O D
      → Option (ServerWallConfig B W O D)
  unfolding merge_config
  merge_parsed none base = none
  merge_parsed (some fragment) base = some (merge_config base fragment)

  merge_files :
      List (Option Text) → Option (ServerWallConfig B W O D) → Option (ServerWallConfig B W O D)
  unfolding parse_read merge_parsed
  merge_files [] base = base
  merge_files (file ∷ files) none = none
  merge_files (file ∷ files) (some base) = merge_files files (merge_parsed (parse_read file) base)

  validated : Option (ServerWallConfig B W O D) → Loaded (ServerWallConfig B W O D)
  unfolding checked validate_config
  validated none = err load_failed
  validated (some c) = checked c (validate_config parse_network c)

  with_drop_ins : Option (ServerWallConfig B W O D) → Option (ServerWallConfig B W O D)
  unfolding merge_files
  with_drop_ins none = none
  with_drop_ins (some c) = merge_files (drop_ins c) (some c)

  unfoldable pub load_config : Option Text → Loaded (ServerWallConfig B W O D)
  unfolding with_drop_ins validated parse_read
  load_config file = validated (with_drop_ins (parse_read file))
