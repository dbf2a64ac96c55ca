-- ===== src/Core/Config/Editor/Operations.antt =====
-- config/editor.rs, operation by operation.
use serverwall.Base.{List, Option, Text}
use serverwall.Core.Config.{FrontendConfig, BackendPoolConfig, ScannerConfig, ServerWallConfig}
use serverwall.Core.Config.Editor.{
  Change, map_change, Named, frontends, pools, scanners, hosts, add_named, remove_named,
  update_named, on_pool, edit,
}

module _ {B W O D Net : Type 0} (parse_network : Text → Option Net)
    (parse : Text → Option (ServerWallConfig B W O D))
    (drop_ins : ServerWallConfig B W O D → List (Option Text))
    (print : ServerWallConfig B W O D → Text) where
  on_frontends : (List FrontendConfig → Change (List FrontendConfig)) → Option Text → Change Text
  unfolding edit
  on_frontends f =
      edit parse_network parse drop_ins print
        (λ c. map_change (λ fs. record c { frontend = fs }) (f c.frontend))

  on_pools :
      (List (BackendPoolConfig B) → Change (List (BackendPoolConfig B))) → Option Text → Change Text
  unfolding edit
  on_pools f =
      edit parse_network parse drop_ins print
        (λ c. map_change (λ ps. record c { backend_pool = ps }) (f c.backend_pool))

  on_rulesets : (List W → Change (List W)) → Option Text → Change Text
  unfolding edit
  on_rulesets f =
      edit parse_network parse drop_ins print
        (λ c. map_change (λ ws. record c { waf_ruleset = ws }) (f c.waf_ruleset))

  on_overrides : (List O → Change (List O)) → Option Text → Change Text
  unfolding edit
  on_overrides f =
      edit parse_network parse drop_ins print
        (λ c. map_change (λ os. record c { domain_overrides = os }) (f c.domain_overrides))

  on_dkim : (List D → Change (List D)) → Option Text → Change Text
  unfolding edit
  on_dkim f =
      edit parse_network parse drop_ins print
        (λ c. map_change (λ ds. record c { dkim_domains = ds }) (f c.dkim_domains))

  on_scanners : (List ScannerConfig → Change (List ScannerConfig)) → Option Text → Change Text
  unfolding edit
  on_scanners f =
      edit parse_network parse drop_ins print
        (λ c. map_change (λ ss. record c { scanners = ss }) (f c.scanners))

  on_hosts : (List Text → Change (List Text)) → Option Text → Change Text
  unfolding edit
  on_hosts f =
      edit parse_network parse drop_ins print
        (λ c. map_change (λ hs. record c { trusted_hosts = hs }) (f c.trusted_hosts))

  unfoldable pub add_frontend : FrontendConfig → Option Text → Change Text
  unfolding on_frontends
  add_frontend frontend = on_frontends (add_named frontends frontend)

  unfoldable pub remove_frontend : Text → Option Text → Change Text
  unfolding on_frontends
  remove_frontend name = on_frontends (remove_named frontends name)

  unfoldable pub update_frontend : Text → FrontendConfig → Option Text → Change Text
  unfolding on_frontends
  update_frontend name frontend = on_frontends (update_named frontends name frontend)

  unfoldable pub add_backend_pool : BackendPoolConfig B → Option Text → Change Text
  unfolding on_pools
  add_backend_pool pool = on_pools (add_named pools pool)

  unfoldable pub remove_backend_pool : Text → Option Text → Change Text
  unfolding on_pools
  remove_backend_pool name = on_pools (remove_named pools name)

  unfoldable pub update_backend_pool : Text → BackendPoolConfig B → Option Text → Change Text
  unfolding on_pools
  update_backend_pool name pool = on_pools (update_named pools name pool)

  unfoldable pub add_backend : Named B → Text → B → Option Text → Change Text
  unfolding on_pools
  add_backend n pool_name backend = on_pools (on_pool (add_named n backend) pool_name)

  unfoldable pub remove_backend : Named B → Text → Text → Option Text → Change Text
  unfolding on_pools
  remove_backend n pool_name name = on_pools (on_pool (remove_named n name) pool_name)

  unfoldable pub add_waf_ruleset : Named W → W → Option Text → Change Text
  unfolding on_rulesets
  add_waf_ruleset n rules = on_rulesets (add_named n rules)

  unfoldable pub remove_waf_ruleset : Named W → Text → Option Text → Change Text
  unfolding on_rulesets
  remove_waf_ruleset n name = on_rulesets (remove_named n name)

  unfoldable pub update_waf_ruleset : Named W → Text → W → Option Text → Change Text
  unfolding on_rulesets
  update_waf_ruleset n name rules = on_rulesets (update_named n name rules)

  unfoldable pub add_dkim_domain : Named D → D → Option Text → Change Text
  unfolding on_dkim
  add_dkim_domain n domain = on_dkim (add_named n domain)

  unfoldable pub remove_dkim_domain : Named D → Text → Option Text → Change Text
  unfolding on_dkim
  remove_dkim_domain n domain = on_dkim (remove_named n domain)

  unfoldable pub add_antispam_scanner : ScannerConfig → Option Text → Change Text
  unfolding on_scanners
  add_antispam_scanner scanner = on_scanners (add_named scanners scanner)

  unfoldable pub remove_antispam_scanner : Text → Option Text → Change Text
  unfolding on_scanners
  remove_antispam_scanner name = on_scanners (remove_named scanners name)

  unfoldable pub add_trusted_host : Text → Option Text → Change Text
  unfolding on_hosts
  add_trusted_host host = on_hosts (add_named hosts host)

  unfoldable pub remove_trusted_host : Text → Option Text → Change Text
  unfolding on_hosts
  remove_trusted_host host = on_hosts (remove_named hosts host)

  unfoldable pub add_antispam_domain_override : Named O → O → Option Text → Change Text
  unfolding on_overrides
  add_antispam_domain_override n entry = on_overrides (add_named n entry)

  unfoldable pub update_antispam_domain_override : Named O → Text → O → Option Text → Change Text
  unfolding on_overrides
  update_antispam_domain_override n domain entry = on_overrides (update_named n domain entry)

  unfoldable pub remove_antispam_domain_override : Named O → Text → Option Text → Change Text
  unfolding on_overrides
  remove_antispam_domain_override n domain = on_overrides (remove_named n domain)
