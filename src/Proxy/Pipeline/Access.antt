-- ===== src/Proxy/Pipeline/Access.antt =====
-- Who passes the access checks, and who counts as globally allowed.
use serverwall.Base.{◌≡◌, refl, ◌↔◌, Bool, true, [], Option, none, some, arith, Text}
use serverwall.Core.Types.{IpAddr}
use serverwall.Core.Acl.{
  AclDecision, AccessControlEngine, GeoEngine, IpAclConfig, ok, evaluate, check_country,
  from_global_ip,
}
use serverwall.Core.Acl.Decisions.{Unblocked, Admitted, evaluate_allow, from_global_ip-ok}
use serverwall.Proxy.Pipeline.{
  RequestPipeline, Result, unless_denied, check_geo, check_global, check_acl, globally_allowed,
  is_globally_allowed,
}

unless_denied_ok :
    (d : AclDecision) (ip : IpAddr) (rest : Result (Unit {0}))
    → (unless_denied d ip rest ≡ Result.ok tt) ↔ ((d ≡ AclDecision.allow) × (rest ≡ Result.ok tt))
unfolding unless_denied
unless_denied_ok AclDecision.allow ip rest = (λ h. (refl, h), λ (_, h). h)
unless_denied_ok AclDecision.deny ip rest = (λ h. absurd (cc), λ (e, h). absurd (cc))

module _ {Net : Type 0} (net_contains : Net → IpAddr → Bool)
    (country_of : IpAddr → Option Text) where
  -- An engine that is configured lets the address through, as the block and allow lists say.
  abbrev pub Passes : AccessControlEngine Net → IpAddr → Type 0
  Passes e ip =
      Unblocked net_contains e.block_list ip
      × Admitted net_contains e.allow_list e.default_action ip

  abbrev pub PassesGlobal : Option (AccessControlEngine Net) → IpAddr → Type 0
  PassesGlobal none ip = Unit
  PassesGlobal (some e) ip = Passes e ip

  abbrev pub PassesGeo : Option GeoEngine → IpAddr → Type 0
  PassesGeo none ip = Unit
  PassesGeo (some g) ip = check_country country_of g ip ≡ AclDecision.allow

  geo_iff :
      (g : Option GeoEngine) (ip : IpAddr)
      → (check_geo country_of g ip ≡ Result.ok tt) ↔ PassesGeo g ip
  unfolding check_geo unless_denied
  geo_iff none ip = (λ _. tt, λ _. refl)
  geo_iff (some g) ip = (λ h. ground arith, λ h. ground arith)

  global_iff :
      (g : Option (AccessControlEngine Net)) (ip : IpAddr) (rest : Result (Unit {0}))
      → (check_global net_contains g ip rest ≡ Result.ok tt)
        ↔ (PassesGlobal g ip × (rest ≡ Result.ok tt))
  unfolding check_global
  global_iff none ip rest = (λ h. (tt, h), λ (_, h). h)
  global_iff (some g) ip rest =
      let (to, from) = evaluate_allow net_contains g ip in
      let (into, back) = unless_denied_ok (evaluate net_contains g ip) ip rest in
      (λ h. let (allowed, r) = into h in (to allowed, r), λ (passes, r). back (from passes, r))

  -- The address passes exactly when the global engine, if any, and the frontend's engine let it
  -- through, and the country rules, if any, allow it.
  pub check_acl_ok :
      {S : Type 0} (p : RequestPipeline Net S) (ip : IpAddr)
      → (check_acl net_contains country_of p ip ≡ Result.ok tt)
        ↔ (PassesGlobal p.global_ip_acl ip × Passes p.acl ip × PassesGeo p.geo ip)
  unfolding check_acl
  check_acl_ok p ip =
      let (gto, gfrom) = global_iff p.global_ip_acl ip _ in
      let (into, back) =
        unless_denied_ok (evaluate net_contains p.acl ip) ip (check_geo country_of p.geo ip) in
      let (to, from) = evaluate_allow net_contains p.acl ip in
      let (geo_to, geo_from) = geo_iff p.geo ip in
      (
        λ h. let (global, r) = gto h in let (allowed, g) = into r in (global, to allowed, geo_to g),
        λ (global, passes, g). gfrom (global, back (from passes, geo_from g)),
      )

globally_allowed-some :
    {Net : Type 0} (net_contains : Net → IpAddr → Bool) (e : AccessControlEngine Net) (ip : IpAddr)
    → evaluate net_contains e ip ≡ AclDecision.allow
    → globally_allowed net_contains (some e) ip ≡ true
unfolding globally_allowed
globally_allowed-some net_contains e ip h = rw (h, globally_allowed)

module _ {Net : Type 0} (net_contains : Net → IpAddr → Bool)
    (parse_network : Text → Option Net) where
  -- A global configuration that lists only addresses to block makes every address outside its
  -- blocked networks globally allowed, although no allow list names it.
  pub is_globally_allowed_unlisted :
      {S : Type 0} (p : RequestPipeline Net S) (c : IpAclConfig) (e : AccessControlEngine Net)
      (ip : IpAddr)
      → c.allow ≡ []
      → from_global_ip parse_network c ≡ ok e
      → p.global_ip_acl ≡ some e
      → Unblocked net_contains e.block_list ip
      → is_globally_allowed net_contains p ip ≡ true
  unfolding is_globally_allowed
  is_globally_allowed_unlisted p c e ip unlisted made installed free =
      let (blocking, allowing, default) = from_global_ip-ok parse_network c e made in
      let no_list : e.allow_list ≡ none = rw unlisted at allowing in
      let allowed : evaluate net_contains e ip ≡ AclDecision.allow =
        (evaluate_allow net_contains e ip).1 (free, rw no_list default) in
      rw installed (globally_allowed-some net_contains e ip allowed)
