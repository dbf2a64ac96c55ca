-- ===== src/Core/Acl/Decisions.antt =====
-- What the access-control engine decides, against a description that does not follow the code's order
-- of tests.
use mathlib.Core.List.{Memᴰ}
use serverwall.Base.{
  ◌≡◌, refl, ◌↔◌, inl, inr, Bool, true, false, List, [], ◌∷◌, Option, none, some, arith, All,
  any-false, any-true, ap, Text, map, Bool-cases, Option-cases,
}
use serverwall.Core.Types.{IpAddr}
use serverwall.Core.Acl.{
  AclDecision, AclDefaultAction, AccessControlEngine, FrontendAclConfig, IpAclConfig, ok,
  bad_network, matches, blocks, unless_listed, evaluate, matcher_new, configured, engine,
  from_config, from_global_ip, ParseResult,
}

module _ {Net : Type 0} (net_contains : Net → IpAddr → Bool) where
  -- No network of a configured block list holds the address.
  abbrev pub Unblocked : Option (List Net) → IpAddr → Type 0
  Unblocked none ip = Unit
  Unblocked (some nets) ip = All (λ net. net_contains net ip ≡ false) nets

  -- A configured allow list has a network that holds the address; without one the default decides.
  abbrev pub Admitted : Option (List Net) → AclDefaultAction → IpAddr → Type 0
  Admitted none default ip = default ≡ AclDefaultAction.allow
  Admitted (some nets) default ip = (net : Net) × Memᴰ net nets × (net_contains net ip ≡ true)

  blocks-false :
      (bl : Option (List Net)) (ip : IpAddr) → (blocks net_contains bl ip ≡ false) ↔ Unblocked bl ip
  unfolding blocks
  blocks-false none ip = (λ _. tt, λ _. refl)
  blocks-false (some nets) ip = any-false (λ net. net_contains net ip) nets

  unless_listed_allow :
      (al : Option (List Net)) (default : AclDefaultAction) (ip : IpAddr)
      → (unless_listed net_contains al default ip ≡ AclDecision.allow) ↔ Admitted al default ip
  unfolding unless_listed matches
  unless_listed_allow none default ip = (λ h. ground arith, λ h. ground arith)
  unless_listed_allow (some nets) default ip =
      let (to, from) = any-true (λ net. net_contains net ip) nets in
      (λ h. to (ground arith), λ h. rw (from h))

  -- An address is allowed exactly when no network of the block list holds it and, where an allow
  -- list is configured, some network of that holds it, and otherwise the default action allows.
  pub evaluate_allow :
      (e : AccessControlEngine Net) (ip : IpAddr)
      → (evaluate net_contains e ip ≡ AclDecision.allow)
        ↔ (Unblocked e.block_list ip × Admitted e.allow_list e.default_action ip)
  unfolding evaluate
  evaluate_allow e ip =
      let (free, blocked) = blocks-false e.block_list ip in
      let (listed, unlisted) = unless_listed_allow e.allow_list e.default_action ip in
      elim (Bool-cases (blocks net_contains e.block_list ip)) [
        | inl b ↦ (
          λ h. absurd (ground arith),
          λ (u, a). let clear : blocks net_contains e.block_list ip ≡ false = blocked u in cc,
        )
        | inr b ↦ (λ h. (free b, listed (rw b at h)), λ (u, a). rw b (unlisted a))
      ]

module _ {Net : Type 0} (parse_network : Text → Option Net) where
  -- The entries of a list that is not empty all parse, and their networks are kept in order.
  abbrev pub Configured : List Text → Option (List Net) → Type 0
  Configured [] o = o ≡ none
  Configured (c ∷ cs) o =
      (nets : List Net) × (o ≡ some nets) × (map parse_network (c ∷ cs) ≡ map some nets)

  matcher_new-ok :
      (cidrs : List Text) (nets : List Net)
      → matcher_new parse_network cidrs ≡ ok nets
      → map parse_network cidrs ≡ map some nets
  unfolding matcher_new
  matcher_new-ok [] nets h = let e : nets ≡ [] = ground arith in rw e
  matcher_new-ok (c ∷ cs) nets h =
      go (parse_network c) (matcher_new parse_network cs) refl refl (matcher_new-ok cs)
    where
      go :
          (o : Option Net) (r : ParseResult (List Net))
          → parse_network c ≡ o
          → matcher_new parse_network cs ≡ r
          → ((ns : List Net)
              → matcher_new parse_network cs ≡ ok ns
              → map parse_network cs ≡ map some ns)
          → map parse_network (c ∷ cs) ≡ map some nets
      go none r p q ih = absurd (ground arith)
      go (some net) bad_network p q ih = absurd (ground arith)
      go (some net) (ok ns) p q ih =
          let e : nets ≡ net ∷ ns = ground arith in rw (e, p) (ap (◌∷◌ (some net)) (ih ns q))

  matcher_new-bad :
      (cidrs : List Text)
      → matcher_new parse_network cidrs ≡ bad_network
      → (c : Text) × Memᴰ c cidrs × (parse_network c ≡ none)
  unfolding matcher_new
  matcher_new-bad [] h = absurd (cc)
  matcher_new-bad (c ∷ cs) h = elim (Option-cases (parse_network c)) [
    | inl bad ↦ (c, Memᴰ.head refl, bad)
    | inr (net, good) ↦ let (x, m, e) = matcher_new-bad cs (ground arith) in (x, Memᴰ.tail m, e)
  ]

  configured-ok :
      (cidrs : List Text) (o : Option (List Net))
      → configured parse_network cidrs ≡ ok o
      → Configured cidrs o
  unfolding configured
  configured-ok [] o h = ground arith
  configured-ok (c ∷ cs) o h = go (matcher_new parse_network (c ∷ cs)) refl
    where
      go :
          (r : ParseResult (List Net))
          → matcher_new parse_network (c ∷ cs) ≡ r
          → Configured (c ∷ cs) o
      go bad_network e = absurd (ground arith)
      go (ok nets) e = (nets, ground arith, matcher_new-ok (c ∷ cs) nets e)

  configured-bad :
      (cidrs : List Text)
      → configured parse_network cidrs ≡ bad_network
      → (c : Text) × Memᴰ c cidrs × (parse_network c ≡ none)
  unfolding configured
  configured-bad [] h = absurd (cc)
  configured-bad (c ∷ cs) h = matcher_new-bad (c ∷ cs) (ground arith)

  engine-ok :
      (blocked allowed : List Text) (default : AclDefaultAction) (e : AccessControlEngine Net)
      → engine parse_network blocked allowed default ≡ ok e
      → Configured blocked e.block_list
        × Configured allowed e.allow_list
        × (e.default_action ≡ default)
  unfolding engine
  engine-ok blocked allowed default e h = go _ _ refl refl
    where
      go :
          (b a : ParseResult (Option (List Net)))
          → configured parse_network blocked ≡ b
          → configured parse_network allowed ≡ a
          → Configured blocked e.block_list
            × Configured allowed e.allow_list
            × (e.default_action ≡ default)
      go bad_network a p q = absurd (ground arith)
      go (ok bl) bad_network p q = absurd (ground arith)
      go (ok bl) (ok al) p q =
          let same_bl : e.block_list ≡ bl = ground arith in
          let same_al : e.allow_list ≡ al = ground arith in
          (
            configured-ok blocked e.block_list (cc),
            configured-ok allowed e.allow_list (cc),
            ground arith,
          )

  -- A frontend's engine keeps the networks of both lists in order, a list left empty counting as
  -- not configured, and the default action.
  pub from_config-ok :
      (c : FrontendAclConfig) (e : AccessControlEngine Net)
      → from_config parse_network c ≡ ok e
      → Configured c.block_list e.block_list
        × Configured c.allow_list e.allow_list
        × (e.default_action ≡ c.default_action)
  unfolding from_config
  from_config-ok c e h = engine-ok c.block_list c.allow_list c.default_action e h

  pub from_global_ip-ok :
      (c : IpAclConfig) (e : AccessControlEngine Net)
      → from_global_ip parse_network c ≡ ok e
      → Configured c.block e.block_list
        × Configured c.allow e.allow_list
        × (e.default_action ≡ AclDefaultAction.allow)
  unfolding from_global_ip
  from_global_ip-ok c e h = engine-ok c.block c.allow AclDefaultAction.allow e h
