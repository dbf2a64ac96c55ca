-- ===== src/Core/Acl.antt =====
-- serverwall-core/src/acl: the IP matcher, the two lists, the engine, the path rules and the
-- country rules. The crate `ip_network` is a parameter: a type of networks, its parser and its
-- membership test; so are the `regex` crate's compiler and matcher, and the country database.
pub mod Decisions
pub mod Rules
use serverwall.Base.{
  Bool, true, false, List, [], ◌∷◌, ◌++◌, Option, none, some, any, if◌then◌else◌, is_empty, Text,
  codes, text_eq, contains_text, to_lowercase, to_uppercase, map, not,
}
use serverwall.Core.Types.{IpAddr}

pub data AclDecision : Type 0 where
  allow deny : AclDecision

-- `AclDefaultAction` of config/schema.rs.
pub data AclDefaultAction : Type 0 where
  allow deny : AclDefaultAction

-- The error of a network that does not parse.
pub data ParseResult (A : Type 0) : Type 0 where
  ok : A → ParseResult A
  bad_network : ParseResult A

abbrev pub bind : {A B : Type 0} → ParseResult A → (A → ParseResult B) → ParseResult B
bind (ok a) f = f a
bind bad_network f = bad_network

pub record FrontendAclConfig : Type 0 where
  pub block_list : List Text
  pub allow_list : List Text
  pub default_action : AclDefaultAction

pub record IpAclConfig : Type 0 where
  pub block : List Text
  pub allow : List Text

-- An engine over the networks of type `Net`: a list that is configured is a matcher.
pub record AccessControlEngine (Net : Type 0) : Type 0 where
  pub block_list : Option (List Net)
  pub allow_list : Option (List Net)
  pub default_action : AclDefaultAction

abbrev default_decision : AclDefaultAction → AclDecision
default_decision AclDefaultAction.allow = AclDecision.allow
default_decision AclDefaultAction.deny = AclDecision.deny

module _ {Net : Type 0} (net_contains : Net → IpAddr → Bool) where
  -- `IpMatcher::matches`, and `contains` of the two lists.
  unfoldable pub matches : List Net → IpAddr → Bool
  matches networks ip = any (λ net. net_contains net ip) networks

  blocks : Option (List Net) → IpAddr → Bool
  unfolding matches
  blocks none ip = false
  blocks (some bl) ip = matches bl ip

  unless_listed : Option (List Net) → AclDefaultAction → IpAddr → AclDecision
  unfolding matches
  unless_listed none default ip = default_decision default
  unless_listed (some al) default ip = if matches al ip then AclDecision.allow else AclDecision.deny

  unfoldable pub evaluate : AccessControlEngine Net → IpAddr → AclDecision
  unfolding blocks unless_listed
  evaluate e ip =
      if blocks e.block_list ip
      then AclDecision.deny
      else unless_listed e.allow_list e.default_action ip

  unfoldable pub is_allowed : AccessControlEngine Net → IpAddr → Bool
  unfolding evaluate
  is_allowed e ip = elim (evaluate e ip) [ AclDecision.allow ↦ true | AclDecision.deny ↦ false ]

module _ {Net : Type 0} (parse_network : Text → Option Net) where
  -- `IpMatcher::new`: the first entry that does not parse is the error.
  unfoldable pub matcher_new : List Text → ParseResult (List Net)
  matcher_new [] = ok []
  matcher_new (cidr ∷ cidrs) = elim (parse_network cidr) [
    | none ↦ bad_network
    | some net ↦ bind (matcher_new cidrs) (λ nets. ok (net ∷ nets))
  ]

  configured : List Text → ParseResult (Option (List Net))
  unfolding matcher_new
  configured [] = ok none
  configured (c ∷ cs) = bind (matcher_new (c ∷ cs)) (λ nets. ok (some nets))

  engine : List Text → List Text → AclDefaultAction → ParseResult (AccessControlEngine Net)
  unfolding configured
  engine blocked allowed default = bind (configured blocked) (λ bl.
      bind (configured allowed)
        (λ al. ok (record { block_list = bl; allow_list = al; default_action = default })))

  unfoldable pub from_config : FrontendAclConfig → ParseResult (AccessControlEngine Net)
  unfolding engine
  from_config c = engine c.block_list c.allow_list c.default_action

  unfoldable pub from_global_ip : IpAclConfig → ParseResult (AccessControlEngine Net)
  unfolding engine
  from_global_ip c = engine c.block c.allow AclDefaultAction.allow

-- Path rules: the compiled patterns of a rule, and whether it blocks.
pub record PathPatternConfig : Type 0 where
  pub patterns : List Text
  pub action : Text

module _ {Regex : Type 0} (compile : Text → Option Regex) where
  compile_all : List Text → List Regex
  compile_all [] = []
  compile_all (raw ∷ raws) = elim (compile raw) [
    | none ↦ compile_all raws
    | some re ↦ re ∷ compile_all raws
  ]

  unfoldable pub path_acl : List PathPatternConfig → List (List Regex × Bool)
  unfolding compile_all
  path_acl [] = []
  path_acl (entry ∷ entries) =
      if is_empty (compile_all entry.patterns)
      then path_acl entries
      else (compile_all entry.patterns, text_eq (to_lowercase entry.action) (codes "block"))
        ∷ path_acl entries

module _ {Regex : Type 0} (is_match : Regex → Text → Bool) where
  unfoldable pub check_path : List (List Regex × Bool) → Text → Option AclDecision
  check_path [] path = none
  check_path ((patterns, block) ∷ rules) path =
      if any (λ re. is_match re path) patterns
      then some (if block then AclDecision.deny else AclDecision.allow)
      else check_path rules path

-- Country rules. The sets hold upper-case codes; `country_of` is the database's answer.
pub record GeoEngine : Type 0 where
  pub block_countries : List Text
  pub allow_countries : List Text

unfoldable pub geo_load : List Text → List Text → GeoEngine
geo_load blocked allowed = record {
  block_countries = map to_uppercase blocked;
  allow_countries = map to_uppercase allowed;
}

known_in : Option Text → List Text → Bool
known_in none set = false
known_in (some cc) set = contains_text set cc

module _ (country_of : IpAddr → Option Text) where
  unfoldable pub lookup_country : IpAddr → Option Text
  lookup_country ip = elim (country_of ip) [ none ↦ none | some cc ↦ some (to_uppercase cc) ]

  unfoldable pub check_country : GeoEngine → IpAddr → AclDecision
  unfolding lookup_country known_in
  check_country g ip =
      if not (is_empty g.allow_countries)
      then (if known_in (lookup_country ip) g.allow_countries
          then AclDecision.allow
          else AclDecision.deny)
      else if not (is_empty g.block_countries)
      then (if known_in (lookup_country ip) g.block_countries
          then AclDecision.deny
          else AclDecision.allow)
      else AclDecision.allow
