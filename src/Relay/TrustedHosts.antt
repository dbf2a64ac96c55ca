-- ===== src/Relay/TrustedHosts.antt =====
-- serverwall-relay/src/trusted_hosts.rs. The parsers of networks and addresses and the membership
-- test of a network are parameters.
pub mod Entries
use serverwall.Base.{
  ℕ, Bool, true, false, ◌||◌, ◌&&◌, List, [], ◌∷◌, Option, none, some, Text, text_eq, trim, any,
  ◌==◌,
}
use serverwall.Core.Types.{IpAddr, v4, v6}

pub record TrustedHosts (Net : Type 0) : Type 0 where
  pub networks : List Net
  pub single_ips : List IpAddr
  pub require_tls : Bool

-- An entry is a network, or else an address, or else ignored.
add_entry : {Net : Type 0} → Option Net → Option IpAddr → TrustedHosts Net → TrustedHosts Net
add_entry (some net) ip t = record t { networks = net ∷ t.networks }
add_entry none (some ip) t = record t { single_ips = ip ∷ t.single_ips }
add_entry none none t = t

module _ {Net : Type 0} (parse_network : Text → Option Net) (parse_ip : Text → Option IpAddr) where
  unfoldable pub new_trusted : Bool → List Text → TrustedHosts Net
  unfolding add_entry
  new_trusted require_tls [] = record { networks = []; single_ips = []; require_tls = require_tls }
  new_trusted require_tls (entry ∷ entries) =
      add_entry (parse_network (trim entry)) (parse_ip (trim entry))
        (new_trusted require_tls entries)

unfoldable pub ip_eq : IpAddr → IpAddr → Bool
ip_eq (v4 a b c d) (v4 e f g h) = a == e && (b == f && (c == g && d == h))
ip_eq (v6 xs) (v6 ys) = text_eq xs ys
ip_eq (v4 a b c d) (v6 ys) = false
ip_eq (v6 xs) (v4 e f g h) = false

unfoldable pub is_trusted :
    {Net : Type 0} → (Net → IpAddr → Bool) → TrustedHosts Net → IpAddr → Bool
unfolding ip_eq
is_trusted net_contains t ip =
    any (λ single. ip_eq single ip) t.single_ips || any (λ net. net_contains net ip) t.networks
