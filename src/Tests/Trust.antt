-- ===== src/Tests/Trust.antt =====
-- One network and one address, with an entry that is neither.
use serverwall.Base.{
  ℕ, ◌≡◌, ◌↔◌, Bool, true, false, List, [], ◌∷◌, Option, none, some, Text, codes, text_eq,
  if◌then◌else◌, ◌==◌,
}
use serverwall.Core.Types.{IpAddr, v4}
use serverwall.Relay.TrustedHosts.{is_trusted, new_trusted}
use serverwall.Relay.TrustedHosts.Entries.{Listed, is_trusted-Listed}

abbrev net_contains : ℕ → IpAddr → Bool
net_contains net (v4 a b c d) = net == a
net_contains net _ = false

abbrev parse_network : Text → Option ℕ
parse_network text = if text_eq text (codes "10.0.0.0/8") then some 10 else none

abbrev parse_ip : Text → Option IpAddr
parse_ip text = if text_eq text (codes "172.16.0.1") then some (v4 172 16 0 1) else none

abbrev entries : List Text
entries = codes " 10.0.0.0/8" ∷ codes "172.16.0.1" ∷ codes "localhost" ∷ []

is_trusted-Listed_example :
    (is_trusted net_contains (new_trusted parse_network parse_ip false entries) (v4 172 16 0 1)
      ≡ true)
    ↔ Listed net_contains parse_network parse_ip entries (v4 172 16 0 1)
is_trusted-Listed_example =
    is_trusted-Listed net_contains parse_network parse_ip false entries (v4 172 16 0 1)
