-- ===== src/Relay/TrustedHosts/Entries.antt =====
-- Which hosts the entries of the configuration trust.
use mathlib.Core.List.{Memᴰ}
use serverwall.Base.{
  ◌≡◌, refl, ◌↔◌, ◌⊎◌, inl, inr, Bool, true, false, ◌||◌, List, [], ◌∷◌, Option, none, some, arith,
  Text, text_eq_iff, trim, any, ap,
}
use serverwall.Core.Types.{IpAddr, v4, v6}
use serverwall.Relay.TrustedHosts.{TrustedHosts, add_entry, new_trusted, ip_eq, is_trusted}

ip_eq_iff : (x y : IpAddr) → (ip_eq x y ≡ true) ↔ (x ≡ y)
unfolding ip_eq
ip_eq_iff (v4 a b c d) (v4 e f g h) = (λ k. ground arith, λ k. ground arith)
ip_eq_iff (v6 xs) (v6 ys) = (λ k. ap v6 ((text_eq_iff xs ys).0 k), λ k. (text_eq_iff xs ys).1 (cc))
ip_eq_iff (v4 a b c d) (v6 ys) = (λ k. absurd (cc), λ k. absurd (cc))
ip_eq_iff (v6 xs) (v4 e f g h) = (λ k. absurd (cc), λ k. absurd (cc))

-- The network of an entry holds the address, or the entry is no network but the address itself.
abbrev pub Covers :
    {Net : Type 0} → (Net → IpAddr → Bool) → Option Net → Option IpAddr → IpAddr → Type 0
Covers net_contains (some net) single ip = net_contains net ip ≡ true
Covers net_contains none (some single) ip = single ≡ ip
Covers net_contains none none ip = ⊥

or_middle : (p q r : Bool) → ((p || (q || r)) ≡ true) ↔ ((q ≡ true) ⊎ ((p || r) ≡ true))
or_middle true q r = (λ h. inr refl, λ h. refl)
or_middle false true r = (λ h. inl refl, λ h. refl)
or_middle false false r = (λ h. inr h, λ h. ground arith)

or_first : (q p r : Bool) → (((q || p) || r) ≡ true) ↔ ((q ≡ true) ⊎ ((p || r) ≡ true))
or_first true p r = (λ h. inl refl, λ h. refl)
or_first false p r = (λ h. inr h, λ h. ground arith)

module _ {Net : Type 0} (net_contains : Net → IpAddr → Bool) where
  add_entry_iff :
      (o : Option Net) (single : Option IpAddr) (t : TrustedHosts Net) (ip : IpAddr)
      → (is_trusted net_contains (add_entry o single t) ip ≡ true)
        ↔ (Covers net_contains o single ip ⊎ (is_trusted net_contains t ip ≡ true))
  unfolding add_entry is_trusted
  add_entry_iff (some net) single t ip =
      or_middle (any (λ x. ip_eq x ip) t.single_ips) (net_contains net ip)
        (any (λ n. net_contains n ip) t.networks)
  add_entry_iff none (some single) t ip =
      let (to, from) =
        or_first (ip_eq single ip) (any (λ x. ip_eq x ip) t.single_ips)
          (any (λ n. net_contains n ip) t.networks) in
      let (same, eq) = ip_eq_iff single ip in
      (
        λ h. elim (to h) [ inl e ↦ inl (same e) | inr k ↦ inr k ],
        λ h. elim h [ inl e ↦ from (inl (eq e)) | inr k ↦ from (inr k) ],
      )
  add_entry_iff none none t ip = (λ h. inr h, λ h. elim h [ inl e ↦ absurd e | inr k ↦ k ])

module _ {Net : Type 0} (net_contains : Net → IpAddr → Bool) (parse_network : Text → Option Net)
    (parse_ip : Text → Option IpAddr) where
  -- Some entry is a network that holds the address, or is no network but the address itself.
  abbrev pub Listed : List Text → IpAddr → Type 0
  Listed entries ip =
      (entry : Text) × Memᴰ entry entries
      × Covers net_contains (parse_network (trim entry)) (parse_ip (trim entry)) ip

  -- An address is trusted exactly when an entry of the configuration covers it.
  pub is_trusted-Listed :
      (require_tls : Bool) (entries : List Text) (ip : IpAddr)
      → (is_trusted net_contains (new_trusted parse_network parse_ip require_tls entries) ip ≡ true)
        ↔ Listed entries ip
  unfolding new_trusted is_trusted
  is_trusted-Listed require_tls [] ip = (λ h. absurd (cc), λ (e, mem, c). elim mem [ ])
  is_trusted-Listed require_tls (entry ∷ entries) ip =
      let (to, from) =
        add_entry_iff net_contains (parse_network (trim entry)) (parse_ip (trim entry))
          (new_trusted parse_network parse_ip require_tls entries) ip in
      let (rest, back) = is_trusted-Listed require_tls entries ip in
      (
        λ h. elim (to h) [
          | inl c ↦ (entry, Memᴰ.head refl, c)
          | inr k ↦ let (e, mem, c) = rest k in (e, Memᴰ.tail mem, c)
        ],
        λ (e, mem, c). elim mem [
          | Memᴰ.head q ↦ from (inl (rw q at c))
          | Memᴰ.tail m ↦ from (inr (back (e, m, c)))
        ],
      )
