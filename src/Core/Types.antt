-- ===== src/Core/Types.antt =====
-- serverwall-core/src/types.rs: addresses, a backend's runtime state, the connection guard.
-- Shared `Arc<Backend>` values are the positions of a list of backends; an atomic counter is a
-- number with the wrap of a 64-bit `usize`.

pub mod Guards
use serverwall.Base.{
  ℕ, zero, suc, ◌+◌, ◌-◌, ◌/◌, ◌%◌, Bool, true, false, ◌&&◌, List, [], ◌∷◌, ◌++◌, Option, none,
  some, ltb, if◌then◌else◌, Text, codes,
}

pub data IpAddr : Type 0 where
  v4 : ℕ → ℕ → ℕ → ℕ → IpAddr
  v6 : List ℕ → IpAddr

pub record SocketAddr : Type 0 where
  pub ip : IpAddr
  pub port : ℕ

pub record Backend : Type 0 where
  pub id : Text
  pub tag : Text
  pub address : SocketAddr
  pub weight : ℕ
  pub tls : Bool
  pub tls_verify : Bool
  pub tls_sni : Option Text
  pub max_connections : Option ℕ
  pub enabled : Bool
  pub active_connections : ℕ
  pub total_connections : ℕ
  pub healthy : Bool

-- `{:02x}` of a byte.
hex_digit : ℕ → ℕ
hex_digit d = if ltb d 10 then b'0' + d else b'a' + (d - 10)

hex_byte : ℕ → Text
unfolding hex_digit
hex_byte b = hex_digit (b / 16) ∷ hex_digit (b % 16) ∷ []

-- `uuid_v5` gives the bytes of the name-based UUID of a text, by position; `show_addr` prints an
-- address.
module _ (uuid_v5 : Text → ℕ → ℕ) (show_addr : SocketAddr → Text) where
  unfoldable pub new_backend : Text → SocketAddr → ℕ → Bool → Backend
  unfolding hex_byte
  new_backend id address weight tls =
      let bytes = uuid_v5 (id ++ (codes "@" ++ show_addr address)) in
      record {
        id = id;
        tag = hex_byte (bytes 0) ++ (hex_byte (bytes 1) ++ hex_byte (bytes 2));
        address = address;
        weight = weight;
        tls = tls;
        tls_verify = false;
        tls_sni = none;
        max_connections = none;
        enabled = true;
        active_connections = 0;
        total_connections = 0;
        healthy = true;
      }

below_max : Option ℕ → ℕ → Bool
below_max none active = true
below_max (some max) active = ltb active max

unfoldable pub is_available : Backend → Bool
unfolding below_max
is_available b = b.enabled && (b.healthy && below_max b.max_connections b.active_connections)

unfoldable pub active_count : Backend → ℕ
active_count b = b.active_connections

abbrev pub usize_mod : ℕ
usize_mod = 18446744073709551616

-- `fetch_add(1)` and `fetch_sub(1)`.
unfoldable pub fetch_inc : ℕ → ℕ
fetch_inc n = (n + 1) % usize_mod

unfoldable pub fetch_dec : ℕ → ℕ
fetch_dec n = (n + (usize_mod - 1)) % usize_mod

-- The effect of an operation on the shared backend at a position.
abbrev pub modify {ℓ} : {A : Type ℓ} → (A → A) → List A → ℕ → List A
modify f [] i = []
modify f (x ∷ xs) zero = f x ∷ xs
modify f (x ∷ xs) (suc i) = x ∷ modify f xs i

unfoldable pub count_opened : Backend → Backend
unfolding fetch_inc
count_opened b = record b {
  active_connections = fetch_inc b.active_connections;
  total_connections = fetch_inc b.total_connections;
}

unfoldable pub count_closed : Backend → Backend
unfolding fetch_dec
count_closed b = record b { active_connections = fetch_dec b.active_connections }

-- `ConnectionGuard::new` and `drop`, on the backend at position `i`.
unfoldable pub open_guard : List Backend → ℕ → List Backend
unfolding count_opened
open_guard bs i = modify count_opened bs i

unfoldable pub drop_guard : List Backend → ℕ → List Backend
unfolding count_closed
drop_guard bs i = modify count_closed bs i
