-- ===== src/Antispam/RateDb.antt =====
-- serverwall-antispam/src/storage/rate_db.rs: counters by key over a sliding window.
use serverwall.Base.{ℕ, ◌*◌, ◌^◌, [], length, ◌++◌, Text, codes}
use serverwall.Core.Types.{IpAddr}
use serverwall.Antispam.RateLimit.{WindowMap, count_at, entry, touch}

pub record RateDb : Type 0 where
  pub counters : WindowMap
  pub window : ℕ

-- `RateDb::with_window`, and `RateDb::new`, with an hour.
unfoldable pub with_window : ℕ → RateDb
with_window window = record { counters = []; window = window }

unfoldable pub new_db : RateDb
unfolding with_window
new_db = with_window (3600 * 10 ^ 9)

unfoldable pub increment : RateDb → Text → ℕ → RateDb × ℕ
increment db key now =
    let counters = touch now db.window key db.counters in
    (record db { counters = counters }, length (entry key counters))

unfoldable pub get_count : RateDb → Text → ℕ → ℕ
get_count db key now = count_at now db.window (entry key db.counters)

unfoldable pub record_connection : (IpAddr → Text) → RateDb → IpAddr → ℕ → RateDb
unfolding increment
record_connection show_ip db addr now = (increment db (codes "conn:" ++ show_ip addr) now).0
