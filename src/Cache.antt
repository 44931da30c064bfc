-- ===== src/Cache.antt =====
-- internal/cache/cache.go: the heartbeat times that Redis keeps. A key that has outlived its TTL
-- reads as absent. Calls that fail are modelled by their callers.
pub mod Recall
use arbiter_distributed_sche.Base.{
  Option, String, if◌then◌else◌, ltb, none, some, str_eq, ℕ, ◌*◌, ◌+◌, ◌/◌,
}
use arbiter_distributed_sche.Store.Report.{millisecond}

abbrev pub second : ℕ
second = 1_000_000_000

-- `lastSeenTTL`
abbrev pub last_seen_ttl : ℕ
last_seen_ttl = 300 * second

-- The value of a key: the time in milliseconds, and when the key expires.
pub record LastSeen : Type 0 where
  pub milliseconds : ℕ
  pub expires_at : ℕ

-- The keys `hb:<node id>`, by node id.
abbrev pub Cache : Type 0
Cache = String → Option LastSeen

-- `SetLastSeenAt`, called at `now`.
unfoldable pub set_last_seen_at : ℕ → String → ℕ → Cache → Cache
set_last_seen_at now node_id t cache j =
    if str_eq node_id j
    then some (record { milliseconds = t / millisecond; expires_at = now + last_seen_ttl })
    else cache j

-- `SetLastSeen`
unfoldable pub set_last_seen : ℕ → String → Cache → Cache
unfolding set_last_seen_at
set_last_seen now node_id cache = set_last_seen_at now node_id now cache

abbrev pub unexpired : ℕ → Option LastSeen → Option ℕ
unexpired now none = none
unexpired now (some e) = if ltb now e.expires_at then some (e.milliseconds * millisecond) else none

-- `GetLastSeen` at `now`: `none` stands for ok = false.
unfoldable pub get_last_seen : ℕ → String → Cache → Option ℕ
get_last_seen now node_id cache = unexpired now (cache node_id)

-- `DeleteLastSeen`
unfoldable pub delete_last_seen : String → Cache → Cache
delete_last_seen node_id cache j = if str_eq node_id j then none else cache j
