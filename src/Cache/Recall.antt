-- ===== src/Cache/Recall.antt =====
-- internal/cache/cache.go: what is read of a time that was set.
use arbiter_distributed_sche.Base.{
  String, arith, eq_refl, false, some, ℕ, ◌*◌, ◌+◌, ◌-◌, ◌/◌, ◌<◌, ◌≡◌, ◌≤◌,
}
use arbiter_distributed_sche.Base.Int.{leb_ℤ, pos, ℤ, ◌≤ℤ◌}
use arbiter_distributed_sche.Cache.{
  Cache, get_last_seen, last_seen_ttl, set_last_seen, set_last_seen_at,
}
use arbiter_distributed_sche.Detector.{age_of, time_since}
use arbiter_distributed_sche.Store.Report.{millisecond}

-- Until the key expires, the time that was set is read back, rounded down to the millisecond.
pub get_last_seen-set_last_seen :
    (now later : ℕ) (id : String) (cache : Cache)
    → later < now + last_seen_ttl
    → get_last_seen later id (set_last_seen now id cache) ≡ some (now / millisecond * millisecond)
unfolding get_last_seen set_last_seen set_last_seen_at
get_last_seen-set_last_seen now later id cache h = rw (eq_refl id) (ground (arith, h))

-- The age of a time that was recorded less than `last_seen_ttl` ago, within a millisecond.
pub age_of_recorded :
    (now later : ℕ) (id : String) (cache : Cache) (bound : ℤ)
    → now ≤ later
    → later < now + last_seen_ttl
    → pos (later - now + millisecond) ≤ℤ bound
    → leb_ℤ bound (age_of later (get_last_seen later id (set_last_seen now id cache))) ≡ false
unfolding age_of time_since
age_of_recorded now later id cache bound h k b =
    rw (get_last_seen-set_last_seen now later id cache k) (ground (arith, h, k, b))
