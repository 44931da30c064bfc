-- ===== src/Election.antt =====
-- internal/election/election.go: the lease loop of one replica. Metrics and logs are left out.
pub mod Attempts
pub mod Epochs
use arbiter_distributed_sche.Base.{Bool, String, false, if◌then◌else◌, true, ℕ, ◌*◌}
use arbiter_distributed_sche.Base.Int.{leb_ℤ, pos, ℤ}
use arbiter_distributed_sche.Cache.{second}
use arbiter_distributed_sche.Store.{Db, Result, committed, err, ok}
use arbiter_distributed_sche.Store.Lease.{LeaseAcquireResult, try_acquire_or_renew_lease}

pub record Config : Type 0 where
  pub identity : String
  pub advertise_addr : String
  pub lease_ttl : ℤ
  pub renew_interval : ℤ

pub record Elector : Type 0 where
  pub cfg : Config
  pub is_leader : Bool
  pub epoch : ℤ
  pub leader_addr : String

-- `if d <= 0 { d = default }`
abbrev duration_or : ℕ → ℤ → ℤ
duration_or default d = if leb_ℤ d (pos 0) then pos default else d

-- `New`
unfoldable pub new_elector : Config → Elector
new_elector cfg = record {
  cfg = record cfg {
    lease_ttl = duration_or (5 * second) cfg.lease_ttl;
    renew_interval = duration_or second cfg.renew_interval;
  };
  is_leader = false;
  epoch = pos 0;
  leader_addr = "";
}

-- What the replica takes from the result of its attempt. An error changes nothing.
unfoldable pub observe : Elector → Result (LeaseAcquireResult × Db) → Elector
observe e (ok (result, db)) = record e {
  is_leader = result.acquired;
  epoch = result.lease.epoch;
  leader_addr = if result.acquired then e.cfg.advertise_addr else result.lease.leader_addr;
}
observe e (err _) = e

-- `tick`. `reachable` says whether the database answers; if not, the attempt is an error.
unfoldable pub election_tick : Bool → ℕ → Elector → Db → Elector × Db
unfolding observe try_acquire_or_renew_lease
election_tick false now e db = (e, db)
election_tick true now e db =
    let r = try_acquire_or_renew_lease now e.cfg.identity e.cfg.advertise_addr e.cfg.lease_ttl db in
    (observe e r, committed db r)
