-- ===== src/Examples/Election.antt =====
-- Ticks of two replicas over one lease.
use arbiter_distributed_sche.Base.{String, arith, eq_iff, false, refl, true, ◌≡◌}
use arbiter_distributed_sche.Base.Int.{pos}
use arbiter_distributed_sche.Election.{Elector, election_tick}
use arbiter_distributed_sche.Election.Epochs.{IsFenced, Ticks-IsFenced, start, tick_one, ticked}
use arbiter_distributed_sche.Examples.Data.{cluster, lease_free, task_live}
use arbiter_distributed_sche.Store.{Db, ok}
use arbiter_distributed_sche.Store.Lease.{LeaseAcquireResult, try_acquire_or_renew_lease}
use arbiter_distributed_sche.Store.Lease.Terms.{LeaseOutcome, acquire_decides}

abbrev replica : String → Elector
replica i = record {
  cfg = record { identity = i; advertise_addr = i; lease_ttl = pos 5; renew_interval = pos 1 };
  is_leader = false;
  epoch = pos 0;
  leader_addr = "";
}

replicas-IsFenced : IsFenced replica (cluster task_live)
replicas-IsFenced = record {
  lease = lease_free;
  stored = refl;
  natural = omega arith;
  identity = λ i. refl;
  knows = λ i e. cc;
  apart = λ i j e. cc;
}

Ticks-IsFenced_example :
    IsFenced
      (tick_one "a" true 10 replica (cluster task_live))
      (election_tick true 10 (replica "a") (cluster task_live)).1
Ticks-IsFenced_example =
    Ticks-IsFenced replicas-IsFenced (ticked "a" true 10 lease_free start refl (omega arith))

acquire_decides_example :
    (r : LeaseAcquireResult) × ((db' : Db) × (try_acquire_or_renew_lease 10 "a" "a:1"
          (pos 5)
          (cluster task_live)
        ≡ ok (r, db'))
      × LeaseOutcome 10 "a" "a:1" 5 lease_free (cluster task_live) db' r)
acquire_decides_example =
    acquire_decides 10 "a" "a:1" (pos 5) lease_free (cluster task_live)
      (ground (arith, eq_iff "a" "")) (omega arith) refl
