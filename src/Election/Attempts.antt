-- ===== src/Election/Attempts.antt =====
-- internal/election/election.go: what one tick of a replica makes of the lease and of the replica.
use arbiter_distributed_sche.Base.{
  Bool, String, arith, eq_iff, false, ne→str_eq, refl, some, some-injective, subst, sym, true, ℕ,
  ◌-◌, ◌^◌, ◌∙◌, ◌≡◌, ◌≢◌,
}
use arbiter_distributed_sche.Base.Int.{
  int_laws, pos, pos_part, wrap64, wrap64_id, ℤ, ◌+ℤ◌, ◌<ℤ◌, ◌≤ℤ◌,
}
use arbiter_distributed_sche.Election.{Elector, election_tick, observe}
use arbiter_distributed_sche.Store.{
  Db, Ensures, Ensures-map, LeaderLease, Result, committed, err, ok,
}
use arbiter_distributed_sche.Store.Lease.{
  LeaseAcquireResult, next_epoch, taken_lease, try_acquire_or_renew_lease,
}
use arbiter_distributed_sche.Store.Lease.Terms.{
  Attempt, Tried, refused, renewed, taken, try_acquire_or_renew_lease-Ensures,
}

abbrev pub largest_epoch : ℤ
largest_epoch = pos (2 ^ 63 - 1)

-- What a tick of the replica `i` makes of the lease `l` and of itself.
pub data Turn (i : String) (l : LeaderLease) (e : Elector) (db : Db) (e' : Elector) (db' : Db)
    : Type 0 where
  kept : e' ≡ e → db' ≡ db → Turn i l e db e' db'
  lost : e'.cfg ≡ e.cfg → e'.is_leader ≡ false → db' ≡ db → Turn i l e db e' db'
  renews :
      (l' : LeaderLease)
      → e'.cfg ≡ e.cfg
      → e'.epoch ≡ l'.epoch
      → db'.lease ≡ some l'
      → l'.leader_id ≡ i
      → l.leader_id ≡ i
      → l'.epoch ≡ l.epoch
      → Turn i l e db e' db'
  takes :
      (l' : LeaderLease)
      → e'.cfg ≡ e.cfg
      → e'.epoch ≡ l'.epoch
      → db'.lease ≡ some l'
      → l'.leader_id ≡ i
      → l.epoch <ℤ l'.epoch
      → Turn i l e db e' db'

next_epoch_same : (l : LeaderLease) (i : String) → l.leader_id ≡ i → next_epoch l i ≡ l.epoch
unfolding next_epoch
next_epoch_same l i e = ground (arith, eq_iff l.leader_id i)

wrap64_up : (z : ℤ) → pos 0 ≤ℤ z → z <ℤ largest_epoch → z <ℤ wrap64 (z +ℤ pos 1)
unfolding ◌+ℤ◌
wrap64_up z h small =
    subst (λ w. z <ℤ w) (sym (wrap64_id (z +ℤ pos 1) (grind int_laws))) (grind int_laws)

next_epoch_above :
    (l : LeaderLease) (i : String)
    → l.leader_id ≢ i
    → pos 0 ≤ℤ l.epoch
    → l.epoch <ℤ largest_epoch
    → l.epoch <ℤ next_epoch l i
unfolding next_epoch
next_epoch_above l i e n small = rw (ne→str_eq l.leader_id i e) (wrap64_up l.epoch n small)

observed :
    (now : ℕ) (i addr : String) (ttl : ℕ) (l : LeaderLease) (e : Elector) (db db' : Db)
    (r : LeaseAcquireResult)
    → pos 0 ≤ℤ l.epoch
    → l.epoch <ℤ largest_epoch
    → Attempt now i addr ttl l db db' r
    → Turn i l e db (observe e (ok (r, db'))) db'
unfolding observe taken_lease
observed now i addr ttl l e db db' r n small (refused _ _ q c) = rw c (lost refl refl q)
observed now i addr ttl l e db db' r n small (renewed ours q c) = rw c (
    renews (taken_lease l now i addr ttl) refl refl (rw q refl) refl ours
      (next_epoch_same l i ours))
observed now i addr ttl l e db db' r n small (taken _ theirs q _ c) =
    rw c
      (takes (taken_lease l now i addr ttl) refl refl q refl (next_epoch_above l i theirs n small))

settled :
    (i : String) (l : LeaderLease) (e : Elector) (db : Db) (r : Result (LeaseAcquireResult × Db))
    → Ensures (λ a db'. Turn i l e db (observe e (ok (a, db'))) db') r
    → Turn i l e db (observe e r) (committed db r)
unfolding observe
settled i l e db (ok (a, db')) h = h
settled i l e db (err x) h = kept refl refl

pub tick-Turn :
    (reachable : Bool) (now : ℕ) (i : String) (l : LeaderLease) (e : Elector) (db : Db)
    → e.cfg.identity ≡ i
    → db.lease ≡ some l
    → pos 0 ≤ℤ l.epoch
    → l.epoch <ℤ largest_epoch
    → Turn i l e db (election_tick reachable now e db).0 (election_tick reachable now e db).1
unfolding election_tick
tick-Turn false now i l e db own found n small = kept refl refl
tick-Turn true now i l e db own found n small =
    settled i l e db (try_acquire_or_renew_lease now e.cfg.identity addr ttl db) (
      Ensures-map (Tried now e.cfg.identity addr ttl db)
        (λ r db'. Turn i l e db (observe e (ok (r, db'))) db') _ from
        (try_acquire_or_renew_lease-Ensures now e.cfg.identity addr ttl db))
  where
    addr : String
    addr = e.cfg.advertise_addr

    ttl : ℤ
    ttl = e.cfg.lease_ttl

    from :
        (r : LeaseAcquireResult) (db' : Db)
        → Tried now e.cfg.identity addr ttl db r db'
        → Turn i l e db (observe e (ok (r, db'))) db'
    from r db' (_, _, (l', found', a)) = observed now i addr (pos_part ttl) l e db db' r n small (
        subst (λ x. Attempt now x addr (pos_part ttl) l db db' r) own
          (subst (λ x. Attempt now e.cfg.identity addr (pos_part ttl) x db db' r)
            (some-injective (sym found' ∙ found)) a))
