-- ===== src/Store/Lease.antt =====
pub mod Terms
use arbiter_distributed_sche.Base.{
  Bool, List, String, [], false, if◌then◌else◌, leb, not, some, str_eq, true, ℕ, ◌&&◌, ◌+◌, ◌∷◌,
}
use arbiter_distributed_sche.Base.Int.{ltb_ℤ, pos, pos_part, wrap64, ℤ, ◌+ℤ◌}
use arbiter_distributed_sche.Store.{
  LeaderLease, Part, Tx, get, guard, identity_required, integer, leader_elected, leader_entity,
  lease_row_missing, modify, or_throw, pure, text, ttl_not_positive, ◌>>=◌, ◌>>◌,
}
use arbiter_distributed_sche.Store.Events.{insert_event}

-- internal/store/lease.go: the row behind leader election. Times are taken as the database keeps
-- them, so no rounding is modelled.

pub record LeaseAcquireResult : Type 0 where
  pub acquired : Bool
  pub lease : LeaderLease
  pub epoch_bumped : Bool

-- `!lease.ExpiresAt.After(now)`
unfoldable pub is_expired : LeaderLease → ℕ → Bool
is_expired lease now = leb lease.expires_at now

-- `newEpoch`, an int64 of Go.
unfoldable pub next_epoch : LeaderLease → String → ℤ
unfolding wrap64 ◌+ℤ◌
next_epoch lease identity =
    if str_eq lease.leader_id identity then lease.epoch else wrap64 (lease.epoch +ℤ pos 1)

-- What the UPDATE writes: `acquired_at` moves with every renewal.
unfoldable pub taken_lease : LeaderLease → ℕ → String → String → ℕ → LeaderLease
unfolding next_epoch
taken_lease lease now identity advertise_addr ttl = record {
  leader_id = identity;
  leader_addr = advertise_addr;
  epoch = next_epoch lease identity;
  acquired_at = now;
  expires_at = now + ttl;
}

abbrev elected_parts : String → String → ℤ → List Part
elected_parts identity addr epoch =
    text "leader elected: id="
    ∷ text identity
    ∷ text " addr="
    ∷ text addr
    ∷ text " epoch="
    ∷ integer epoch
    ∷ []

-- The UPDATE and the event of a lease that is expired or ours.
unfoldable pub take_lease : ℕ → String → String → ℕ → LeaderLease → Tx LeaseAcquireResult
unfolding insert_event
take_lease now identity advertise_addr ttl lease = do
  let ours = str_eq lease.leader_id identity
  let updated = taken_lease lease now identity advertise_addr ttl
  modify (λ db. record db { lease = some updated })
  if ours
      then pure tt
      else insert_event now leader_entity identity leader_elected
          (elected_parts identity advertise_addr updated.epoch)
  pure (record { acquired = true; lease = updated; epoch_bumped = not ours })

-- `if !expired && !ours { return }`, then the UPDATE.
unfoldable pub take_or_leave : ℕ → String → String → ℕ → LeaderLease → Tx LeaseAcquireResult
unfolding is_expired take_lease
take_or_leave now identity advertise_addr ttl lease =
    if not (is_expired lease now) && not (str_eq lease.leader_id identity)
    then pure (record { acquired = false; lease = lease; epoch_bumped = false })
    else take_lease now identity advertise_addr ttl lease

-- `TryAcquireOrRenewLease` at the time `now` of the caller's clock.
unfoldable pub try_acquire_or_renew_lease : ℕ → String → String → ℤ → Tx LeaseAcquireResult
unfolding take_or_leave
try_acquire_or_renew_lease now identity advertise_addr ttl = do
  guard (not (str_eq identity "")) identity_required
  guard (ltb_ℤ (pos 0) ttl) ttl_not_positive
  db ← get
  lease ← or_throw db.lease lease_row_missing
  take_or_leave now identity advertise_addr (pos_part ttl) lease

-- `GetLeaderLease`
unfoldable pub get_leader_lease : Tx LeaderLease
get_leader_lease = do db ← get; or_throw db.lease lease_row_missing
