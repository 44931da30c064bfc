-- ===== src/Store/Lease/Terms.antt =====
-- internal/store/lease.go: who holds the lease, for how long, and under which epoch.
use arbiter_distributed_sche.Base.{
  Bool-cases, Option-cases, String, ap, arith, eq_iff, eq_refl, false, if◌then◌else◌, inl, inr, leb,
  ne→str_eq, refl, some, str_eq, str_eq→eq, true, ℕ, ◌+◌, ◌<◌, ◌∙◌, ◌≡◌, ◌≢◌, ◌≤◌,
}
use arbiter_distributed_sche.Base.Int.{ltb_ℤ, pos, pos_part, wrap64, ℤ, ◌+ℤ◌, ◌<ℤ◌}
use arbiter_distributed_sche.Store.{Db, Ensures, Ensures-map, Ensures-ok, LeaderLease, ok}
use arbiter_distributed_sche.Store.Lease.{
  LeaseAcquireResult, next_epoch, take_or_leave, taken_lease, try_acquire_or_renew_lease,
}
use arbiter_distributed_sche.Store.Success.{Succeeds, result_of}

-- The tables that an attempt leaves alone.
pub record KeepsTables (db db' : Db) : Type 0 where
  pub nodes : db'.nodes ≡ db.nodes
  pub jobs : db'.jobs ≡ db.jobs
  pub tasks : db'.tasks ≡ db.tasks

-- What an attempt by `identity` at `now` does with the lease `l`.
pub data Attempt (now : ℕ) (identity addr : String) (ttl : ℕ) (l : LeaderLease) (db db' : Db)
    (r : LeaseAcquireResult) : Type 0 where
  refused :
      now < l.expires_at
      → l.leader_id ≢ identity
      → db' ≡ db
      → r ≡ record { acquired = false; lease = l; epoch_bumped = false }
      → Attempt now identity addr ttl l db db' r
  renewed :
      l.leader_id ≡ identity
      → db' ≡ record db { lease = some (taken_lease l now identity addr ttl) }
      → r ≡ record {
        acquired = true;
        lease = taken_lease l now identity addr ttl;
        epoch_bumped = false;
      }
      → Attempt now identity addr ttl l db db' r
  taken :
      l.expires_at ≤ now
      → l.leader_id ≢ identity
      → db'.lease ≡ some (taken_lease l now identity addr ttl)
      → KeepsTables db db'
      → r ≡ record {
        acquired = true;
        lease = taken_lease l now identity addr ttl;
        epoch_bumped = true;
      }
      → Attempt now identity addr ttl l db db' r

pub take_or_leave-Ensures :
    (now : ℕ) (identity addr : String) (ttl : ℕ) (l : LeaderLease) (db : Db)
    → Ensures
        (λ r db'. Attempt now identity addr ttl l db db' r)
        (take_or_leave now identity addr ttl l db)
unfolding take_or_leave
take_or_leave-Ensures now identity addr ttl l db = elim (Bool-cases (str_eq l.leader_id identity)) [
  | inl ours ↦ elim (Bool-cases (leb l.expires_at now)) [
    | inl expired ↦ simp (ours, expired) (renewed (str_eq→eq _ _ ours) refl refl)
    | inr held ↦ simp (ours, held) (renewed (str_eq→eq _ _ ours) refl refl)
  ]
  | inr theirs ↦ elim (Bool-cases (leb l.expires_at now)) [
    | inl expired ↦
        simp (theirs, expired)
          (taken (ground (arith, expired)) (other_id theirs) refl
            (record { nodes = refl; jobs = refl; tasks = refl }) refl)
    | inr held ↦ simp (theirs, held) (refused (ground (arith, held)) (other_id theirs) refl refl)
  ]
]
  where
    other_id : str_eq l.leader_id identity ≡ false → l.leader_id ≢ identity
    other_id h e = ground (arith, eq_iff l.leader_id identity)

take_or_leave-Succeeds :
    (now : ℕ) (identity addr : String) (ttl : ℕ) (l : LeaderLease) (db : Db)
    → Succeeds (take_or_leave now identity addr ttl l db)
unfolding take_or_leave
take_or_leave-Succeeds now identity addr ttl l db = ground arith

-- What a committed call of `TryAcquireOrRenewLease` found and did.
abbrev pub Tried : ℕ → String → String → ℤ → Db → LeaseAcquireResult → Db → Type 0
Tried now identity addr ttl db r db' =
    (identity ≢ "")
    × (pos 0 <ℤ ttl)
    × ((l : LeaderLease) × (db.lease ≡ some l)
        × Attempt now identity addr (pos_part ttl) l db db' r)

-- Every attempt that succeeds read the lease and is one of these; `ttl` is positive then.
pub try_acquire_or_renew_lease-Ensures :
    (now : ℕ) (identity addr : String) (ttl : ℤ) (db : Db)
    → Ensures (Tried now identity addr ttl db) (try_acquire_or_renew_lease now identity addr ttl db)
unfolding try_acquire_or_renew_lease
try_acquire_or_renew_lease-Ensures now identity addr ttl db =
    elim (Bool-cases (str_eq identity "")) [
      | inl nobody ↦ rw nobody tt
      | inr named ↦ elim (Bool-cases (ltb_ℤ (pos 0) ttl)) [
        | inr short ↦ rw (named, short) tt
        | inl long ↦ elim (Option-cases db.lease) [
          | inl missing ↦ rw (named, long, missing) tt
          | inr (l, found) ↦
              simp (named, long, found)
                (Ensures-map _ _ (take_or_leave now identity addr (pos_part ttl) l db)
                  (λ r db' a.
                    (λ e. ground (arith, eq_iff identity ""), ground (arith, long), (l, found, a)))
                  (take_or_leave-Ensures now identity addr (pos_part ttl) l db))
        ]
      ]
    ]

-- The lease as `identity` holds it from `now` on, under an epoch.
abbrev pub held_by : String → String → ℕ → ℕ → ℤ → LeaderLease
held_by identity addr now ttl epoch = record {
  leader_id = identity;
  leader_addr = addr;
  epoch = epoch;
  acquired_at = now;
  expires_at = now + ttl;
}

-- The outcomes of an attempt, with the lease that each leaves. An epoch is an int64.
pub data LeaseOutcome (now : ℕ) (identity addr : String) (ttl : ℕ) (l : LeaderLease) (db db' : Db)
    (r : LeaseAcquireResult) : Type 0 where
  left_to_other :
      now < l.expires_at
      → l.leader_id ≢ identity
      → db' ≡ db
      → r ≡ record { acquired = false; lease = l; epoch_bumped = false }
      → LeaseOutcome now identity addr ttl l db db' r
  kept_epoch :
      l.leader_id ≡ identity
      → db' ≡ record db { lease = some (held_by identity addr now ttl l.epoch) }
      → r ≡ record {
        acquired = true;
        lease = held_by identity addr now ttl l.epoch;
        epoch_bumped = false;
      }
      → LeaseOutcome now identity addr ttl l db db' r
  next_term :
      l.expires_at ≤ now
      → l.leader_id ≢ identity
      → db'.lease ≡ some (held_by identity addr now ttl (wrap64 (l.epoch +ℤ pos 1)))
      → KeepsTables db db'
      → r ≡ record {
        acquired = true;
        lease = held_by identity addr now ttl (wrap64 (l.epoch +ℤ pos 1));
        epoch_bumped = true;
      }
      → LeaseOutcome now identity addr ttl l db db' r

taken_lease_ours :
    (now : ℕ) (identity addr : String) (ttl : ℕ) (l : LeaderLease)
    → l.leader_id ≡ identity
    → taken_lease l now identity addr ttl ≡ held_by identity addr now ttl l.epoch
unfolding taken_lease next_epoch
taken_lease_ours now identity addr ttl l e =
    ap (λ b. held_by identity addr now ttl (if b then l.epoch else wrap64 (l.epoch +ℤ pos 1)))
      (ap (λ x. str_eq x identity) e ∙ eq_refl identity)

taken_lease_theirs :
    (now : ℕ) (identity addr : String) (ttl : ℕ) (l : LeaderLease)
    → l.leader_id ≢ identity
    → taken_lease l now identity addr ttl
      ≡ held_by identity addr now ttl (wrap64 (l.epoch +ℤ pos 1))
unfolding taken_lease next_epoch
taken_lease_theirs now identity addr ttl l ne =
    ap (λ b. held_by identity addr now ttl (if b then l.epoch else wrap64 (l.epoch +ℤ pos 1)))
      (ne→str_eq l.leader_id identity ne)

Attempt-LeaseOutcome :
    (now : ℕ) (identity addr : String) (ttl : ℕ) (l : LeaderLease) (db db' : Db)
    (r : LeaseAcquireResult)
    → Attempt now identity addr ttl l db db' r
    → LeaseOutcome now identity addr ttl l db db' r
Attempt-LeaseOutcome now identity addr ttl l db db' r (refused lt ne e q) = left_to_other lt ne e q
Attempt-LeaseOutcome now identity addr ttl l db db' r (renewed own e q) =
    let same = taken_lease_ours now identity addr ttl l own in
    kept_epoch own (e ∙ ap (λ x. record db { lease = some x }) same)
      (q ∙ ap (λ x. record { acquired = true; lease = x; epoch_bumped = false }) same)
Attempt-LeaseOutcome now identity addr ttl l db db' r (taken le ne e k q) =
    let same = taken_lease_theirs now identity addr ttl l ne in
    next_term le ne (e ∙ ap some same) k
      (q ∙ ap (λ x. record { acquired = true; lease = x; epoch_bumped = true }) same)

-- With an identity, a positive TTL and the row of the lease the attempt succeeds, and is one of
-- three: unexpired and another's, the lease stays and nothing is acquired; ours, it is renewed
-- under its epoch; expired and another's, it is taken under the next epoch, an
-- int64 that wraps around. Ours or taken, it runs for the TTL from the time of the attempt.
pub acquire_decides :
    (now : ℕ) (identity addr : String) (ttl : ℤ) (l : LeaderLease) (db : Db)
    → identity ≢ ""
    → pos 0 <ℤ ttl
    → db.lease ≡ some l
    → (r : LeaseAcquireResult) × ((db' : Db) × (try_acquire_or_renew_lease now identity addr ttl db
          ≡ ok (r, db'))
        × LeaseOutcome now identity addr (pos_part ttl) l db db' r)
unfolding try_acquire_or_renew_lease
acquire_decides now identity addr ttl l db named long found =
    let (r, (db', runs)) =
      result_of (take_or_leave now identity addr (pos_part ttl) l db)
        (take_or_leave-Succeeds now identity addr (pos_part ttl) l db) in
    (
      r,
      (
        db',
        decided ∙ runs,
        Attempt-LeaseOutcome now identity addr (pos_part ttl) l db db' r (
            Ensures-ok (λ r d. Attempt now identity addr (pos_part ttl) l db d r)
              (take_or_leave-Ensures now identity addr (pos_part ttl) l db) runs),
      ),
    )
  where
    positive : ltb_ℤ (pos 0) ttl ≡ true
    positive = ground (arith, long)

    decided :
        try_acquire_or_renew_lease now identity addr ttl db
        ≡ take_or_leave now identity addr (pos_part ttl) l db
    decided = simp (ne→str_eq identity "" named, positive, found) refl
