-- ===== src/Store/Success.antt =====
-- internal/store: transactions that succeed.
use arbiter_distributed_sche.Base.{refl, ◌≡◌}
use arbiter_distributed_sche.Store.{Db, Result, Tx, and_then, err, ok}

abbrev pub Succeeds : {A : Type 0} → Result (A × Db) → Type 0
Succeeds (ok x) = Unit
Succeeds (err e) = ⊥

pub bind-Succeeds :
    {A B : Type 0} (r : Result (A × Db)) (f : A → Tx B)
    → Succeeds r
    → ((a : A) (db : Db) → Succeeds (f a db))
    → Succeeds (and_then r f)
bind-Succeeds (ok (a, db)) f h k = k a db
bind-Succeeds (err e) f h k = absurd h

-- The result and the tables of a transaction that succeeds.
pub result_of :
    {A : Type 0} (r : Result (A × Db)) → Succeeds r → (a : A) × ((db : Db) × (r ≡ ok (a, db)))
result_of (ok (a, db)) h = (a, (db, refl))
result_of (err e) h = absurd h
