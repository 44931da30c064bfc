-- ===== src/Detector/Visits.antt =====
-- internal/failuredetector/failuredetector.go: what a death and a downgrade leave in the tables.
use arbiter_distributed_sche.Base.{
  All, All-update, Bool, List, Option-cases, String, [], arith, false, find, inl, inr, refl, some,
  update, update-All, ℕ, ◌∷◌, ◌≡◌, ◌≢◌,
}
use arbiter_distributed_sche.Base.Keys.{IsUnique, find-update_ne, find-update_self, update-IsUnique}
use arbiter_distributed_sche.Detector.{Verdict, carry_out, downgrade, give_up, leave, reaped}
use arbiter_distributed_sche.Store.{
  Db, Ensures, Ensures-map, Node, Result, Task, committed, dead, err, node_not_ready, not_ready, ok,
  text,
}
use arbiter_distributed_sche.Store.Allocation.{is_on}
use arbiter_distributed_sche.Store.Events.{insert_event}
use arbiter_distributed_sche.Store.Nodes.{
  MarkNodeDeadResult, is_node, mark_node_dead, marked_dead, orphan_requeued, update_node,
  update_node_status,
}
use arbiter_distributed_sche.Store.Valid.Dying.{Died, mark_node_dead-Ensures}

-- The node is dead, and no task is on it.
pub record IsGone (id : String) (db : Db) : Type 0 where
  pub node : Node
  pub found : find (is_node id) db.nodes ≡ some node
  pub status : node.status ≡ dead
  pub idle : All (λ t. is_on id t ≡ false) db.tasks

-- The node is there, with this epoch.
abbrev pub IsAt : String → ℕ → Db → Type 0
IsAt id epoch db = (n : Node) × (find (is_node id) db.nodes ≡ some n) × (n.epoch ≡ epoch)

-- The tasks that a requeue leaves on a node were on it before.
requeue-idle :
    (id j : String) (ts : List Task)
    → All (λ t. is_on id t ≡ false) ts
    → All (λ t. is_on id t ≡ false) (update (is_on j) orphan_requeued ts)
unfolding is_on orphan_requeued
requeue-idle id j ts h =
    All-update (λ t. is_on id t ≡ false) (is_on j) orphan_requeued ts (λ t _ _. refl) h

pub Died-IsGone_self :
    {id : String} {db db' : Db} {r : MarkNodeDeadResult} → Died id db r db' → IsGone id db'
unfolding marked_dead is_on orphan_requeued
Died-IsGone_self {id} {db} {db'} d = record {
  node = marked_dead d.n;
  found = rw d.nodes (find-update_self (λ n. n.id) id marked_dead db.nodes refl d.found);
  status = refl;
  idle = rw d.tasks (
      update-All (λ u. is_on id u ≡ false) (is_on id) orphan_requeued db.tasks (λ u. ground arith));
}

pub Died-IsGone_ne :
    {id j : String} {db db' : Db} {r : MarkNodeDeadResult}
    → id ≢ j
    → IsGone id db
    → Died j db r db'
    → IsGone id db'
unfolding marked_dead
Died-IsGone_ne {id} {j} {db} {db'} ne g d = record {
  node = g.node;
  found = rw (d.nodes, find-update_ne (λ n. n.id) id j marked_dead db.nodes (λ n. refl) ne) g.found;
  status = g.status;
  idle = rw d.tasks (requeue-idle id j db.tasks g.idle);
}

pub Died-IsAt_ne :
    {id j : String} {epoch : ℕ} {db db' : Db} {r : MarkNodeDeadResult}
    → id ≢ j
    → IsAt id epoch db
    → Died j db r db'
    → IsAt id epoch db'
unfolding marked_dead
Died-IsAt_ne {id} {j} {epoch} {db} ne (n, found, e) d =
    (n, rw (d.nodes, find-update_ne (λ n. n.id) id j marked_dead db.nodes (λ n. refl) ne) found, e)

pub Died-IsUnique :
    {j : String} {db db' : Db} {r : MarkNodeDeadResult}
    → IsUnique (λ (t : Task). t.id) db.tasks
    → Died j db r db'
    → IsUnique (λ (t : Task). t.id) db'.tasks
unfolding orphan_requeued
Died-IsUnique {j} {db} u d =
    rw d.tasks (update-IsUnique (λ t. t.id) (is_on j) orphan_requeued db.tasks (λ t. refl) u)

abbrev pub downgraded : Node → Node
downgraded n = record n { status = not_ready }

-- What a downgrade that succeeds leaves.
pub record Downgraded (j : String) (db db' : Db) : Type 0 where
  pub nodes : db'.nodes ≡ update (is_node j) downgraded db.nodes
  pub tasks : db'.tasks ≡ db.tasks

downgrade-Ensures :
    (now : ℕ) (j : String) (db : Db)
    → Ensures
        (λ n db'. Downgraded j db db')
        (update_node_status now j not_ready node_not_ready
          (text "missed heartbeats; downgraded to not_ready" ∷ [])
          db)
unfolding update_node_status update_node insert_event
downgrade-Ensures now j db =
    elim (Option-cases (find (is_node j) (update (is_node j) downgraded db.nodes))) [
      | inl gone ↦ simp gone tt
      | inr (n, found) ↦ simp found (record { nodes = refl; tasks = refl })
    ]

pub committed-keeps :
    {A : Type 0} (P : Db → Type 0) (db : Db) (r : Result (A × Db))
    → P db
    → Ensures (λ a db'. P db') r
    → P (committed db r)
committed-keeps P db (ok (a, db')) h k = k
committed-keeps P db (err e) h k = h

pub reaped-keeps :
    (P : Db → Type 0) (docker : Bool) (db : Db) (r : Result (MarkNodeDeadResult × Db))
    → P db
    → Ensures (λ a db'. P db') r
    → P (reaped docker db r).0
reaped-keeps P docker db (ok (a, db')) h k = k
reaped-keeps P docker db (err e) h k = h

-- What a death and a downgrade keep, every branch of an evaluation keeps.
pub carry_out-keeps :
    (P : Db → Type 0) (v : Verdict) (docker : Bool) (now : ℕ) (j : String) (db : Db)
    → IsUnique (λ (t : Task). t.id) db.tasks
    → ((r : MarkNodeDeadResult) (db' : Db) → Died j db r db' → P db')
    → ((db' : Db) → Downgraded j db db' → P db')
    → P db
    → P (carry_out v docker now j db).0
unfolding carry_out
carry_out-keeps P give_up docker now j db u died down h =
    reaped-keeps P docker db (mark_node_dead now j db) h
      (Ensures-map (Died j db) (λ _ db'. P db') _ died (mark_node_dead-Ensures now j db u))
carry_out-keeps P downgrade docker now j db u died down h = committed-keeps P db _ h (
    Ensures-map (λ _ db'. Downgraded j db db') (λ _ db'. P db') _ (λ _ db' d. down db' d)
      (downgrade-Ensures now j db))
carry_out-keeps P leave docker now j db u died down h = h

-- Visits of other nodes keep what is known of the node `id`.
pub Downgraded-IsGone :
    {id j : String} {db db' : Db} → id ≢ j → IsGone id db → Downgraded j db db' → IsGone id db'
Downgraded-IsGone {id} {j} {db} ne g d = record {
  node = g.node;
  found = rw (d.nodes, find-update_ne (λ n. n.id) id j downgraded db.nodes (λ n. refl) ne) g.found;
  status = g.status;
  idle = rw d.tasks g.idle;
}

pub Downgraded-IsAt :
    {id j : String} {epoch : ℕ} {db db' : Db}
    → id ≢ j
    → IsAt id epoch db
    → Downgraded j db db'
    → IsAt id epoch db'
Downgraded-IsAt {id} {j} {epoch} {db} ne (n, found, e) d =
    (n, rw (d.nodes, find-update_ne (λ n. n.id) id j downgraded db.nodes (λ n. refl) ne) found, e)
