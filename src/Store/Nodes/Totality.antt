-- ===== src/Store/Nodes/Totality.antt =====
-- internal/store/nodes.go: when `MarkNodeDead` succeeds.
use arbiter_distributed_sche.Base.{
  Bool, List, String, [], ap, arith, find, holds_text, ltb, map, none, refl, select, some, true,
  update, ℕ, ◌&&◌, ◌+◌, ◌<◌, ◌^◌, ◌||◌, ◌∙◌, ◌∷◌, ◌≡◌,
}
use arbiter_distributed_sche.Base.Keys.{IsUnique}
use arbiter_distributed_sche.Store.{
  Db, Ensures-ok, Node, Task, TaskStatus, and_then, bump_epoch, cancelled, dead, failed, node_dead,
  node_entity, number, ok, orphaned, other, pending, pure, running, same_status, scheduled,
  succeeded, text, ◌>>=◌, ◌>>◌,
}
use arbiter_distributed_sche.Store.Allocation.{consumes, is_on}
use arbiter_distributed_sche.Store.Events.{insert_event}
use arbiter_distributed_sche.Store.Nodes.{
  MarkNodeDeadResult, get_node, is_node, mark_node_dead, marked_dead, orphan_and_requeue_tasks,
  orphan_requeued, requeue_each, task_ids,
}
use arbiter_distributed_sche.Store.Success.{Succeeds, bind-Succeeds, result_of}
use arbiter_distributed_sche.Store.Valid.Dying.{Died, mark_node_dead-Ensures, update_node_lem}

requeue_each-Succeeds :
    (now : ℕ) (node_id : String) (ids : List String) (db : Db)
    → Succeeds (requeue_each now node_id ids db)
unfolding requeue_each
requeue_each-Succeeds now node_id [] db = tt
requeue_each-Succeeds now node_id (id ∷ ids) db = requeue_each-Succeeds now node_id ids _

finish-Succeeds :
    (now : ℕ) (node_id : String) (n : Node) (db : Db)
    → Succeeds {A = MarkNodeDeadResult} (
        (insert_event now node_entity n.id node_dead (
              text "node marked dead after missed heartbeats, epoch bumped to "
              ∷ number n.epoch
              ∷ [])
            >> (orphan_and_requeue_tasks now node_id >>= λ ids.
                pure (record { node = n; orphaned_task_ids = ids })))
          db)
unfolding orphan_and_requeue_tasks insert_event
finish-Succeeds now node_id n db =
    bind-Succeeds (and_then (requeue_each now node_id ids _) (λ _. pure ids)) _
      (bind-Succeeds (requeue_each now node_id ids _) _ (requeue_each-Succeeds now node_id ids _)
        (λ _ _. tt))
      (λ _ _. tt)
  where
    ids : List String
    ids = task_ids (select (is_on node_id) db.tasks)

-- `MarkNodeDead` succeeds for every node that exists, short of the range of the epoch.
pub mark_node_dead_succeeds :
    (now : ℕ) (node_id : String) (db : Db) {n : Node}
    → find (is_node node_id) db.nodes ≡ some n
    → n.epoch + 1 < 2 ^ 63
    → (r : MarkNodeDeadResult) × ((db' : Db) × (mark_node_dead now node_id db ≡ ok (r, db')))
unfolding mark_node_dead get_node bump_epoch
mark_node_dead_succeeds now node_id db {n} found small = result_of (mark_node_dead now node_id db) (
    simp (found, fits, update_node_lem node_id marked_dead db {n = n} refl found)
      (finish-Succeeds now node_id (marked_dead n)
        (record db { nodes = update (is_node node_id) marked_dead db.nodes })))
  where
    fits : ltb (n.epoch + 1) (2 ^ 63) ≡ true
    fits = ground (arith, small)

-- A task that is scheduled or runs on the node.
abbrev pub holds : String → Task → Bool
holds node_id t =
    holds_text t.assigned_node_id node_id
    && (same_status t.status scheduled || same_status t.status running)

-- The row of a node that has died.
abbrev pub dead_row : Node → Node
dead_row n = record n { status = dead; epoch = n.epoch + 1 }

-- The row of a task whose node has died.
abbrev pub waiting_row : Task → Task
waiting_row t = record t {
  status = pending;
  assigned_node_id = none;
  assigned_epoch = none;
  scheduled_at = none;
  started_at = none;
  finished_at = none;
  next_retry_at = none;
  last_error = some "requeued after node failure";
}

-- What a death leaves, row by row.
pub record Buried (node_id : String) (db : Db) (result : MarkNodeDeadResult) (db' : Db)
    : Type 0 where
  pub n : Node
  pub found : find (is_node node_id) db.nodes ≡ some n
  pub node : result.node ≡ dead_row n
  pub ids : result.orphaned_task_ids ≡ map (λ t. t.id) (select (holds node_id) db.tasks)
  pub nodes : db'.nodes ≡ update (is_node node_id) dead_row db.nodes
  pub tasks : db'.tasks ≡ update (holds node_id) waiting_row db.tasks
  pub jobs : db'.jobs ≡ db.jobs
  pub lease : db'.lease ≡ db.lease

consumes_lem : (s : TaskStatus) → consumes s ≡ (same_status s scheduled || same_status s running)
unfolding consumes same_status
consumes_lem scheduled = refl
consumes_lem running = refl
consumes_lem pending = refl
consumes_lem succeeded = refl
consumes_lem failed = refl
consumes_lem orphaned = refl
consumes_lem cancelled = refl
consumes_lem (other s) = refl

is_on_lem : (node_id : String) → is_on node_id ≡ holds node_id
unfolding is_on
is_on_lem node_id = λ i t. holds_text t.assigned_node_id node_id && consumes_lem t.status i

Died-Buried :
    {node_id : String} {db db' : Db} {r : MarkNodeDeadResult}
    → Died node_id db r db'
    → Buried node_id db r db'
unfolding marked_dead orphan_requeued
Died-Buried {node_id} {db} {db'} {r} d = record {
  n = d.n;
  found = d.found;
  node = d.node;
  ids = d.ids ∙ ap (λ p. task_ids (select p db.tasks)) (is_on_lem node_id);
  nodes = d.nodes;
  tasks = d.tasks ∙ ap (λ p. update p waiting_row db.tasks) (is_on_lem node_id);
  jobs = d.jobs;
  lease = d.lease;
}

-- For a node that exists, with an epoch short of the column's range, `MarkNodeDead` succeeds. It
-- makes that row dead under the next epoch, requeues exactly the tasks that are scheduled or run on
-- the node as pending and unassigned, returns their ids, and leaves the other rows, the jobs and the
-- lease alone. No two tasks have one id.
pub mark_node_dead_lem :
    (now : ℕ) (node_id : String) (db : Db) {n : Node}
    → IsUnique (λ (t : Task). t.id) db.tasks
    → find (is_node node_id) db.nodes ≡ some n
    → n.epoch + 1 < 2 ^ 63
    → (r : MarkNodeDeadResult) × ((db' : Db) × (mark_node_dead now node_id db ≡ ok (r, db'))
        × Buried node_id db r db')
mark_node_dead_lem now node_id db u found small =
    let (r, (db', runs)) = mark_node_dead_succeeds now node_id db found small in
    (
      r,
      (
        db',
        runs,
        Died-Buried (Ensures-ok (Died node_id db) (mark_node_dead-Ensures now node_id db u) runs),
      ),
    )
