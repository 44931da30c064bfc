-- ===== src/Store/Nodes.antt =====
pub mod Totality
pub mod Restart
use arbiter_distributed_sche.Base.{
  Bool, List, Option, String, [], coalesce, count, false, find, map, none, order_by, select, some,
  str_eq, true, update, ℕ, ◌&&◌, ◌++◌, ◌+◌, ◌∷◌,
}
use arbiter_distributed_sche.Base.Int.{ℤ}
use arbiter_distributed_sche.Store.{
  Db, EventType, Labels, Node, NodeStatus, Part, Task, Tx, bump_epoch, cordoned, dead, get, modify,
  node_dead, node_entity, node_not_found, node_registered, number, or_throw, pending, pure, ready,
  same_node_status, task_entity, task_orphaned, task_requeued, text, ◌>>=◌, ◌>>◌,
}
use arbiter_distributed_sche.Store.Allocation.{is_on}
use arbiter_distributed_sche.Store.Events.{insert_event}
use arbiter_distributed_sche.Store.Tasks.{is_row}

-- internal/store/nodes.go: the nodes of the cluster. The id that the database draws for a new row
-- and the time come as arguments.

pub record RegisterNodeParams : Type 0 where
  pub hostname : String
  pub address : String
  pub cpu_capacity_millicores : ℤ
  pub mem_capacity_mb : ℤ
  pub labels : Option Labels

abbrev pub is_node : String → Node → Bool
is_node id n = str_eq n.id id

-- The UNIQUE key of the upsert.
unfoldable pub is_at : String → String → Node → Bool
is_at hostname address n = str_eq n.hostname hostname && str_eq n.address address

-- The row that the upsert inserts. A nil map of labels is stored as the empty one.
unfoldable pub new_node : String → ℕ → RegisterNodeParams → Node
new_node id now params = record {
  id = id;
  hostname = params.hostname;
  address = params.address;
  cpu_capacity_millicores = params.cpu_capacity_millicores;
  mem_capacity_mb = params.mem_capacity_mb;
  labels = some (coalesce params.labels []);
  status = ready;
  epoch = 0;
  last_heartbeat_at = some now;
  created_at = now;
}

-- What `ON CONFLICT … DO UPDATE` writes.
unfoldable pub reregistered : ℕ → RegisterNodeParams → Node → Node
reregistered now params n = record n {
  cpu_capacity_millicores = params.cpu_capacity_millicores;
  mem_capacity_mb = params.mem_capacity_mb;
  labels = some (coalesce params.labels []);
  status = ready;
  epoch = n.epoch + 1;
  last_heartbeat_at = some now;
}

-- The upsert, by the row that it finds under the UNIQUE key.
unfoldable pub upsert_node : String → ℕ → RegisterNodeParams → Option Node → Tx Node
unfolding new_node reregistered is_at bump_epoch
upsert_node new_id now params none = do
  let node = new_node new_id now params
  modify (λ db. record db { nodes = db.nodes ++ node ∷ [] })
  pure node
upsert_node new_id now params (some old) = do
  bump_epoch old.epoch
  modify (λ db. record db {
    nodes = update (is_at params.hostname params.address) (reregistered now params) db.nodes;
  })
  pure (reregistered now params old)

-- `RegisterNode`
unfoldable pub register_node : String → ℕ → RegisterNodeParams → Tx Node
unfolding upsert_node insert_event
register_node new_id now params = do
  db ← get
  node ← upsert_node new_id now params (find (is_at params.hostname params.address) db.nodes)
  insert_event now node_entity node.id node_registered (
      text "node registered: hostname="
      ∷ text node.hostname
      ∷ text " address="
      ∷ text node.address
      ∷ text " epoch="
      ∷ number node.epoch
      ∷ [])
  pure node

-- `GetNode`
unfoldable pub get_node : String → Tx Node
get_node id = do db ← get; or_throw (find (is_node id) db.nodes) node_not_found

-- `UPDATE nodes SET … WHERE id = $1 RETURNING …`
unfoldable pub update_node : String → (Node → Node) → Tx Node
update_node id f = do
  modify (λ db. record db { nodes = update (is_node id) f db.nodes })
  db ← get
  or_throw (find (is_node id) db.nodes) node_not_found

-- `UpdateNodeStatus`
unfoldable pub update_node_status : ℕ → String → NodeStatus → EventType → List Part → Tx Node
unfolding update_node insert_event
update_node_status now node_id new_status event_type message = do
  node ← update_node node_id (λ n. record n { status = new_status })
  insert_event now node_entity node.id event_type message
  pure node

pub record MarkNodeDeadResult : Type 0 where
  pub node : Node
  pub orphaned_task_ids : List String

-- What the requeueing UPDATE writes. The retries, the exit code and the times of creation stay.
unfoldable pub orphan_requeued : Task → Task
orphan_requeued t = record t {
  status = pending;
  assigned_node_id = none;
  assigned_epoch = none;
  scheduled_at = none;
  started_at = none;
  finished_at = none;
  next_retry_at = none;
  last_error = some "requeued after node failure";
}

-- The loop `for _, id := range ids`.
unfoldable pub requeue_each : ℕ → String → List String → Tx (Unit {0})
unfolding insert_event orphan_requeued
requeue_each now node_id [] = pure tt
requeue_each now node_id (id ∷ ids) = do
  insert_event now task_entity id task_orphaned
      (text "orphaned: assigned node " ∷ text node_id ∷ text " marked dead" ∷ [])
  modify (λ db. record db { tasks = update (is_row id) orphan_requeued db.tasks })
  insert_event now task_entity id task_requeued (text "requeued as pending for reassignment" ∷ [])
  requeue_each now node_id ids

abbrev pub task_ids : List Task → List String
task_ids ts = map (λ t. t.id) ts

-- `orphanAndRequeueTasksTx`. Without ids the loop has no round.
unfoldable pub orphan_and_requeue_tasks : ℕ → String → Tx (List String)
unfolding requeue_each is_on
orphan_and_requeue_tasks now node_id = do
  db ← get
  let ids = task_ids (select (is_on node_id) db.tasks)
  requeue_each now node_id ids
  pure ids

-- What the UPDATE of `MarkNodeDead` writes.
unfoldable pub marked_dead : Node → Node
marked_dead n = record n { status = dead; epoch = n.epoch + 1 }

-- `MarkNodeDead`. An epoch past the range of BIGINT fails the UPDATE.
unfoldable pub mark_node_dead : ℕ → String → Tx MarkNodeDeadResult
unfolding get_node bump_epoch update_node marked_dead insert_event orphan_and_requeue_tasks
mark_node_dead now node_id = do
  found ← get_node node_id
  bump_epoch found.epoch
  node ← update_node node_id marked_dead
  insert_event now node_entity node.id node_dead
      (text "node marked dead after missed heartbeats, epoch bumped to " ∷ number node.epoch ∷ [])
  ids ← orphan_and_requeue_tasks now node_id
  pure (record { node = node; orphaned_task_ids = ids })

-- `CountNodesByStatus`, at a status: a status with no row has no entry, which reads as zero.
unfoldable pub count_nodes_by_status : Db → NodeStatus → ℕ
unfolding same_node_status
count_nodes_by_status db status = count (λ n. same_node_status n.status status) db.nodes

-- `ListNodes`
unfoldable pub list_nodes : Db → List Node
list_nodes db = order_by (λ n. n.created_at) db.nodes

-- `status NOT IN ('dead', 'cordoned')`
unfoldable pub is_active : NodeStatus → Bool
is_active dead = false
is_active cordoned = false
is_active _ = true

-- `ListActiveNodes`
unfoldable pub list_active_nodes : Db → List Node
unfolding is_active
list_active_nodes db = order_by (λ n. n.created_at) (select (λ n. is_active n.status) db.nodes)
