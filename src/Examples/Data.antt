-- ===== src/Examples/Data.antt =====
-- One job with one task that runs on one node.
use arbiter_distributed_sche.Base.{List, String, [], arith, none, refl, some, ℕ, ◌∷◌}
use arbiter_distributed_sche.Base.Int.{pos}
use arbiter_distributed_sche.Store.{
  Db, EntityType, Event, EventType, Job, LeaderLease, Node, Part, Task, TaskStatus, bin_pack, dead,
  node_dead, node_entity, number, pending, ready, running, task_entity, task_orphaned,
  task_requeued, text,
}
use arbiter_distributed_sche.Store.Jobs.{job_checks}
use arbiter_distributed_sche.Store.Nodes.{MarkNodeDeadResult}
use arbiter_distributed_sche.Store.Tasks.{UpdateTaskStatusParams}
use arbiter_distributed_sche.Store.Valid.{IsValid}

abbrev pub node_1 : Node
node_1 = record {
  id = "n1";
  hostname = "worker-1";
  address = "worker-1:8081";
  cpu_capacity_millicores = pos 1000;
  mem_capacity_mb = pos 512;
  labels = some [];
  status = ready;
  epoch = 0;
  last_heartbeat_at = some 1;
  created_at = 1;
}

abbrev pub job_1 : Job
job_1 = record {
  id = "j1";
  name = "hello";
  image = "busybox";
  command = [];
  cpu_request_millicores = pos 600;
  mem_request_mb = pos 128;
  replicas = pos 1;
  retry_limit = pos 2;
  scheduling_policy = bin_pack;
  constraints = [];
  created_at = 2;
}

abbrev pub task_pending : Task
task_pending = record {
  id = "t1";
  job_id = "j1";
  status = pending;
  assigned_node_id = none;
  assigned_epoch = none;
  retries_used = 0;
  exit_code = none;
  last_error = none;
  created_at = 3;
  scheduled_at = none;
  started_at = none;
  finished_at = none;
  next_retry_at = none;
}

abbrev pub task_live : Task
task_live = record task_pending {
  status = running;
  assigned_node_id = some "n1";
  assigned_epoch = some 0;
  scheduled_at = some 4;
  started_at = some 5;
}

abbrev pub lease_free : LeaderLease
lease_free = record {
  leader_id = "";
  leader_addr = "";
  epoch = pos 0;
  acquired_at = 0;
  expires_at = 0;
}

abbrev pub cluster : Task → Db
cluster t = record {
  nodes = node_1 ∷ [];
  jobs = job_1 ∷ [];
  tasks = t ∷ [];
  events = [];
  next_event_id = 1;
  lease = some lease_free;
}

abbrev pub event_of : ℕ → ℕ → EntityType → String → EventType → List Part → Event
event_of id now entity_type entity_id event_type message = record {
  id = id;
  entity_type = entity_type;
  entity_id = entity_id;
  event_type = event_type;
  message = message;
  created_at = now;
}

-- The tables after `MarkNodeDead` at the time 9.
abbrev pub cluster_dead : Db
cluster_dead = record {
  nodes = record node_1 { status = dead; epoch = 1 } ∷ [];
  jobs = job_1 ∷ [];
  tasks = record task_pending { last_error = some "requeued after node failure" } ∷ [];
  events =
      event_of 1 9 node_entity "n1" node_dead
        (text "node marked dead after missed heartbeats, epoch bumped to " ∷ number 1 ∷ [])
      ∷ event_of 2 9 task_entity "t1" task_orphaned
          (text "orphaned: assigned node " ∷ text "n1" ∷ text " marked dead" ∷ [])
      ∷ event_of 3 9 task_entity "t1" task_requeued
          (text "requeued as pending for reassignment" ∷ [])
      ∷ [];
  next_event_id = 4;
  lease = some lease_free;
}

abbrev pub death : MarkNodeDeadResult
death = record { node = record node_1 { status = dead; epoch = 1 }; orphaned_task_ids = "t1" ∷ [] }

abbrev pub status_report : TaskStatus → UpdateTaskStatusParams
status_report status = record {
  task_id = "t1";
  status = status;
  exit_code = some (pos 1);
  error = "exit code 1";
  node_id = "n1";
  epoch = 0;
}

pub cluster-IsValid : IsValid (cluster task_live)
unfolding job_checks
cluster-IsValid = record {
  nodes_unique = (refl, tt);
  jobs_unique = (refl, tt);
  jobs_checked = (refl, tt);
  tasks_unique = (refl, tt);
  rows =
      (record { assignment = (node_1, refl, omega arith); job = (job_1, refl, omega arith) }, tt);
}
