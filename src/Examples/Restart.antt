-- ===== src/Examples/Restart.antt =====
-- The worker of the example registers again.
use arbiter_distributed_sche.Base.{[], arith, eq_iff, none, refl, some, ℕ, ◌+◌, ◌∷◌, ◌≡◌, ◌≤◌}
use arbiter_distributed_sche.Base.Int.{pos}
use arbiter_distributed_sche.Examples.Data.{
  cluster, cluster-IsValid, event_of, node_1, status_report, task_live,
}
use arbiter_distributed_sche.Store.{
  Db, Node, bump_epoch, err, node_entity, node_registered, number, ok, stale_task_report, succeeded,
  text,
}
use arbiter_distributed_sche.Store.Allocation.{is_on}
use arbiter_distributed_sche.Store.Events.{insert_event}
use arbiter_distributed_sche.Store.Nodes.{
  RegisterNodeParams, is_at, new_node, register_node, reregistered, upsert_node,
}
use arbiter_distributed_sche.Store.Nodes.Restart.{restart_strands_tasks}
use arbiter_distributed_sche.Store.Report.{update_task_status}
use arbiter_distributed_sche.Store.Tasks.{UpdateTaskStatusParams}

abbrev again : RegisterNodeParams
again = record {
  hostname = "worker-1";
  address = "worker-1:8081";
  cpu_capacity_millicores = pos 1000;
  mem_capacity_mb = pos 512;
  labels = none;
}

abbrev node_again : Node
node_again = record node_1 { epoch = 1; last_heartbeat_at = some 7 }

abbrev cluster_again : Db
cluster_again = record (cluster task_live) {
  nodes = node_again ∷ [];
  events =
      event_of 1 7 node_entity "n1" node_registered (
        text "node registered: hostname="
        ∷ text "worker-1"
        ∷ text " address="
        ∷ text "worker-1:8081"
        ∷ text " epoch="
        ∷ number 1
        ∷ [])
      ∷ [];
  next_event_id = 2;
}

abbrev late_report : UpdateTaskStatusParams
late_report = record (status_report succeeded) { epoch = 1 }

restart_runs : register_node "n2" 7 again (cluster task_live) ≡ ok (node_again, cluster_again)
unfolding register_node upsert_node new_node reregistered is_at bump_epoch insert_event
restart_runs = refl

restart_strands_tasks_example :
    (node_again.id ≡ node_1.id)
    × (node_again.epoch ≡ node_1.epoch + 1)
    × (cluster_again.tasks ≡ (cluster task_live).tasks)
    × (task_live.assigned_node_id ≡ some "n1")
    × ((e : ℕ) × (task_live.assigned_epoch ≡ some e) × (e ≤ 0))
    × (update_task_status 8 late_report cluster_again ≡ err stale_task_report)
unfolding is_at is_on
restart_strands_tasks_example =
    restart_strands_tasks "n2" 7 8 again late_report node_1 node_again task_live (cluster task_live)
      cluster_again cluster-IsValid refl restart_runs refl refl (ground (arith, eq_iff "n1" ""))
      refl refl
