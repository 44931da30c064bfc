-- ===== src/Examples/Store.antt =====
-- Runs of the store's transactions.
use arbiter_distributed_sche.Base.{[], arith, eq_iff, find, none, refl, some, ◌≡◌}
use arbiter_distributed_sche.Base.Int.{pos}
use arbiter_distributed_sche.Examples.Data.{
  cluster, cluster-IsValid, cluster_dead, death, node_1, status_report, task_live,
}
use arbiter_distributed_sche.Store.{
  Db, Job, Node, Task, bump_epoch, committed, dead, ok, spread, succeeded,
}
use arbiter_distributed_sche.Store.Events.{insert_event}
use arbiter_distributed_sche.Store.Fenced.{dead_node_stays_fenced}
use arbiter_distributed_sche.Store.History.{Reach, Reach-IsSound, dies, here, next, registers}
use arbiter_distributed_sche.Store.Jobs.{
  CreateJobParams, create_job, is_named_policy, job_checks, new_job, policy_or_default,
}
use arbiter_distributed_sche.Store.Jobs.Creation.{Submitted, create_job_lem}
use arbiter_distributed_sche.Store.Lifecycle.{Moves, phase_of}
use arbiter_distributed_sche.Store.Nodes.{
  MarkNodeDeadResult, RegisterNodeParams, is_at, mark_node_dead, orphan_and_requeue_tasks,
  register_node, reregistered, update_node, upsert_node,
}
use arbiter_distributed_sche.Store.Nodes.Totality.{Buried, mark_node_dead_lem}
use arbiter_distributed_sche.Store.Refinement.{Reach-TasksMove}
use arbiter_distributed_sche.Store.Report.{update_task_status}
use arbiter_distributed_sche.Store.Tasks.{is_row}
use arbiter_distributed_sche.Store.Valid.{IsSound}

death_runs : mark_node_dead 9 "n1" (cluster task_live) ≡ ok (death, cluster_dead)
unfolding mark_node_dead update_node insert_event orphan_and_requeue_tasks
death_runs = refl

-- The node registers again behind its death.
abbrev same_worker : RegisterNodeParams
same_worker = record {
  hostname = "worker-1";
  address = "worker-1:8081";
  cpu_capacity_millicores = pos 1000;
  mem_capacity_mb = pos 512;
  labels = none;
}

abbrev node_back : Node
node_back = reregistered 10 same_worker (record node_1 { status = dead; epoch = 1 })

abbrev cluster_back : Db
cluster_back = committed cluster_dead (register_node "n2" 10 same_worker cluster_dead)

back_runs : register_node "n2" 10 same_worker cluster_dead ≡ ok (node_back, cluster_back)
unfolding register_node upsert_node reregistered is_at bump_epoch insert_event
back_runs = refl

abbrev back_again : Reach cluster_dead cluster_back
back_again = next here (registers "n2" 10 same_worker node_back refl back_runs)

dead_node_stays_fenced_example :
    committed cluster_back (update_task_status 11 (status_report succeeded) cluster_back)
    ≡ cluster_back
dead_node_stays_fenced_example =
    dead_node_stays_fenced 9 11 "n1" (status_report succeeded) death back_again cluster-IsValid
      (ground (arith, eq_iff "n1" "")) refl death_runs (tt, tt)

Reach-IsSound_example : IsSound (cluster task_live) cluster_dead
Reach-IsSound_example = Reach-IsSound cluster-IsValid (next here (dies 9 "n1" death death_runs))

mark_node_dead_lem_example :
    (r : MarkNodeDeadResult) × ((db' : Db) × (mark_node_dead 9 "n1" (cluster task_live)
        ≡ ok (r, db'))
      × Buried "n1" (cluster task_live) r db')
mark_node_dead_lem_example =
    mark_node_dead_lem 9 "n1" (cluster task_live) {n = node_1} (refl, tt) refl (omega arith)

abbrev one_replica : CreateJobParams
one_replica = record {
  name = "web";
  image = "nginx";
  command = [];
  cpu_request_millicores = pos 100;
  mem_request_mb = pos 64;
  replicas = pos 1;
  retry_limit = pos 1;
  scheduling_policy = spread;
  constraints = [];
}

create_job_lem_example :
    (job : Job) × ((db' : Db) × (create_job "j2" (λ i. "t2") 11 one_replica (cluster task_live)
        ≡ ok (job, db'))
      × Submitted "j2" (λ i. "t2") 11 one_replica (cluster task_live) job db')
unfolding job_checks new_job is_named_policy policy_or_default
create_job_lem_example =
    create_job_lem "j2" (λ i. "t2") 11 one_replica (cluster task_live) (omega arith) refl

Reach-TasksMove_example :
    (t' : Task) × (find (is_row "t1") cluster_dead.tasks ≡ some t')
    × Moves (phase_of task_live) (phase_of t')
Reach-TasksMove_example =
    Reach-TasksMove "t1" task_live cluster-IsValid here (dies 9 "n1" death death_runs) refl
