-- ===== src/Examples/Rpc.antt =====
-- A heartbeat, and a tick of the failure detector after it.
use arbiter_distributed_sche.Base.{[], arith, eq_iff, false, find, none, refl, select, true, ◌≡◌}
use arbiter_distributed_sche.Base.Int.{pos}
use arbiter_distributed_sche.Cache.{second}
use arbiter_distributed_sche.Detector.{Config, detector_tick}
use arbiter_distributed_sche.Examples.Data.{cluster, node_1, task_live}
use arbiter_distributed_sche.Rpc.{LeaderGate, World, require_leader}
use arbiter_distributed_sche.Rpc.Followers.{IsRefused, follower_refuses}
use arbiter_distributed_sche.Rpc.Heartbeat.{HeartbeatRequest, handle_heartbeat}
use arbiter_distributed_sche.Rpc.Jobs.{SubmitJobRequest}
use arbiter_distributed_sche.Rpc.Nodes.{RegisterNodeRequest}
use arbiter_distributed_sche.Rpc.Reports.{TaskStatusUpdate}
use arbiter_distributed_sche.Rpc.Survival.{heartbeat_defers_death}
use arbiter_distributed_sche.Store.{running, spread}
use arbiter_distributed_sche.Store.Allocation.{is_on}
use arbiter_distributed_sche.Store.Nodes.{is_node}

abbrev beat : HeartbeatRequest
beat = record { node_id = "n1"; epoch = 0; task_updates = [] }

abbrev world : World
world = record { db = cluster task_live; cache = λ id. none }

abbrev seconds : Config
seconds = record {
  poll_interval = pos second;
  not_ready_after = pos 2_000_000_000;
  dead_after = pos 3_000_000_000;
}

heartbeat_defers_death_example :
    let cache = (handle_heartbeat none true 10 beat world).1.cache in
    let db' =
      (detector_tick seconds true none (λ id. true) cache 1_000_000_000 (cluster task_live)).0 in
    (find (is_node "n1") db'.nodes ≡ find (is_node "n1") (cluster task_live).nodes)
    × (select (is_on "n1") db'.tasks ≡ select (is_on "n1") (cluster task_live).tasks)
unfolding require_leader
heartbeat_defers_death_example =
    heartbeat_defers_death none 10 1_000_000_000 beat node_1 world seconds true none (λ id. true)
      (cluster task_live) refl (ground (arith, eq_iff "n1" "")) refl refl (omega arith)
      (omega arith) (omega arith) (omega arith) (refl, tt)

abbrev joining_worker : RegisterNodeRequest
joining_worker = record { hostname = "h"; address = "a"; capacity = none; labels = none }

abbrev submission : SubmitJobRequest
submission = record {
  name = "web";
  image = "nginx";
  command = [];
  request = none;
  replicas = pos 1;
  retry_limit = pos 0;
  scheduling_policy = spread;
  constraints = [];
}

abbrev started_update : TaskStatusUpdate
started_update = record {
  task_id = "t1";
  status = running;
  exit_code = pos 0;
  error = "";
  node_id = "n1";
  epoch = 0;
}

abbrev follower : LeaderGate
follower = record { is_leader = false; leader_addr = "s1:7000" }

follower_refuses_example :
    IsRefused
      (λ i. "0")
      10
      world
      true
      (pos 1000)
      "n2"
      (λ i. "t2")
      joining_worker
      submission
      started_update
      beat
      follower
follower_refuses_example =
    follower_refuses (λ i. "0") 10 world true (pos 1000) "n2" (λ i. "t2") joining_worker submission
      started_update beat follower refl
      (record { not_empty = refl; trimmed = refl; is_known = refl })
