-- ===== src/Rpc/Survival.antt =====
-- internal/grpcapi/heartbeat.go with internal/failuredetector/failuredetector.go: what a recorded
-- heartbeat spares a node.
use arbiter_distributed_sche.Base.{
  Bool, Option, String, find, none, select, some, true, ℕ, ◌+◌, ◌-◌, ◌<◌, ◌≡◌, ◌≢◌, ◌≤◌,
}
use arbiter_distributed_sche.Base.Int.{pos, ◌≤ℤ◌}
use arbiter_distributed_sche.Base.Keys.{IsUnique}
use arbiter_distributed_sche.Cache.{last_seen_ttl, set_last_seen}
use arbiter_distributed_sche.Cache.Recall.{age_of_recorded}
use arbiter_distributed_sche.Detector.{Config, detector_tick}
use arbiter_distributed_sche.Detector.Fresh.{heard_node_stays}
use arbiter_distributed_sche.Rpc.{LeaderGate, World, require_leader}
use arbiter_distributed_sche.Rpc.Heartbeat.{HeartbeatRequest, handle_heartbeat}
use arbiter_distributed_sche.Rpc.Recording.{heartbeat_is_recorded}
use arbiter_distributed_sche.Store.{Db, Node, Task}
use arbiter_distributed_sche.Store.Allocation.{is_on}
use arbiter_distributed_sche.Store.Nodes.{is_node}
use arbiter_distributed_sche.Store.Report.{millisecond}

-- A node whose heartbeat the leader has recorded is safe from the failure detector for a while: any
-- later tick that reads the cache as the handler left it, on whatever tables it then finds, leaves
-- the node's row and the tasks on it alone, as long as the time since the heartbeat, and a
-- millisecond for rounding, stays within both thresholds and the key has not expired. The node was
-- registered under the epoch of the request, Redis answered, and no two tasks have one id.
pub heartbeat_defers_death :
    (leader : Option LeaderGate) (now later : ℕ) (req : HeartbeatRequest) (node : Node) (w : World)
    (cfg : Config) (docker : Bool) (gate : Option Bool) (reachable : String → Bool) (db : Db)
    → require_leader leader ≡ none
    → req.node_id ≢ ""
    → find (is_node req.node_id) w.db.nodes ≡ some node
    → req.epoch ≡ node.epoch
    → now ≤ later
    → later < now + last_seen_ttl
    → pos (later - now + millisecond) ≤ℤ cfg.dead_after
    → pos (later - now + millisecond) ≤ℤ cfg.not_ready_after
    → IsUnique (λ (t : Task). t.id) db.tasks
    → let cache = (handle_heartbeat leader true now req w).1.cache in
      let db' = (detector_tick cfg docker gate reachable cache later db).0 in
      (find (is_node node.id) db'.nodes ≡ find (is_node node.id) db.nodes)
      × (select (is_on node.id) db'.tasks ≡ select (is_on node.id) db.tasks)
heartbeat_defers_death leader now later req node w cfg docker gate reachable db led named found
      current k h d n u =
    rw (heartbeat_is_recorded leader now req node w led named found current) (
      heard_node_stays cfg docker reachable (set_last_seen now node.id w.cache) later gate node.id
        db u
        (λ _. (
          age_of_recorded now later node.id w.cache cfg.dead_after k h d,
          age_of_recorded now later node.id w.cache cfg.not_ready_after k h n,
        )))
