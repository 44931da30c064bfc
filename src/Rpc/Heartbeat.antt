-- ===== src/Rpc/Heartbeat.antt =====
-- internal/grpcapi/heartbeat.go.
use arbiter_distributed_sche.Base.{
  Bool, List, Option, String, [], coalesce, false, if◌then◌else◌, map, none, not, some, str_eq,
  true, ℕ, ◌==◌, ◌∷◌,
}
use arbiter_distributed_sche.Cache.{set_last_seen}
use arbiter_distributed_sche.Rpc.{
  Code, Handler, LeaderGate, NodeResources, Reply, Status, World, caused, internal, led_by,
  not_found, plain, refuse, reject_if, reply, transact,
}
use arbiter_distributed_sche.Rpc.Reports.{TaskStatusUpdate, apply_task_status_update}
use arbiter_distributed_sche.Store.{Node, node_recovered, not_ready, ready, same_node_status, text}
use arbiter_distributed_sche.Store.Allocation.{list_scheduled_tasks_for_node}
use arbiter_distributed_sche.Store.Nodes.{get_node, update_node_status}
use arbiter_distributed_sche.Store.Tasks.{TaskWithJob}

pub record HeartbeatRequest : Type 0 where
  pub node_id : String
  pub epoch : ℕ
  pub task_updates : List TaskStatusUpdate

pub record TaskAssignment : Type 0 where
  pub task_id : String
  pub image : String
  pub command : List String
  pub request : NodeResources
  pub assigned_epoch : ℕ

pub record HeartbeatResponse : Type 0 where
  pub epoch_invalid : Bool
  pub new_assignments : List TaskAssignment

-- One round of the last loop.
unfoldable pub assignment_of : TaskWithJob → TaskAssignment
assignment_of t = record {
  task_id = t.id;
  image = t.image;
  command = t.command;
  request = record { cpu_millicores = t.cpu_request_millicores; memory_mb = t.mem_request_mb };
  assigned_epoch = coalesce t.assigned_epoch 0;
}

abbrev pub is_internal : Code → Bool
is_internal internal = true
is_internal _ = false

-- What follows an update: the first internal error ends the loop.
abbrev pub after_update : Reply (Unit {0}) → World → Option Status × World → Option Status × World
after_update (reply _) w rest = rest
after_update (refuse status) w rest = if is_internal status.code then (some status, w) else rest

-- The loop over the updates.
unfoldable pub apply_updates : ℕ → List TaskStatusUpdate → World → Option Status × World
unfolding apply_task_status_update
apply_updates now [] w = (none, w)
apply_updates now (u ∷ us) w =
    let (r, w') = apply_task_status_update now u w in
    let rest = apply_updates now us w' in after_update r w' rest

-- The end of the handler, after the recovery.
unfoldable pub assignments_for : String → Handler HeartbeatResponse
unfolding assignment_of list_scheduled_tasks_for_node
assignments_for node_id w = (
  reply (record {
    epoch_invalid = false;
    new_assignments = map assignment_of (list_scheduled_tasks_for_node node_id w.db);
  }),
  w,
)

-- `node` is the row that was read at the start.
unfoldable pub recover_node : ℕ → Node → Handler HeartbeatResponse
unfolding same_node_status update_node_status assignments_for
recover_node now node w =
    if same_node_status node.status not_ready
    then transact
        (update_node_status now node.id ready node_recovered
          (text "node recovered: heartbeat resumed before the dead threshold" ∷ []))
        w (λ e w'. (refuse (caused (text "heartbeat: recover node: " ∷ []) e), w'))
        (λ _. assignments_for node.id)
    else assignments_for node.id w

-- From the recorded time on.
unfoldable pub heartbeat_from : ℕ → List TaskStatusUpdate → Node → Handler HeartbeatResponse
heartbeat_from now updates node w =
    let (failure, w') = apply_updates now updates w in
    elim failure [ some status ↦ (refuse status, w') | none ↦ recover_node now node w' ]

-- A heartbeat of a node that is known.
unfoldable pub heartbeat_of : Bool → ℕ → HeartbeatRequest → Node → Handler HeartbeatResponse
heartbeat_of redis_up now req node w =
    if not (req.epoch == node.epoch)
    then (reply (record { epoch_invalid = true; new_assignments = [] }), w)
    else if redis_up
    then heartbeat_from now req.task_updates node
        (record w { cache = set_last_seen now node.id w.cache })
    else (refuse (plain internal (text "heartbeat: record last-seen" ∷ [])), w)

-- `Heartbeat`
unfoldable pub handle_heartbeat :
    Option LeaderGate → Bool → ℕ → HeartbeatRequest → Handler HeartbeatResponse
handle_heartbeat leader redis_up now req = led_by leader (
    reject_if (str_eq req.node_id "") "node_id is required" (λ w.
      transact (get_node req.node_id) w
        (λ e w'. (
          refuse (plain not_found (text "node is not registered; call RegisterNode first" ∷ [])),
          w',
        ))
        (heartbeat_of redis_up now req)))
