-- ===== src/Rpc/Nodes.antt =====
-- internal/grpcapi/register_node.go and list_nodes.go.
use arbiter_distributed_sche.Base.{
  Bool, List, Option, String, [], if◌then◌else◌, map, str_eq, ℕ, ◌∷◌,
}
use arbiter_distributed_sche.Base.Int.{ℤ}
use arbiter_distributed_sche.Cache.{set_last_seen}
use arbiter_distributed_sche.Rpc.{
  Handler, LeaderGate, NodeResources, caused, get_cpu, get_memory, internal, lacks_resources,
  led_by, plain, refuse, reject_if, reply, require_leader, transact,
}
use arbiter_distributed_sche.Store.{Labels, Node, NodeStatus, text}
use arbiter_distributed_sche.Store.Allocation.{NodeAllocation, get_node_allocations}
use arbiter_distributed_sche.Store.Nodes.{RegisterNodeParams, list_nodes, register_node}

pub record RegisterNodeRequest : Type 0 where
  pub hostname : String
  pub address : String
  pub capacity : Option NodeResources
  pub labels : Option Labels

pub record RegisterNodeResponse : Type 0 where
  pub node_id : String
  pub epoch : ℕ
  pub heartbeat_interval_ms : ℤ

abbrev params_of : RegisterNodeRequest → RegisterNodeParams
params_of req = record {
  hostname = req.hostname;
  address = req.address;
  cpu_capacity_millicores = get_cpu req.capacity;
  mem_capacity_mb = get_memory req.capacity;
  labels = req.labels;
}

-- The end of the handler: the time is seeded. `redis_up` says whether Redis answers.
unfoldable pub seed_last_seen : Bool → ℤ → ℕ → Node → Handler RegisterNodeResponse
unfolding set_last_seen
seed_last_seen redis_up interval now node w =
    if redis_up
    then (
      reply (record { node_id = node.id; epoch = node.epoch; heartbeat_interval_ms = interval }),
      record w { cache = set_last_seen now node.id w.cache },
    )
    else (refuse (plain internal (text "register node: seed last-seen" ∷ [])), w)

-- `RegisterNode`
unfoldable pub handle_register_node :
    Option LeaderGate → Bool → ℤ → String → ℕ → RegisterNodeRequest → Handler RegisterNodeResponse
unfolding require_leader register_node seed_last_seen
handle_register_node leader redis_up interval new_id now req = led_by leader (
    reject_if (str_eq req.hostname "") "hostname is required" (
      reject_if (str_eq req.address "") "address is required" (
        reject_if (lacks_resources req.capacity)
          "capacity.cpu_millicores and capacity.memory_mb must both be positive"
          (λ w.
            transact (register_node new_id now (params_of req)) w
              (λ e w'. (refuse (caused (text "register node: " ∷ []) e), w'))
              (seed_last_seen redis_up interval now)))))

-- The Node message.
pub record NodeMessage : Type 0 where
  pub id : String
  pub hostname : String
  pub address : String
  pub capacity : NodeResources
  pub allocated : NodeResources
  pub labels : Option Labels
  pub status : NodeStatus
  pub epoch : ℕ

-- `toProtoNode`
unfoldable pub to_proto_node : Node → NodeAllocation → NodeMessage
to_proto_node n alloc = record {
  id = n.id;
  hostname = n.hostname;
  address = n.address;
  capacity = record { cpu_millicores = n.cpu_capacity_millicores; memory_mb = n.mem_capacity_mb };
  allocated = record { cpu_millicores = alloc.cpu_millicores; memory_mb = alloc.memory_mb };
  labels = n.labels;
  status = n.status;
  epoch = n.epoch;
}

-- `ListNodes`
unfoldable pub handle_list_nodes : Handler (List NodeMessage)
unfolding list_nodes get_node_allocations to_proto_node
handle_list_nodes w =
    transact get_node_allocations w
      (λ e w'. (refuse (caused (text "list nodes: allocations: " ∷ []) e), w'))
      (λ allocs w'. (reply (map (λ n. to_proto_node n (allocs n.id)) (list_nodes w.db)), w'))
