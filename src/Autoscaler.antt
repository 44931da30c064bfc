-- ===== src/Autoscaler.antt =====
-- internal/autoscaler/autoscaler.go: the state and the settings of the autoscaler. Metrics and logs
-- are left out.
pub mod Scaling
pub mod Choices
pub mod Ticks
pub mod Keeping
pub mod Capacity
pub mod Owned
pub mod Caution
use Prim.Native.String.{len, slice}
use arbiter_distributed_sche.Base.{
  Bool, List, Option, String, [], false, if◌then◌else◌, ltb, none, select, some, str_eq, true, ℕ,
  ◌%◌, ◌*◌, ◌∷◌,
}
use arbiter_distributed_sche.Base.Int.{leb_ℤ, pos, ℤ}
use arbiter_distributed_sche.Base.Text.{trim_space}
use arbiter_distributed_sche.Cache.{second}
use arbiter_distributed_sche.Detector.{time_since}
use arbiter_distributed_sche.Docker.{DockerError}
use arbiter_distributed_sche.Scheduler.Plugins.{label_of}
use arbiter_distributed_sche.Store.{Db, Error, Labels, Node}

-- `Config`. Durations are nanoseconds.
pub record ScalingConfig : Type 0 where
  pub enabled : Bool
  pub poll_interval : ℤ
  pub pending_threshold : ℤ
  pub sustain_window : ℤ
  pub idle_window : ℤ
  pub max_autoscaled_workers : ℤ
  pub cooldown : ℤ
  pub worker_image : String
  pub docker_network : String
  pub scheduler_addr : String
  pub scheduler_addrs : String
  pub worker_cpu_millicores : ℤ
  pub worker_mem_mb : ℤ
  pub extra_hosts : List String

-- `envOr`, of the variable's text, which is empty where it is not set.
unfoldable pub env_or : String → String → String
env_or value fallback = if str_eq (trim_space value) "" then fallback else trim_space value

-- The variables that `DefaultConfig` reads.
pub record ScalingEnv : Type 0 where
  pub worker_image : String
  pub docker_network : String
  pub scheduler_addr : String
  pub scheduler_addrs : String

-- `DefaultConfig`
unfoldable pub default_scaling_config : ScalingEnv → ScalingConfig
unfolding env_or
default_scaling_config env = record {
  enabled = false;
  poll_interval = pos (2 * second);
  pending_threshold = pos 3;
  sustain_window = pos (8 * second);
  idle_window = pos (20 * second);
  max_autoscaled_workers = pos 3;
  cooldown = pos (5 * second);
  worker_image = env_or env.worker_image "deploy-worker:latest";
  docker_network = trim_space env.docker_network;
  scheduler_addr = env_or env.scheduler_addr "scheduler:7000";
  scheduler_addrs = env_or env.scheduler_addrs "scheduler:7000,scheduler-2:7000,scheduler-3:7000";
  worker_cpu_millicores = pos 2_000;
  worker_mem_mb = pos 1_024;
  extra_hosts = "host.docker.internal:host-gateway" ∷ [];
}

-- The mutable fields of `Runner`. A zero time is `none`.
pub record Runner : Type 0 where
  pub pending_since : Option ℕ
  pub idle_since : String → Option ℕ
  pub last_scale_action : Option ℕ
  pub network : String
  pub seq : ℤ

abbrev or_positive : ℤ → ℤ → ℤ
or_positive z fallback = if leb_ℤ z (pos 0) then fallback else z

-- The defaults of `New`.
unfoldable pub normalized : ScalingConfig → ScalingConfig
normalized cfg = record cfg {
  poll_interval = or_positive cfg.poll_interval (pos (2 * second));
  max_autoscaled_workers = or_positive cfg.max_autoscaled_workers (pos 3);
  pending_threshold = or_positive cfg.pending_threshold (pos 3);
}

-- The runner of `New`, at a Unix time in seconds.
unfoldable pub new_runner : ScalingConfig → ℕ → Runner
new_runner cfg unix = record {
  pending_since = none;
  idle_since = λ id. none;
  last_scale_action = none;
  network = cfg.docker_network;
  seq = pos (unix % 1_000);
}

-- `delete(r.idleSince, id)` and `r.idleSince[id] = t`
unfoldable pub set_idle : String → Option ℕ → Runner → Runner
set_idle id t r = record r { idle_since = λ j. if str_eq id j then t else r.idle_since j }

-- `canScale`, at a time.
unfoldable pub can_scale : ScalingConfig → Option ℕ → ℕ → Bool
unfolding time_since
can_scale cfg none now = true
can_scale cfg (some t) now =
    if leb_ℤ cfg.cooldown (pos 0) then true else leb_ℤ cfg.cooldown (time_since now t)

-- `n.Labels != nil && n.Labels["autoscaled"] == "true"`
unfoldable pub says_autoscaled : Option Labels → Bool
unfolding label_of
says_autoscaled none = false
says_autoscaled (some labels) = str_eq (label_of labels "autoscaled") "true"

unfoldable pub is_autoscaled : Node → Bool
unfolding says_autoscaled
is_autoscaled n = says_autoscaled n.labels

-- `filterAutoscaled`
unfoldable pub filter_autoscaled : List Node → List Node
unfolding is_autoscaled
filter_autoscaled nodes = select is_autoscaled nodes

-- `shortID`
unfoldable pub short_id : String → String
short_id id = if ltb 12 (len id) then slice id 0 12 else id

-- What the tick runs on: the database, the Docker Engine, and the runner.
pub record Cluster (D : Type 0) : Type 0 where
  pub db : Db
  pub docker : D
  pub runner : Runner

pub data Fault : Type 0 where
  of_store : Error → Fault
  of_docker : DockerError → Fault
