-- ===== src/Docker/Workers.antt =====
-- internal/dockerutil/dockerutil.go: the containers of autoscaled workers, and the logs of tasks.
use arbiter_distributed_sche.Base.{
  List, Option, String, [], coalesce, if◌then◌else◌, inl, inr, none, not, some, str_eq, true, ℕ,
  ◌&&◌, ◌||◌, ◌∷◌,
}
use arbiter_distributed_sche.Base.Int.{ℤ}
use arbiter_distributed_sche.Base.Text.{str_append, trim_space}
use arbiter_distributed_sche.Docker.{
  Answer, ContainerSummary, CreateBody, Engine, Try, WorkerSpec, answered, bad_status,
  invalid_response, is_refusal, list_by_labels, no_answer, no_hostname, no_network, no_response,
  remove_container, spec_incomplete,
}
use arbiter_distributed_sche.Docker.Logs.{decode_docker_logs}
use arbiter_distributed_sche.Store.{Labels}
use arbiter_distributed_sche.Store.Events.{limit_or}

abbrev or_default : String → String → String
or_default s fallback = if str_eq s "" then fallback else s

-- The defaults of `CreateAndStartWorker`.
unfoldable pub with_defaults : WorkerSpec → WorkerSpec
with_defaults spec = record spec {
  http_addr = or_default spec.http_addr ":8081";
  docker_sock_bind = or_default spec.docker_sock_bind "/var/run/docker.sock:/var/run/docker.sock";
  scheduler_addr = or_default spec.scheduler_addr "scheduler:7000";
}

unfoldable pub worker_labels : String → Labels
worker_labels hostname =
    ("arbiter.managed", "true")
    ∷ ("arbiter.role", "worker")
    ∷ ("arbiter.autoscaled", "true")
    ∷ ("arbiter.hostname", hostname)
    ∷ []

unfoldable pub worker_env : WorkerSpec → List String
worker_env spec =
    str_append "ARBITER_SCHEDULER_ADDR=" spec.scheduler_addr
    ∷ "DOCKER_HOST=unix:///var/run/docker.sock"
    ∷ (if str_eq spec.scheduler_addrs ""
        then []
        else str_append "ARBITER_SCHEDULER_ADDRS=" spec.scheduler_addrs ∷ [])

-- `createBody`, of a spec with its defaults. `digits` is `%d`.
unfoldable pub create_body : (ℤ → String) → WorkerSpec → CreateBody
unfolding worker_env worker_labels
create_body digits spec = record {
  image = spec.image;
  hostname = spec.hostname;
  env = worker_env spec;
  cmd =
      str_append "--hostname=" spec.hostname
      ∷ str_append "--address=" (str_append spec.hostname spec.http_addr)
      ∷ str_append "--http-addr=" spec.http_addr
      ∷ str_append "--cpu-capacity-millicores=" (digits spec.cpu_millicores)
      ∷ str_append "--mem-capacity-mb=" (digits spec.mem_mb)
      ∷ "--labels=autoscaled=true"
      ∷ [];
  labels = worker_labels spec.hostname;
  binds = spec.docker_sock_bind ∷ [];
  restart_policy = "unless-stopped";
  extra_hosts = spec.extra_hosts;
  network = if str_eq spec.network "" then none else some spec.network;
}

-- The id that a create response carries.
unfoldable pub created_id : Answer String → Try String
created_id no_answer = inl no_response
created_id (answered status none) =
    if is_refusal status then inl (bad_status status) else inl invalid_response
created_id (answered status (some id)) =
    if is_refusal status
    then inl (bad_status status)
    else if str_eq id ""
    then inl invalid_response
    else inr id

module _ {D : Type 0} (engine : Engine D) where
  -- A container that does not start is removed again; one whose start has no answer is left.
  unfoldable pub after_start : String → Answer (Unit {0}) × D → Try String × D
  after_start id (no_answer, d) = (inl no_response, d)
  after_start id (answered status body, d) =
      if is_refusal status
      then (inl (bad_status status), (remove_container engine id true d).1)
      else (inr id, d)

  unfoldable pub start_created : Try String × D → Try String × D
  unfolding after_start
  start_created (inl e, d) = (inl e, d)
  start_created (inr id, d) = after_start id (engine.start id d)

  -- `CreateAndStartWorker`
  unfoldable pub create_and_start_worker : (ℤ → String) → WorkerSpec → D → Try String × D
  unfolding start_created created_id create_body with_defaults
  create_and_start_worker digits spec d =
      let answer = engine.create spec.name (create_body digits (with_defaults spec)) d in
      if str_eq spec.name "" || str_eq spec.hostname "" || str_eq spec.image ""
      then (inl spec_incomplete, d)
      else start_created (created_id answer.0, answer.1)

  -- The first network that is named, and neither `none` nor `host`.
  unfoldable pub usable_network : List String → Try String
  usable_network [] = inl no_network
  usable_network (name ∷ names) =
      if not (str_eq name "") && not (str_eq name "none") && not (str_eq name "host")
      then inr name
      else usable_network names

  unfoldable pub network_of : Answer (List String) → Try String
  unfolding usable_network
  network_of no_answer = inl no_response
  network_of (answered status none) =
      if is_refusal status then inl (bad_status status) else inl invalid_response
  network_of (answered status (some names)) =
      if is_refusal status then inl (bad_status status) else usable_network names

  -- `DetectComposeNetwork`, by ARBITER_DOCKER_NETWORK, the hostname if there is one, and the order in
  -- which the map of networks is read.
  unfoldable pub detect_compose_network : String → Option String → D → Try String
  unfolding network_of
  detect_compose_network env hostname d =
      if not (str_eq (trim_space env) "")
      then inr (trim_space env)
      else if str_eq (coalesce hostname "") ""
      then inl no_hostname
      else network_of (engine.networks (coalesce hostname "") d)

  unfoldable pub logs_of : Answer (List ℕ) → Try (Option (List ℕ))
  logs_of no_answer = inl no_response
  logs_of (answered status none) =
      if is_refusal status then inl (bad_status status) else inl invalid_response
  logs_of (answered status (some raw)) =
      if is_refusal status then inl (bad_status status) else inr (some (decode_docker_logs raw))

  unfoldable pub logs_of_first : ℕ → D → Try (List ContainerSummary) → Try (Option (List ℕ))
  unfolding logs_of
  logs_of_first tail d (inl e) = inl e
  logs_of_first tail d (inr []) = inr none
  logs_of_first tail d (inr (c ∷ cs)) = logs_of (engine.logs c.id tail d)

  -- `TaskLogs`: no logs stand for no container.
  unfoldable pub task_logs : String → ℤ → D → Try (Option (List ℕ))
  unfolding logs_of_first
  task_logs task_id tail d =
      logs_of_first (limit_or 200 tail) d
        (list_by_labels engine (("arbiter.task_id", task_id) ∷ []) true d)
