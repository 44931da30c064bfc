-- ===== src/Docker.antt =====
-- internal/dockerutil/dockerutil.go: the calls of the Docker Engine API. The engine is a parameter: a
-- state of its own, and what it answers to each request.
pub mod Logs
pub mod Workers
pub mod Fuel
pub mod Killing
use arbiter_distributed_sche.Base.{
  Bool, List, Option, String, [], if◌then◌else◌, inl, inr, leb, map, none, some, true, ℕ, ◌==◌, ◌∷◌,
  ◌⊎◌,
}
use arbiter_distributed_sche.Base.Int.{ℤ}
use arbiter_distributed_sche.Base.Text.{trim_prefix}
use arbiter_distributed_sche.Store.{Labels}

-- An HTTP exchange: no response, or a status with the body as JSON reads it, if it does.
pub data Answer (A : Type 0) : Type 0 where
  no_answer : Answer A
  answered : ℕ → Option A → Answer A

pub data DockerError : Type 0 where
  no_response invalid_response spec_incomplete no_hostname no_network : DockerError
  bad_status : ℕ → DockerError

abbrev pub Try : Type 0 → Type 0
Try A = DockerError ⊎ A

-- What the engine lists of a container.
pub record Listed : Type 0 where
  pub id : String
  pub names : List String
  pub labels : Labels
  pub state : String

pub record ContainerSummary : Type 0 where
  pub id : String
  pub name : String
  pub labels : Labels
  pub state : String

-- The body of a create request.
pub record CreateBody : Type 0 where
  pub image : String
  pub hostname : String
  pub env : List String
  pub cmd : List String
  pub labels : Labels
  pub binds : List String
  pub restart_policy : String
  pub extra_hosts : List String
  pub network : Option String

pub record WorkerSpec : Type 0 where
  pub name : String
  pub hostname : String
  pub image : String
  pub network : String
  pub scheduler_addr : String
  pub scheduler_addrs : String
  pub cpu_millicores : ℤ
  pub mem_mb : ℤ
  pub http_addr : String
  pub extra_hosts : List String
  pub docker_sock_bind : String

-- The Docker Engine, by its requests.
pub record Engine (D : Type 0) : Type 1 where
  pub list : Labels → Bool → D → Answer (List Listed)
  pub logs : String → ℕ → D → Answer (List ℕ)
  pub networks : String → D → Answer (List String)
  pub delete : String → Bool → D → Answer (Unit {0}) × D
  pub create : String → CreateBody → D → Answer String × D
  pub start : String → D → Answer (Unit {0}) × D

-- `resp.StatusCode >= 300`
abbrev pub is_refusal : ℕ → Bool
is_refusal status = leb 300 status

-- `if len(ctr.Names) > 0 { name = strings.TrimPrefix(ctr.Names[0], "/") }`
unfoldable pub name_of : List String → String
name_of [] = ""
name_of (name ∷ names) = trim_prefix name "/"

unfoldable pub summary_of : Listed → ContainerSummary
unfolding name_of
summary_of c = record { id = c.id; name = name_of c.names; labels = c.labels; state = c.state }

-- The listing that a response carries.
unfoldable pub listing_of : Answer (List Listed) → Try (List ContainerSummary)
unfolding summary_of
listing_of no_answer = inl no_response
listing_of (answered status none) =
    if is_refusal status then inl (bad_status status) else inl invalid_response
listing_of (answered status (some cs)) =
    if is_refusal status then inl (bad_status status) else inr (map summary_of cs)

-- A removal succeeds also where there is nothing to remove.
unfoldable pub removal_of : Answer (Unit {0}) → Try (Unit {0})
removal_of no_answer = inl no_response
removal_of (answered status body) =
    if status == 404 then inr tt else if is_refusal status then inl (bad_status status) else inr tt

abbrev pub first_error : Try (Unit {0}) → Try (Unit {0}) → Try (Unit {0})
first_error (inl e) rest = inl e
first_error (inr u) rest = rest

module _ {D : Type 0} (engine : Engine D) where
  -- `listByLabels`
  unfoldable pub list_by_labels : Labels → Bool → D → Try (List ContainerSummary)
  unfolding listing_of
  list_by_labels labels every d = listing_of (engine.list labels every d)

  -- `RemoveContainer`
  unfoldable pub remove_container : String → Bool → D → Try (Unit {0}) × D
  unfolding removal_of
  remove_container id force d =
      let answer = engine.delete id force d in (removal_of answer.0, answer.1)

  abbrev pub unless_failed : Try (Unit {0}) × D → (D → Try (Unit {0}) × D) → Try (Unit {0}) × D
  unless_failed (inl e, d) k = (inl e, d)
  unless_failed (inr u, d) k = k d

  -- The loop of `killByTaskLabel`, which stops at the first error.
  unfoldable pub kill_each : List ContainerSummary → D → Try (Unit {0}) × D
  unfolding remove_container
  kill_each [] d = (inr tt, d)
  kill_each (c ∷ cs) d = unless_failed (remove_container c.id true d) (kill_each cs)

  unfoldable pub kill_listed : Try (List ContainerSummary) → D → Try (Unit {0}) × D
  unfolding kill_each
  kill_listed (inl e) d = (inl e, d)
  kill_listed (inr cs) d = kill_each cs d

  -- `killByTaskLabel`
  unfoldable pub kill_by_task_label : String → D → Try (Unit {0}) × D
  unfolding kill_listed list_by_labels
  kill_by_task_label task_id d =
      kill_listed (list_by_labels (("arbiter.task_id", task_id) ∷ []) true d) d

  -- `KillTaskContainers`: an error of one task does not spare the others.
  unfoldable pub kill_task_containers : List String → D → Try (Unit {0}) × D
  unfolding kill_by_task_label
  kill_task_containers [] d = (inr tt, d)
  kill_task_containers (id ∷ ids) d =
      let killed = kill_by_task_label id d in
      let others = kill_task_containers ids killed.1 in (first_error killed.0 others.0, others.1)

  -- `ListAutoscaledWorkers`
  unfoldable pub list_autoscaled_workers : D → Try (List ContainerSummary)
  unfolding list_by_labels
  list_autoscaled_workers d = list_by_labels (("arbiter.autoscaled", "true") ∷ []) true d
