-- ===== src/Store/Jobs/Creation.antt =====
-- internal/store/jobs_tasks.go: when `CreateJob` succeeds.
use arbiter_distributed_sche.Base.{
  All, Bool-cases, List, String, [], ap, arith, eq_refl, inl, inr, map, none, refl, str_eq,
  str_eq→eq, subst, suc, sym, true, true≢false, zero, ℕ, ◌++◌, ◌+◌, ◌∙◌, ◌∷◌, ◌≡◌, ◌≢◌, ◌⊎◌,
}
use arbiter_distributed_sche.Base.Int.{leb_ℤ, pos, pos_part, ◌≤ℤ◌}
use arbiter_distributed_sche.Store.{
  Db, Ensures, Ensures-map, Ensures-ok, Job, SchedulingPolicy, Task, bin_pack, ok, other_policy,
  pending, spread,
}
use arbiter_distributed_sche.Store.Events.{insert_event}
use arbiter_distributed_sche.Store.Jobs.{
  CreateJobParams, create_job, job_checks, new_job, new_task, policy_or_default,
}
use arbiter_distributed_sche.Store.Success.{Succeeds, result_of}
use arbiter_distributed_sche.Store.Valid.Creating.{
  Created, create_job-Ensures, insert_tasks-Ensures, new_tasks,
}

create_job-Succeeds :
    (job_id : String) (ids : ℕ → String) (now : ℕ) (params : CreateJobParams) (db : Db)
    → leb_ℤ (pos 1) params.replicas ≡ true
    → job_checks (new_job job_id now params) ≡ true
    → Succeeds (create_job job_id ids now params db)
unfolding create_job insert_event
create_job-Succeeds job_id ids now params db enough good =
    rw (enough, good, insert_tasks-Ensures) tt

-- The policy that a job gets: the empty text selects bin packing.
abbrev pub IsPolicyOf : SchedulingPolicy → SchedulingPolicy → Type 0
IsPolicyOf asked given =
    ((asked ≡ other_policy "") × (given ≡ bin_pack)) ⊎ ((asked ≢ other_policy "") × (given ≡ asked))

-- The row of a job that was asked for.
pub record IsJobOf (job_id : String) (now : ℕ) (params : CreateJobParams) (job : Job) : Type 0 where
  pub id : job.id ≡ job_id
  pub name : job.name ≡ params.name
  pub image : job.image ≡ params.image
  pub command : job.command ≡ params.command
  pub cpu : job.cpu_request_millicores ≡ params.cpu_request_millicores
  pub mem : job.mem_request_mb ≡ params.mem_request_mb
  pub replicas : job.replicas ≡ params.replicas
  pub retry_limit : job.retry_limit ≡ params.retry_limit
  pub policy : IsPolicyOf params.scheduling_policy job.scheduling_policy
  pub constraints : job.constraints ≡ params.constraints
  pub created_at : job.created_at ≡ now

-- A task of the job that waits, on no node and with no attempt behind it.
pub record IsWaiting (job_id : String) (t : Task) : Type 0 where
  pub job : t.job_id ≡ job_id
  pub status : t.status ≡ pending
  pub node : t.assigned_node_id ≡ none
  pub epoch : t.assigned_epoch ≡ none
  pub retries : t.retries_used ≡ 0
  pub retry_at : t.next_retry_at ≡ none

-- The ids that are drawn from round `i` on.
abbrev pub drawn : ℕ → ℕ → (ℕ → String) → List String
drawn zero i ids = []
drawn (suc n) i ids = ids i ∷ drawn n (i + 1) ids

-- What a submission leaves, row by row.
pub record Submitted (job_id : String) (ids : ℕ → String) (now : ℕ) (params : CreateJobParams)
    (db : Db) (job : Job) (db' : Db) : Type 0 where
  pub positive : pos 1 ≤ℤ params.replicas
  pub row : IsJobOf job_id now params job
  pub added : List Task
  pub jobs : db'.jobs ≡ db.jobs ++ job ∷ []
  pub tasks : db'.tasks ≡ db.tasks ++ added
  pub drawn_ids : map (λ t. t.id) added ≡ drawn (pos_part params.replicas) 0 ids
  pub waiting : All (IsWaiting job_id) added
  pub nodes : db'.nodes ≡ db.nodes
  pub lease : db'.lease ≡ db.lease

new_tasks-ids :
    (n i : ℕ) (ids : ℕ → String) (job_id : String) (now : ℕ)
    → map (λ t. t.id) (new_tasks n i ids job_id now) ≡ drawn n i ids
unfolding new_tasks new_task
new_tasks-ids zero i ids job_id now = refl
new_tasks-ids (suc n) i ids job_id now =
    ap (λ l. ids i ∷ l) (new_tasks-ids n (i + 1) ids job_id now)

new_tasks-IsWaiting :
    (n i : ℕ) (ids : ℕ → String) (job_id : String) (now : ℕ)
    → All (IsWaiting job_id) (new_tasks n i ids job_id now)
unfolding new_tasks new_task
new_tasks-IsWaiting zero i ids job_id now = tt
new_tasks-IsWaiting (suc n) i ids job_id now = (
  record { job = refl; status = refl; node = refl; epoch = refl; retries = refl; retry_at = refl },
  new_tasks-IsWaiting n (i + 1) ids job_id now,
)

abbrev policy_text : SchedulingPolicy → String
policy_text (other_policy s) = s
policy_text _ = "named"

pub policy_or_default-IsPolicyOf : (p : SchedulingPolicy) → IsPolicyOf p (policy_or_default p)
unfolding policy_or_default
policy_or_default-IsPolicyOf bin_pack = inr (λ e. cc, refl)
policy_or_default-IsPolicyOf spread = inr (λ e. cc, refl)
policy_or_default-IsPolicyOf (other_policy s) = elim (Bool-cases (str_eq s "")) [
  | inl empty ↦ rw empty (inl (ap other_policy (str_eq→eq s "" empty), refl))
  | inr filled ↦ rw filled (
      inr (λ e. true≢false (sym (eq_refl s) ∙ ap (λ x. str_eq s (policy_text x)) e ∙ filled), refl))
]

Created-Submitted :
    (job_id : String) (ids : ℕ → String) (now : ℕ) (params : CreateJobParams) (db : Db) (job : Job)
    (db' : Db)
    → Created job_id ids now params db job db'
    → Submitted job_id ids now params db job db'
unfolding new_job
Created-Submitted job_id ids now params db job db' c = record {
  positive = c.positive;
  row = subst (IsJobOf job_id now params) (sym c.result) (record {
    id = refl;
    name = refl;
    image = refl;
    command = refl;
    cpu = refl;
    mem = refl;
    replicas = refl;
    retry_limit = refl;
    policy = policy_or_default-IsPolicyOf params.scheduling_policy;
    constraints = refl;
    created_at = refl;
  });
  added = new_tasks (pos_part params.replicas) 0 ids job_id now;
  jobs = c.jobs;
  tasks = c.tasks;
  drawn_ids = new_tasks-ids (pos_part params.replicas) 0 ids job_id now;
  waiting = new_tasks-IsWaiting (pos_part params.replicas) 0 ids job_id now;
  nodes = c.nodes;
  lease = c.lease;
}

pub create_job-Submitted :
    (job_id : String) (ids : ℕ → String) (now : ℕ) (params : CreateJobParams) (db : Db)
    → Ensures (Submitted job_id ids now params db) (create_job job_id ids now params db)
create_job-Submitted job_id ids now params db =
    Ensures-map (Created job_id ids now params db) _ (create_job job_id ids now params db)
      (Created-Submitted job_id ids now params db) (create_job-Ensures job_id ids now params db)

-- A job with at least one replica that meets the checks of its table is created: its row, with the
-- parameters and bin packing where the policy is empty, and one pending, unassigned task per replica
-- are appended, under the ids drawn for them, and nothing else but the events changes.
pub create_job_lem :
    (job_id : String) (ids : ℕ → String) (now : ℕ) (params : CreateJobParams) (db : Db)
    → pos 1 ≤ℤ params.replicas
    → job_checks (new_job job_id now params) ≡ true
    → (job : Job) × ((db' : Db) × (create_job job_id ids now params db ≡ ok (job, db'))
        × Submitted job_id ids now params db job db')
create_job_lem job_id ids now params db enough good =
    let (job, (db', runs)) =
      result_of (create_job job_id ids now params db)
        (create_job-Succeeds job_id ids now params db (ground (arith, enough)) good) in
    (
      job,
      (
        db',
        runs,
        Ensures-ok (Submitted job_id ids now params db)
            (create_job-Submitted job_id ids now params db) runs,
      ),
    )
