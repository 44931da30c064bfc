-- ===== src/Http/Submitting.antt =====
-- internal/httpapi/api.go: what `handleSubmitJob` answers, and what it leaves.
use arbiter_distributed_sche.Base.{Option, String, some, ℕ, ◌≡◌, ◌⊎◌}
use arbiter_distributed_sche.Base.Int.{pos, ℤ, ◌<ℤ◌, ◌≤ℤ◌}
use arbiter_distributed_sche.Http.{HttpReply, SubmitJobBody, faulted, wrote}
use arbiter_distributed_sche.Store.{Db, Job}
use arbiter_distributed_sche.Store.Jobs.{CreateJobParams}
use arbiter_distributed_sche.Store.Jobs.Creation.{IsPolicyOf, Submitted}

-- A value that the body gives where it is positive, and the default elsewhere.
abbrev pub IsDefaulted : ℤ → ℤ → ℤ → Type 0
IsDefaulted default asked given =
    ((asked ≤ℤ pos 0) × (given ≡ default)) ⊎ ((pos 0 <ℤ asked) × (given ≡ asked))

-- The parameters that a body asks for.
pub record AskedBy (b : SubmitJobBody) (params : CreateJobParams) : Type 0 where
  pub name : params.name ≡ b.name
  pub image : params.image ≡ b.image
  pub command : params.command ≡ b.command
  pub cpu : params.cpu_request_millicores ≡ b.cpu_millicores
  pub mem : params.mem_request_mb ≡ b.memory_mb
  pub replicas : IsDefaulted (pos 1) b.replicas params.replicas
  pub retry_limit : IsDefaulted (pos 3) b.retry_limit params.retry_limit
  pub policy : IsPolicyOf b.scheduling_policy params.scheduling_policy
  pub constraints : params.constraints ≡ b.constraints

module _ (job_id : String) (ids : ℕ → String) (now : ℕ) where
  -- What an answer to a request says of the tables.
  abbrev pub IsAnswer : Option SubmitJobBody → Db → HttpReply Job × Db → Type 0
  IsAnswer body db (faulted status fault, db') = db' ≡ db
  IsAnswer body db (wrote status job, db') =
      (b : SubmitJobBody) × (params : CreateJobParams) × (body ≡ some b)
      × (status ≡ 201)
      × AskedBy b params
      × Submitted job_id ids now params db job db'
