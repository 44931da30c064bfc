-- ===== src/Store/Valid/Creating.antt =====
-- internal/store/jobs_tasks.go: `CreateJob` keeps the tables valid.
use mathlib.Core.List.{append-nil, append_assoc}
use arbiter_distributed_sche.Base.{
  All, All-append, All-map, Bool-cases, List, String, [], ap, arith, eq_iff, eq_refl, find, inl,
  inr, none, refl, some, subst, suc, true, zero, ℕ, ◌++◌, ◌+◌, ◌<◌, ◌∙◌, ◌∷◌, ◌≡◌,
}
use arbiter_distributed_sche.Base.Batch.{append_rows-IsUnique}
use arbiter_distributed_sche.Base.Int.{leb_ℤ, pos, pos_part, ◌≤ℤ◌}
use arbiter_distributed_sche.Base.Keys.{IsUnique, append-IsUnique, find_of_absent}
use arbiter_distributed_sche.Store.{Db, Ensures, Ensures-map, Job, Node, Task, ok}
use arbiter_distributed_sche.Store.Jobs.{
  CreateJobParams, create_job, insert_tasks, job_checks, new_job, new_task,
}
use arbiter_distributed_sche.Store.Tasks.{is_row}
use arbiter_distributed_sche.Store.Valid.{IsRow, IsSound, IsValid, is_job}
use arbiter_distributed_sche.Store.Valid.Rows.{
  IsRow-mono, NodesAdvance-refl, append-JobsStay, append-TasksAdvance,
}

-- `ids` draws ids that no task has, and no id twice: what gen_random_uuid is relied on for.
pub record IsFresh (ids : ℕ → String) (tasks : List Task) : Type 0 where
  pub unused : (i : ℕ) → find (is_row (ids i)) tasks ≡ none
  pub distinct : (i j : ℕ) → ids i ≡ ids j → i ≡ j

new_task-IsRow :
    (id : String) (j : Job) (now : ℕ) (nodes : List Node) (jobs : List Job)
    → find (is_job j.id) jobs ≡ some j
    → IsRow nodes jobs (new_task id j.id now)
unfolding new_task
new_task-IsRow id j now nodes jobs known = record {
  assignment = (refl, refl);
  job = (j, known, omega arith);
}

-- The tasks that the loop of `CreateJob` adds from round `i` on.
unfoldable pub new_tasks : ℕ → ℕ → (ℕ → String) → String → ℕ → List Task
new_tasks zero i ids job_id now = []
new_tasks (suc left) i ids job_id now =
    new_task (ids i) job_id now ∷ new_tasks left (i + 1) ids job_id now

pub insert_tasks-Ensures :
    (left i : ℕ) (ids : ℕ → String) (job_id : String) (now : ℕ) (db : Db)
    → insert_tasks left i ids job_id now db
      ≡ ok (tt, record db { tasks = db.tasks ++ new_tasks left i ids job_id now })
unfolding insert_tasks new_tasks
insert_tasks-Ensures zero i ids job_id now db = rw append-nil
insert_tasks-Ensures (suc left) i ids job_id now db =
    insert_tasks-Ensures left (i + 1) ids job_id now _
    ∙ rw (append_assoc db.tasks (new_task (ids i) job_id now ∷ []))

new_tasks-IsRow :
    (left i : ℕ) (ids : ℕ → String) (j : Job) (now : ℕ) (nodes : List Node) (jobs : List Job)
    → find (is_job j.id) jobs ≡ some j
    → All (IsRow nodes jobs) (new_tasks left i ids j.id now)
unfolding new_tasks
new_tasks-IsRow zero i ids j now nodes jobs known = tt
new_tasks-IsRow (suc left) i ids j now nodes jobs known = (
  new_task-IsRow (ids i) j now nodes jobs known,
  new_tasks-IsRow left (i + 1) ids j now nodes jobs known,
)

-- An id of an earlier round is not drawn again.
new_tasks_later :
    (left i k : ℕ) (ids : ℕ → String) (job_id : String) (now : ℕ)
    → ((m n : ℕ) → ids m ≡ ids n → m ≡ n)
    → k < i
    → find (is_row (ids k)) (new_tasks left i ids job_id now) ≡ none
unfolding new_tasks new_task
new_tasks_later zero i k ids job_id now distinct lt = refl
new_tasks_later (suc left) i k ids job_id now distinct lt = ground (
  arith,
  eq_iff (ids i) (ids k),
  distinct i k,
  new_tasks_later left (i + 1) k ids job_id now distinct,
)

new_tasks-IsUnique :
    (left i : ℕ) (ids : ℕ → String) (job_id : String) (now : ℕ)
    → ((m n : ℕ) → ids m ≡ ids n → m ≡ n)
    → IsUnique (λ (t : Task). t.id) (new_tasks left i ids job_id now)
unfolding new_tasks new_task
new_tasks-IsUnique zero i ids job_id now distinct = tt
new_tasks-IsUnique (suc left) i ids job_id now distinct = (
  new_tasks_later left (i + 1) i ids job_id now distinct (omega arith),
  new_tasks-IsUnique left (i + 1) ids job_id now distinct,
)

new_tasks_absent :
    (left i : ℕ) (ids : ℕ → String) (job_id : String) (now : ℕ) (tasks : List Task)
    → ((i : ℕ) → find (is_row (ids i)) tasks ≡ none)
    → All (λ t. find (is_row t.id) tasks ≡ none) (new_tasks left i ids job_id now)
unfolding new_tasks new_task
new_tasks_absent zero i ids job_id now tasks unused = tt
new_tasks_absent (suc left) i ids job_id now tasks unused =
    (unused i, new_tasks_absent left (i + 1) ids job_id now tasks unused)

-- What `CreateJob` leaves: the job, and as many pending tasks of it as it has replicas.
pub record Created (job_id : String) (ids : ℕ → String) (now : ℕ) (params : CreateJobParams)
    (db : Db) (job : Job) (db' : Db) : Type 0 where
  pub positive : pos 1 ≤ℤ params.replicas
  pub checked : job_checks (new_job job_id now params) ≡ true
  pub result : job ≡ new_job job_id now params
  pub jobs : db'.jobs ≡ db.jobs ++ job ∷ []
  pub tasks : db'.tasks ≡ db.tasks ++ new_tasks (pos_part params.replicas) 0 ids job_id now
  pub nodes : db'.nodes ≡ db.nodes
  pub lease : db'.lease ≡ db.lease

pub create_job-Ensures :
    (job_id : String) (ids : ℕ → String) (now : ℕ) (params : CreateJobParams) (db : Db)
    → Ensures (Created job_id ids now params db) (create_job job_id ids now params db)
unfolding create_job
create_job-Ensures job_id ids now params db = elim (Bool-cases (leb_ℤ (pos 1) params.replicas)) [
  | inr few ↦ rw few tt
  | inl enough ↦ elim (Bool-cases (job_checks (new_job job_id now params))) [
    | inr bad ↦ rw (enough, bad) tt
    | inl good ↦
        rw (enough, good, insert_tasks-Ensures)
          (record {
            positive = ground (arith, enough);
            checked = good;
            result = refl;
            jobs = refl;
            tasks = refl;
            nodes = refl;
            lease = refl;
          })
  ]
]

pub Created-IsSound :
    (job_id : String) (ids : ℕ → String) (now : ℕ) (params : CreateJobParams) {db db' : Db}
    {job : Job}
    → find (is_job job_id) db.jobs ≡ none
    → IsFresh ids db.tasks
    → IsValid db
    → Created job_id ids now params db job db'
    → IsSound db db'
unfolding new_job
Created-IsSound job_id ids now params {db} {db'} {job} unused fresh v c = record {
  valid = record {
    nodes_unique = rw c.nodes v.nodes_unique;
    jobs_unique =
        rw c.jobs (append-IsUnique (λ j. j.id) db.jobs job v.jobs_unique (rw named unused));
    jobs_checked =
        rw c.jobs (All-append _ db.jobs (job ∷ []) v.jobs_checked (rw c.result (c.checked, tt)));
    tasks_unique = rw c.tasks (
        append_rows-IsUnique (λ t. t.id) db.tasks added v.tasks_unique
          (new_tasks-IsUnique n 0 ids job_id now fresh.distinct)
          (new_tasks_absent n 0 ids job_id now db.tasks fresh.unused));
    rows =
        rw (c.tasks, c.nodes, c.jobs)
          (All-append (IsRow db.nodes (db.jobs ++ job ∷ [])) db.tasks added old_rows new_rows);
  };
  evolves = record {
    tasks = rw c.tasks (append-TasksAdvance db.tasks added);
    nodes = rw c.nodes (NodesAdvance-refl db.nodes);
    jobs = rw c.jobs (append-JobsStay db.jobs job);
  };
}
  where
    n : ℕ
    n = pos_part params.replicas

    added : List Task
    added = new_tasks n 0 ids job_id now

    named : job.id ≡ job_id
    named = ap (λ (j : Job). j.id) c.result

    old_rows : All (IsRow db.nodes (db.jobs ++ job ∷ [])) db.tasks
    old_rows =
        All-map db.tasks
          (IsRow-mono db.nodes db.nodes db.jobs (db.jobs ++ job ∷ []) (NodesAdvance-refl db.nodes)
            (append-JobsStay db.jobs job))
          v.rows

    new_rows : All (IsRow db.nodes (db.jobs ++ job ∷ [])) added
    new_rows =
        subst (λ id. All (IsRow db.nodes (db.jobs ++ job ∷ [])) (new_tasks n 0 ids id now)) named
          (new_tasks-IsRow n 0 ids job now db.nodes (db.jobs ++ job ∷ []) (
            find_of_absent (λ j. j.id) job.id db.jobs (job ∷ []) (rw named unused)
            ∙ rw (eq_refl job.id)))

pub create_job-IsSound :
    (job_id : String) (ids : ℕ → String) (now : ℕ) (params : CreateJobParams) {db : Db}
    → find (is_job job_id) db.jobs ≡ none
    → IsFresh ids db.tasks
    → IsValid db
    → Ensures (λ j db'. IsSound db db') (create_job job_id ids now params db)
create_job-IsSound job_id ids now params {db} unused fresh v =
    Ensures-map (Created job_id ids now params db) _ (create_job job_id ids now params db)
      (λ j db' c. Created-IsSound job_id ids now params unused fresh v c)
      (create_job-Ensures job_id ids now params db)
