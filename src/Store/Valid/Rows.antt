-- ===== src/Store/Valid/Rows.antt =====
-- How the rows of the tables stay valid when one table changes.
use arbiter_distributed_sche.Base.{
  All, All-map, Bool, List, Option, String, [], arith, false, find, if◌then◌else◌, none, refl, some,
  true, update, ℕ, ◌++◌, ◌∙◌, ◌∷◌, ◌≡◌, ◌≤◌,
}
use arbiter_distributed_sche.Base.Batch.{find-update}
use arbiter_distributed_sche.Base.Keys.{IsUnique, find-append_some}
use arbiter_distributed_sche.Store.{
  Db, Job, Node, Task, TaskStatus, failed, pending, running, scheduled, succeeded,
}
use arbiter_distributed_sche.Store.Tasks.{is_row}
use arbiter_distributed_sche.Store.Valid.{
  Advances, FitsStatus, IsAssigned, IsRow, IsSound, IsValid, JobsStay, NodesAdvance, TasksAdvance,
}

pub Advances-refl : (t : Task) → Advances t t
Advances-refl t = record { same_job = refl; retries = omega arith; final = λ _. refl }

pub TasksAdvance-refl : (tasks : List Task) → TasksAdvance tasks tasks
TasksAdvance-refl tasks id t e = (t, e, Advances-refl t)

pub NodesAdvance-refl : (nodes : List Node) → NodesAdvance nodes nodes
NodesAdvance-refl nodes id n e = (n, e, omega arith)

pub JobsStay-refl : (jobs : List Job) → JobsStay jobs jobs
JobsStay-refl jobs id j e = e

IsAssigned-mono :
    (nodes nodes' : List Node) (id : Option String) (e : Option ℕ)
    → NodesAdvance nodes nodes'
    → IsAssigned nodes id e
    → IsAssigned nodes' id e
IsAssigned-mono nodes nodes' (some id) (some e) grow (n, found, le) =
    let (n', found', le') = grow id n found in (n', found', omega arith)
IsAssigned-mono nodes nodes' (some id) none grow h = h
IsAssigned-mono nodes nodes' none e grow h = h

FitsStatus-mono :
    (nodes nodes' : List Node) (id : Option String) (e : Option ℕ) (s : TaskStatus)
    → NodesAdvance nodes nodes'
    → FitsStatus nodes id e s
    → FitsStatus nodes' id e s
FitsStatus-mono nodes nodes' id e pending grow h = h
FitsStatus-mono nodes nodes' id e scheduled grow h = IsAssigned-mono nodes nodes' id e grow h
FitsStatus-mono nodes nodes' id e running grow h = IsAssigned-mono nodes nodes' id e grow h
FitsStatus-mono nodes nodes' id e succeeded grow h = IsAssigned-mono nodes nodes' id e grow h
FitsStatus-mono nodes nodes' id e failed grow h = IsAssigned-mono nodes nodes' id e grow h
FitsStatus-mono nodes nodes' id e _ grow h = h

-- A row stays valid when nodes and jobs are added and epochs grow.
pub IsRow-mono :
    (nodes nodes' : List Node) (jobs jobs' : List Job)
    → NodesAdvance nodes nodes'
    → JobsStay jobs jobs'
    → (t : Task) → IsRow nodes jobs t
    → IsRow nodes' jobs' t
IsRow-mono nodes nodes' jobs jobs' grow stay t r =
    let (j, known, le) = r.job in
    record {
      assignment =
          FitsStatus-mono nodes nodes' t.assigned_node_id t.assigned_epoch t.status grow
            r.assignment;
      job = (j, stay t.job_id j known, le);
    }

pub update-NodesAdvance :
    (p : Node → Bool) (f : Node → Node) (nodes : List Node)
    → ((n : Node) → (f n).id ≡ n.id)
    → ((n : Node) → n.epoch ≤ (f n).epoch)
    → NodesAdvance nodes (update p f nodes)
update-NodesAdvance p f nodes same grow id n e =
    (if p n then f n else n, find-update (λ m. m.id) id p f nodes same e, kept (p n))
  where
    kept : (b : Bool) → n.epoch ≤ (if b then f n else n).epoch
    kept true = grow n
    kept false = omega arith

pub append-NodesAdvance : (nodes : List Node) (n : Node) → NodesAdvance nodes (nodes ++ n ∷ [])
append-NodesAdvance nodes n id m e =
    (m, find-append_some (λ k. k.id) id nodes (n ∷ []) e, omega arith)

pub append-JobsStay : (jobs : List Job) (j : Job) → JobsStay jobs (jobs ++ j ∷ [])
append-JobsStay jobs j id k e = find-append_some (λ i. i.id) id jobs (j ∷ []) e

-- An UPDATE that advances each row that it finds under a key.
pub update-TasksAdvance :
    (p : Task → Bool) (f : Task → Task) (tasks : List Task)
    → ((t : Task) → (f t).id ≡ t.id)
    → ((id : String) (t : Task) → find (is_row id) tasks ≡ some t → p t ≡ true → Advances t (f t))
    → TasksAdvance tasks (update p f tasks)
update-TasksAdvance p f tasks same step id t e =
    (if p t then f t else t, find-update (λ m. m.id) id p f tasks same e, moved (p t) refl)
  where
    moved : (b : Bool) → p t ≡ b → Advances t (if b then f t else t)
    moved true hit = step id t e hit
    moved false miss = Advances-refl t

pub append-TasksAdvance : (tasks more : List Task) → TasksAdvance tasks (tasks ++ more)
append-TasksAdvance tasks more id t e =
    (t, find-append_some (λ m. m.id) id tasks more e, Advances-refl t)

-- A change of the nodes alone.
pub nodes-IsSound :
    {db : Db} (nodes' : List Node)
    → IsValid db
    → IsUnique (λ (n : Node). n.id) nodes'
    → NodesAdvance db.nodes nodes'
    → (db' : Db) → db'.nodes ≡ nodes'
    → db'.jobs ≡ db.jobs
    → db'.tasks ≡ db.tasks
    → IsSound db db'
nodes-IsSound {db} nodes' v unique grow db' en ej et = record {
  valid = record {
    nodes_unique = rw en unique;
    jobs_unique = rw ej v.jobs_unique;
    jobs_checked = rw ej v.jobs_checked;
    tasks_unique = rw et v.tasks_unique;
    rows =
        rw (en, ej, et)
          (All-map db.tasks
            (IsRow-mono db.nodes nodes' db.jobs db.jobs grow (JobsStay-refl db.jobs)) v.rows);
  };
  evolves = record {
    tasks = rw et (TasksAdvance-refl db.tasks);
    nodes = rw en grow;
    jobs = rw ej (JobsStay-refl db.jobs);
  };
}

-- A change of the tasks alone.
pub tasks-IsSound :
    {db : Db} (tasks' : List Task)
    → IsValid db
    → IsUnique (λ (t : Task). t.id) tasks'
    → All (IsRow db.nodes db.jobs) tasks'
    → TasksAdvance db.tasks tasks'
    → (db' : Db) → db'.nodes ≡ db.nodes
    → db'.jobs ≡ db.jobs
    → db'.tasks ≡ tasks'
    → IsSound db db'
tasks-IsSound {db} tasks' v unique rows advance db' en ej et = record {
  valid = record {
    nodes_unique = rw en v.nodes_unique;
    jobs_unique = rw ej v.jobs_unique;
    jobs_checked = rw ej v.jobs_checked;
    tasks_unique = rw et unique;
    rows = rw (en, ej, et) rows;
  };
  evolves = record {
    tasks = rw et advance;
    nodes = rw en (NodesAdvance-refl db.nodes);
    jobs = rw ej (JobsStay-refl db.jobs);
  };
}

pub IsSound-refl : {db : Db} → IsValid db → IsSound db db
IsSound-refl {db} v = record {
  valid = v;
  evolves = record {
    tasks = TasksAdvance-refl db.tasks;
    nodes = NodesAdvance-refl db.nodes;
    jobs = JobsStay-refl db.jobs;
  };
}

Advances-trans : {s t u : Task} → Advances s t → Advances t u → Advances s u
Advances-trans {s} {t} {u} a b = record {
  same_job = b.same_job ∙ a.same_job;
  retries = omega arith;
  final = λ done. let e = a.final done in b.final (rw e done) ∙ e;
}

pub IsSound-trans : {a b c : Db} → IsSound a b → IsSound b c → IsSound a c
IsSound-trans {a} {b} {c} s r = record {
  valid = r.valid;
  evolves = record {
    tasks = λ id t e.
        let (t', e', step) = s.evolves.tasks id t e in
        let (t'', e'', step') = r.evolves.tasks id t' e' in (t'', e'', Advances-trans step step');
    nodes = λ id n e.
        let (n', e', le) = s.evolves.nodes id n e in
        let (n'', e'', le') = r.evolves.nodes id n' e' in (n'', e'', omega arith);
    jobs = λ id j e. r.evolves.jobs id j (s.evolves.jobs id j e);
  };
}

-- Events and the lease do not matter.
pub tables-IsSound :
    {db db' : Db}
    → IsSound db db'
    → (db'' : Db) → db''.nodes ≡ db'.nodes
    → db''.jobs ≡ db'.jobs
    → db''.tasks ≡ db'.tasks
    → IsSound db db''
tables-IsSound {db} {db'} s db'' en ej et = IsSound-trans s (record {
  valid = record {
    nodes_unique = rw en s.valid.nodes_unique;
    jobs_unique = rw ej s.valid.jobs_unique;
    jobs_checked = rw ej s.valid.jobs_checked;
    tasks_unique = rw et s.valid.tasks_unique;
    rows = rw (en, ej, et) s.valid.rows;
  };
  evolves = record {
    tasks = rw et (TasksAdvance-refl db'.tasks);
    nodes = rw en (NodesAdvance-refl db'.nodes);
    jobs = rw ej (JobsStay-refl db'.jobs);
  };
})
