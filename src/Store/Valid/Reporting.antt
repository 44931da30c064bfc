-- ===== src/Store/Valid/Reporting.antt =====
-- internal/store/jobs_tasks.go: a status report keeps the tables valid.
use arbiter_distributed_sche.Base.{
  All-find, Bool, List, Option, String, arith, false, find, find-holds, inl, inr, refl, some,
  str_eq→eq, subst, sym, true, update, ℕ, ◌+◌, ◌∙◌, ◌≡◌, ◌≤◌, ◌⊎◌,
}
use arbiter_distributed_sche.Base.Int.{ltb_ℤ, negsuc, pos, pos_part, ℤ}
use arbiter_distributed_sche.Base.Keys.{All-update_row, update-IsUnique}
use arbiter_distributed_sche.Store.{
  Db, Ensures, Ensures-map, Job, Node, Task, TaskStatus, failed, running, scheduled, succeeded,
}
use arbiter_distributed_sche.Store.Report.{
  is_live, marked_running, marked_terminal, requeued, update_task_status,
}
use arbiter_distributed_sche.Store.Report.Accepting.{update_task_status-Ensures}
use arbiter_distributed_sche.Store.Report.Outcome.{
  Accepted, Change, Change-same_id, fails, repeated, requeues, started, succeeds,
}
use arbiter_distributed_sche.Store.Tasks.{UpdateTaskStatusParams, is_row}
use arbiter_distributed_sche.Store.Valid.{
  Advances, FitsStatus, IsAssigned, IsRow, IsSound, IsValid, is_final,
}
use arbiter_distributed_sche.Store.Valid.Rows.{Advances-refl, tasks-IsSound, update-TasksAdvance}

live-IsAssigned :
    (nodes : List Node) (id : Option String) (e : Option ℕ) (s : TaskStatus)
    → is_live s ≡ true
    → FitsStatus nodes id e s
    → IsAssigned nodes id e
unfolding is_live
live-IsAssigned nodes id e scheduled live h = h
live-IsAssigned nodes id e running live h = h
live-IsAssigned nodes id e _ live h = cc

IsAssigned-final :
    (nodes : List Node) (id : Option String) (e : Option ℕ) (s : TaskStatus)
    → (s ≡ succeeded) ⊎ (s ≡ failed)
    → IsAssigned nodes id e
    → FitsStatus nodes id e s
IsAssigned-final nodes id e s (inl q) h = rw q h
IsAssigned-final nodes id e s (inr q) h = rw q h

below_limit : (n : ℕ) (limit : ℤ) → ltb_ℤ (pos n) limit ≡ true → n + 1 ≤ pos_part limit
below_limit n (pos m) h = ground arith
below_limit n (negsuc m) h = ground arith

live-not_final : (s : TaskStatus) → is_live s ≡ true → is_final s ≡ false
unfolding is_live
live-not_final s h = ground arith

module _ (now : ℕ) (p : UpdateTaskStatusParams) (nodes : List Node) (jobs : List Job) (t : Task)
    (row : IsRow nodes jobs t) where
  assigned : is_live t.status ≡ true → IsAssigned nodes t.assigned_node_id t.assigned_epoch
  assigned live =
      live-IsAssigned nodes t.assigned_node_id t.assigned_epoch t.status live row.assignment

  -- The written row is valid.
  Change-IsRow : (f : Task → Task) → Change now p jobs t f → IsRow nodes jobs (f t)
  unfolding marked_running marked_terminal requeued
  Change-IsRow f (repeated _ _) = row
  Change-IsRow f (started _ live) = record { assignment = assigned live; job = row.job }
  Change-IsRow f (succeeds q live) = record {
    assignment =
        IsAssigned-final nodes t.assigned_node_id t.assigned_epoch p.status (inl q) (assigned live);
    job = row.job;
  }
  Change-IsRow f (fails j q live known spent) = record {
    assignment =
        IsAssigned-final nodes t.assigned_node_id t.assigned_epoch p.status (inr q) (assigned live);
    job = row.job;
  }
  Change-IsRow f (requeues j q live known below) = record {
    assignment = (refl, refl);
    job = (j, known, below_limit t.retries_used j.retry_limit below);
  }

live-Advances :
    (t t' : Task)
    → is_live t.status ≡ true
    → t'.job_id ≡ t.job_id
    → t.retries_used ≤ t'.retries_used
    → Advances t t'
live-Advances t t' live same le = record {
  same_job = same;
  retries = le;
  final = λ done. cc (live-not_final t.status live);
}

pub Change-Advances :
    (now : ℕ) (p : UpdateTaskStatusParams) (jobs : List Job) (t : Task) (f : Task → Task)
    → Change now p jobs t f
    → Advances t (f t)
unfolding marked_running marked_terminal requeued
Change-Advances now p jobs t f (repeated _ _) = Advances-refl t
Change-Advances now p jobs t f (started _ live) = live-Advances t (f t) live refl (omega arith)
Change-Advances now p jobs t f (succeeds _ live) = live-Advances t (f t) live refl (omega arith)
Change-Advances now p jobs t f (fails _ _ live _ _) = live-Advances t (f t) live refl (omega arith)
Change-Advances now p jobs t f (requeues _ _ live _ _) =
    live-Advances t (f t) live refl (omega arith)

pub Accepted-IsSound :
    (now : ℕ) (p : UpdateTaskStatusParams) {db db' : Db} {t' : Task}
    → IsValid db
    → Accepted now p db t' db'
    → IsSound db db'
Accepted-IsSound now p {db} {db'} v a =
    tasks-IsSound (update key a.f db.tasks) v
      (update-IsUnique (λ t. t.id) key a.f db.tasks same v.tasks_unique)
      (All-update_row (λ t. t.id) (IsRow db.nodes db.jobs) p.task_id a.f db.tasks v.tasks_unique
        a.found (Change-IsRow now p db.nodes db.jobs a.t row a.f a.change) v.rows)
      (update-TasksAdvance key a.f db.tasks same advance) db' a.keeps.nodes a.keeps.jobs a.tasks
  where
    key : Task → Bool
    key = is_row p.task_id

    same : (u : Task) → (a.f u).id ≡ u.id
    same = Change-same_id now p db.jobs a.t a.f a.change

    row : IsRow db.nodes db.jobs a.t
    row = All-find (IsRow db.nodes db.jobs) key db.tasks v.rows a.found

    advance :
        (id : String) (t : Task)
        → find (is_row id) db.tasks ≡ some t
        → key t ≡ true
        → Advances t (a.f t)
    advance id t e hit =
        let own : t.id ≡ id = str_eq→eq t.id id (find-holds (is_row id) db.tasks e) in
        let named : t.id ≡ p.task_id = str_eq→eq t.id p.task_id hit in
        let at_key : find (is_row p.task_id) db.tasks ≡ some t =
          subst (λ k. find (is_row k) db.tasks ≡ some t) (sym own ∙ named) e in
        let q : a.t ≡ t = cc (sym a.found ∙ at_key) in
        subst (λ u. Advances u (a.f u)) q (Change-Advances now p db.jobs a.t a.f a.change)

pub update_task_status-IsSound :
    (now : ℕ) (p : UpdateTaskStatusParams) {db : Db}
    → IsValid db
    → Ensures (λ t db'. IsSound db db') (update_task_status now p db)
update_task_status-IsSound now p {db} v =
    Ensures-map (Accepted now p db) _ (update_task_status now p db)
      (λ t db' a. Accepted-IsSound now p v a) (update_task_status-Ensures now p db)
