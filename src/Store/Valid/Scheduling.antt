-- ===== src/Store/Valid/Scheduling.antt =====
-- internal/store/jobs_tasks.go: `ScheduleTask` keeps the tables valid.
use arbiter_distributed_sche.Base.{
  &&-true, All-update, Bool, Bool-cases, String, arith, count, false, find, inl, inr, refl, some,
  true, update, ℕ, ◌&&◌, ◌==◌, ◌≡◌, ◌≤◌,
}
use arbiter_distributed_sche.Base.Keys.{update-IsUnique}
use arbiter_distributed_sche.Store.{
  Db, Ensures, Ensures-map, Node, Task, TaskStatus, failed, pending, same_status, scheduled,
  succeeded,
}
use arbiter_distributed_sche.Store.Nodes.{is_node}
use arbiter_distributed_sche.Store.Tasks.{is_row, schedule_task}
use arbiter_distributed_sche.Store.Valid.{Advances, IsRow, IsSound, IsValid, is_final}
use arbiter_distributed_sche.Store.Valid.Rows.{tasks-IsSound, update-TasksAdvance}

pending-not_final : (s : TaskStatus) → same_status s pending ≡ true → is_final s ≡ false
unfolding same_status
pending-not_final pending h = refl
pending-not_final succeeded h = cc
pending-not_final failed h = cc
pending-not_final _ h = refl

-- The rows that the UPDATE of `ScheduleTask` touches, and what it writes.
abbrev pub chosen : String → Task → Bool
chosen task_id t = is_row task_id t && same_status t.status pending

abbrev pub assigned_to : ℕ → String → ℕ → Task → Task
assigned_to now node_id epoch t = record t {
  status = scheduled;
  assigned_node_id = some node_id;
  assigned_epoch = some epoch;
  scheduled_at = some now;
}

pub record Scheduled (now : ℕ) (task_id node_id : String) (epoch : ℕ) (db db' : Db) : Type 0 where
  pub one : count (chosen task_id) db.tasks ≡ 1
  pub tasks : db'.tasks ≡ update (chosen task_id) (assigned_to now node_id epoch) db.tasks
  pub nodes : db'.nodes ≡ db.nodes
  pub jobs : db'.jobs ≡ db.jobs
  pub lease : db'.lease ≡ db.lease

pub schedule_task-Ensures :
    (now : ℕ) (task_id node_id : String) (epoch : ℕ) (db : Db)
    → Ensures
        (λ _ db'. Scheduled now task_id node_id epoch db db')
        (schedule_task now task_id node_id epoch db)
unfolding schedule_task
schedule_task-Ensures now task_id node_id epoch db =
    elim (Bool-cases (count (chosen task_id) db.tasks == 1)) [
      | inr many ↦ rw many tt
      | inl one ↦ rw one (record {
        one = ground (arith, one);
        tasks = refl;
        nodes = refl;
        jobs = refl;
        lease = refl;
      })
    ]

-- The node of the assignment exists, and its epoch is at least the assignment's.
pub Scheduled-IsSound :
    (now : ℕ) (task_id node_id : String) (epoch : ℕ) {db db' : Db} {n : Node}
    → find (is_node node_id) db.nodes ≡ some n
    → epoch ≤ n.epoch
    → IsValid db
    → Scheduled now task_id node_id epoch db db'
    → IsSound db db'
Scheduled-IsSound now task_id node_id epoch {db} {db'} {n} found le v s =
    tasks-IsSound (update p f db.tasks) v
      (update-IsUnique (λ t. t.id) p f db.tasks (λ t. refl) v.tasks_unique)
      (All-update (IsRow db.nodes db.jobs) p f db.tasks
        (λ t _ r. record { assignment = (n, found, le); job = r.job }) v.rows)
      (update-TasksAdvance p f db.tasks (λ t. refl) advance) db' s.nodes s.jobs s.tasks
  where
    p : Task → Bool
    p = chosen task_id

    f : Task → Task
    f = assigned_to now node_id epoch

    advance :
        (id : String) (t : Task)
        → find (is_row id) db.tasks ≡ some t
        → p t ≡ true
        → Advances t (f t)
    advance id t e hit = record {
      same_job = refl;
      retries = omega arith;
      final = λ done.
          let live : is_final t.status ≡ false =
            pending-not_final t.status (&&-true (is_row task_id t) _ hit).1 in
          cc;
    }

pub schedule_task-IsSound :
    (now : ℕ) (task_id node_id : String) (epoch : ℕ) {db : Db} {n : Node}
    → find (is_node node_id) db.nodes ≡ some n
    → epoch ≤ n.epoch
    → IsValid db
    → Ensures (λ _ db'. IsSound db db') (schedule_task now task_id node_id epoch db)
schedule_task-IsSound now task_id node_id epoch {db} found le v =
    Ensures-map _ _ (schedule_task now task_id node_id epoch db)
      (λ _ db' s. Scheduled-IsSound now task_id node_id epoch found le v s)
      (schedule_task-Ensures now task_id node_id epoch db)
