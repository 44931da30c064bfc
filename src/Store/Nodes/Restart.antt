-- ===== src/Store/Nodes/Restart.antt =====
-- internal/store/nodes.go with jobs_tasks.go: the tasks of a worker that registers again.
use arbiter_distributed_sche.Base.{
  &&-true, All-find, Bool, Bool-cases, List, Option, String, [], ap, arith, eq_refl, find,
  find-cases, holds_text, holds_text→eq, inl, inr, ltb, ne→str_eq, none, refl, some, some-injective,
  str_eq, str_eq→eq, subst, sym, true, ℕ, ◌+◌, ◌<◌, ◌^◌, ◌∙◌, ◌∷◌, ◌≡◌, ◌≢◌, ◌≤◌,
}
use arbiter_distributed_sche.Base.Keys.{IsUnique}
use arbiter_distributed_sche.Store.{
  Db, Ensures, Ensures-ok, Node, Task, TaskStatus, bump_epoch, err, ok, running, scheduled,
  stale_task_report,
}
use arbiter_distributed_sche.Store.Allocation.{consumes, is_on}
use arbiter_distributed_sche.Store.Events.{insert_event}
use arbiter_distributed_sche.Store.Nodes.{
  RegisterNodeParams, is_at, is_node, register_node, reregistered, upsert_node,
}
use arbiter_distributed_sche.Store.Report.{check_task_report_fence, update_task_status}
use arbiter_distributed_sche.Store.Report.Fencing.{stale_report}
use arbiter_distributed_sche.Store.Tasks.{UpdateTaskStatusParams, is_row}
use arbiter_distributed_sche.Store.Valid.{FitsStatus, IsAssigned, IsRow, IsValid}
use arbiter_distributed_sche.Worker.Dialer.Positions.{at}

-- A row of a table with unique keys is found under its key.
find_of_row :
    (nodes : List Node) {n : Node} (p : Node → Bool)
    → IsUnique (λ (m : Node). m.id) nodes
    → find p nodes ≡ some n
    → find (is_node n.id) nodes ≡ some n
find_of_row [] p u e = cc
find_of_row (m ∷ ms) {n} p u e = elim (find-cases p m ms e) [
  | inl (hit, same) ↦ rw (sym same, eq_refl m.id) refl
  | inr later ↦ elim (Bool-cases (str_eq m.id n.id)) [
    | inl clash ↦
        let gone : find (is_node n.id) ms ≡ none =
          subst (λ k. find (is_node k) ms ≡ none) (str_eq→eq m.id n.id clash) u.0 in
        let here_too = find_of_row ms {n = n} p u.1 later in cc
    | inr differs ↦ rw differs (find_of_row ms p u.1 later)
  ]
]

assigned :
    (nodes : List Node) (o : Option String) (oe : Option ℕ) (id : String) {m : Node}
    → IsAssigned nodes o oe
    → o ≡ some id
    → find (is_node id) nodes ≡ some m
    → (e : ℕ) × (oe ≡ some e) × (e ≤ m.epoch)
assigned nodes none oe id f own found = absurd f
assigned nodes (some j) none id f own found = absurd f
assigned nodes (some j) (some e) id {m} (k, at, le) own found =
    let same : j ≡ id = some-injective own in
    let q : k ≡ m =
      some-injective (sym (subst (λ x. find (is_node x) nodes ≡ some k) same at) ∙ found) in
    (e, refl, subst (λ x. e ≤ x.epoch) q le)

-- A task that consumes resources of a node carries an epoch not beyond the node's.
epoch_of_assignment :
    (nodes : List Node) (o : Option String) (oe : Option ℕ) (s : TaskStatus) (id : String)
    {m : Node}
    → FitsStatus nodes o oe s
    → consumes s ≡ true
    → o ≡ some id
    → find (is_node id) nodes ≡ some m
    → (e : ℕ) × (oe ≡ some e) × (e ≤ m.epoch)
unfolding consumes
epoch_of_assignment nodes o oe scheduled id f live own found = assigned nodes o oe id f own found
epoch_of_assignment nodes o oe running id f live own found = assigned nodes o oe id f own found
epoch_of_assignment nodes o oe _ id f live own found = cc

register_known-Ensures :
    (new_id : String) (now : ℕ) (params : RegisterNodeParams) (old : Node) (db : Db)
    → find (is_at params.hostname params.address) db.nodes ≡ some old
    → Ensures
        (λ n db'. (n ≡ reregistered now params old) × (db'.tasks ≡ db.tasks))
        (register_node new_id now params db)
unfolding register_node upsert_node bump_epoch insert_event
register_known-Ensures new_id now params old db found =
    elim (Bool-cases (ltb (old.epoch + 1) (2 ^ 63))) [
      | inl fits ↦ simp (found, fits) (refl, refl)
      | inr over ↦ simp (found, over) tt
    ]

older_epoch :
    (t : Task) (node_id : String) (epoch e : ℕ)
    → node_id ≢ ""
    → t.assigned_node_id ≡ some node_id
    → t.assigned_epoch ≡ some e
    → e < epoch
    → check_task_report_fence t node_id epoch ≡ some stale_task_report
unfolding check_task_report_fence
older_epoch t node_id epoch e named at ae less =
    rw (ne→str_eq node_id "" named, at, ae, eq_refl node_id) (ground (arith, less))

-- A worker that registers again, under the hostname and the address of a row, keeps its id and gets
-- the next epoch. The rows of the tasks do not change: a task that its node was running or to run
-- stays assigned to it under an epoch of before, and a report about it under the node's new epoch is
-- refused as stale. The tables are valid, and the node's id is not empty.
pub restart_strands_tasks :
    (new_id : String) (now later : ℕ) (params : RegisterNodeParams) (p : UpdateTaskStatusParams)
    (old n : Node) (t : Task) (db db' : Db)
    → IsValid db
    → find (is_at params.hostname params.address) db.nodes ≡ some old
    → register_node new_id now params db ≡ ok (n, db')
    → find (is_row p.task_id) db.tasks ≡ some t
    → is_on n.id t ≡ true
    → n.id ≢ ""
    → p.node_id ≡ n.id
    → p.epoch ≡ n.epoch
    → (n.id ≡ old.id)
      × (n.epoch ≡ old.epoch + 1)
      × (db'.tasks ≡ db.tasks)
      × (t.assigned_node_id ≡ some old.id)
      × ((e : ℕ) × (t.assigned_epoch ≡ some e) × (e ≤ old.epoch))
      × (update_task_status later p db' ≡ err stale_task_report)
unfolding is_on reregistered
restart_strands_tasks new_id now later params p old n t db db' v known runs found on named own
      current =
    let (made, same_tasks) =
      Ensures-ok (λ n d. (n ≡ reregistered now params old) × (d.tasks ≡ db.tasks))
        (register_known-Ensures new_id now params old db known) runs in
    let row = All-find (IsRow db.nodes db.jobs) (is_row p.task_id) db.tasks v.rows found in
    let at : t.assigned_node_id ≡ some n.id =
      holds_text→eq t.assigned_node_id n.id (&&-true (holds_text t.assigned_node_id n.id) _ on).0 in
    let (e, ae, le) =
      epoch_of_assignment db.nodes t.assigned_node_id t.assigned_epoch t.status old.id {m = old}
        row.assignment (&&-true (holds_text t.assigned_node_id n.id) _ on).1
        (at ∙ ap (λ m. some m.id) made)
        (find_of_row db.nodes (is_at params.hostname params.address) v.nodes_unique known) in
    (
      ap (λ m. m.id) made,
      ap (λ m. m.epoch) made,
      same_tasks,
      at ∙ ap (λ m. some m.id) made,
      (e, ae, le),
      stale_report later p db' t (rw same_tasks found) (
          older_epoch t p.node_id p.epoch e (rw own named) (rw own at) ae
            (rw (current, made) (omega (arith, le)))),
    )
