-- ===== src/Store/Valid/Dying.antt =====
-- internal/store/nodes.go: `MarkNodeDead` keeps the tables valid.
use arbiter_distributed_sche.Base.{
  &&-true, All-update, Bool, Bool-cases, List, Option-cases, String, [], arith, false, find, inl,
  inr, ltb, refl, select, some, true, update, ℕ, ◌+◌, ◌^◌, ◌∙◌, ◌∷◌, ◌≡◌,
}
use arbiter_distributed_sche.Base.Batch.{update_each, update_each-select}
use arbiter_distributed_sche.Base.Keys.{IsUnique, find-update_self, update-IsUnique}
use arbiter_distributed_sche.Store.{
  Db, Ensures, Ensures-map, Node, Task, TaskStatus, and_then, bind-Ensures, bump_epoch, ok, pure,
}
use arbiter_distributed_sche.Store.Allocation.{consumes, is_on}
use arbiter_distributed_sche.Store.Events.{insert_event}
use arbiter_distributed_sche.Store.Nodes.{
  MarkNodeDeadResult, get_node, is_node, mark_node_dead, marked_dead, orphan_and_requeue_tasks,
  orphan_requeued, requeue_each, task_ids, update_node,
}
use arbiter_distributed_sche.Store.Valid.{Advances, IsRow, IsSound, IsValid, is_final}
use arbiter_distributed_sche.Store.Valid.Rows.{
  IsSound-trans, nodes-IsSound, tasks-IsSound, update-NodesAdvance, update-TasksAdvance,
}

-- The loop over the ids is one UPDATE after another, and events.
pub requeue_each-Ensures :
    (now : ℕ) (node_id : String) (ids : List String) (db : Db)
    → Ensures
        (λ _ db'.
          (db'.tasks ≡ update_each (λ t. t.id) ids orphan_requeued db.tasks)
          × (db'.nodes ≡ db.nodes)
          × (db'.jobs ≡ db.jobs)
          × (db'.lease ≡ db.lease))
        (requeue_each now node_id ids db)
unfolding requeue_each update_each
requeue_each-Ensures now node_id [] db = (refl, refl, refl, refl)
requeue_each-Ensures now node_id (id ∷ ids) db = requeue_each-Ensures now node_id ids _

-- Exactly the tasks on the node are requeued, and their ids are returned.
pub orphan_and_requeue_tasks-Ensures :
    (now : ℕ) (node_id : String) (db : Db)
    → IsUnique (λ (t : Task). t.id) db.tasks
    → Ensures
        (λ ids db'.
          (ids ≡ task_ids (select (is_on node_id) db.tasks))
          × (db'.tasks ≡ update (is_on node_id) orphan_requeued db.tasks)
          × (db'.nodes ≡ db.nodes)
          × (db'.jobs ≡ db.jobs)
          × (db'.lease ≡ db.lease))
        (orphan_and_requeue_tasks now node_id db)
unfolding orphan_and_requeue_tasks
orphan_and_requeue_tasks-Ensures now node_id db u =
    bind-Ensures _ _ (requeue_each now node_id ids db) _ (requeue_each-Ensures now node_id ids db)
      λ _ db' (et, en, ej, el). (
        refl,
        et ∙ update_each-select (λ t. t.id) (is_on node_id) orphan_requeued db.tasks (λ t. refl) u,
        en,
        ej,
        el,
      )
  where
    ids : List String
    ids = task_ids (select (is_on node_id) db.tasks)

consumes-live : (s : TaskStatus) → consumes s ≡ true → is_final s ≡ false
unfolding consumes
consumes-live s h = ground arith

is_on-live : (id : String) (t : Task) → is_on id t ≡ true → is_final t.status ≡ false
unfolding is_on
is_on-live id t h = consumes-live t.status (&&-true _ _ h).1

orphan_requeued-Advances :
    (id : String) (t : Task) → is_on id t ≡ true → Advances t (orphan_requeued t)
unfolding orphan_requeued
orphan_requeued-Advances id t h = record {
  same_job = refl;
  retries = omega arith;
  final = λ done. cc (is_on-live id t h);
}

pub orphaned-IsSound :
    (node_id : String) {db : Db}
    → IsValid db
    → (db' : Db) → db'.tasks ≡ update (is_on node_id) orphan_requeued db.tasks
    → db'.nodes ≡ db.nodes
    → db'.jobs ≡ db.jobs
    → IsSound db db'
unfolding orphan_requeued
orphaned-IsSound node_id {db} v db' et en ej =
    tasks-IsSound (update p orphan_requeued db.tasks) v
      (update-IsUnique (λ t. t.id) p orphan_requeued db.tasks (λ t. refl) v.tasks_unique)
      (All-update (IsRow db.nodes db.jobs) p orphan_requeued db.tasks
        (λ t _ r. record { assignment = (refl, refl); job = r.job }) v.rows)
      (update-TasksAdvance p orphan_requeued db.tasks (λ t. refl)
        (λ _ t _ h. orphan_requeued-Advances node_id t h))
      db' en ej et
  where
    p : Task → Bool
    p = is_on node_id

-- What `MarkNodeDead` leaves: the node is dead under the next epoch, and its tasks are requeued.
pub record Died (node_id : String) (db : Db) (result : MarkNodeDeadResult) (db' : Db) : Type 0 where
  pub n : Node
  pub found : find (is_node node_id) db.nodes ≡ some n
  pub node : result.node ≡ marked_dead n
  pub ids : result.orphaned_task_ids ≡ task_ids (select (is_on node_id) db.tasks)
  pub nodes : db'.nodes ≡ update (is_node node_id) marked_dead db.nodes
  pub tasks : db'.tasks ≡ update (is_on node_id) orphan_requeued db.tasks
  pub jobs : db'.jobs ≡ db.jobs
  pub lease : db'.lease ≡ db.lease

pub update_node_lem :
    (id : String) (f : Node → Node) (db : Db) {n : Node}
    → (f n).id ≡ n.id
    → find (is_node id) db.nodes ≡ some n
    → update_node id f db ≡ ok (f n, record db { nodes = update (is_node id) f db.nodes })
unfolding update_node
update_node_lem id f db same e = rw (find-update_self (λ n. n.id) id f db.nodes same e)

-- The end of `MarkNodeDead`, behind its UPDATE and its event.
finish-Ensures :
    (now : ℕ) (node_id : String) (n : Node) (db after : Db)
    → IsUnique (λ (t : Task). t.id) after.tasks
    → find (is_node node_id) db.nodes ≡ some n
    → after.nodes ≡ update (is_node node_id) marked_dead db.nodes
    → after.tasks ≡ db.tasks
    → after.jobs ≡ db.jobs
    → after.lease ≡ db.lease
    → Ensures (Died node_id db) (
        and_then
          (orphan_and_requeue_tasks now node_id after)
          (λ ids. pure (record { node = marked_dead n; orphaned_task_ids = ids })))
finish-Ensures now node_id n db after u e an same aj al =
    bind-Ensures _ _ (orphan_and_requeue_tasks now node_id after) _
      (orphan_and_requeue_tasks-Ensures now node_id after u)
      λ ids db' (ei, et, en, ej, el). record {
        n = n;
        found = e;
        node = refl;
        ids = rw same at ei;
        nodes = en ∙ an;
        tasks = rw same at et;
        jobs = ej ∙ aj;
        lease = el ∙ al;
      }

dying-Ensures :
    (now : ℕ) (node_id : String) (n : Node) (db : Db)
    → IsUnique (λ (t : Task). t.id) db.tasks
    → find (is_node node_id) db.nodes ≡ some n
    → Ensures (Died node_id db) (mark_node_dead now node_id db)
unfolding mark_node_dead get_node bump_epoch insert_event
dying-Ensures now node_id n db u e = elim (Bool-cases (ltb (n.epoch + 1) (2 ^ 63))) [
  | inr over ↦ simp (e, over) tt
  | inl fits ↦
      simp (e, fits, update_node_lem node_id marked_dead db {n = n} refl e)
        (finish-Ensures now node_id n db _ u e refl refl refl refl)
]

pub mark_node_dead-Ensures :
    (now : ℕ) (node_id : String) (db : Db)
    → IsUnique (λ (t : Task). t.id) db.tasks
    → Ensures (Died node_id db) (mark_node_dead now node_id db)
unfolding mark_node_dead get_node
mark_node_dead-Ensures now node_id db u = elim (Option-cases (find (is_node node_id) db.nodes)) [
  | inl gone ↦ simp gone tt
  | inr (n, e) ↦ dying-Ensures now node_id n db u e
]

pub Died-IsSound :
    (node_id : String) {db db' : Db} {result : MarkNodeDeadResult}
    → IsValid db
    → Died node_id db result db'
    → IsSound db db'
unfolding marked_dead
Died-IsSound node_id {db} {db'} v d =
    IsSound-trans bumped (orphaned-IsSound node_id bumped.valid db' d.tasks d.nodes d.jobs)
  where
    f : Node → Node
    f = marked_dead

    after : Db
    after = record db { nodes = update (is_node node_id) f db.nodes }

    bumped : IsSound db after
    bumped =
        nodes-IsSound (update (is_node node_id) f db.nodes) v
          (update-IsUnique (λ n. n.id) (is_node node_id) f db.nodes (λ n. refl) v.nodes_unique)
          (update-NodesAdvance (is_node node_id) f db.nodes (λ n. refl) (λ n. omega arith)) _ refl
          refl refl

pub mark_node_dead-IsSound :
    (now : ℕ) (node_id : String) {db : Db}
    → IsValid db
    → Ensures (λ r db'. IsSound db db') (mark_node_dead now node_id db)
mark_node_dead-IsSound now node_id {db} v =
    Ensures-map (Died node_id db) _ (mark_node_dead now node_id db)
      (λ r db' d. Died-IsSound node_id v d) (mark_node_dead-Ensures now node_id db v.tasks_unique)
