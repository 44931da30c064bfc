-- ===== src/Detector/Fresh.antt =====
-- internal/failuredetector/failuredetector.go: what a tick does with a node that is heard.
use arbiter_distributed_sche.Base.{
  &&-true, Bool, Bool-cases, List, Option, String, [], arith, coalesce, eq_iff, false, find,
  holds_text, holds_text→eq, inl, inr, ne→str_eq, refl, select, some, str_eq, str_eq→eq, subst, sym,
  true, update, ℕ, ◌∙◌, ◌∷◌, ◌≡◌, ◌≢◌,
}
use arbiter_distributed_sche.Base.Int.{leb_ℤ}
use arbiter_distributed_sche.Base.Keys.{find-update_ne}
use arbiter_distributed_sche.Cache.{Cache, get_last_seen}
use arbiter_distributed_sche.Detector.{
  Config, age_of, carry_out, detector_tick, evaluate, evaluate_each, verdict_of,
}
use arbiter_distributed_sche.Detector.Liveness.{Unique, evaluate-Unique, evaluate-keeps}
use arbiter_distributed_sche.Detector.Visits.{Downgraded, downgraded}
use arbiter_distributed_sche.Store.{Db, Node, Task}
use arbiter_distributed_sche.Store.Allocation.{is_on}
use arbiter_distributed_sche.Store.Nodes.{
  MarkNodeDeadResult, is_node, list_active_nodes, marked_dead, orphan_requeued,
}
use arbiter_distributed_sche.Store.Report.Fencing.{orphaned-not_on}
use arbiter_distributed_sche.Store.Valid.Dying.{Died}

-- The row of the node, and the tasks on it.
abbrev pub Untouched : String → Db → Db → Type 0
Untouched id db db' =
    (find (is_node id) db'.nodes ≡ find (is_node id) db.nodes)
    × (select (is_on id) db'.tasks ≡ select (is_on id) db.tasks)

-- A task is on one node only.
is_on_one : (id j : String) (t : Task) → id ≢ j → is_on j t ≡ true → is_on id t ≡ false
unfolding is_on
is_on_one id j t ne h =
    let q : t.assigned_node_id ≡ some j =
      holds_text→eq t.assigned_node_id j (&&-true (holds_text t.assigned_node_id j) _ h).0 in
    rw (q, ne→str_eq j id (λ e. ne (sym e))) refl

select-requeue :
    (id j : String) (ts : List Task)
    → id ≢ j
    → select (is_on id) (update (is_on j) orphan_requeued ts) ≡ select (is_on id) ts
select-requeue id j [] ne = refl
select-requeue id j (t ∷ ts) ne = elim (Bool-cases (is_on j t)) [
  | inl hit ↦ rw (hit, gone, is_on_one id j t ne hit) (select-requeue id j ts ne)
  | inr miss ↦ rw (miss, select-requeue id j ts ne) refl
]
  where
    gone : is_on id (orphan_requeued t) ≡ false
    gone = orphaned-not_on id id t

pub Died-Untouched :
    {id j : String} {db db' : Db} {r : MarkNodeDeadResult}
    → id ≢ j
    → Died j db r db'
    → Untouched id db db'
unfolding marked_dead
Died-Untouched {id} {j} {db} ne d = (
  rw d.nodes (find-update_ne (λ n. n.id) id j marked_dead db.nodes (λ n. refl) ne),
  rw d.tasks (select-requeue id j db.tasks ne),
)

Downgraded-Untouched :
    {id j : String} {db db' : Db} → id ≢ j → Downgraded j db db' → Untouched id db db'
Downgraded-Untouched {id} {j} {db} ne d = (
  rw d.nodes (find-update_ne (λ n. n.id) id j downgraded db.nodes (λ n. refl) ne),
  rw d.tasks refl,
)

pub Untouched-trans :
    (id : String) (a b c : Db) → Untouched id a b → Untouched id b c → Untouched id a c
Untouched-trans id a b c (n, t) (n', t') = (n' ∙ n, t' ∙ t)

module _ (cfg : Config) (docker : Bool) (reachable : String → Bool) (cache : Cache) (now : ℕ) where
  -- Where the time of the node can be read, it is below both thresholds.
  abbrev pub IsHeard : String → Type 0
  IsHeard id =
      reachable id ≡ true
      → (leb_ℤ cfg.dead_after (age_of now (get_last_seen now id cache)) ≡ false)
        × (leb_ℤ cfg.not_ready_after (age_of now (get_last_seen now id cache)) ≡ false)

  evaluate-heard :
      (n : Node) (db : Db) → IsHeard n.id → (evaluate cfg docker reachable cache now n db).0 ≡ db
  unfolding evaluate verdict_of carry_out
  evaluate-heard n db h = elim (Bool-cases (reachable n.id)) [
    | inl seen ↦ rw (seen, (h seen).0, (h seen).1) refl
    | inr unread ↦ rw unread refl
  ]

  evaluate-Untouched :
      (id : String) (n : Node) (db : Db)
      → Unique cfg docker reachable cache now db
      → IsHeard id
      → Untouched id db (evaluate cfg docker reachable cache now n db).0
  evaluate-Untouched id n db u heard = elim (Bool-cases (str_eq id n.id)) [
    | inl same ↦
        rw (evaluate-heard n db (subst IsHeard (str_eq→eq id n.id same) heard)) (refl, refl)
    | inr differs ↦
        let ne : id ≢ n.id = λ e. ground (arith, eq_iff id n.id) in
        evaluate-keeps cfg docker reachable cache now (Untouched id db) n db u
          (λ r db' d. Died-Untouched ne d) (λ db' d. Downgraded-Untouched ne d) (refl, refl)
  ]

  evaluate_each-Untouched :
      (id : String) (ns : List Node) (db : Db)
      → Unique cfg docker reachable cache now db
      → IsHeard id
      → Untouched id db (evaluate_each cfg docker reachable cache now ns db).0
  unfolding evaluate_each
  evaluate_each-Untouched id [] db u heard = (refl, refl)
  evaluate_each-Untouched id (n ∷ ns) db u heard =
      let after = (evaluate cfg docker reachable cache now n db).0 in
      Untouched-trans id db after (evaluate_each cfg docker reachable cache now ns after).0
        (evaluate-Untouched id n db u heard)
        (evaluate_each-Untouched id ns after (evaluate-Unique cfg docker reachable cache now n db u)
          heard)

  -- A tick leaves the row of a node and the tasks on it as they are when the node was heard within
  -- both thresholds or its time cannot be read, whatever becomes of the other nodes. No two tasks
  -- have one id.
  pub heard_node_stays :
      (leader : Option Bool) (id : String) (db : Db)
      → Unique cfg docker reachable cache now db
      → IsHeard id
      → let db' = (detector_tick cfg docker leader reachable cache now db).0 in
        (find (is_node id) db'.nodes ≡ find (is_node id) db.nodes)
        × (select (is_on id) db'.tasks ≡ select (is_on id) db.tasks)
  unfolding detector_tick
  heard_node_stays leader id db u heard = elim (Bool-cases (coalesce leader true)) [
    | inl leading ↦ rw leading (evaluate_each-Untouched id (list_active_nodes db) db u heard)
    | inr follows ↦ rw follows (refl, refl)
  ]
