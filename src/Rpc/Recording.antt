-- ===== src/Rpc/Recording.antt =====
-- internal/grpcapi/heartbeat.go: the time that a heartbeat records.
use arbiter_distributed_sche.Base.{
  Bool, Bool-cases, List, Option, String, [], ap, arith, false, find, inl, inr, ne→str_eq, none,
  not, refl, some, str_eq, true, ℕ, ◌==◌, ◌∙◌, ◌∷◌, ◌≡◌, ◌≢◌,
}
use arbiter_distributed_sche.Cache.{set_last_seen}
use arbiter_distributed_sche.Rpc.{
  Handler, LeaderGate, Reply, Status, World, caused, led_by, not_found, plain, refuse, reject_if,
  reply, require_leader, transact,
}
use arbiter_distributed_sche.Rpc.Heartbeat.{
  HeartbeatRequest, HeartbeatResponse, after_update, apply_updates, assignments_for,
  handle_heartbeat, heartbeat_from, heartbeat_of, is_internal, recover_node,
}
use arbiter_distributed_sche.Rpc.Reports.{
  TaskStatusUpdate, apply_task_status_update, is_reportable, report_params, report_status,
}
use arbiter_distributed_sche.Store.{
  Db, Error, Node, Result, Tx, err, node_recovered, not_ready, ok, ready, same_node_status, text,
}
use arbiter_distributed_sche.Store.Nodes.{get_node, is_node, update_node_status}
use arbiter_distributed_sche.Store.Report.{update_task_status}

transact-cache :
    {A B : Type 0} (m : Tx A) (w : World) (failure : Error → World → Reply B × World)
    (success : A → World → Reply B × World)
    → ((e : Error) (v : World) → (failure e v).1.cache ≡ v.cache)
    → ((a : A) (v : World) → (success a v).1.cache ≡ v.cache)
    → (transact m w failure success).1.cache ≡ w.cache
transact-cache {A} {B} m w failure success h k = go (m w.db)
  where
    go :
        (r : Result (A × Db))
        → (elim r as (λ _. Reply B × World) [
          | err e ↦ failure e w
          | ok (a, db) ↦ success a (record w { db = db })
        ]).1.cache
          ≡ w.cache
    go (err e) = h e w
    go (ok (a, db)) = k a (record w { db = db })

reject_if-cache :
    {A : Type 0} (test : Bool) (message : String) (handler : Handler A) (w : World)
    → (handler w).1.cache ≡ w.cache
    → (reject_if test message handler w).1.cache ≡ w.cache
reject_if-cache true message handler w h = refl
reject_if-cache false message handler w h = h

apply_task_status_update-cache :
    (now : ℕ) (req : TaskStatusUpdate) (w : World)
    → (apply_task_status_update now req w).1.cache ≡ w.cache
unfolding apply_task_status_update
apply_task_status_update-cache now req w =
    reject_if-cache (str_eq req.task_id "") "task_id is required" checked w (
      reject_if-cache (not (is_reportable req.status)) "unsupported task status" stored w (
        transact-cache (update_task_status now (report_params req)) w
          (λ e v. (refuse (report_status e), v)) (λ t v. (reply tt, v)) (λ e v. refl)
          (λ t v. refl)))
  where
    stored : Handler (Unit {0})
    stored v =
        transact (update_task_status now (report_params req)) v
          (λ e v'. (refuse (report_status e), v')) (λ t v'. (reply tt, v'))

    checked : Handler (Unit {0})
    checked = reject_if (not (is_reportable req.status)) "unsupported task status" stored

after_update-cache :
    (r : Reply (Unit {0})) (w v : World) (rest : Option Status × World)
    → w.cache ≡ v.cache
    → rest.1.cache ≡ v.cache
    → (after_update r w rest).1.cache ≡ v.cache
after_update-cache (reply _) w v rest h k = k
after_update-cache (refuse status) w v rest h k = elim (Bool-cases (is_internal status.code)) [
  | inl stop ↦ rw stop h
  | inr more ↦ rw more k
]

apply_updates-cache :
    (now : ℕ) (us : List TaskStatusUpdate) (w : World) → (apply_updates now us w).1.cache ≡ w.cache
unfolding apply_updates
apply_updates-cache now [] w = refl
apply_updates-cache now (u ∷ us) w =
    let (r, w') = apply_task_status_update now u w in
    after_update-cache r w' w (apply_updates now us w') (apply_task_status_update-cache now u w)
      (apply_updates-cache now us w' ∙ apply_task_status_update-cache now u w)

recover_node-cache :
    (now : ℕ) (node : Node) (w : World) → (recover_node now node w).1.cache ≡ w.cache
unfolding recover_node assignments_for
recover_node-cache now node w = elim (Bool-cases (same_node_status node.status not_ready)) [
  | inl late ↦ simp late (
      transact-cache
        (update_node_status now node.id ready node_recovered
          (text "node recovered: heartbeat resumed before the dead threshold" ∷ []))
        w (λ e v. (refuse (caused (text "heartbeat: recover node: " ∷ []) e), v))
        (λ _. assignments_for node.id) (λ e v. refl) (λ a v. refl))
  | inr fine ↦ simp fine refl
]

heartbeat_from-cache :
    (now : ℕ) (us : List TaskStatusUpdate) (node : Node) (w : World)
    → (heartbeat_from now us node w).1.cache ≡ w.cache
unfolding heartbeat_from
heartbeat_from-cache now us node w = go (apply_updates now us w).0
  where
    after : World
    after = (apply_updates now us w).1

    go :
        (failure : Option Status)
        → (elim failure as (λ _. Reply HeartbeatResponse × World) [
          | some status ↦ (refuse status, after)
          | none ↦ recover_node now node after
        ]).1.cache
          ≡ w.cache
    go none = recover_node-cache now node after ∙ apply_updates-cache now us w
    go (some status) = apply_updates-cache now us w

through_gate :
    {A : Type 0} (leader : Option LeaderGate) (handler : Handler A) (w : World)
    → require_leader leader ≡ none
    → led_by leader handler w ≡ handler w
through_gate {A} leader handler w e = go (require_leader leader) e
  where
    go :
        (o : Option Status)
        → o ≡ none
        → (elim o as (λ _. Reply A × World) [ none ↦ handler w | some status ↦ (refuse status, w) ])
          ≡ handler w
    go none q = refl
    go (some status) q = cc

transact_of_ok :
    {A B : Type 0} (m : Tx A) (w : World) (failure : Error → World → Reply B × World)
    (success : A → World → Reply B × World) (a : A) (db : Db)
    → m w.db ≡ ok (a, db)
    → transact m w failure success ≡ success a (record w { db = db })
transact_of_ok {A} {B} m w failure success a db e = go (m w.db) e
  where
    go :
        (r : Result (A × Db))
        → r ≡ ok (a, db)
        → (elim r as (λ _. Reply B × World) [
          | err x ↦ failure x w
          | ok (b, d) ↦ success b (record w { db = d })
        ])
          ≡ success a (record w { db = db })
    go (err x) q = cc
    go (ok (b, d)) q = cc

get_node_of_found :
    (id : String) (db : Db) (node : Node)
    → find (is_node id) db.nodes ≡ some node
    → get_node id db ≡ ok (node, db)
unfolding get_node
get_node_of_found id db node e = rw e refl

heartbeat_of-cache :
    (now : ℕ) (req : HeartbeatRequest) (node : Node) (w : World)
    → req.epoch ≡ node.epoch
    → (heartbeat_of true now req node w).1.cache ≡ set_last_seen now node.id w.cache
unfolding heartbeat_of
heartbeat_of-cache now req node w current = rw same (
    heartbeat_from-cache now req.task_updates node
      (record w { cache = set_last_seen now node.id w.cache }))
  where
    same : (req.epoch == node.epoch) ≡ true
    same = ground (arith, current)

-- The leader records every heartbeat under the node's epoch while Redis answers, whatever becomes
-- of the reports that it carries.
pub heartbeat_is_recorded :
    (leader : Option LeaderGate) (now : ℕ) (req : HeartbeatRequest) (node : Node) (w : World)
    → require_leader leader ≡ none
    → req.node_id ≢ ""
    → find (is_node req.node_id) w.db.nodes ≡ some node
    → req.epoch ≡ node.epoch
    → (handle_heartbeat leader true now req w).1.cache ≡ set_last_seen now node.id w.cache
unfolding handle_heartbeat
heartbeat_is_recorded leader now req node w led named found current =
    ap (λ x. x.1.cache)
      (through_gate leader (reject_if (str_eq req.node_id "") "node_id is required" body) w led)
    ∙ ap (λ b. (reject_if b "node_id is required" body w).1.cache) (ne→str_eq req.node_id "" named)
    ∙ ap (λ x. x.1.cache)
        (transact_of_ok (get_node req.node_id) w unknown (heartbeat_of true now req) node w.db
          (get_node_of_found req.node_id w.db node found))
    ∙ heartbeat_of-cache now req node w current
  where
    unknown : Error → World → Reply HeartbeatResponse × World
    unknown e v =
        (refuse (plain not_found (text "node is not registered; call RegisterNode first" ∷ [])), v)

    body : Handler HeartbeatResponse
    body v = transact (get_node req.node_id) v unknown (heartbeat_of true now req)
