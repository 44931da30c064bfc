-- ===== src/Detector.antt =====
-- internal/failuredetector/failuredetector.go: the failure detector. Metrics and logs are left
-- out; the containers to reap are returned.
pub mod Visits
pub mod Liveness
pub mod Fresh
use arbiter_distributed_sche.Base.{
  Bool, List, Option, String, [], coalesce, if◌then◌else◌, leb, ltb, none, some, suc, true, ℕ, ◌++◌,
  ◌-◌, ◌/◌, ◌^◌, ◌∷◌,
}
use arbiter_distributed_sche.Base.Int.{leb_ℤ, negsuc, pos, sub_ℕ, wrap64, ℤ, ◌+ℤ◌}
use arbiter_distributed_sche.Cache.{Cache, get_last_seen}
use arbiter_distributed_sche.Store.{
  Db, Node, NodeStatus, Result, committed, err, node_not_ready, not_ready, ok, ready,
  same_node_status, text,
}
use arbiter_distributed_sche.Store.Nodes.{
  MarkNodeDeadResult, list_active_nodes, mark_node_dead, update_node_status,
}

pub record Config : Type 0 where
  pub poll_interval : ℤ
  pub not_ready_after : ℤ
  pub dead_after : ℤ

-- Go's `d / 2` on a signed integer.
unfoldable pub halve : ℤ → ℤ
halve (pos n) = pos (n / 2)
halve (negsuc n) = sub_ℕ 0 (suc n / 2)

-- `DefaultConfig`: products of durations wrap at 64 bits.
unfoldable pub default_config : ℤ → Config
unfolding halve wrap64 ◌+ℤ◌
default_config heartbeat_interval = record {
  poll_interval = halve heartbeat_interval;
  not_ready_after = wrap64 (heartbeat_interval +ℤ heartbeat_interval);
  dead_after = wrap64 (heartbeat_interval +ℤ heartbeat_interval +ℤ heartbeat_interval);
}

-- The largest duration, `1<<63 - 1`.
abbrev pub max_duration : ℤ
max_duration = pos (2 ^ 63 - 1)

-- `now.Sub(t)` saturates.
unfoldable pub time_since : ℕ → ℕ → ℤ
time_since now t =
    if leb t now
    then pos (if ltb (now - t) (2 ^ 63) then now - t else 2 ^ 63 - 1)
    else negsuc (if leb (t - now) (2 ^ 63) then t - now - 1 else 2 ^ 63 - 1)

-- `age`: a node without a time is as stale as can be.
unfoldable pub age_of : ℕ → Option ℕ → ℤ
unfolding time_since
age_of now none = max_duration
age_of now (some t) = time_since now t

-- The branches of the `switch`.
pub data Verdict : Type 0 where
  give_up downgrade leave : Verdict

unfoldable pub verdict_of : Config → ℤ → NodeStatus → Verdict
unfolding same_node_status
verdict_of cfg age status =
    if leb_ℤ cfg.dead_after age
    then give_up
    else if leb_ℤ cfg.not_ready_after age
    then (if same_node_status status ready then downgrade else leave)
    else leave

-- The database that an evaluation leaves, and the tasks whose containers it reaps.
abbrev pub Outcome : Type 0
Outcome = Db × List String

abbrev pub reaped : Bool → Db → Result (MarkNodeDeadResult × Db) → Outcome
reaped docker db (ok (result, db')) = (db', if docker then result.orphaned_task_ids else [])
reaped docker db (err e) = (db, [])

-- What a branch does. An error is logged, and its transaction rolled back.
unfoldable pub carry_out : Verdict → Bool → ℕ → String → Db → Outcome
unfolding mark_node_dead update_node_status
carry_out give_up docker now id db = reaped docker db (mark_node_dead now id db)
carry_out downgrade docker now id db = (
  committed db (
      update_node_status now id not_ready node_not_ready
        (text "missed heartbeats; downgraded to not_ready" ∷ []) db),
  [],
)
carry_out leave docker now id db = (db, [])

-- `evaluate`. `reachable` says whether the read of the node's time succeeds.
unfoldable pub evaluate : Config → Bool → (String → Bool) → Cache → ℕ → Node → Db → Outcome
unfolding carry_out verdict_of age_of get_last_seen
evaluate cfg docker reachable cache now n db =
    if reachable n.id
    then carry_out (verdict_of cfg (age_of now (get_last_seen now n.id cache)) n.status) docker now
        n.id db
    else (db, [])

-- The loop over the active nodes, which were read before it.
unfoldable pub evaluate_each :
    Config → Bool → (String → Bool) → Cache → ℕ → List Node → Db → Outcome
unfolding evaluate
evaluate_each cfg docker reachable cache now [] db = (db, [])
evaluate_each cfg docker reachable cache now (n ∷ ns) db =
    let (db', ids) = evaluate cfg docker reachable cache now n db in
    let (db'', more) = evaluate_each cfg docker reachable cache now ns db' in (db'', ids ++ more)

-- `tick`: `leader` is `none` for a nil gate.
unfoldable pub detector_tick :
    Config → Bool → Option Bool → (String → Bool) → Cache → ℕ → Db → Outcome
unfolding evaluate_each list_active_nodes
detector_tick cfg docker leader reachable cache now db =
    if coalesce leader true
    then evaluate_each cfg docker reachable cache now (list_active_nodes db) db
    else (db, [])
