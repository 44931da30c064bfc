-- ===== src/Examples/Worker.antt =====
-- Three replicas: the first is down, the second refers to the third, which leads.
use arbiter_distributed_sche.Base.{
  All, List, String, [], arith, eq_iff, false, if◌then◌else◌, inl, inr, map, none, refl, str_eq,
  true, ℕ, ◌+◌, ◌∷◌, ◌≡◌, ◌≤◌, ◌⊎◌,
}
use arbiter_distributed_sche.Base.Index.{AreDistinct}
use arbiter_distributed_sche.Base.Int.{pos}
use arbiter_distributed_sche.Redirects.{
  CallError, is_failed_precondition, is_unavailable, known_addr, parse_leader_addr, status_error,
}
use arbiter_distributed_sche.Rpc.{failed_precondition, unavailable}
use arbiter_distributed_sche.Rpc.Heartbeat.{TaskAssignment}
use arbiter_distributed_sche.Worker.Agent.{Agent, handle_assignments}
use arbiter_distributed_sche.Worker.Agent.Assigned.{IsDue, handle_assignments_once}
use arbiter_distributed_sche.Worker.Dialer.{new_scheduler_dialer}
use arbiter_distributed_sche.Worker.Retry.{with_leader_retry}
use arbiter_distributed_sche.Worker.Retry.Bounds.{with_leader_retry-bound}
use arbiter_distributed_sche.Worker.Retry.Reaching.{IsAhead, call_reaches_leader, knowing, passing}

abbrev down : CallError
down = status_error unavailable "connection refused"

abbrev elsewhere_c : CallError
elsewhere_c = status_error failed_precondition "NOT_LEADER: current leader at c"

abbrev replicas : String → ℕ → (CallError ⊎ ℕ) × ℕ
replicas a s =
    if str_eq a "c"
    then (inr 7, s + 1)
    else if str_eq a "a"
    then (inl down, s)
    else (inl elsewhere_c, s)

abbrev replica_addrs : List String
replica_addrs = "a" ∷ "b" ∷ "c" ∷ []

replica_addrs-AreDistinct : AreDistinct replica_addrs
replica_addrs-AreDistinct = (
  (ground (arith, eq_iff "b" "a"), (ground (arith, eq_iff "c" "a"), tt)),
  ((ground (arith, eq_iff "c" "b"), tt), (tt, tt)),
)

ahead :
    IsAhead
      (λ a. true)
      replicas
      (λ a. refl)
      replica_addrs
      replica_addrs-AreDistinct
      "c"
      0
      1
      7
      refl
      0
      1
unfolding is_unavailable parse_leader_addr known_addr is_failed_precondition
ahead =
    passing "a" "b" refl (down, refl, refl) refl (knowing "b" refl (inr (elsewhere_c, refl, refl)))

call_reaches_leader_example :
    let x = with_leader_retry (λ a. true) replicas (new_scheduler_dialer "a" ("b" ∷ "c" ∷ [])) 0 in
    (x.0 ≡ inr 7) × (x.2 ≡ 1)
unfolding new_scheduler_dialer
call_reaches_leader_example =
    call_reaches_leader (λ a. true) replicas (λ a. refl) replica_addrs replica_addrs-AreDistinct "c"
      0 1 7 refl 0 1 "a" none refl (inl refl) ahead (omega arith)

-- Every replica is down, and counts its calls.
abbrev outage : String → ℕ → (CallError ⊎ ℕ) × ℕ
outage a s = (inl down, s + 1)

counted : (a : String) (s : ℕ) → (outage a s).1 ≤ s + 1
counted a s = omega arith

with_leader_retry-bound_example :
    (with_leader_retry (λ a. true) outage (new_scheduler_dialer "a" ("b" ∷ [])) 0).2 ≤ 0 + 9
with_leader_retry-bound_example =
    with_leader_retry-bound (λ a. true) outage (λ s. s) counted
      (new_scheduler_dialer "a" ("b" ∷ [])) 0

abbrev pub assigned : String → ℕ → TaskAssignment
assigned id epoch = record {
  task_id = id;
  image = "busybox";
  command = [];
  request = record { cpu_millicores = pos 100; memory_mb = pos 64 };
  assigned_epoch = epoch;
}

abbrev agent : Agent
agent = record { specs = []; node_id = "n1"; epoch = 2 }

-- One assignment is of an earlier epoch, and one stands twice.
abbrev delivered : List TaskAssignment
delivered = assigned "t1" 2 ∷ assigned "t2" 1 ∷ assigned "t1" 2 ∷ []

handle_assignments_once_example :
    let handled = handle_assignments (λ id. false) delivered agent in
    All (IsDue (λ id. false) 2 delivered []) handled.1
    × AreDistinct (map (λ s. s.task_id) handled.1)
    × ((handle_assignments (λ id. false) delivered handled.0).1 ≡ [])
handle_assignments_once_example = handle_assignments_once (λ id. false) delivered agent
