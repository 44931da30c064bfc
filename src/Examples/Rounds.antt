-- ===== src/Examples/Rounds.antt =====
-- One node whose registration has epoch 2, behind a replica that hands out an assignment of that
-- epoch and one of an earlier epoch.
use arbiter_distributed_sche.Base.{
  List, [], false, inr, none, not, refl, true, ℕ, ◌++◌, ◌+◌, ◌==◌, ◌∷◌, ◌≡◌,
}
use arbiter_distributed_sche.Base.Int.{pos}
use arbiter_distributed_sche.Examples.Executor.{forgetful, spec_t1}
use arbiter_distributed_sche.Examples.Worker.{assigned}
use arbiter_distributed_sche.Rpc.Heartbeat.{TaskAssignment}
use arbiter_distributed_sche.Rpc.Nodes.{RegisterNodeRequest}
use arbiter_distributed_sche.Worker.Agent.{allocated_resources, handle_assignments}
use arbiter_distributed_sche.Worker.Dialer.{client_of, new_scheduler_dialer}
use arbiter_distributed_sche.Worker.Retry.{call_once, with_leader_retry}
use arbiter_distributed_sche.Worker.Rounds.{
  Process, SchedulerCalls, answered_round, assignments_in, called, heartbeat_request,
  heartbeat_round, send_heartbeat, start_assigned_task, take_assignments,
}
use arbiter_distributed_sche.Worker.Rounds.Epochs.{IsCurrent, Runs-IsCurrent, beats, has_registered}
use arbiter_distributed_sche.Worker.Rounds.Settling.{IsPlaced, start_assigned_task-IsPlaced}

abbrev handed : List TaskAssignment
handed = assigned "t1" 2 ∷ assigned "t2" 1 ∷ []

abbrev calls : SchedulerCalls ℕ
calls = record {
  heartbeat = λ req allocated a s.
      (inr (record { epoch_invalid = not (req.epoch == 2); new_assignments = handed }), s + 1);
  register = λ req a s.
      (inr (record { node_id = "n1"; epoch = 3; heartbeat_interval_ms = pos 2_000 }), s + 1);
  report = λ u a s. (inr tt, s + 1);
}

abbrev joining : RegisterNodeRequest
joining = record { hostname = "h"; address = "h:8080"; capacity = none; labels = none }

abbrev started : Process ℕ ℕ
started = record {
  agent = record { specs = []; node_id = "n1"; epoch = 2 };
  dialer = new_scheduler_dialer "a" [];
  executor = record { running_ids = [] };
  docker = 0;
  cluster = 0;
}

abbrev beaten : Process ℕ ℕ
beaten = (heartbeat_round (λ a. true) calls forgetful (λ n. false) joining started).0

Runs-IsCurrent_example :
    IsCurrent
      (assignments_in (send_heartbeat (λ a. true) calls forgetful started).0 ++ [])
      beaten.agent
Runs-IsCurrent_example =
    Runs-IsCurrent (λ a. true) calls forgetful
      (beats (λ n. false) joining (has_registered {p = started} refl))

-- The round takes on the first task only.
first_task_is_tracked : beaten.agent.specs ≡ spec_t1 ∷ []
unfolding heartbeat_round send_heartbeat answered_round take_assignments called with_leader_retry
    heartbeat_request allocated_resources handle_assignments call_once client_of
    new_scheduler_dialer
first_task_is_tracked = refl

start_assigned_task-IsPlaced_example : IsPlaced "t1" (
    start_assigned_task
      (λ a. true)
      calls
      forgetful
      (λ e. "")
      (λ i. "0")
      spec_t1
      "0123456789abcdef"
      started)
start_assigned_task-IsPlaced_example =
    start_assigned_task-IsPlaced (λ a. true) calls forgetful (λ e. "") (λ i. "0") spec_t1
      "0123456789abcdef" started
