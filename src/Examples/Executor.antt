-- ===== src/Examples/Executor.antt =====
-- An engine that has removed the container before the wait.
use arbiter_distributed_sche.Base.{Option, [], false, none, refl, some, true, ℕ, ◌+◌, ◌↔◌, ◌≡◌}
use arbiter_distributed_sche.Base.Int.{pos, ℤ}
use arbiter_distributed_sche.Docker.{answered}
use arbiter_distributed_sche.Executor.{
  TaskEngine, already_running, create_and_start, is_running_task, start_task, to_int32,
  wait_for_exit, waited_code,
}
use arbiter_distributed_sche.Executor.Exits.{wait_for_exit-succeeds}
use arbiter_distributed_sche.Executor.Tracking.{IsSettled, start_task-IsSettled}
use arbiter_distributed_sche.Store.{succeeded}
use arbiter_distributed_sche.Worker.Agent.{TaskSpec}

abbrev pub forgetful : TaskEngine ℕ
forgetful = record {
  create = λ name body d. (answered 201 (some "c1"), d + 1);
  start = λ id d. (answered 204 none, d);
  remove = λ name d. d;
  kill = λ id d. d;
  wait = λ id d. (answered 404 none, d);
}

abbrev pub spec_t1 : TaskSpec
spec_t1 = record {
  task_id = "t1";
  image = "busybox";
  command = [];
  cpu_request_millicores = pos 100;
  mem_request_mb = pos 64;
}

wait_for_exit-succeeds_example :
    ((wait_for_exit forgetful false "c1" "t1" "0123456789abcdef" 0).0.status ≡ succeeded) ↔ (
      (status : ℕ) × (body : Option ℤ) × (answered 404 none ≡ answered status body)
      × (to_int32 (waited_code body) ≡ pos 0))
wait_for_exit-succeeds_example =
    wait_for_exit-succeeds forgetful false "c1" "t1" "0123456789abcdef" 0

-- The wait that Docker refuses is a success.
refused_wait_succeeds :
    (wait_for_exit forgetful false "c1" "t1" "0123456789abcdef" 0).0.status ≡ succeeded
unfolding to_int32 waited_code
refused_wait_succeeds = wait_for_exit-succeeds_example.1 (404, none, refl, refl)

start_task-IsSettled_example :
    let x =
      start_task forgetful (λ i. "0") spec_t1 "0123456789abcdef" (record { running_ids = [] }) 0 in
    IsSettled forgetful spec_t1 "0123456789abcdef"
      (create_and_start forgetful (λ i. "0") spec_t1 "0123456789abcdef" 0).0
      x.0
      x.1
    × (is_running_task "t1" (record { running_ids = [] }) ≡ true
        → (x.0 ≡ already_running) × (x.1 ≡ record { running_ids = [] }) × (x.2 ≡ 0))
start_task-IsSettled_example =
    start_task-IsSettled forgetful (λ i. "0") spec_t1 "0123456789abcdef"
      (record { running_ids = [] }) 0
