-- ===== src/Examples/Scheduler.antt =====
-- Placements, with natural numbers in the place of float64.
use arbiter_distributed_sche.Base.{
  String, [], arith, false, ltb, none, refl, some, ℕ, ◌+◌, ◌-◌, ◌/◌, ◌==◌, ◌∷◌, ◌≡◌,
}
use arbiter_distributed_sche.Base.Int.{pos, pos_part, sub64, wrap64, ◌+ℤ◌, ◌-ℤ◌, ◌≤ℤ◌}
use arbiter_distributed_sche.Examples.Data.{cluster, job_1, node_1, task_pending}
use arbiter_distributed_sche.Scheduler.Capacity.{place_within_capacity}
use arbiter_distributed_sche.Scheduler.Engine.{tick}
use arbiter_distributed_sche.Scheduler.Placement.{IsBest, IsComparison, place-IsBest}
use arbiter_distributed_sche.Scheduler.Plugins.{
  Float64, bin_pack_scorer, consider, default_filters, free_cpu_millicores, free_mem_mb, has_labels,
  has_resources, is_better, is_eligible, is_ready, place, place_from,
}
use arbiter_distributed_sche.Scheduler.Soundness.{tick-IsSound}
use arbiter_distributed_sche.Store.{Ensures, ready, same_node_status}
use arbiter_distributed_sche.Store.Allocation.{NodeAllocation}
use arbiter_distributed_sche.Store.Jobs.{job_checks}
use arbiter_distributed_sche.Store.Tasks.{TaskWithJob}
use arbiter_distributed_sche.Store.Valid.{IsSound, IsValid}

abbrev whole : Float64
whole = record {
  Carrier = ℕ;
  of_int64 = λ z. pos_part z;
  divide = λ a b. a / b;
  add = λ a b. a + b;
  subtract = λ a b. a - b;
  lt = λ a b. ltb a b;
  eq = λ a b. a == b;
}

whole-IsComparison : IsComparison whole
whole-IsComparison = record {
  lt_irrefl = λ a. ground arith;
  lt_trans = λ a b c h k. ground arith;
  eq_lt = λ a b c h k. ground arith;
}

abbrev nothing_allocated : String → NodeAllocation
nothing_allocated id = record { cpu_millicores = pos 0; memory_mb = pos 0 }

abbrev claimed : TaskWithJob
claimed = record {
  task = task_pending;
  image = job_1.image;
  command = job_1.command;
  cpu_request_millicores = job_1.cpu_request_millicores;
  mem_request_mb = job_1.mem_request_mb;
  retry_limit = job_1.retry_limit;
  scheduling_policy = job_1.scheduling_policy;
  constraints = job_1.constraints;
}

place-IsBest_example :
    IsBest whole whole-IsComparison nothing_allocated claimed default_filters
      (bin_pack_scorer whole)
      (node_1 ∷ [])
      (place whole
        (node_1 ∷ [])
        nothing_allocated
        claimed
        (some default_filters)
        (some (bin_pack_scorer whole)))
place-IsBest_example =
    place-IsBest whole whole-IsComparison nothing_allocated claimed default_filters
      (bin_pack_scorer whole) (node_1 ∷ [])

pending-IsValid : IsValid (cluster task_pending)
unfolding job_checks
pending-IsValid = record {
  nodes_unique = (refl, tt);
  jobs_unique = (refl, tt);
  jobs_checked = (refl, tt);
  tasks_unique = (refl, tt);
  rows = (record { assignment = (refl, refl); job = (job_1, refl, omega arith) }, tt);
}

tick-IsSound_example :
    Ensures
      (λ placed db'. IsSound (cluster task_pending) db')
      (tick whole 10 none
        (λ id. false)
        (cluster task_pending)
        (cluster task_pending)
        (cluster task_pending))
tick-IsSound_example =
    tick-IsSound whole 10 none (λ id. false) (cluster task_pending) (cluster task_pending)
      (cluster task_pending) ((node_1, refl, omega arith), tt) pending-IsValid

place_within_capacity_example :
    (node_1.status ≡ ready) × (pos 0 +ℤ pos 600 ≤ℤ pos 1000) × (pos 0 +ℤ pos 128 ≤ℤ pos 512)
unfolding place place_from consider is_eligible is_better is_ready has_resources has_labels
    free_cpu_millicores free_mem_mb sub64 wrap64 ◌-ℤ◌ same_node_status
place_within_capacity_example =
    place_within_capacity whole nothing_allocated claimed (bin_pack_scorer whole) (node_1 ∷ [])
      node_1 refl (omega arith, omega arith) (omega arith, omega arith)
