-- ===== src/Executor/Exits.antt =====
-- internal/executor/executor.go: what a run is reported as.
use arbiter_distributed_sche.Base.{
  Bool, Option, String, ap, false, refl, suc, true, zero, ℕ, ◌↔◌, ◌∙◌, ◌≡◌,
}
use arbiter_distributed_sche.Base.Int.{negsuc, pos, ℤ}
use arbiter_distributed_sche.Docker.{Answer, answered, no_answer}
use arbiter_distributed_sche.Executor.{
  TaskEngine, exit_of, exit_result, failed_result, to_int32, wait_for_exit, waited_code,
}
use arbiter_distributed_sche.Store.{succeeded}

exit_result-succeeds :
    (task_id run_id : String) (code : ℤ)
    → ((exit_result task_id run_id code).status ≡ succeeded) ↔ (code ≡ pos 0)
unfolding exit_result
exit_result-succeeds task_id run_id (pos zero) = (λ h. refl, λ h. refl)
exit_result-succeeds task_id run_id (pos (suc n)) = (λ h. cc, λ h. cc)
exit_result-succeeds task_id run_id (negsuc n) = (λ h. cc, λ h. cc)

abbrev code_of : Answer ℤ → ℤ
code_of no_answer = pos 0
code_of (answered status body) = to_int32 (waited_code body)

exit_of-succeeds :
    {D : Type 0} (engine : TaskEngine D) (is_stopped : Bool) (id task_id run_id : String)
    (x : Answer ℤ × D)
    → ((exit_of engine is_stopped id task_id run_id x).0.status ≡ succeeded) ↔ (
        (status : ℕ) × (body : Option ℤ) × (x.0 ≡ answered status body)
        × (to_int32 (waited_code body) ≡ pos 0))
unfolding exit_of failed_result
exit_of-succeeds engine true id task_id run_id (no_answer, d) = (λ h. cc, λ (s, b, e, z). cc)
exit_of-succeeds engine false id task_id run_id (no_answer, d) = (λ h. cc, λ (s, b, e, z). cc)
exit_of-succeeds engine is_stopped id task_id run_id (answered status body, d) = (
  λ h.
      (status, body, refl, (exit_result-succeeds task_id run_id (to_int32 (waited_code body))).0 h),
  λ (s, b, e, z).
      (exit_result-succeeds task_id run_id (to_int32 (waited_code body))).1 (ap code_of e ∙ z),
)

-- A run is reported as succeeded exactly when Docker answers the wait with an exit code that is zero
-- as a 32-bit integer, or without one: the HTTP status does not count, so a wait for a container that
-- Docker no longer knows is reported as a success.
pub wait_for_exit-succeeds :
    {D : Type 0} (engine : TaskEngine D) (is_stopped : Bool) (id task_id run_id : String) (d : D)
    → ((wait_for_exit engine is_stopped id task_id run_id d).0.status ≡ succeeded) ↔ (
        (status : ℕ) × (body : Option ℤ) × ((engine.wait id d).0 ≡ answered status body)
        × (to_int32 (waited_code body) ≡ pos 0))
unfolding wait_for_exit
wait_for_exit-succeeds engine is_stopped id task_id run_id d =
    exit_of-succeeds engine is_stopped id task_id run_id (engine.wait id d)
