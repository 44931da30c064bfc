-- ===== src/Rpc/Reports.antt =====
-- internal/grpcapi/report_task_status.go.
use arbiter_distributed_sche.Base.{
  Bool, Option, String, [], false, if◌then◌else◌, none, not, some, str_eq, true, ℕ, ◌∷◌,
}
use arbiter_distributed_sche.Base.Int.{ℤ}
use arbiter_distributed_sche.Rpc.{
  Handler, LeaderGate, Status, caused, failed_precondition, led_by, not_found, plain, refuse,
  reject_if, reply, require_leader, transact,
}
use arbiter_distributed_sche.Store.{
  Error, TaskStatus, failed, running, stale_task_report, succeeded, task_not_found, text,
}
use arbiter_distributed_sche.Store.Report.{is_terminal_report, update_task_status}
use arbiter_distributed_sche.Store.Tasks.{UpdateTaskStatusParams}

pub record TaskStatusUpdate : Type 0 where
  pub task_id : String
  pub status : TaskStatus
  pub exit_code : ℤ
  pub error : String
  pub node_id : String
  pub epoch : ℕ

-- `case store.TaskStatusRunning, store.TaskStatusSucceeded, store.TaskStatusFailed`
unfoldable pub is_reportable : TaskStatus → Bool
is_reportable running = true
is_reportable succeeded = true
is_reportable failed = true
is_reportable _ = false

-- `params`: an exit code stands with a terminal status only.
unfoldable pub report_params : TaskStatusUpdate → UpdateTaskStatusParams
unfolding is_terminal_report
report_params req = record {
  task_id = req.task_id;
  status = req.status;
  exit_code = if is_terminal_report req.status then some req.exit_code else none;
  error = req.error;
  node_id = req.node_id;
  epoch = req.epoch;
}

-- The status that an error of the store becomes.
unfoldable pub report_status : Error → Status
report_status task_not_found = plain not_found (text "task not found" ∷ [])
report_status stale_task_report =
    plain failed_precondition
      (text "stale task status report (epoch/node mismatch); fencing rejected update" ∷ [])
report_status e = caused (text "update task status: " ∷ []) e

-- `applyTaskStatusUpdate`
unfoldable pub apply_task_status_update : ℕ → TaskStatusUpdate → Handler (Unit {0})
unfolding is_reportable report_params report_status update_task_status
apply_task_status_update now req = reject_if (str_eq req.task_id "") "task_id is required" (
    reject_if (not (is_reportable req.status)) "unsupported task status" (λ w.
      transact (update_task_status now (report_params req)) w
        (λ e w'. (refuse (report_status e), w')) (λ task w'. (reply tt, w'))))

-- `ReportTaskStatus`
unfoldable pub handle_report_task_status :
    Option LeaderGate → ℕ → TaskStatusUpdate → Handler (Unit {0})
unfolding require_leader apply_task_status_update
handle_report_task_status leader now req = led_by leader (apply_task_status_update now req)
