-- ===== src/Examples/Reports.antt =====
-- Status reports about the task of the example.
use arbiter_distributed_sche.Base.{[], arith, eq_iff, refl, some, ◌*◌, ◌<◌, ◌∷◌, ◌≡◌, ◌≤◌}
use arbiter_distributed_sche.Base.Int.{pos}
use arbiter_distributed_sche.Examples.Data.{
  cluster, cluster-IsValid, event_of, status_report, task_live, task_pending,
}
use arbiter_distributed_sche.Store.{
  Db, Task, committed, err, failed, node_entity, node_recovered, number, ok, stale_task_report,
  task_entity, task_retry_scheduled, text,
}
use arbiter_distributed_sche.Store.Counted.{retry_stays_counted}
use arbiter_distributed_sche.Store.Events.{insert_event, insert_event_alone}
use arbiter_distributed_sche.Store.History.{Reach, here, logs, next}
use arbiter_distributed_sche.Store.Report.{
  check_task_report_fence, is_live, millisecond, retry_backoff, update_task_status,
  update_task_status_run,
}
use arbiter_distributed_sche.Store.Report.Backoff.{retry_backoff-doubles}
use arbiter_distributed_sche.Store.Report.Outcome.{Accepted}
use arbiter_distributed_sche.Store.Report.Progress.{is_report_status, live_report_commits}

live_report_commits_example :
    (t' : Task) × ((db' : Db) × (update_task_status 10 (status_report failed) (cluster task_live)
        ≡ ok (t', db'))
      × Accepted 10 (status_report failed) (cluster task_live) t' db')
unfolding is_live check_task_report_fence is_report_status
live_report_commits_example =
    live_report_commits 10 (status_report failed) task_live (cluster task_live) cluster-IsValid refl
      refl refl refl

-- The row after a failure that is retried.
abbrev task_retried : Task
task_retried = record task_pending {
  retries_used = 1;
  exit_code = some (pos 1);
  last_error = some "exit code 1";
  next_retry_at = some 500_000_010;
}

abbrev cluster_retried : Db
cluster_retried = record (cluster task_retried) {
  events =
      event_of 1 10 task_entity "t1" task_retry_scheduled
        (text "task failed; retry " ∷ number 1 ∷ text " scheduled after " ∷ number 500_000_000 ∷ [])
      ∷ [];
  next_event_id = 2;
}

failure_runs :
    update_task_status 10 (status_report failed) (cluster task_live)
    ≡ ok (task_retried, cluster_retried)
unfolding update_task_status_run
failure_runs = refl

-- The node is noted as recovered meanwhile.
abbrev cluster_noted : Db
cluster_noted =
    committed cluster_retried
      (insert_event_alone 11 node_entity "n1" node_recovered [] cluster_retried)

note_runs :
    insert_event_alone 11 node_entity "n1" node_recovered [] cluster_retried
    ≡ ok (tt, cluster_noted)
unfolding insert_event_alone insert_event
note_runs = refl

abbrev noted : Reach cluster_retried cluster_noted
noted = next here (logs 11 node_entity "n1" node_recovered [] note_runs)

retry_stays_counted_example :
    update_task_status 12 (status_report failed) cluster_noted ≡ err stale_task_report
retry_stays_counted_example =
    retry_stays_counted 10 12 (status_report failed) task_retried noted cluster-IsValid
      (ground (arith, eq_iff "n1" "")) failure_runs refl (tt, tt)

retry_backoff-doubles_example :
    (retry_backoff 1 ≡ 500 * millisecond)
    × (1 ≤ 3 → 3 < 6 → retry_backoff 4 ≡ 2 * retry_backoff 3)
    × (6 ≤ 3 → retry_backoff 3 ≡ 16000 * millisecond)
retry_backoff-doubles_example = retry_backoff-doubles 3
