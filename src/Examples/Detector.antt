-- ===== src/Examples/Detector.antt =====
-- Ticks of the failure detector.
use arbiter_distributed_sche.Base.{arith, find, none, refl, select, some, true, ◌*◌, ◌+◌, ◌≡◌}
use arbiter_distributed_sche.Base.Int.{pos}
use arbiter_distributed_sche.Cache.{Cache, get_last_seen}
use arbiter_distributed_sche.Detector.{Config, age_of, detector_tick}
use arbiter_distributed_sche.Detector.Fresh.{heard_node_stays}
use arbiter_distributed_sche.Detector.Liveness.{silent_node_dies}
use arbiter_distributed_sche.Detector.Visits.{IsGone}
use arbiter_distributed_sche.Examples.Data.{cluster, node_1, task_live}
use arbiter_distributed_sche.Store.Allocation.{is_on}
use arbiter_distributed_sche.Store.Nodes.{is_active, is_node}
use arbiter_distributed_sche.Store.Report.{millisecond}

abbrev thresholds : Config
thresholds = record { poll_interval = pos 1; not_ready_after = pos 2; dead_after = pos 3 }

abbrev nothing_cached : Cache
nothing_cached id = none

-- Last heard at the time 9, in milliseconds.
abbrev heard_cached : Cache
heard_cached id = some (record { milliseconds = 9; expires_at = 100 * millisecond })

silent_node_dies_example :
    IsGone "n1"
      (detector_tick thresholds true none (λ id. true) nothing_cached 9 (cluster task_live)).0
unfolding is_active age_of get_last_seen
silent_node_dies_example =
    silent_node_dies thresholds true (λ id. true) nothing_cached 9 none "n1" node_1
      (cluster task_live) (refl, tt) refl refl refl (omega arith) (refl, refl)

heard_node_stays_example :
    let db' =
      (detector_tick thresholds true none
        (λ id. true)
        heard_cached
        (9 * millisecond + 1)
        (cluster task_live)).0 in
    (find (is_node "n1") db'.nodes ≡ find (is_node "n1") (cluster task_live).nodes)
    × (select (is_on "n1") db'.tasks ≡ select (is_on "n1") (cluster task_live).tasks)
unfolding age_of get_last_seen
heard_node_stays_example =
    heard_node_stays thresholds true (λ id. true) heard_cached (9 * millisecond + 1) none "n1"
      (cluster task_live) (refl, tt) (λ _. (refl, refl))
