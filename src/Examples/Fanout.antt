-- ===== src/Examples/Fanout.antt =====
-- An audit trail of three events on its way to the channel.
use arbiter_distributed_sche.Base.{
  All, [], arith, none, not, refl, some, some-injective, subst, true, ℕ, ◌*◌, ◌==◌, ◌∷◌, ◌≡◌, ◌≢◌,
}
use arbiter_distributed_sche.Examples.Data.{cluster, event_of, task_live}
use arbiter_distributed_sche.Fanout.{Progress, Round, cluster_event, is_barred, run}
use arbiter_distributed_sche.Fanout.Cursor.{IsLogged}
use arbiter_distributed_sche.Fanout.Delivery.{IsClear, caught_up, run_clear}
use arbiter_distributed_sche.Fanout.Loss.{failed_publish_is_lost}
use arbiter_distributed_sche.Fanout.Order.{IsOrdered, run-IsOrdered}
use arbiter_distributed_sche.Store.{Db, Event, task_entity, task_requeued}
use arbiter_distributed_sche.Store.Events.{list_events_after}

abbrev noted : ℕ → Event
noted id = event_of id id task_entity "t1" task_requeued []

abbrev trail : Db
trail = record (cluster task_live) { events = noted 1 ∷ noted 2 ∷ noted 3 ∷ []; next_event_id = 4 }

trail-IsLogged : IsLogged trail
trail-IsLogged = (
  ((omega arith, (omega arith, tt)), ((omega arith, tt), (tt, tt))),
  (omega arith, (omega arith, (omega arith, tt))),
)

-- Redis refuses the second event.
abbrev bad_round : Round
bad_round = record { is_leader = some true; listing = some trail; publish = λ e. not (e.id == 2) }

abbrev good_round : Round
good_round = record { is_leader = none; listing = some trail; publish = λ e. true }

readable : (db : Db) → some trail ≡ some db → IsLogged db
readable db e = subst IsLogged (some-injective e) trail-IsLogged

abbrev at_start : Progress
at_start = record { after_id = 0; sent = [] }

abbrev past_first : Progress
past_first = record { after_id = 1; sent = [] }

run-IsOrdered_example : IsOrdered (run (bad_round ∷ good_round ∷ []) at_start)
run-IsOrdered_example =
    run-IsOrdered (bad_round ∷ good_round ∷ []) at_start (readable, (readable, tt))
      (record { ascending = tt; bounded = tt })

good_round-IsClear : IsClear trail good_round
unfolding is_barred
good_round-IsClear = record { leading = refl; listed = refl; takes = λ e. refl }

run_clear_example :
    run (good_round ∷ good_round ∷ []) past_first ≡ caught_up (200 * 2) trail past_first
unfolding is_barred
run_clear_example =
    run_clear trail (good_round ∷ good_round ∷ []) past_first trail-IsLogged
      (good_round-IsClear, (good_round-IsClear, tt))

failed_publish_is_lost_example :
    All (λ e. e.id ≢ 2) (run (bad_round ∷ good_round ∷ good_round ∷ []) past_first).sent
unfolding is_barred list_events_after cluster_event
failed_publish_is_lost_example =
    failed_publish_is_lost bad_round (good_round ∷ good_round ∷ []) past_first trail (noted 2)
      (noted 3) [] refl refl refl refl refl (record { ascending = tt; bounded = tt })
      (readable, (readable, (readable, tt)))
