-- ===== src/Examples/Http.antt =====
-- A stream that begins while events are inserted, and a job that is submitted with defaults.
use arbiter_distributed_sche.Base.{List, [], arith, none, refl, some, ℕ, ◌∷◌, ◌≡◌}
use arbiter_distributed_sche.Base.Int.{pos}
use arbiter_distributed_sche.Http.{SubmitJobBody}
use arbiter_distributed_sche.Http.Stream.{
  first_after_id, last_id, poll_events, snapshot_events, start_stream, write_each,
}
use arbiter_distributed_sche.Http.Stream.Written.{Written, poll_each, stream-Written}
use arbiter_distributed_sche.Store.{Db, Event, node_entity, node_recovered, other_policy}
use arbiter_distributed_sche.Store.Events.{limit_or, list_events_after, list_recent_events}

abbrev logged_event : ℕ → Event
logged_event id = record {
  id = id;
  entity_type = node_entity;
  entity_id = "n1";
  event_type = node_recovered;
  message = [];
  created_at = id;
}

abbrev trail : List Event → ℕ → Db
trail events next_id = record {
  nodes = [];
  jobs = [];
  tasks = [];
  events = events;
  next_event_id = next_id;
  lease = none;
}

abbrev one_event : Db
one_event = trail (logged_event 1 ∷ []) 2

abbrev two_events : Db
two_events = trail (logged_event 1 ∷ logged_event 2 ∷ []) 3

abbrev three_events : Db
three_events = trail (logged_event 1 ∷ logged_event 2 ∷ logged_event 3 ∷ []) 4

stream-Written_example :
    Written
      (start_stream (some one_event) (some two_events))
      (poll_each (three_events ∷ []) (start_stream (some one_event) (some two_events)))
stream-Written_example = stream-Written (some one_event) (some two_events) (three_events ∷ []) (
  (
    ((omega arith, (omega arith, tt)), ((omega arith, tt), (tt, tt))),
    (omega arith, (omega arith, (omega arith, tt))),
  ),
  tt,
)

-- The second event, inserted between the two reads, is not written.
gap_is_lost :
    (poll_each (three_events ∷ []) (start_stream (some one_event) (some two_events))).written
    ≡ logged_event 1 ∷ logged_event 3 ∷ []
unfolding poll_each poll_events write_each list_events_after start_stream first_after_id
    snapshot_events list_recent_events last_id limit_or
gap_is_lost = refl

abbrev small_body : SubmitJobBody
small_body = record {
  name = "j";
  image = "busybox";
  command = [];
  cpu_millicores = pos 100;
  memory_mb = pos 64;
  replicas = pos 0;
  retry_limit = pos 0;
  scheduling_policy = other_policy "";
  constraints = [];
}
