-- ===== src/Http/Stream.antt =====
-- internal/httpapi/api.go: the stream of events that polls the database, without Redis.
pub mod Written
use arbiter_distributed_sche.Base.{List, Option, [], none, some, ℕ, ◌++◌, ◌∷◌}
use arbiter_distributed_sche.Base.Int.{pos}
use arbiter_distributed_sche.Store.{Db, Event}
use arbiter_distributed_sche.Store.Events.{list_events_after, list_recent_events}

-- A stream of `pollEventsSSE`: `afterID`, and the events that have been written.
pub record EventStream : Type 0 where
  pub after_id : ℕ
  pub written : List Event

unfoldable pub write_each : List Event → EventStream → EventStream
write_each [] s = s
write_each (ev ∷ evs) s =
    write_each evs (record { after_id = ev.id; written = s.written ++ ev ∷ [] })

-- A tick of `pollEventsSSE`, where the read of the tables succeeds.
unfoldable pub poll_events : Db → EventStream → EventStream
unfolding write_each list_events_after
poll_events db s = write_each (list_events_after s.after_id (pos 100) db) s

-- The id of the last event, or zero.
unfoldable pub last_id : List Event → ℕ
last_id [] = 0
last_id (ev ∷ []) = ev.id
last_id (ev ∷ ev' ∷ evs) = last_id (ev' ∷ evs)

-- `afterID` at the beginning: no tables stand for a read that fails.
unfoldable pub first_after_id : Option Db → ℕ
unfolding last_id list_recent_events
first_after_id none = 0
first_after_id (some db) = last_id (list_recent_events (pos 1) db)

-- The snapshot of `handleEventsStream`.
unfoldable pub snapshot_events : Option Db → List Event
unfolding list_recent_events
snapshot_events none = []
snapshot_events (some db) = list_recent_events (pos 30) db

-- The beginning of a stream without Redis. The two reads see the tables of their own moments.
unfoldable pub start_stream : Option Db → Option Db → EventStream
unfolding first_after_id snapshot_events
start_stream db later = record { after_id = first_after_id later; written = snapshot_events db }
