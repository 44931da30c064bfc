-- ===== src/Fanout.antt =====
-- internal/eventfanout/fanout.go: the leader's copy of the audit trail to the dashboard's channel,
-- and `ClusterEvent` of internal/cache/cache.go.
pub mod Cursor
pub mod Order
pub mod Delivery
pub mod Loss
use arbiter_distributed_sche.Base.{
  Bool, List, Option, String, [], false, if◌then◌else◌, none, not, some, ℕ, ◌++◌, ◌∷◌,
}
use arbiter_distributed_sche.Base.Int.{pos}
use arbiter_distributed_sche.Store.{Db, EntityType, Event, EventType, Part}
use arbiter_distributed_sche.Store.Events.{list_events_after, list_recent_events}

-- `ClusterEvent`
pub record ClusterEvent : Type 0 where
  pub id : ℕ
  pub entity_type : EntityType
  pub entity_id : String
  pub event_type : EventType
  pub message : List Part
  pub created_at : ℕ

unfoldable pub cluster_event : Event → ClusterEvent
cluster_event ev = record {
  id = ev.id;
  entity_type = ev.entity_type;
  entity_id = ev.entity_id;
  event_type = ev.event_type;
  message = ev.message;
  created_at = ev.created_at;
}

-- The cursor `afterID`, and what has reached the channel so far.
pub record Progress : Type 0 where
  pub after_id : ℕ
  pub sent : List ClusterEvent

-- What a tick meets: the leader gate (`none` for a nil gate), the answer of the database (`none`
-- for an error), and which messages Redis takes.
pub record Round : Type 0 where
  pub is_leader : Option Bool
  pub listing : Option Db
  pub publish : ClusterEvent → Bool

-- `var afterID int64 … ListRecentEvents(ctx, 1)`
unfoldable pub last_event_id : ℕ → List Event → ℕ
last_event_id none_id [] = none_id
last_event_id none_id (ev ∷ evs) = last_event_id ev.id evs

unfoldable pub initial_cursor : Option Db → ℕ
initial_cursor none = 0
initial_cursor (some db) = last_event_id 0 (list_recent_events (pos 1) db)

unfoldable pub advance : Event → Progress → Progress
advance ev p = record { after_id = ev.id; sent = p.sent ++ cluster_event ev ∷ [] }

-- One turn of `for _, ev := range events`: the cursor moves only past an event that is published.
unfoldable pub publish_one : (ClusterEvent → Bool) → Event → Progress → Progress
publish_one publish ev p = if publish (cluster_event ev) then advance ev p else p

unfoldable pub publish_each : (ClusterEvent → Bool) → List Event → Progress → Progress
publish_each publish [] p = p
publish_each publish (ev ∷ evs) p = publish_each publish evs (publish_one publish ev p)

-- `r.leader != nil && !r.leader.IsLeader()`
unfoldable pub is_barred : Option Bool → Bool
is_barred none = false
is_barred (some b) = not b

unfoldable pub publish_listed : (ClusterEvent → Bool) → Option Db → Progress → Progress
publish_listed publish none p = p
publish_listed publish (some db) p =
    publish_each publish (list_events_after p.after_id (pos 200) db) p

-- `case <-ticker.C`
unfoldable pub fan_out : Round → Progress → Progress
fan_out r p = if is_barred r.is_leader then p else publish_listed r.publish r.listing p

-- The loop of `Run`, for the ticks that it meets.
unfoldable pub run : List Round → Progress → Progress
run [] p = p
run (r ∷ rs) p = run rs (fan_out r p)
