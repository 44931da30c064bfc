-- ===== src/Store/Events.antt =====
-- internal/store/events.go: the audit trail.
use arbiter_distributed_sche.Base.{
  Bool, List, String, [], false, ltb, order_by, reverse, select, str_eq, suc, take, true, zero, ℕ,
  ◌&&◌, ◌++◌, ◌+◌, ◌∷◌,
}
use arbiter_distributed_sche.Base.Int.{negsuc, pos, ℤ}
use arbiter_distributed_sche.Store.{
  Db, EntityType, Event, EventType, Part, Tx, job_entity, leader_entity, modify, node_entity,
  task_entity,
}

-- `INSERT INTO events`: the id is the sequence's next value.
unfoldable pub insert_event : ℕ → EntityType → String → EventType → List Part → Tx (Unit {0})
insert_event now entity_type entity_id event_type message = modify λ db. record db {
  events =
      db.events
      ++ record {
        id = db.next_event_id;
        entity_type = entity_type;
        entity_id = entity_id;
        event_type = event_type;
        message = message;
        created_at = now;
      }
        ∷ [];
  next_event_id = db.next_event_id + 1;
}

-- `InsertEvent`
unfoldable pub insert_event_alone : ℕ → EntityType → String → EventType → List Part → Tx (Unit {0})
unfolding insert_event
insert_event_alone now entity_type entity_id event_type message =
    insert_event now entity_type entity_id event_type message

unfoldable pub same_entity : EntityType → EntityType → Bool
same_entity node_entity node_entity = true
same_entity job_entity job_entity = true
same_entity task_entity task_entity = true
same_entity leader_entity leader_entity = true
same_entity _ _ = false

-- `ListEventsForEntity`
unfoldable pub list_events_for_entity : EntityType → String → Db → List Event
unfolding same_entity
list_events_for_entity entity_type entity_id db =
    order_by (λ e. e.created_at)
      (select (λ e. same_entity e.entity_type entity_type && str_eq e.entity_id entity_id)
        db.events)

-- `if limit <= 0 { limit = default }`
unfoldable pub limit_or : ℕ → ℤ → ℕ
limit_or default (pos zero) = default
limit_or default (pos (suc n)) = suc n
limit_or default (negsuc n) = default

-- `ListRecentEvents`: the newest `limit` ids, then oldest first.
unfoldable pub list_recent_events : ℤ → Db → List Event
unfolding limit_or
list_recent_events limit db =
    order_by (λ e. e.id) (take (limit_or 50 limit) (reverse (order_by (λ e. e.id) db.events)))

-- `ListEventsAfter`
unfoldable pub list_events_after : ℕ → ℤ → Db → List Event
unfolding limit_or
list_events_after after_id limit db =
    take (limit_or 100 limit) (order_by (λ e. e.id) (select (λ e. ltb after_id e.id) db.events))
