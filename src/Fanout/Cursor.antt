-- ===== src/Fanout/Cursor.antt =====
-- internal/eventfanout/fanout.go: what a tick reads, in an audit trail whose ids ascend.
use arbiter_distributed_sche.Base.{
  All, All-map, List, ap, arith, ltb, select, select-All, suc, take, true, ℕ, ◌<◌, ◌≡◌,
}
use arbiter_distributed_sche.Base.Ascending.{
  All-take, IsAscending, order_by_of_ascending, select-IsAscending, take-IsAscending,
}
use arbiter_distributed_sche.Base.Int.{pos}
use arbiter_distributed_sche.Store.{Db, Event}
use arbiter_distributed_sche.Store.Events.{limit_or, list_events_after}

-- The trail as the sequence of ids leaves it.
abbrev pub IsLogged : Db → Type 0
IsLogged db = IsAscending (λ e. e.id) db.events × All (λ e. e.id < db.next_event_id) db.events

-- The rows that a cursor has before it.
abbrev pub beyond : ℕ → Db → List Event
beyond after_id db = select (λ e. ltb after_id e.id) db.events

pub beyond-IsAscending : (k : ℕ) (db : Db) → IsLogged db → IsAscending (λ e. e.id) (beyond k db)
beyond-IsAscending k db l = select-IsAscending (λ e. e.id) (λ e. ltb k e.id) db.events l.0

pub beyond-bound : (k : ℕ) (db : Db) → All (λ e. k < e.id) (beyond k db)
beyond-bound k db =
    All-map (beyond k db) (λ e h. ltb→lt k e.id h) (select-All (λ e. ltb k e.id) db.events)
  where
    ltb→lt : (m n : ℕ) → ltb m n ≡ true → m < n
    ltb→lt m n h = ground arith

-- In such a trail the listing is a prefix of those rows.
pub list_events_after_lem :
    (k n : ℕ) (db : Db)
    → IsLogged db
    → list_events_after k (pos (suc n)) db ≡ take (suc n) (beyond k db)
unfolding list_events_after limit_or
list_events_after_lem k n db l =
    ap (take (suc n)) (order_by_of_ascending (λ e. e.id) (beyond k db) (beyond-IsAscending k db l))

pub listed-IsAscending :
    (k n : ℕ) (db : Db) → IsLogged db → IsAscending (λ e. e.id) (take n (beyond k db))
listed-IsAscending k n db l =
    take-IsAscending (λ e. e.id) n (beyond k db) (beyond-IsAscending k db l)

pub listed-bound : (k n : ℕ) (db : Db) → All (λ e. k < e.id) (take n (beyond k db))
listed-bound k n db = All-take (λ e. k < e.id) n (beyond k db) (beyond-bound k db)
