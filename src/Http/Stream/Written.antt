-- ===== src/Http/Stream/Written.antt =====
-- internal/httpapi/api.go: what a stream without Redis writes.
use mathlib.Core.List.{append-nil, append_assoc}
use arbiter_distributed_sche.Base.{
  All, All-append, All-map, List, Option, [], ap, arith, subst, sym, take, ◌++◌, ◌<◌, ◌∙◌, ◌∷◌, ◌≡◌,
  ◌≤◌,
}
use arbiter_distributed_sche.Base.Ascending.{IsAscending, append-IsAscending}
use arbiter_distributed_sche.Fanout.Cursor.{
  IsLogged, beyond, list_events_after_lem, listed-IsAscending, listed-bound,
}
use arbiter_distributed_sche.Http.Stream.{EventStream, poll_events, start_stream, write_each}
use arbiter_distributed_sche.Store.{Db, Event}

-- The ticks of a stream, each with the tables that it reads.
unfoldable pub poll_each : List Db → EventStream → EventStream
unfolding poll_events
poll_each [] s = s
poll_each (db ∷ dbs) s = poll_each dbs (poll_events db s)

-- What a stream has written since an earlier state of it.
pub record Written (s t : EventStream) : Type 0 where
  pub added : List Event
  pub appended : t.written ≡ s.written ++ added
  pub ascending : IsAscending (λ e. e.id) added
  pub beyond_start : All (λ e. s.after_id < e.id) added
  pub behind_cursor : All (λ e. e.id ≤ t.after_id) added
  pub from_below : s.after_id ≤ t.after_id

Written-refl : (s : EventStream) → Written s s
Written-refl s = record {
  added = [];
  appended = sym (append-nil s.written);
  ascending = tt;
  beyond_start = tt;
  behind_cursor = tt;
  from_below = omega arith;
}

one-Written :
    {s t : EventStream} (ev : Event)
    → t.after_id < ev.id
    → Written s t
    → Written s (record { after_id = ev.id; written = t.written ++ ev ∷ [] })
one-Written {s} {t} ev lt w = record {
  added = w.added ++ ev ∷ [];
  appended = ap (λ x. x ++ ev ∷ []) w.appended ∙ append_assoc s.written w.added (ev ∷ []);
  ascending =
      append-IsAscending (λ e. e.id) w.added (ev ∷ []) w.ascending (tt, tt)
        (All-map w.added (λ e h. (omega (arith, h, lt), tt)) w.behind_cursor);
  beyond_start =
      All-append (λ e. s.after_id < e.id) w.added (ev ∷ []) w.beyond_start
        (omega (arith, lt, w.from_below), tt);
  behind_cursor =
      All-append (λ e. e.id ≤ ev.id) w.added (ev ∷ [])
        (All-map w.added (λ e h. omega (arith, h, lt)) w.behind_cursor) (omega arith, tt);
  from_below = omega (arith, lt, w.from_below);
}

write_each-Written :
    {s : EventStream} (evs : List Event) (t : EventStream)
    → IsAscending (λ e. e.id) evs
    → All (λ e. t.after_id < e.id) evs
    → Written s t
    → Written s (write_each evs t)
unfolding write_each
write_each-Written [] t a b w = w
write_each-Written (ev ∷ evs) t a b w =
    write_each-Written evs (record { after_id = ev.id; written = t.written ++ ev ∷ [] }) a.1 a.0
      (one-Written ev b.0 w)

poll_events-Written :
    {s : EventStream} (db : Db) (t : EventStream)
    → IsLogged db
    → Written s t
    → Written s (poll_events db t)
unfolding poll_events
poll_events-Written {s} db t h w =
    subst (λ evs. Written s (write_each evs t)) (sym (list_events_after_lem t.after_id 99 db h))
      (write_each-Written (take 100 (beyond t.after_id db)) t
        (listed-IsAscending t.after_id 100 db h) (listed-bound t.after_id 100 db) w)

poll_each-Written :
    {s : EventStream} (dbs : List Db) (t : EventStream)
    → All IsLogged dbs
    → Written s t
    → Written s (poll_each dbs t)
unfolding poll_each
poll_each-Written [] t h w = w
poll_each-Written (db ∷ dbs) t h w =
    poll_each-Written dbs (poll_events db t) h.1 (poll_events-Written db t h.0 w)

-- Behind its snapshot, whatever tables its two first reads see, a stream without Redis appends
-- events with strictly ascending ids beyond the id from which it began to poll, if the audit trails
-- that its ticks read have ascending ids. So no tick writes what a tick has written.
pub stream-Written :
    (snapshot later : Option Db) (dbs : List Db)
    → All IsLogged dbs
    → Written (start_stream snapshot later) (poll_each dbs (start_stream snapshot later))
stream-Written snapshot later dbs h =
    poll_each-Written dbs (start_stream snapshot later) h
      (Written-refl (start_stream snapshot later))
