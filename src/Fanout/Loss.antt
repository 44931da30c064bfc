-- ===== src/Fanout/Loss.antt =====
-- internal/eventfanout/fanout.go: what becomes of an event that Redis refuses.
use arbiter_distributed_sche.Base.{
  All, All-append, All-map, Bool, List, [], arith, false, refl, some, subst, sym, true, ℕ, ◌<◌, ◌∙◌,
  ◌∷◌, ◌≡◌, ◌≢◌, ◌≤◌,
}
use arbiter_distributed_sche.Base.Ascending.{IsAscending}
use arbiter_distributed_sche.Base.Int.{pos}
use arbiter_distributed_sche.Fanout.{
  ClusterEvent, Progress, Round, advance, cluster_event, fan_out, is_barred, publish_each,
  publish_listed, publish_one, run,
}
use arbiter_distributed_sche.Fanout.Cursor.{
  IsLogged, list_events_after_lem, listed-IsAscending, listed-bound,
}
use arbiter_distributed_sche.Fanout.Order.{
  IsOrdered, IsReadable, advance-Turned, publish_each-keeps, run-keeps,
}
use arbiter_distributed_sche.Store.{Db, Event}
use arbiter_distributed_sche.Store.Events.{list_events_after}

-- The cursor is at or past `k`, and nothing with that id has been sent.
record HasSkipped (k : ℕ) (p : Progress) : Type 0 where
  passed : k ≤ p.after_id
  unsent : All (λ e. e.id ≢ k) p.sent

advance-HasSkipped :
    (k : ℕ) (ev : Event) (p : Progress)
    → p.after_id < ev.id
    → HasSkipped k p
    → HasSkipped k (advance ev p)
unfolding advance cluster_event
advance-HasSkipped k ev p lt s = record {
  passed = omega (arith, lt, s.passed);
  unsent =
      All-append (λ e. e.id ≢ k) p.sent (cluster_event ev ∷ []) s.unsent
        ((λ same. omega (arith, same, lt, s.passed)), tt);
}

-- The cursor moves past an event that was refused as soon as the next one is taken.
publish_two :
    (publish : ClusterEvent → Bool) (refused later : Event) (back : List Event) (p : Progress)
    → publish (cluster_event refused) ≡ false
    → publish (cluster_event later) ≡ true
    → publish_each publish (refused ∷ later ∷ back) p ≡ publish_each publish back (advance later p)
unfolding publish_each publish_one
publish_two publish refused later back p f s = rw f (rw s refl)

first_two-HasSkipped :
    (refused later : Event) (p : Progress)
    → p.after_id < refused.id
    → refused.id < later.id
    → IsOrdered p
    → HasSkipped refused.id (advance later p)
unfolding advance cluster_event
first_two-HasSkipped refused later p lt lt' o = record {
  passed = omega (arith, lt');
  unsent =
      All-append (λ e. e.id ≢ refused.id) p.sent (cluster_event later ∷ [])
        (All-map p.sent (λ e h same. omega (arith, same, h, lt)) o.bounded)
        ((λ same. omega (arith, same, lt')), tt);
}

loop-HasSkipped :
    (publish : ClusterEvent → Bool) (refused later : Event) (back : List Event) (p : Progress)
    → IsAscending (λ e. e.id) (refused ∷ later ∷ back)
    → p.after_id < refused.id
    → publish (cluster_event refused) ≡ false
    → publish (cluster_event later) ≡ true
    → IsOrdered p
    → IsOrdered (publish_each publish (refused ∷ later ∷ back) p)
      × HasSkipped refused.id (publish_each publish (refused ∷ later ∷ back) p)
unfolding advance
loop-HasSkipped publish refused later back p a lt f s o =
    rw (publish_two publish refused later back p f s) (
      publish_each-keeps (HasSkipped refused.id) (advance-HasSkipped refused.id) publish back
        (advance later p) a.1.1 a.1.0 (advance-Turned later p (omega (arith, lt, a.0.0)) o).ordered
        (first_two-HasSkipped refused later p lt a.0.0 o))

-- What a tick does with what it lists.
fan_out_listed :
    (r : Round) (p : Progress) (db : Db) (evs : List Event)
    → is_barred r.is_leader ≡ false
    → r.listing ≡ some db
    → list_events_after p.after_id (pos 200) db ≡ evs
    → fan_out r p ≡ publish_each r.publish evs p
unfolding fan_out publish_listed
fan_out_listed r p db evs g l e = rw g (rw l (rw e refl))

listed-IsBeyond :
    (k : ℕ) (db : Db) (evs : List Event)
    → IsLogged db
    → list_events_after k (pos 200) db ≡ evs
    → IsAscending (λ e. e.id) evs × All (λ e. k < e.id) evs
listed-IsBeyond k db evs l e =
    subst (λ xs. IsAscending (λ x. x.id) xs × All (λ x. k < x.id) xs)
      (sym (list_events_after_lem k 199 db l) ∙ e)
      (listed-IsAscending k 200 db l, listed-bound k 200 db)

-- If Redis refuses the first event that a tick lists and takes the second, the first never reaches
-- the channel, however many ticks follow and whatever Redis takes by then. Before the tick what has
-- been sent ascends up to the cursor, the tick passes the gate, and the audit trails that are listed
-- have ascending ids.
pub failed_publish_is_lost :
    (r : Round) (rs : List Round) (p : Progress) (db : Db) (refused later : Event)
    (back : List Event)
    → is_barred r.is_leader ≡ false
    → r.listing ≡ some db
    → list_events_after p.after_id (pos 200) db ≡ refused ∷ later ∷ back
    → r.publish (cluster_event refused) ≡ false
    → r.publish (cluster_event later) ≡ true
    → IsOrdered p
    → All IsReadable (r ∷ rs)
    → All (λ e. e.id ≢ refused.id) (run (r ∷ rs) p).sent
unfolding run
failed_publish_is_lost r rs p db refused later back g l e f s o h =
    let (a, b) = listed-IsBeyond p.after_id db (refused ∷ later ∷ back) (h.0 db l) e in
    let tick = loop-HasSkipped r.publish refused later back p a b.0 f s o in
    let (o', skip) =
      subst (λ q. IsOrdered q × HasSkipped refused.id q)
        (sym (fan_out_listed r p db (refused ∷ later ∷ back) g l e)) tick in
    (run-keeps (HasSkipped refused.id) (advance-HasSkipped refused.id) rs (fan_out r p) h.1 o'
      skip).1.unsent
