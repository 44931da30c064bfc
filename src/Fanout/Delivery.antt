-- ===== src/Fanout/Delivery.antt =====
-- internal/eventfanout/fanout.go: ticks that meet no error.
use mathlib.Core.List.{append-nil, append_assoc, map-append}
use arbiter_distributed_sche.Base.{
  All, Bool, List, [], ap, arith, false, length, map, refl, some, suc, sym, take, true, ℕ, ◌*◌,
  ◌++◌, ◌+◌, ◌∙◌, ◌∷◌, ◌≡◌,
}
use arbiter_distributed_sche.Base.Ascending.{
  drop, last_key, last_key-bound, select-last_key, select-select, take-append-drop,
}
use arbiter_distributed_sche.Fanout.{
  ClusterEvent, Progress, Round, advance, cluster_event, fan_out, is_barred, publish_each,
  publish_listed, publish_one, run,
}
use arbiter_distributed_sche.Fanout.Cursor.{
  IsLogged, beyond, beyond-IsAscending, beyond-bound, list_events_after_lem, listed-IsAscending,
  listed-bound,
}
use arbiter_distributed_sche.Store.{Db, Event}

-- The gate is open, the database answers with the trail, and Redis takes every message.
pub record IsClear (db : Db) (r : Round) : Type 0 where
  pub leading : is_barred r.is_leader ≡ false
  pub listed : r.listing ≡ some db
  pub takes : (e : ClusterEvent) → r.publish e ≡ true

-- Progress once the events have been sent.
abbrev pub sent_all : List Event → Progress → Progress
sent_all evs p = record {
  after_id = last_key (λ e. e.id) p.after_id evs;
  sent = p.sent ++ map cluster_event evs;
}

sent_all-nil : (p : Progress) → sent_all [] p ≡ p
sent_all-nil p = ap (λ l. record { after_id = p.after_id; sent = l }) (append-nil p.sent)

last_key-append :
    (k : ℕ) (xs ys : List Event)
    → last_key (λ e. e.id) (last_key (λ e. e.id) k xs) ys ≡ last_key (λ e. e.id) k (xs ++ ys)
last_key-append k [] ys = refl
last_key-append k (x ∷ xs) ys = last_key-append x.id xs ys

sent_all-sent_all :
    (xs ys : List Event) (p : Progress) → sent_all ys (sent_all xs p) ≡ sent_all (xs ++ ys) p
sent_all-sent_all xs ys p = rw (last_key-append p.after_id xs ys) (
    rw (map-append cluster_event xs ys)
      (rw (append_assoc p.sent (map cluster_event xs) (map cluster_event ys)) refl))

publish_each_all :
    (publish : ClusterEvent → Bool) (evs : List Event) (p : Progress)
    → ((e : ClusterEvent) → publish e ≡ true)
    → publish_each publish evs p ≡ sent_all evs p
unfolding publish_each publish_one advance
publish_each_all publish [] p h = sym (sent_all-nil p)
publish_each_all publish (ev ∷ evs) p h =
    rw (h (cluster_event ev))
      (publish_each_all publish evs (advance ev p) h ∙ sent_all-sent_all (ev ∷ []) evs p)

-- One read of the trail that sends the first `n` events beyond the cursor.
abbrev pub caught_up : ℕ → Db → Progress → Progress
caught_up n db p = sent_all (take n (beyond p.after_id db)) p

fan_out_clear :
    (db : Db) (r : Round) (p : Progress)
    → IsLogged db
    → IsClear db r
    → fan_out r p ≡ caught_up 200 db p
unfolding fan_out publish_listed
fan_out_clear db r p l c = rw c.leading (
    rw c.listed (
      rw (list_events_after_lem p.after_id 199 db l)
        (publish_each_all r.publish (take 200 (beyond p.after_id db)) p c.takes)))

beyond-caught_up :
    (n : ℕ) (db : Db) (p : Progress)
    → IsLogged db
    → beyond (caught_up n db p).after_id db ≡ drop n (beyond p.after_id db)
beyond-caught_up n db p l =
    let rows = beyond p.after_id db in
    let first = listed-IsAscending p.after_id n db l in
    sym (
      select-select (λ e. e.id) p.after_id (caught_up n db p).after_id db.events
        (last_key-bound (λ e. e.id) p.after_id (take n rows) first (listed-bound p.after_id n db)))
    ∙ select-last_key (λ e. e.id) n p.after_id rows (beyond-IsAscending p.after_id db l)
        (beyond-bound p.after_id db)

caught_up-caught_up :
    (m n : ℕ) (db : Db) (p : Progress)
    → IsLogged db
    → caught_up n db (caught_up m db p) ≡ caught_up (m + n) db p
caught_up-caught_up m n db p l =
    let rows = beyond p.after_id db in
    ap (λ evs. sent_all (take n evs) (caught_up m db p)) (beyond-caught_up m db p l)
    ∙ sent_all-sent_all (take m rows) (take n (drop m rows)) p
    ∙ ap (λ evs. sent_all evs p) (take-append-drop m n rows)

-- Ticks that meet no error leave what one read of the trail leaves, with a batch of 200 events to
-- a tick: the channel gets the events beyond the cursor, each once and in the order of their ids,
-- if the trail has ascending ids.
pub run_clear :
    (db : Db) (rs : List Round) (p : Progress)
    → IsLogged db
    → All (IsClear db) rs
    → run rs p ≡ caught_up (200 * length rs) db p
unfolding run
run_clear db [] p l h = sym (sent_all-nil p)
run_clear db (r ∷ rs) p l h = rw (fan_out_clear db r p l h.0) (
    run_clear db rs (caught_up 200 db p) l h.1
    ∙ caught_up-caught_up 200 (200 * length rs) db p l
    ∙ ap (λ n. caught_up n db p) (add_round (length rs)))
  where
    add_round : (n : ℕ) → 200 + 200 * n ≡ 200 * suc n
    add_round n = omega arith
