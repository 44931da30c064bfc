-- ===== src/Fanout/Order.antt =====
-- internal/eventfanout/fanout.go: the order in which events reach the channel.
use arbiter_distributed_sche.Base.{
  All, All-append, All-map, Bool, Bool-cases, List, Option, [], arith, inl, inr, none, refl, some,
  take, ◌<◌, ◌∷◌, ◌≡◌, ◌≤◌,
}
use arbiter_distributed_sche.Base.Ascending.{IsAscending, append-IsAscending}
use arbiter_distributed_sche.Fanout.{
  ClusterEvent, Progress, Round, advance, cluster_event, fan_out, is_barred, publish_each,
  publish_listed, publish_one, run,
}
use arbiter_distributed_sche.Fanout.Cursor.{
  IsLogged, beyond, list_events_after_lem, listed-IsAscending, listed-bound,
}
use arbiter_distributed_sche.Store.{Db, Event}

-- What has been sent ascends and lies at or below the cursor.
pub record IsOrdered (p : Progress) : Type 0 where
  pub ascending : IsAscending (λ e. e.id) p.sent
  pub bounded : All (λ e. e.id ≤ p.after_id) p.sent

-- What a turn of the loop leaves for the turns after it.
pub record Turned (ev : Event) (p q : Progress) : Type 0 where
  pub ordered : IsOrdered q
  pub from_below : p.after_id ≤ q.after_id
  pub to_event : q.after_id ≤ ev.id

pub advance-Turned :
    (ev : Event) (p : Progress) → p.after_id < ev.id → IsOrdered p → Turned ev p (advance ev p)
unfolding advance cluster_event
advance-Turned ev p lt o = record {
  ordered = record {
    ascending =
        append-IsAscending (λ e. e.id) p.sent (cluster_event ev ∷ []) o.ascending (tt, tt)
          (All-map p.sent (λ e h. (omega (arith, h, lt), tt)) o.bounded);
    bounded =
        All-append (λ e. e.id ≤ ev.id) p.sent (cluster_event ev ∷ [])
          (All-map p.sent (λ e h. omega (arith, h, lt)) o.bounded) (omega arith, tt);
  };
  from_below = omega (arith, lt);
  to_event = omega arith;
}

pub publish_one-Turned :
    (publish : ClusterEvent → Bool) (ev : Event) (p : Progress)
    → p.after_id < ev.id
    → IsOrdered p
    → Turned ev p (publish_one publish ev p)
unfolding publish_one
publish_one-Turned publish ev p lt o = elim (Bool-cases (publish (cluster_event ev))) [
  | inl sends ↦ rw sends (advance-Turned ev p lt o)
  | inr fails ↦
      rw fails (record { ordered = o; from_below = omega arith; to_event = omega (arith, lt) })
]

-- A round whose listing, if there is one, is of a trail with ascending ids.
abbrev pub IsReadable : Round → Type 0
IsReadable r = (db : Db) → r.listing ≡ some db → IsLogged db

-- What an event beyond the cursor preserves, the ticks preserve.
module _ (I : Progress → Type 0)
    (step : (ev : Event) (p : Progress) → p.after_id < ev.id → I p → I (advance ev p)) where
  publish_one-keeps :
      (publish : ClusterEvent → Bool) (ev : Event) (p : Progress)
      → p.after_id < ev.id
      → I p
      → I (publish_one publish ev p)
  unfolding publish_one
  publish_one-keeps publish ev p lt i = elim (Bool-cases (publish (cluster_event ev))) [
    | inl sends ↦ rw sends (step ev p lt i)
    | inr fault ↦ rw fault i
  ]

  pub publish_each-keeps :
      (publish : ClusterEvent → Bool) (evs : List Event) (p : Progress)
      → IsAscending (λ e. e.id) evs
      → All (λ e. p.after_id < e.id) evs
      → IsOrdered p
      → I p
      → IsOrdered (publish_each publish evs p) × I (publish_each publish evs p)
  unfolding publish_each
  publish_each-keeps publish [] p a b o i = (o, i)
  publish_each-keeps publish (ev ∷ evs) p a b o i =
      let turned = publish_one-Turned publish ev p b.0 o in
      publish_each-keeps publish evs (publish_one publish ev p) a.1
        (All-map evs (λ e h. omega (arith, h, turned.to_event)) a.0) turned.ordered
        (publish_one-keeps publish ev p b.0 i)

  publish_listed-keeps :
      (publish : ClusterEvent → Bool) (listing : Option Db) (p : Progress)
      → ((db : Db) → listing ≡ some db → IsLogged db)
      → IsOrdered p
      → I p
      → IsOrdered (publish_listed publish listing p) × I (publish_listed publish listing p)
  unfolding publish_listed
  publish_listed-keeps publish none p h o i = (o, i)
  publish_listed-keeps publish (some db) p h o i =
      rw (list_events_after_lem p.after_id 199 db (h db refl)) (
        publish_each-keeps publish (take 200 (beyond p.after_id db)) p
          (listed-IsAscending p.after_id 200 db (h db refl)) (listed-bound p.after_id 200 db) o i)

  fan_out-keeps :
      (r : Round) (p : Progress)
      → IsReadable r
      → IsOrdered p
      → I p
      → IsOrdered (fan_out r p) × I (fan_out r p)
  unfolding fan_out
  fan_out-keeps r p h o i = elim (Bool-cases (is_barred r.is_leader)) [
    | inl barred ↦ rw barred (o, i)
    | inr passes ↦ rw passes (publish_listed-keeps r.publish r.listing p h o i)
  ]

  pub run-keeps :
      (rs : List Round) (p : Progress)
      → All IsReadable rs
      → IsOrdered p
      → I p
      → IsOrdered (run rs p) × I (run rs p)
  unfolding run
  run-keeps [] p h o i = (o, i)
  run-keeps (r ∷ rs) p h o i =
      let kept_by_tick = fan_out-keeps r p h.0 o i in
      run-keeps rs (fan_out r p) h.1 kept_by_tick.0 kept_by_tick.1

-- Whatever the gate, the database and Redis answer, the ticks of `Run` keep the ids on the channel
-- strictly ascending and at or below the cursor, so no event is sent twice, if the audit trails that
-- they list have ascending ids.
pub run-IsOrdered :
    (rs : List Round) (p : Progress) → All IsReadable rs → IsOrdered p → IsOrdered (run rs p)
run-IsOrdered rs p h o = (run-keeps (λ q. Unit) (λ ev q lt i. tt) rs p h o tt).0
