-- ===== src/Election/Epochs.antt =====
-- internal/election/election.go: several replicas that tick over one lease, and their epochs.
use arbiter_distributed_sche.Base.{
  Bool, Bool-cases, String, arith, if◌then◌else◌, inl, inr, refl, some, some-injective, str_eq,
  str_eq→eq, subst, sym, true, ℕ, ◌∙◌, ◌≡◌,
}
use arbiter_distributed_sche.Base.Int.{pos, ◌<ℤ◌, ◌≤ℤ◌}
use arbiter_distributed_sche.Election.{Elector, election_tick}
use arbiter_distributed_sche.Election.Attempts.{
  Turn, kept, largest_epoch, lost, renews, takes, tick-Turn,
}
use arbiter_distributed_sche.Store.{Db, LeaderLease}

-- The replicas, by identity.
abbrev pub Group : Type 0
Group = String → Elector

-- A tick of the replica `i` at `now`, in the group.
unfoldable pub tick_one : String → Bool → ℕ → Group → Db → Group
unfolding election_tick
tick_one i reachable now g db j =
    if str_eq i j then (election_tick reachable now (g i) db).0 else g j

-- Ticks in any order and at any times, and other transactions, which leave the lease alone. The
-- epoch is below the largest int64 before a tick.
pub data Ticks (g : Group) (db : Db) : Group → Db → Type 0 where
  start : Ticks g db g db
  ticked :
      {g' : Group} {db' : Db} (i : String) (reachable : Bool) (now : ℕ) (l : LeaderLease)
      → Ticks g db g' db'
      → db'.lease ≡ some l
      → l.epoch <ℤ largest_epoch
      → Ticks g db (tick_one i reachable now g' db') (election_tick reachable now (g' i) db').1
  elsewhere :
      {g' : Group} {db' db'' : Db} → Ticks g db g' db' → db''.lease ≡ db'.lease → Ticks g db g' db''

-- A replica `k` that leads has seen no epoch beyond the lease's, and holds the lease if it has seen
-- the lease's own.
abbrev Knows : LeaderLease → String → Elector → Type 0
Knows l k e = e.is_leader ≡ true → (e.epoch ≤ℤ l.epoch) × (e.epoch ≡ l.epoch → l.leader_id ≡ k)

pub record IsFenced (g : Group) (db : Db) : Type 0 where
  pub lease : LeaderLease
  pub stored : db.lease ≡ some lease
  pub natural : pos 0 ≤ℤ lease.epoch
  pub identity : (i : String) → (g i).cfg.identity ≡ i
  pub knows : (i : String) → Knows lease i (g i)
  pub apart :
      (i j : String)
      → (g i).is_leader ≡ true
      → (g j).is_leader ≡ true
      → (g i).epoch ≡ (g j).epoch
      → i ≡ j

-- The group in which the replica `i` has become `e`.
abbrev with_one : String → Elector → Group → Group
with_one i e g j = if str_eq i j then e else g j

all_but_one :
    (P : String → Elector → Type 0) (i : String) (e : Elector) (g : Group)
    → P i e
    → ((j : String) → P j (g j))
    → (j : String) → P j (with_one i e g j)
all_but_one P i e g h k j = elim (Bool-cases (str_eq i j)) [
  | inl same ↦ rw same (subst (λ x. P x e) (str_eq→eq i j same) h)
  | inr other_one ↦ rw other_one (k j)
]

-- Whether the replicas `j` and `k` break the rule that no two lead under one epoch.
abbrev Apart : String → Elector → String → Elector → Type 0
Apart j a k b = a.is_leader ≡ true → b.is_leader ≡ true → a.epoch ≡ b.epoch → j ≡ k

swapped-IsFenced :
    (i : String) (l' : LeaderLease) (e' : Elector) (g : Group) (db db' : Db)
    → IsFenced g db
    → e'.cfg.identity ≡ i
    → db'.lease ≡ some l'
    → pos 0 ≤ℤ l'.epoch
    → Knows l' i e'
    → ((j : String) → Knows l' j (g j))
    → ((j : String) → Apart i e' j (g j))
    → IsFenced (with_one i e' g) db'
swapped-IsFenced i l' e' g db db' f own found n new old far = record {
  lease = l';
  stored = found;
  natural = n;
  identity = all_but_one (λ j e. e.cfg.identity ≡ j) i e' g own f.identity;
  knows = all_but_one (Knows l') i e' g new old;
  apart = λ j k.
      all_but_one (λ j a. Apart j a k (with_one i e' g k)) i e' g
        (all_but_one (Apart i e') i e' g (λ _ _ _. refl) far k)
        (λ j. all_but_one (Apart j (g j)) i e' g (λ a b q. sym (far j b a (sym q))) (f.apart j) k)
        j;
}

Turn-IsFenced :
    (i : String) (e' : Elector) (g : Group) (db db' : Db) (f : IsFenced g db)
    → Turn i f.lease (g i) db e' db'
    → IsFenced (with_one i e' g) db'
Turn-IsFenced i e' g db db' f (kept same still) =
    swapped-IsFenced i f.lease e' g db db' f (rw same (f.identity i)) (rw still f.stored) f.natural
      (rw same (f.knows i)) f.knows (rw same (f.apart i))
Turn-IsFenced i e' g db db' f (lost cfg out still) =
    swapped-IsFenced i f.lease e' g db db' f (rw cfg (f.identity i)) (rw still f.stored) f.natural
      (λ on. cc) f.knows (λ j on. cc)
Turn-IsFenced i e' g db db' f (renews l' cfg new found held ours same) =
    swapped-IsFenced i l' e' g db db' f (rw cfg (f.identity i)) found (rw same f.natural)
      (λ _. (rw new (omega arith), λ _. held)) old (λ j _ b q. sym held ∙ (old j b).1 (sym q ∙ new))
  where
    old : (j : String) → Knows l' j (g j)
    old j on = (rw same (f.knows j on).0, λ q. held ∙ sym ours ∙ (f.knows j on).1 (q ∙ same))
Turn-IsFenced i e' g db db' f (takes l' cfg new found held above) =
    swapped-IsFenced i l' e' g db db' f (rw cfg (f.identity i)) found (ground (arith, f.natural))
      (λ _. (rw new (omega arith), λ _. held)) old (λ j _ b q. sym held ∙ (old j b).1 (sym q ∙ new))
  where
    old : (j : String) → Knows l' j (g j)
    old j on =
        let h = (f.knows j on).0 in
        (ground (arith, above, h), λ q. ground (arith, above, subst (λ z. z ≤ℤ f.lease.epoch) q h))

-- From a fenced group, whatever the order of the ticks, the times of the replicas' clocks and the
-- failures to reach the database, no two replicas that think they lead ever do so under one epoch,
-- and none has seen an epoch beyond the lease's. Before each tick the lease's epoch is below the
-- largest int64.
pub Ticks-IsFenced :
    {g : Group} {db : Db} {g' : Group} {db' : Db}
    → IsFenced g db
    → Ticks g db g' db'
    → IsFenced g' db'
unfolding tick_one
Ticks-IsFenced f start = f
Ticks-IsFenced f (ticked i reachable now l t found small) =
    let before = Ticks-IsFenced f t in
    Turn-IsFenced i _ _ _ _ before (
      tick-Turn reachable now i before.lease _ _ (before.identity i) before.stored before.natural
        (rw (some-injective (sym before.stored ∙ found)) small))
Ticks-IsFenced f (elsewhere t same) =
    let before = Ticks-IsFenced f t in
    record {
      lease = before.lease;
      stored = same ∙ before.stored;
      natural = before.natural;
      identity = before.identity;
      knows = before.knows;
      apart = before.apart;
    }
