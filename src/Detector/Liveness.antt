-- ===== src/Detector/Liveness.antt =====
-- internal/failuredetector/failuredetector.go: what a tick does with a node that has been silent.
use arbiter_distributed_sche.Base.{
  Bool, Bool-cases, List, Option, String, [], arith, coalesce, eq_iff, false, find, inl, inr, refl,
  select, some, str_eq, str_eq→eq, subst, sym, true, ℕ, ◌+◌, ◌<◌, ◌^◌, ◌∙◌, ◌∷◌, ◌≡◌, ◌≢◌,
}
use arbiter_distributed_sche.Base.Int.{leb_ℤ}
use arbiter_distributed_sche.Base.Keys.{IsUnique}
use arbiter_distributed_sche.Base.Order.{exists, exists-order_by, exists-select}
use arbiter_distributed_sche.Cache.{Cache, get_last_seen}
use arbiter_distributed_sche.Detector.{
  Config, age_of, carry_out, detector_tick, evaluate, evaluate_each, reaped, verdict_of,
}
use arbiter_distributed_sche.Detector.Visits.{
  Died-IsAt_ne, Died-IsGone_ne, Died-IsGone_self, Died-IsUnique, Downgraded, Downgraded-IsAt,
  Downgraded-IsGone, IsAt, IsGone, carry_out-keeps, reaped-keeps,
}
use arbiter_distributed_sche.Store.{Db, Ensures-map, Ensures-ok, Node, Task}
use arbiter_distributed_sche.Store.Nodes.{
  MarkNodeDeadResult, is_active, is_node, list_active_nodes, mark_node_dead,
}
use arbiter_distributed_sche.Store.Nodes.Totality.{mark_node_dead_succeeds}
use arbiter_distributed_sche.Store.Valid.Dying.{Died, mark_node_dead-Ensures}

module _ (cfg : Config) (docker : Bool) (reachable : String → Bool) (cache : Cache) (now : ℕ) where
  -- The time of the node can be read, and is too old.
  abbrev pub IsSilent : String → Type 0
  IsSilent id =
      (reachable id ≡ true)
      × (leb_ℤ cfg.dead_after (age_of now (get_last_seen now id cache)) ≡ true)

  abbrev pub Unique : Db → Type 0
  Unique db = IsUnique (λ (t : Task). t.id) db.tasks

  pub evaluate-keeps :
      (P : Db → Type 0) (n : Node) (db : Db)
      → Unique db
      → ((r : MarkNodeDeadResult) (db' : Db) → Died n.id db r db' → P db')
      → ((db' : Db) → Downgraded n.id db db' → P db')
      → P db
      → P (evaluate cfg docker reachable cache now n db).0
  unfolding evaluate
  evaluate-keeps P n db u died down h = elim (Bool-cases (reachable n.id)) [
    | inl yes_read ↦ rw yes_read (
        carry_out-keeps P (verdict_of cfg (age_of now (get_last_seen now n.id cache)) n.status)
          docker now n.id db u died down h)
    | inr unread ↦ rw unread h
  ]

  pub evaluate-Unique :
      (n : Node) (db : Db) → Unique db → Unique (evaluate cfg docker reachable cache now n db).0
  evaluate-Unique n db u =
      evaluate-keeps Unique n db u (λ r db' d. Died-IsUnique u d) (λ db' d. rw d.tasks u) u

  -- The visit of a silent node.
  evaluate-silent :
      (n : Node) (db : Db)
      → IsSilent n.id
      → evaluate cfg docker reachable cache now n db ≡ reaped docker db (mark_node_dead now n.id db)
  unfolding evaluate verdict_of carry_out
  evaluate-silent n db (read, old) = rw (read, old) refl

  evaluate-IsGone :
      (id : String) (n : Node) (db : Db)
      → Unique db
      → IsSilent id
      → IsGone id db
      → IsGone id (evaluate cfg docker reachable cache now n db).0
  evaluate-IsGone id n db u silent g = elim (Bool-cases (str_eq id n.id)) [
    | inl same ↦
        let q : id ≡ n.id = str_eq→eq id n.id same in
        rw (evaluate-silent n db (subst IsSilent q silent)) (
          reaped-keeps (IsGone id) docker db (mark_node_dead now n.id db) g (
            Ensures-map (Died n.id db) (λ _ db'. IsGone id db') _
              (λ r db' d. subst (λ j. IsGone j db') (sym q) (Died-IsGone_self d))
              (mark_node_dead-Ensures now n.id db u)))
    | inr differs ↦
        let ne : id ≢ n.id = λ e. ground (arith, eq_iff id n.id) in
        evaluate-keeps (IsGone id) n db u (λ r db' d. Died-IsGone_ne ne g d)
          (λ db' d. Downgraded-IsGone ne g d) g
  ]

  -- The first visit of a silent node, while its epoch can grow.
  evaluate-dies :
      (id : String) (epoch : ℕ) (n : Node) (db : Db)
      → Unique db
      → IsSilent id
      → n.id ≡ id
      → epoch + 1 < 2 ^ 63
      → IsAt id epoch db
      → IsGone id (evaluate cfg docker reachable cache now n db).0
  evaluate-dies id epoch n db u silent own small (m, found, e) =
      let (r, (db', runs)) = mark_node_dead_succeeds now id db {n = m} found (rw e small) in
      rw (evaluate-silent n db (rw own silent), own, runs)
        (Died-IsGone_self (Ensures-ok (Died id db) (mark_node_dead-Ensures now id db u) runs))

  evaluate-IsAt :
      (id : String) (epoch : ℕ) (n : Node) (db : Db)
      → Unique db
      → str_eq n.id id ≡ false
      → IsAt id epoch db
      → IsAt id epoch (evaluate cfg docker reachable cache now n db).0
  evaluate-IsAt id epoch n db u differs h =
      let ne : id ≢ n.id = λ e. ground (arith, eq_iff n.id id) in
      evaluate-keeps (IsAt id epoch) n db u (λ r db' d. Died-IsAt_ne ne h d)
        (λ db' d. Downgraded-IsAt ne h d) h

  evaluate_each-IsGone :
      (id : String) (ns : List Node) (db : Db)
      → Unique db
      → IsSilent id
      → IsGone id db
      → IsGone id (evaluate_each cfg docker reachable cache now ns db).0
  unfolding evaluate_each
  evaluate_each-IsGone id [] db u silent g = g
  evaluate_each-IsGone id (n ∷ ns) db u silent g =
      evaluate_each-IsGone id ns (evaluate cfg docker reachable cache now n db).0
        (evaluate-Unique n db u) silent (evaluate-IsGone id n db u silent g)

  evaluate_each-dies :
      (id : String) (epoch : ℕ) (ns : List Node) (db : Db)
      → Unique db
      → IsSilent id
      → epoch + 1 < 2 ^ 63
      → IsAt id epoch db
      → exists (is_node id) ns ≡ true
      → IsGone id (evaluate_each cfg docker reachable cache now ns db).0
  unfolding evaluate_each
  evaluate_each-dies id epoch [] db u silent small h e = cc
  evaluate_each-dies id epoch (n ∷ ns) db u silent small h e = elim (Bool-cases (str_eq n.id id)) [
    | inl same ↦
        evaluate_each-IsGone id ns (evaluate cfg docker reachable cache now n db).0
          (evaluate-Unique n db u) silent
          (evaluate-dies id epoch n db u silent (str_eq→eq n.id id same) small h)
    | inr differs ↦
        evaluate_each-dies id epoch ns (evaluate cfg docker reachable cache now n db).0
          (evaluate-Unique n db u) silent small (evaluate-IsAt id epoch n db u differs h)
          (rw differs at e)
  ]

  -- A tick of the leader whose clock and cache show an active node silent for at least `DeadAfter`
  -- leaves that node dead with no task on it, whatever else the tick does. The node's time can be
  -- read, its epoch is short of the column's range, and no two tasks have one id.
  pub silent_node_dies :
      (leader : Option Bool) (id : String) (n : Node) (db : Db)
      → Unique db
      → coalesce leader true ≡ true
      → find (is_node id) db.nodes ≡ some n
      → is_active n.status ≡ true
      → n.epoch + 1 < 2 ^ 63
      → IsSilent id
      → IsGone id (detector_tick cfg docker leader reachable cache now db).0
  unfolding detector_tick list_active_nodes
  silent_node_dies leader id n db u gate found active small silent = rw gate (
      evaluate_each-dies id n.epoch (list_active_nodes db) db u silent small (n, found, refl)
        listed)
    where
      listed : exists (is_node id) (list_active_nodes db) ≡ true
      listed =
          exists-order_by (is_node id) (λ m. m.created_at)
            (select (λ m. is_active m.status) db.nodes)
          ∙ exists-select (is_node id) (λ m. is_active m.status) db.nodes found active
