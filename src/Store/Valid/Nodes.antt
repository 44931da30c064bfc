-- ===== src/Store/Valid/Nodes.antt =====
-- internal/store/nodes.go: registration and changes of status keep the tables valid.
use arbiter_distributed_sche.Base.{
  Bool, Bool-cases, List, Option, Option-cases, String, [], arith, find, inl, inr, ltb, none, refl,
  some, update, ℕ, ◌++◌, ◌+◌, ◌^◌, ◌∷◌, ◌≡◌, ◌≤◌,
}
use arbiter_distributed_sche.Base.Keys.{append-IsUnique, update-IsUnique}
use arbiter_distributed_sche.Store.{
  Db, Ensures, EventType, Node, NodeStatus, Part, bind-Ensures, bump_epoch,
}
use arbiter_distributed_sche.Store.Nodes.{
  RegisterNodeParams, is_at, is_node, new_node, register_node, reregistered, update_node,
  update_node_status, upsert_node,
}
use arbiter_distributed_sche.Store.Valid.{IsSound, IsValid}
use arbiter_distributed_sche.Store.Valid.Rows.{
  append-NodesAdvance, nodes-IsSound, tables-IsSound, update-NodesAdvance,
}

new_node-IsSound :
    (new_id : String) (now : ℕ) (params : RegisterNodeParams) {db : Db}
    → find (is_node new_id) db.nodes ≡ none
    → IsValid db
    → Ensures (λ n db'. IsSound db db') (upsert_node new_id now params none db)
unfolding upsert_node
new_node-IsSound new_id now params {db} fresh v =
    let node = new_node new_id now params in
    nodes-IsSound (db.nodes ++ node ∷ []) v
      (append-IsUnique (λ n. n.id) db.nodes node v.nodes_unique fresh)
      (append-NodesAdvance db.nodes node) _ refl refl refl

old_node-IsSound :
    (new_id : String) (now : ℕ) (params : RegisterNodeParams) (old : Node) {db : Db}
    → IsValid db
    → Ensures (λ n db'. IsSound db db') (upsert_node new_id now params (some old) db)
unfolding upsert_node bump_epoch
old_node-IsSound new_id now params old {db} v = elim (Bool-cases (ltb (old.epoch + 1) (2 ^ 63))) [
  | inl fits ↦ rw fits (
      nodes-IsSound (update p f db.nodes) v
        (update-IsUnique (λ n. n.id) p f db.nodes (λ n. refl) v.nodes_unique)
        (update-NodesAdvance p f db.nodes (λ n. refl) (λ n. omega arith)) _ refl refl refl)
  | inr over ↦ rw over tt
]
  where
    p : Node → Bool
    p = is_at params.hostname params.address

    f : Node → Node
    f = reregistered now params

upsert_node-IsSound :
    (new_id : String) (now : ℕ) (params : RegisterNodeParams) (o : Option Node) {db : Db}
    → find (is_node new_id) db.nodes ≡ none
    → IsValid db
    → Ensures (λ n db'. IsSound db db') (upsert_node new_id now params o db)
upsert_node-IsSound new_id now params none fresh v = new_node-IsSound new_id now params fresh v
upsert_node-IsSound new_id now params (some old) fresh v = old_node-IsSound new_id now params old v

pub register_node-IsSound :
    (new_id : String) (now : ℕ) (params : RegisterNodeParams) {db : Db}
    → find (is_node new_id) db.nodes ≡ none
    → IsValid db
    → Ensures (λ n db'. IsSound db db') (register_node new_id now params db)
unfolding register_node
register_node-IsSound new_id now params {db} fresh v =
    bind-Ensures (λ n db'. IsSound db db') _ (upsert_node new_id now params found db) _
      (upsert_node-IsSound new_id now params found fresh v)
      (λ n db' s. tables-IsSound s _ refl refl refl)
  where
    found : Option Node
    found = find (is_at params.hostname params.address) db.nodes

-- `UPDATE nodes … WHERE id = $1` with a change that keeps the id and lets the epoch grow.
pub update_node-IsSound :
    (id : String) (f : Node → Node) {db : Db}
    → ((n : Node) → (f n).id ≡ n.id)
    → ((n : Node) → n.epoch ≤ (f n).epoch)
    → IsValid db
    → Ensures (λ n db'. IsSound db db') (update_node id f db)
unfolding update_node
update_node-IsSound id f {db} same grow v =
    elim (Option-cases (find (is_node id) (update (is_node id) f db.nodes))) [
      | inl gone ↦ rw gone tt
      | inr (n, found) ↦ rw found (
          nodes-IsSound (update (is_node id) f db.nodes) v
            (update-IsUnique (λ m. m.id) (is_node id) f db.nodes same v.nodes_unique)
            (update-NodesAdvance (is_node id) f db.nodes same grow) _ refl refl refl)
    ]

pub update_node_status-IsSound :
    (now : ℕ) (id : String) (status : NodeStatus) (event : EventType) (message : List Part)
    {db : Db}
    → IsValid db
    → Ensures (λ n db'. IsSound db db') (update_node_status now id status event message db)
unfolding update_node_status
update_node_status-IsSound now id status event message {db} v =
    bind-Ensures (λ n db'. IsSound db db') _ (update_node id f db) _
      (update_node-IsSound id f (λ n. refl) (λ n. omega arith) v)
      (λ n db' s. tables-IsSound s _ refl refl refl)
  where
    f : Node → Node
    f n = record n { status = status }
