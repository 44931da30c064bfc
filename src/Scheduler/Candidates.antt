-- ===== src/Scheduler/Candidates.antt =====
-- internal/scheduler/plugins.go: the best node so far is an eligible node of the list.
use arbiter_distributed_sche.Base.{
  &&-true, All, Bool, Bool-cases, IsIn-All, List, Option, String, [], inl, inr, none, refl, some,
  some-injective, subst, take, true, ◌&&◌, ◌∷◌, ◌≡◌,
}
use arbiter_distributed_sche.Scheduler.Plugins.{
  Filter, Float64, Scorer, consider, is_better, is_eligible, node_of, place, place_from, view_of,
}
use arbiter_distributed_sche.Store.{Node}
use arbiter_distributed_sche.Store.Allocation.{NodeAllocation}
use arbiter_distributed_sche.Store.Tasks.{TaskWithJob}

module _ (float : Float64) (allocs : String → NodeAllocation) (task : TaskWithJob)
    (filters : List Filter) (scorer : Scorer float) where
  open float use {Carrier}

  abbrev pub score_of : Node → Carrier
  score_of n = scorer.score (view_of float allocs task filters scorer n) task

  abbrev pub fits : Node → Bool
  fits n = is_eligible filters (view_of float allocs task filters scorer n) task

  -- What is known of the best node so far, when `P` holds of the nodes that were looked at.
  abbrev pub Sound : (Node → Type 0) → Option (Node × Carrier) → Type 0
  Sound P none = Unit
  Sound P (some (n, s)) = P n × (fits n ≡ true) × (s ≡ score_of n)

  consider-Sound :
      (P : Node → Type 0) (n : Node) (best : Option (Node × Carrier))
      → P n
      → Sound P best
      → Sound P (consider float allocs task filters scorer n best)
  unfolding consider
  consider-Sound P n best h s = elim (Bool-cases (fits n && is_better float n (score_of n) best)) [
    | inl take ↦ rw take (h, (&&-true _ _ take).0, refl)
    | inr keep ↦ rw keep s
  ]

  pub place_from-Sound :
      (P : Node → Type 0) (nodes : List Node) (best : Option (Node × Carrier))
      → All P nodes
      → Sound P best
      → Sound P (place_from float allocs task filters scorer nodes best)
  unfolding place_from
  place_from-Sound P [] best h s = s
  place_from-Sound P (n ∷ nodes) best h s =
      place_from-Sound P nodes (consider float allocs task filters scorer n best) h.1
        (consider-Sound P n best h.0 s)

  -- A node that `Place` returns is one of the list.
  pub place-All :
      (P : Node → Type 0) (nodes : List Node)
      → All P nodes
      → (n : Node) → place float nodes allocs task (some filters) (some scorer) ≡ some n
      → P n
  unfolding place
  place-All P nodes h n e =
      chosen (place_from float allocs task filters scorer nodes none)
        (place_from-Sound P nodes none h tt) e
    where
      chosen : (best : Option (Node × Carrier)) → Sound P best → node_of float best ≡ some n → P n
      chosen none s e = cc
      chosen (some (m, x)) s e = subst P (some-injective e) s.0

  -- A node that `Place` returns passes every filter.
  pub place-eligible :
      (nodes : List Node) (n : Node)
      → place float nodes allocs task (some filters) (some scorer) ≡ some n
      → is_eligible filters (view_of float allocs task filters scorer n) task ≡ true
  unfolding place
  place-eligible nodes n e =
      chosen (place_from float allocs task filters scorer nodes none)
        (place_from-Sound (λ m. Unit {0}) nodes none (IsIn-All (λ m. Unit {0}) nodes (λ m i. tt))
          tt)
        e
    where
      chosen :
          (best : Option (Node × Carrier))
          → Sound (λ m. Unit {0}) best
          → node_of float best ≡ some n
          → fits n ≡ true
      chosen none s e = cc
      chosen (some (m, x)) s e = subst (λ k. fits k ≡ true) (some-injective e) s.1
