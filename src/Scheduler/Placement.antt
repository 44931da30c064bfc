-- ===== src/Scheduler/Placement.antt =====
-- internal/scheduler/plugins.go: `Place` picks a best eligible node, and fails only without one.
use arbiter_distributed_sche.Base.{
  &&-true, All, All-map, Bool, Bool-cases, IsIn, IsIn-All, List, Option, String, [], arith, false,
  inl, inr, none, some, subst, take, true, ◌&&◌, ◌||◌, ◌∷◌, ◌≡◌,
}
use arbiter_distributed_sche.Scheduler.Candidates.{Sound, fits, place_from-Sound, score_of}
use arbiter_distributed_sche.Scheduler.Plugins.{
  Filter, Float64, Scorer, consider, is_better, node_of, place, place_from,
}
use arbiter_distributed_sche.Store.{Node}
use arbiter_distributed_sche.Store.Allocation.{NodeAllocation}
use arbiter_distributed_sche.Store.Tasks.{TaskWithJob}

-- What comparisons of float64 satisfy, NaN included.
pub record IsComparison (float : Float64) : Type 0 where
  pub lt_irrefl : (a : float.Carrier) → float.lt a a ≡ false
  pub lt_trans :
      (a b c : float.Carrier) → float.lt a b ≡ true → float.lt b c ≡ true → float.lt a c ≡ true
  pub eq_lt :
      (a b c : float.Carrier) → float.eq a b ≡ true → float.lt a c ≡ true → float.lt b c ≡ true

module _ (float : Float64) (laws : IsComparison float) (allocs : String → NodeAllocation)
    (task : TaskWithJob) (filters : List Filter) (scorer : Scorer float) where
  open float use {Carrier, lt, eq}

  abbrev score : Node → Carrier
  score = score_of float allocs task filters scorer

  abbrev passes_all : Node → Bool
  passes_all = fits float allocs task filters scorer

  -- No eligible node like `n` scores above the best one.
  abbrev Beats : Node → Option (Node × Carrier) → Type 0
  Beats n none = passes_all n ≡ false
  Beats n (some (b, s)) = passes_all n ≡ true → lt s (score n) ≡ false

  covers :
      (s s' x : Carrier) (c : Bool)
      → (lt s s' || (eq s' s && c)) ≡ true
      → lt s x ≡ false
      → lt s' x ≡ false
  covers s s' x c h l = ground (arith, laws.lt_trans s s' x, laws.eq_lt s' s x)

  consider-Beats :
      (m n : Node) (best : Option (Node × Carrier))
      → Beats m best
      → Beats m (consider float allocs task filters scorer n best)
  unfolding consider is_better
  consider-Beats m n none h = elim (Bool-cases (passes_all n)) [
    | inl take ↦ rw take (λ e. cc)
    | inr keep ↦ rw keep h
  ]
  consider-Beats m n (some (b, s)) h =
      elim (Bool-cases (passes_all n && is_better float n (score n) (some (b, s)))) [
        | inl take ↦
            rw take (λ e. covers s (score n) (score m) _ (&&-true (passes_all n) _ take).1 (h e))
        | inr keep ↦ rw keep h
      ]

  consider-Beats_self :
      (n : Node) (best : Option (Node × Carrier))
      → Beats n (consider float allocs task filters scorer n best)
  unfolding consider is_better
  consider-Beats_self n none = elim (Bool-cases (passes_all n)) [
    | inl yes_fits ↦ rw yes_fits (λ _. laws.lt_irrefl (score n))
    | inr misses ↦ rw misses misses
  ]
  consider-Beats_self n (some (b, s)) =
      elim (Bool-cases (passes_all n && is_better float n (score n) (some (b, s)))) [
        | inl take ↦ rw take (λ _. laws.lt_irrefl (score n))
        | inr keep ↦ rw keep (λ e. ground arith)
      ]

  place_from-Beats :
      (m : Node) (nodes : List Node) (best : Option (Node × Carrier))
      → Beats m best
      → Beats m (place_from float allocs task filters scorer nodes best)
  unfolding place_from
  place_from-Beats m [] best h = h
  place_from-Beats m (n ∷ nodes) best h =
      place_from-Beats m nodes (consider float allocs task filters scorer n best)
        (consider-Beats m n best h)

  place_from-Beats-All :
      (nodes : List Node) (best : Option (Node × Carrier))
      → All (λ m. Beats m (place_from float allocs task filters scorer nodes best)) nodes
  unfolding place_from
  place_from-Beats-All [] best = tt
  place_from-Beats-All (n ∷ nodes) best = (
    place_from-Beats n nodes (consider float allocs task filters scorer n best)
        (consider-Beats_self n best),
    place_from-Beats-All nodes (consider float allocs task filters scorer n best),
  )

  -- What `Place` returns: no node, and then none is eligible, or an eligible one of the list that
  -- no eligible one of the list outscores.
  abbrev pub IsBest : List Node → Option Node → Type 0
  IsBest nodes none = All (λ m. passes_all m ≡ false) nodes
  IsBest nodes (some n) =
      IsIn n nodes
      × (passes_all n ≡ true)
      × All (λ m. passes_all m ≡ true → lt (score n) (score m) ≡ false) nodes

  result-IsBest :
      (nodes : List Node) (best : Option (Node × Carrier))
      → Sound float allocs task filters scorer (λ n. IsIn n nodes) best
      → All (λ m. Beats m best) nodes
      → IsBest nodes (node_of float best)
  result-IsBest nodes none s h = h
  result-IsBest nodes (some (n, s)) (i, e, q) h =
      (i, e, All-map nodes (λ m k. subst (λ c. passes_all m ≡ true → lt c (score m) ≡ false) q k) h)

  -- `Place` returns no node exactly when no node of the list passes every filter. Else it returns a
  -- node of the list that passes them, and no other such node has a higher score.
  pub place-IsBest :
      (nodes : List Node)
      → IsBest nodes (place float nodes allocs task (some filters) (some scorer))
  unfolding place
  place-IsBest nodes =
      result-IsBest nodes (place_from float allocs task filters scorer nodes none)
        (place_from-Sound float allocs task filters scorer (λ n. IsIn n nodes) nodes none
          (IsIn-All _ nodes (λ n i. i)) tt)
        (place_from-Beats-All nodes none)
