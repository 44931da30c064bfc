-- ===== src/Scheduler/Plugins.antt =====
-- internal/scheduler/plugins.go, filters.go, scorers.go: filters, scorers and `Place`.
use Prim.Native.String.{compare}
use text.Mathlib.Text.{is_lt}
use arbiter_distributed_sche.Base.{
  Bool, List, Option, String, [], coalesce, false, if◌then◌else◌, none, some, str_eq, true, ◌&&◌,
  ◌||◌, ◌∷◌,
}
use arbiter_distributed_sche.Base.Int.{add64, leb_ℤ, pos, sub64, ℤ}
use arbiter_distributed_sche.Store.{Labels, Node, SchedulingPolicy, ready, same_node_status, spread}
use arbiter_distributed_sche.Store.Allocation.{NodeAllocation}
use arbiter_distributed_sche.Store.Tasks.{TaskWithJob}

-- float64 as the scorers use it.
pub record Float64 : Type 1 where
  pub Carrier : Type 0
  pub of_int64 : ℤ → Carrier
  pub divide : Carrier → Carrier → Carrier
  pub add : Carrier → Carrier → Carrier
  pub subtract : Carrier → Carrier → Carrier
  pub lt : Carrier → Carrier → Bool
  pub eq : Carrier → Carrier → Bool

pub record NodeView : Type 0 where
  pub node : Node
  pub alloc : NodeAllocation

-- `FreeCPUMillicores`
unfoldable pub free_cpu_millicores : NodeView → ℤ
unfolding sub64
free_cpu_millicores v = sub64 v.node.cpu_capacity_millicores v.alloc.cpu_millicores

-- `FreeMemMB`
unfoldable pub free_mem_mb : NodeView → ℤ
unfolding sub64
free_mem_mb v = sub64 v.node.mem_capacity_mb v.alloc.memory_mb

pub record Filter : Type 0 where
  pub name : String
  pub passes : NodeView → TaskWithJob → Bool

-- `ReadyFilter.Passes`
unfoldable pub is_ready : NodeView → TaskWithJob → Bool
unfolding same_node_status
is_ready v task = same_node_status v.node.status ready

-- `ResourceFilter.Passes`
unfoldable pub has_resources : NodeView → TaskWithJob → Bool
unfolding free_cpu_millicores free_mem_mb
has_resources v task =
    leb_ℤ task.cpu_request_millicores (free_cpu_millicores v)
    && leb_ℤ task.mem_request_mb (free_mem_mb v)

-- `labels[k]`: a key that is absent reads as the empty text.
unfoldable pub label_of : Labels → String → String
label_of [] k = ""
label_of ((j, v) ∷ labels) k = if str_eq j k then v else label_of labels k

-- The loop over the constraints.
unfoldable pub matches_all : Labels → Labels → Bool
unfolding label_of
matches_all [] labels = true
matches_all ((k, v) ∷ constraints) labels =
    if str_eq (label_of labels k) v then matches_all constraints labels else false

abbrev is_empty : Labels → Bool
is_empty [] = true
is_empty (_ ∷ _) = false

abbrev match_labels : Labels → Option Labels → Bool
match_labels constraints none = false
match_labels constraints (some labels) = matches_all constraints labels

-- `LabelSelectorFilter.Passes`
unfoldable pub has_labels : NodeView → TaskWithJob → Bool
unfolding matches_all
has_labels v task =
    if is_empty task.constraints then true else match_labels task.constraints v.node.labels

-- `DefaultFilters`
abbrev pub default_filters : List Filter
default_filters =
    record { name = "ready"; passes = is_ready }
    ∷ record { name = "resources"; passes = has_resources }
    ∷ record { name = "label_selector"; passes = has_labels }
    ∷ []

-- The loop over the filters.
unfoldable pub is_eligible : List Filter → NodeView → TaskWithJob → Bool
is_eligible [] view task = true
is_eligible (f ∷ fs) view task = if f.passes view task then is_eligible fs view task else false

-- Go's `<` on strings.
abbrev pub text_lt : String → String → Bool
text_lt s t = is_lt (compare s t)

module _ (float : Float64) where
  open float use {Carrier, of_int64, divide, add, subtract, lt, eq}

  -- `CPUUtilization` and `MemUtilization`, of an allocation and a capacity.
  unfoldable pub utilization_of : ℤ → ℤ → Carrier
  utilization_of allocated capacity =
      if leb_ℤ capacity (pos 0)
      then of_int64 (pos 1)
      else divide (of_int64 allocated) (of_int64 capacity)

  -- `Utilization`
  unfoldable pub utilization : NodeView → Carrier
  unfolding utilization_of
  utilization v =
      divide
        (add (utilization_of v.alloc.cpu_millicores v.node.cpu_capacity_millicores)
          (utilization_of v.alloc.memory_mb v.node.mem_capacity_mb))
        (of_int64 (pos 2))

  pub record Scorer : Type 0 where
    pub scorer_name : String
    pub score : NodeView → TaskWithJob → Carrier

  -- `BinPackScorer.Score`
  unfoldable pub bin_pack_score : NodeView → TaskWithJob → Carrier
  unfolding utilization add64
  bin_pack_score v task = utilization (record {
    node = v.node;
    alloc = record {
      cpu_millicores = add64 v.alloc.cpu_millicores task.cpu_request_millicores;
      memory_mb = add64 v.alloc.memory_mb task.mem_request_mb;
    };
  })

  -- `SpreadScorer.Score`
  unfoldable pub spread_score : NodeView → TaskWithJob → Carrier
  unfolding utilization
  spread_score v task = subtract (of_int64 (pos 1)) (utilization v)

  abbrev pub bin_pack_scorer : Scorer
  bin_pack_scorer = record { scorer_name = "bin_pack"; score = bin_pack_score }

  abbrev pub spread_scorer : Scorer
  spread_scorer = record { scorer_name = "spread"; score = spread_score }

  -- `ScorerForPolicy`
  unfoldable pub scorer_for_policy : SchedulingPolicy → Scorer
  scorer_for_policy spread = spread_scorer
  scorer_for_policy _ = bin_pack_scorer

  -- `!found || score > bestScore || (score == bestScore && nodes[i].Hostname < best.Hostname)`
  unfoldable pub is_better : Node → Carrier → Option (Node × Carrier) → Bool
  is_better n score none = true
  is_better n score (some (best, best_score)) =
      lt best_score score || (eq score best_score && text_lt n.hostname best.hostname)

  module _ (allocs : String → NodeAllocation) (task : TaskWithJob) (filters : List Filter)
      (scorer : Scorer) where
    abbrev pub view_of : Node → NodeView
    view_of n = record { node = n; alloc = allocs n.id }

    -- One round of the loop over the nodes.
    unfoldable pub consider : Node → Option (Node × Carrier) → Option (Node × Carrier)
    consider n best =
        let score = scorer.score (view_of n) task in
        if is_eligible filters (view_of n) task && is_better n score best
        then some (n, score)
        else best

    unfoldable pub place_from : List Node → Option (Node × Carrier) → Option (Node × Carrier)
    place_from [] best = best
    place_from (n ∷ nodes) best = place_from nodes (consider n best)

  abbrev pub node_of : Option (Node × Carrier) → Option Node
  node_of none = none
  node_of (some (n, score)) = some n

  -- `Place`: a nil scorer or a nil chain of filters selects the default.
  unfoldable pub place :
      List Node
      → (String → NodeAllocation)
      → TaskWithJob
      → Option (List Filter)
      → Option Scorer
      → Option Node
  place nodes allocs task filters scorer = node_of (
      place_from allocs task (coalesce filters default_filters) (coalesce scorer bin_pack_scorer)
        nodes none)
