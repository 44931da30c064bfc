-- ===== src/Autoscaler/Choices.antt =====
-- internal/autoscaler/autoscaler.go: what a tick tests before it acts.
use arbiter_distributed_sche.Base.{
  Bool, Option, String, coalesce, false, if◌then◌else◌, none, not, some, true, ℕ, ◌&&◌, ◌==◌, ◌||◌,
}
use arbiter_distributed_sche.Autoscaler.{Cluster, Runner, ScalingConfig, can_scale, set_idle}
use arbiter_distributed_sche.Base.Int.{leb_ℤ, negsuc, pos, ℤ}
use arbiter_distributed_sche.Detector.{time_since}
use arbiter_distributed_sche.Store.{Node, NodeStatus, cordoned, ready}
use arbiter_distributed_sche.Store.Allocation.{NodeAllocation}

-- The readings of the clock: at the tick, at the tests of the cooldown, and at the end of an action.
pub record Reading : Type 0 where
  pub now : ℕ
  pub tested_at : ℕ
  pub acted_at : ℕ

-- ARBITER_DOCKER_NETWORK, and the hostname if there is one.
pub record Host : Type 0 where
  pub network_env : String
  pub hostname : Option String

-- The time since which the backlog has stood.
unfoldable pub pending_from : ScalingConfig → ℤ → ℕ → Option ℕ → Option ℕ
pending_from cfg backlog now since =
    if leb_ℤ cfg.pending_threshold backlog then some (coalesce since now) else none

-- `!r.pendingSince.IsZero() && now.Sub(r.pendingSince) >= r.cfg.SustainWindow`
unfoldable pub is_sustained : ScalingConfig → ℕ → Option ℕ → Bool
is_sustained cfg now none = false
is_sustained cfg now (some t) = leb_ℤ cfg.sustain_window (time_since now t)

-- `n.Status != NodeStatusReady && n.Status != NodeStatusCordoned`, negated
unfoldable pub is_reclaimable : NodeStatus → Bool
is_reclaimable ready = true
is_reclaimable cordoned = true
is_reclaimable _ = false

abbrev is_zero : ℤ → Bool
is_zero (pos n) = n == 0
is_zero (negsuc n) = false

unfoldable pub is_idle : NodeAllocation → Bool
is_idle a = is_zero a.cpu_millicores && is_zero a.memory_mb

abbrev pub set_runner : {D : Type 0} → (Runner → Runner) → Cluster D → Cluster D
set_runner f c = record c { runner = f c.runner }

-- What a node's round of the loop comes to: the next node, or a reclaim.
pub data Choice : Type 0 where
  keep_busy reclaim keep_idle : Choice

unfoldable pub choose : ScalingConfig → Reading → (String → NodeAllocation) → Runner → Node → Choice
unfolding is_reclaimable is_idle can_scale
choose cfg t allocs r n =
    if not (is_reclaimable n.status) || not (is_idle (allocs n.id))
    then keep_busy
    else if can_scale cfg r.last_scale_action t.tested_at
        && leb_ℤ cfg.idle_window (time_since t.now (coalesce (r.idle_since n.id) t.now))
    then reclaim
    else keep_idle

-- `r.idleSince[n.ID] = now`, unless the node has an entry
unfoldable pub noted_idle : Reading → Node → Runner → Runner
unfolding set_idle
noted_idle t n r = set_idle n.id (some (coalesce (r.idle_since n.id) t.now)) r
