-- ===== src/Examples/Redirects.antt =====
-- A follower that knows the leader.
use arbiter_distributed_sche.Base.{false, none, refl, some, ◌≡◌}
use arbiter_distributed_sche.Redirects.{parse_leader_addr, received}
use arbiter_distributed_sche.Redirects.Following.{IsDialable, refusal_names_leader}
use arbiter_distributed_sche.Rpc.{LeaderGate, not_leader, require_leader}

abbrev follower : LeaderGate
follower = record { is_leader = false; leader_addr = "scheduler-2:7000" }

refusal_names_leader_example :
    (IsDialable "scheduler-2:7000"
      → parse_leader_addr (received (λ i. "0") (not_leader "scheduler-2:7000"))
        ≡ some "scheduler-2:7000")
    × (follower.leader_addr ≡ ""
        → parse_leader_addr (received (λ i. "0") (not_leader "scheduler-2:7000")) ≡ none)
unfolding require_leader
refusal_names_leader_example =
    refusal_names_leader (λ i. "0") follower (not_leader "scheduler-2:7000") refl

dialable : IsDialable "scheduler-2:7000"
dialable = record { not_empty = refl; trimmed = refl; is_known = refl }
