-- ===== src/Rpc/Followers.antt =====
-- internal/grpcapi/server.go: the gate in front of the handlers that change something.
use arbiter_distributed_sche.Base.{Bool, String, false, refl, some, subst, sym, ℕ, ◌≡◌}
use arbiter_distributed_sche.Base.Int.{ℤ}
use arbiter_distributed_sche.Redirects.{parse_leader_addr, received}
use arbiter_distributed_sche.Redirects.Following.{IsDialable, refusal_names_leader}
use arbiter_distributed_sche.Rpc.{
  LeaderGate, Reply, World, not_leader, refuse, reply, require_leader,
}
use arbiter_distributed_sche.Rpc.Heartbeat.{HeartbeatRequest, handle_heartbeat}
use arbiter_distributed_sche.Rpc.Jobs.{SubmitJobRequest, handle_submit_job}
use arbiter_distributed_sche.Rpc.Nodes.{RegisterNodeRequest, handle_register_node}
use arbiter_distributed_sche.Rpc.Reports.{TaskStatusUpdate, handle_report_task_status}

-- A refusal from which a client reads the address, by a handler that changed nothing. `digits` is
-- `%d`.
abbrev pub IsReferred : {A : Type 0} → (ℤ → String) → String → World → Reply A × World → Type 0
IsReferred digits addr w (reply a, w') = ⊥
IsReferred digits addr w (refuse s, w') =
    (parse_leader_addr (received digits s) ≡ some addr) × (w' ≡ w)

module _ (digits : ℤ → String) (now : ℕ) (w : World) (redis_up : Bool) (interval : ℤ) (id : String)
    (ids : ℕ → String) (joining : RegisterNodeRequest) (submitted : SubmitJobRequest)
    (task_update : TaskStatusUpdate) (beat : HeartbeatRequest) where
  -- Each handler refers the caller to the gate's address and leaves the world as it is.
  abbrev pub IsRefused : LeaderGate → Type 0
  IsRefused gate =
      IsReferred digits gate.leader_addr w
        (handle_register_node (some gate) redis_up interval id now joining w)
      × IsReferred digits gate.leader_addr w (handle_submit_job (some gate) id ids now submitted w)
      × IsReferred digits gate.leader_addr w
          (handle_report_task_status (some gate) now task_update w)
      × IsReferred digits gate.leader_addr w (handle_heartbeat (some gate) redis_up now beat w)

  -- On a replica that does not lead, each handler that could change something leaves the database
  -- and the heartbeat times as they are, whatever the request, and refuses it with a status from
  -- which a client reads the address of the leader that the replica knows. That address is not
  -- empty, has no space around it and does not contain "unknown".
  pub follower_refuses :
      (gate : LeaderGate) → gate.is_leader ≡ false → IsDialable gate.leader_addr → IsRefused gate
  unfolding handle_register_node handle_submit_job handle_report_task_status handle_heartbeat
      require_leader
  follower_refuses gate follows dialable =
      let off : LeaderGate = record { is_leader = false; leader_addr = gate.leader_addr } in
      let named = (refusal_names_leader digits off (not_leader gate.leader_addr) refl).0 dialable in
      subst (λ b. IsRefused (record { is_leader = b; leader_addr = gate.leader_addr }))
        (sym follows) ((named, refl), (named, refl), (named, refl), (named, refl))
