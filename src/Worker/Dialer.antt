-- ===== src/Worker/Dialer.antt =====
-- cmd/worker/main.go: `schedulerDialer`, the connection to a scheduler replica.
pub mod Positions
use arbiter_distributed_sche.Base.{
  Bool, List, Option, String, coalesce, false, if◌then◌else◌, is_some, length, none, not, some,
  str_eq, true, ℕ, ◌%◌, ◌&&◌, ◌+◌, ◌==◌, ◌||◌, ◌∷◌,
}
use arbiter_distributed_sche.Base.Index.{get_elem?, index_of}
use arbiter_distributed_sche.Redirects.{CallError, is_unavailable, parse_leader_addr}

-- `schedulerDialer`. A client is named by the address that it was dialled with.
pub record Dialer : Type 0 where
  pub addrs : List String
  pub idx : ℕ
  pub addr : String
  pub client : Option String

-- `newSchedulerDialer`, of the first address and those behind it.
unfoldable pub new_scheduler_dialer : String → List String → Dialer
new_scheduler_dialer first rest = record {
  addrs = first ∷ rest;
  idx = 0;
  addr = first;
  client = none;
}

-- What `redialLocked` leaves once `grpc.NewClient` has succeeded.
unfoldable pub redialled : String → Dialer → Dialer
redialled target d = record d {
  addr = target;
  client = some target;
  idx = coalesce (index_of target d.addrs) d.idx;
}

-- `Close`
unfoldable pub closed : Dialer → Dialer
closed d = record d { client = none }

-- `dial` says whether `grpc.NewClient` succeeds for an address.
module _ (dial : String → Bool) where
  -- `redialLocked`: no client stands for an error.
  unfoldable pub redial : String → Dialer → Option String × Dialer
  unfolding redialled
  redial target d = if dial target then (some target, redialled target d) else (none, d)

  unfoldable pub client_or_redial : Option String → Dialer → Option String × Dialer
  unfolding redial
  client_or_redial none d = redial d.addr d
  client_or_redial (some c) d = (some c, d)

  -- `Client`
  unfoldable pub client_of : Dialer → Option String × Dialer
  unfolding client_or_redial
  client_of d = client_or_redial d.client d

  -- `FollowRedirect`, once the address has been read.
  unfoldable pub redirect_to : String → Dialer → Bool × Dialer
  unfolding redial
  redirect_to target d =
      if str_eq target d.addr && is_some d.client
      then (true, d)
      else (is_some (redial target d).0, (redial target d).1)

  unfoldable pub redirect_if_named : Option String → Dialer → Bool × Dialer
  unfolding redirect_to
  redirect_if_named none d = (false, d)
  redirect_if_named (some target) d = redirect_to target d

  -- `FollowRedirect`
  unfoldable pub follow_redirect : CallError → Dialer → Bool × Dialer
  unfolding redirect_if_named
  follow_redirect e d = redirect_if_named (parse_leader_addr e) d

  -- `d.addrs[d.idx]` behind `d.idx = (d.idx + 1) % len(d.addrs)`
  unfoldable pub rotate : Dialer → Bool × Dialer
  unfolding redial
  rotate d =
      let moved = record d { idx = (d.idx + 1) % length d.addrs } in
      let dialled = redial (coalesce (get_elem? moved.addrs moved.idx) "") moved in
      (is_some dialled.0, dialled.1)

  -- `RecoverFromUnavailable`
  unfoldable pub recover_from_unavailable : CallError → Dialer → Bool × Dialer
  unfolding rotate
  recover_from_unavailable e d =
      if not (is_unavailable e) || length d.addrs == 0 then (false, d) else rotate d

  -- `a.dialer.FollowRedirect(err)`, then `a.dialer.RecoverFromUnavailable(err)`
  unfoldable pub recover : CallError → Dialer → Bool × Dialer
  recover e d =
      let followed = follow_redirect e d in
      if followed.0 then followed else recover_from_unavailable e followed.1
