-- ===== src/Worker/Retry.antt =====
-- cmd/worker/main.go: the calls of a scheduler that follow redirects and rotate.
pub mod Bounds
pub mod Reaching
use arbiter_distributed_sche.Base.{
  Bool, Option, String, if◌then◌else◌, inl, inr, none, some, suc, zero, ℕ, ◌⊎◌,
}
use arbiter_distributed_sche.Redirects.{CallError, no_status}
use arbiter_distributed_sche.Worker.Dialer.{Dialer, client_of, recover}

-- What one round of a loop leaves: the answer, or the error after which it goes on.
pub data Pass (S R : Type 0) : Type 0 where
  finished : CallError ⊎ R → Dialer → S → Pass S R
  again : CallError → Dialer → S → Pass S R

-- A loop leaves, or goes on with its other rounds.
unfoldable pub carry_on :
    {S R : Type 0}
    → (CallError → Dialer → S → (CallError ⊎ R) × Dialer × S)
    → Pass S R
    → (CallError ⊎ R) × Dialer × S
carry_on others (finished r d s) = (r, d, s)
carry_on others (again e d s) = others e d s

-- `dial` says whether a client can be made. `call` is what a call of a client answers, and what it
-- makes of the rest of the system.
module _ {S R : Type 0} (dial : String → Bool) (call : String → S → (CallError ⊎ R) × S) where
  unfoldable pub after_call : Dialer → (CallError ⊎ R) × S → Pass S R
  unfolding recover
  after_call d (inr r, s) = finished (inr r) d s
  after_call d (inl e, s) =
      let recovered = recover dial e d in
      if recovered.0 then again e recovered.1 s else finished (inl e) recovered.1 s

  -- `return fn(client)`
  unfoldable pub last_call : Option String × Dialer → S → (CallError ⊎ R) × Dialer × S
  last_call (none, d) s = (inl no_status, d, s)
  last_call (some c, d) s = let answer = call c s in (answer.0, d, answer.1)

  -- The body of the loop of `withLeaderRetry`.
  unfoldable pub call_once : Option String × Dialer → S → Pass S R
  unfolding after_call
  call_once (none, d) s = finished (inl no_status) d s
  call_once (some c, d) s = after_call d (call c s)

  unfoldable pub try_each : ℕ → Dialer → S → (CallError ⊎ R) × Dialer × S
  try_each zero d s = last_call (client_of dial d) s
  try_each (suc n) d s = carry_on (λ e. try_each n) (call_once (client_of dial d) s)

  -- `withLeaderRetry`
  unfoldable pub with_leader_retry : Dialer → S → (CallError ⊎ R) × Dialer × S
  unfolding try_each carry_on
  with_leader_retry d s = try_each 8 d s

  -- `<-ctx.Done()` or `<-time.After(registerRetryDelay)`, by whether the context is done first.
  unfoldable pub wait : Bool → CallError → Dialer → S → Pass S R
  wait is_done e d s = if is_done then finished (inl no_status) d s else again e d s

  unfoldable pub after_register : Bool → Dialer → (CallError ⊎ R) × S → Pass S R
  unfolding recover wait
  after_register is_done d (inr r, s) = finished (inr r) d s
  after_register is_done d (inl e, s) =
      let recovered = recover dial e d in
      if recovered.0 then again e recovered.1 s else wait is_done e recovered.1 s

  -- The body of the loop of `registerWithRetry`.
  unfoldable pub register_once : Bool → Option String × Dialer → S → Pass S R
  unfolding after_register wait
  register_once is_done (none, d) s = wait is_done no_status d s
  register_once is_done (some c, d) s = after_register is_done d (call c s)

  -- `is_done n`: the context is done while the loop waits with `n` attempts left.
  unfoldable pub register_each :
      (ℕ → Bool) → ℕ → CallError → Dialer → S → (CallError ⊎ R) × Dialer × S
  register_each is_done zero last d s = (inl last, d, s)
  register_each is_done (suc n) last d s =
      carry_on (register_each is_done n) (register_once (is_done n) (client_of dial d) s)

  -- `registerWithRetry`
  unfoldable pub register_with_retry : (ℕ → Bool) → Dialer → S → (CallError ⊎ R) × Dialer × S
  unfolding register_each
  register_with_retry is_done d s = register_each is_done 15 no_status d s
