-- ===== src/Worker/Retry/Bounds.antt =====
-- cmd/worker/main.go: how often the loops call a scheduler.
use arbiter_distributed_sche.Base.{
  Bool, Bool-cases, Option, String, arith, inl, inr, none, some, suc, zero, ℕ, ◌+◌, ◌≤◌, ◌⊎◌,
}
use arbiter_distributed_sche.Redirects.{CallError}
use arbiter_distributed_sche.Worker.Dialer.{Dialer, client_of, recover}
use arbiter_distributed_sche.Worker.Retry.{
  Pass, after_call, again, call_once, carry_on, finished, last_call, try_each, with_leader_retry,
}

-- A count that one call raises by at most one.
module _ {S R : Type 0} (dial : String → Bool) (call : String → S → (CallError ⊎ R) × S)
    (calls : S → ℕ) (counted : (a : String) (s : S) → calls (call a s).1 ≤ calls s + 1) where
  -- The count where a round leaves the loop, or goes on.
  abbrev left_by : Pass S R → ℕ
  left_by (finished r d s) = calls s
  left_by (again e d s) = calls s

  after_call-bound :
      (d : Dialer) (answer : (CallError ⊎ R) × S)
      → left_by (after_call dial call d answer) ≤ calls answer.1
  unfolding after_call
  after_call-bound d (inr r, s') = omega arith
  after_call-bound d (inl e, s') = elim (Bool-cases (recover dial e d).0) [
    | inl recovered ↦ rw recovered (omega arith)
    | inr lost_again ↦ rw lost_again (omega arith)
  ]

  call_once-bound :
      (c : Option String × Dialer) (s : S) → left_by (call_once dial call c s) ≤ calls s + 1
  unfolding call_once
  call_once-bound (none, d) s = omega arith
  call_once-bound (some a, d) s = omega (arith, after_call-bound d (call a s), counted a s)

  last_call-bound :
      (c : Option String × Dialer) (s : S) → calls (last_call dial call c s).2 ≤ calls s + 1
  unfolding last_call
  last_call-bound (none, d) s = omega arith
  last_call-bound (some a, d) s = counted a s

  carry_on-bound :
      (others : CallError → Dialer → S → (CallError ⊎ R) × Dialer × S) (n m : ℕ) (t : Pass S R)
      → left_by t ≤ n
      → ((e : CallError) (d : Dialer) (s : S) → calls (others e d s).2 ≤ calls s + m)
      → calls (carry_on others t).2 ≤ n + m
  unfolding carry_on
  carry_on-bound others n m (finished r d s) h k = omega (arith, h)
  carry_on-bound others n m (again e d s) h k = omega (arith, h, k e d s)

  try_each-bound :
      (n : ℕ) (d : Dialer) (s : S) → calls (try_each dial call n d s).2 ≤ calls s + suc n
  unfolding try_each
  try_each-bound zero d s = last_call-bound (client_of dial d) s
  try_each-bound (suc n) d s = omega (
    arith,
    carry_on-bound (λ e. try_each dial call n) (calls s + 1) (suc n)
        (call_once dial call (client_of dial d) s) (call_once-bound (client_of dial d) s)
        (λ e. try_each-bound n),
  )

  -- `withLeaderRetry` calls a scheduler at most nine times, whatever the replicas answer.
  pub with_leader_retry-bound :
      (d : Dialer) (s : S) → calls (with_leader_retry dial call d s).2 ≤ calls s + 9
  unfolding with_leader_retry
  with_leader_retry-bound d s = try_each-bound 8 d s
