-- ===== src/Store/Report/Backoff.antt =====
-- internal/store/jobs_tasks.go: how long a failed task waits.
use native.Mathlib.Numerals.{unary_clauses}
use arbiter_distributed_sche.Base.{
  Bool-cases, arith, false, inl, inr, ltb, refl, suc, zero, ℕ, ◌*◌, ◌+◌, ◌-◌, ◌<◌, ◌≡◌, ◌≤◌,
}
use arbiter_distributed_sche.Store.Report.{millisecond, retry_backoff}

-- The wait, by the number of the failure.
backoff_early :
    (retry_backoff 1 ≡ 500 * millisecond)
    × (retry_backoff 2 ≡ 1000 * millisecond)
    × (retry_backoff 3 ≡ 2000 * millisecond)
    × (retry_backoff 4 ≡ 4000 * millisecond)
    × (retry_backoff 5 ≡ 8000 * millisecond)
unfolding retry_backoff
backoff_early = (refl, refl, refl, refl, refl)

backoff_late : (n : ℕ) → 6 ≤ n → retry_backoff n ≡ 16000 * millisecond
unfolding retry_backoff
backoff_late n h = elim (Bool-cases (ltb 5 (n - 1))) [
  | inl beyond ↦ rw beyond refl
  | inr least ↦ let q : n - 1 ≡ 5 = ground (arith, h, least) in rw (least, q) refl
]

doubles : (n : ℕ) → 1 ≤ n → n < 6 → retry_backoff (n + 1) ≡ 2 * retry_backoff n
unfolding retry_backoff
doubles zero h k = ground arith
doubles (suc m) h k =
    let before : ltb 5 (suc m - 1) ≡ false = ground (arith, k) in
    let after : ltb 5 (suc m + 1 - 1) ≡ false = ground (arith, k) in
    let p : suc m + 1 - 1 ≡ suc m = omega arith in
    let q : suc m - 1 ≡ m = omega arith in
    rw (after, before, p, q) (simp unary_clauses (omega arith))

-- The wait before the first retry is half a second. It doubles with each retry up to the sixth, and
-- from the sixth on it is 16 seconds.
pub retry_backoff-doubles :
    (n : ℕ)
    → (retry_backoff 1 ≡ 500 * millisecond)
      × (1 ≤ n → n < 6 → retry_backoff (n + 1) ≡ 2 * retry_backoff n)
      × (6 ≤ n → retry_backoff n ≡ 16000 * millisecond)
retry_backoff-doubles n = (backoff_early.0, doubles n, backoff_late n)
