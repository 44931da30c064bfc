-- ===== src/Worker.antt =====
-- cmd/worker/main.go: the worker agent. Logs, metrics and flags that only pass a value on are left
-- out.
pub mod Dialer
pub mod Retry
pub mod Agent
pub mod Rounds
pub mod Flags
use arbiter_distributed_sche.Base.{ℕ}
