-- ===== src/Examples.antt =====
-- Concrete tables, and runs and instances of the theorems on them.
mod Data
mod Store
mod Detector
mod Election
mod Reports
mod Scheduler
mod Rpc
mod Restart
mod Fanout
mod Redirects
mod Worker
mod Rounds
mod Flags
mod Http
mod Docker
mod Executor
mod Autoscaler
