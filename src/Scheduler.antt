-- ===== src/Scheduler.antt =====
-- internal/scheduler: the placement of pending tasks on nodes.
pub mod Plugins
pub mod Engine
pub mod Candidates
pub mod Placement
pub mod Soundness
pub mod Capacity
