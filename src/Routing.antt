-- ===== src/Routing.antt =====
-- src/routing/: the thread registry and the scheduler of mutations.
pub mod Registry
pub mod Scheduler
