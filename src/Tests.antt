-- ===== src/Tests.antt =====
-- Runs at concrete inputs, and the properties applied to them.
mod Runtime
mod Registry
mod Scheduler
mod Response
mod Cdp
mod Readiness
mod ReadinessController
mod TurnQueue
mod Project
mod Turn
