-- ===== src/Readiness.antt =====
-- The readiness policies of src/readiness.
pub mod Gate
pub mod Fresh
pub mod Controller
