-- ===== src/Controller.antt =====
-- The controller of src/controller.
pub mod TurnQueue
