-- ===== src/Project.antt =====
-- The projects of src/project.
pub mod Registry
