-- ===== src/Cdp.antt =====
-- The Chrome DevTools Protocol components of src/cdp.
pub mod ResponseTracker
pub mod TurnTracker
