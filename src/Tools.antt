-- ===== src/Tools.antt =====
-- The tools beside the bridge.
pub mod Workspace
