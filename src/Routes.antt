-- ===== src/Routes.antt =====
-- The routes of bridge/main.py for a user's own settings and usage, and for administrators.
pub mod Tables
pub mod Overrides
pub mod VolumeKeys
pub mod Admin
pub mod Accounts
