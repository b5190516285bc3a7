-- ===== src/Providers/Clouds.antt =====
-- The adapters of Vast and Lambda.
pub mod Vast
pub mod Lambda
pub mod Launched
