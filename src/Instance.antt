-- ===== src/Instance.antt =====
-- bridge/instance_manager.py: the pool of GPU pods. The children model the state, the choice of a
-- pod, the launch of a pod, the background loops, and what they guarantee.
pub mod State
pub mod Acquire
pub mod Spin
pub mod Loops
pub mod Priority
pub mod Handles
pub mod Stuck
pub mod Exclusion
pub mod Reaped
pub mod Tried
pub mod Whole
