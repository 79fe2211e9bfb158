-- ===== src/Policies.antt =====
-- The policies of senlin/policies.
pub mod Batch
pub mod ScalingPolicy
pub mod Deletion
pub mod Placement
