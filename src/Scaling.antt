-- ===== src/Scaling.antt =====
-- senlin/common/scaleutils.py
pub mod Adjust
pub mod Percentage
pub mod Checks
pub mod Resize
pub mod Victims
