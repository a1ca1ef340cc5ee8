-- ===== src/Verdict.antt =====
-- internal/verdict and internal/state: the one judgment of an exit's status record.
pub mod Request
pub mod Checks
pub mod Assess
pub mod Passed
pub mod Connected
pub mod Judged
pub mod Order
pub mod Leaves
pub mod Unrepeated
