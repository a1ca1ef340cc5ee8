-- ===== src/Exit.antt =====
-- internal/exit: the supervisor's lease and the worker's readiness.
pub mod Lease
pub mod Readiness
