-- ===== src/Contract.antt =====
-- internal/contract: the routing contract.
pub mod Config
pub mod Settings
pub mod Env
pub mod Accepted
pub mod Interval
pub mod Spec
pub mod Diff
pub mod Routes
pub mod Status
pub mod Routing
pub mod Host
pub mod Plan
