-- ===== src/Examples.antt =====
-- Concrete runs of the model: the theorems at configurations and inputs like those of the Go tests.
pub mod Rules
pub mod Tables
pub mod Verdicts
pub mod Ports
pub mod Leases
pub mod Statuses
pub mod Packets
pub mod Kernels
pub mod Passes
pub mod Attempts
pub mod Settings
