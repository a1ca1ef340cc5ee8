-- ===== src/Policy.antt =====
-- internal/policy: where the kernel's rules and routes can send a packet.
pub mod Packet
pub mod FailClosed
pub mod Lookup
pub mod Walk
pub mod Edits
pub mod Outcomes
pub mod Closed
pub mod Classes
pub mod Ranges
pub mod Points
pub mod Gather
pub mod Worsens
pub mod Safe
