-- ===== src/Attempt.antt =====
-- internal/attempt: the persisted record of an exit's admission attempts.
pub mod State
pub mod Record
pub mod Loaded
pub mod Kept
