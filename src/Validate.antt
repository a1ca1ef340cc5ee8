-- ===== src/Validate.antt =====
-- internal/validate: decoded JSON values, and the timestamps of the state files.
pub mod Json
pub mod Time
pub mod Lenient
pub mod Strict
