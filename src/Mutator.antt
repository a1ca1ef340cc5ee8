-- ===== src/Mutator.antt =====
-- internal/mutator: the one owner of the kernel's rules and routes, and its repair pass.
pub mod Kernel
pub mod Owner
pub mod Rebuild
pub mod Apply
pub mod Pass
pub mod Rounds
pub mod Settle
pub mod Lawful
pub mod Kept
pub mod Shown
pub mod Loops
pub mod Through
pub mod Recorded
pub mod Gapless
pub mod Restored
pub mod Rounded
pub mod Cases
pub mod Verified
pub mod Passes
pub mod Phantom
pub mod Unstable
pub mod Live
pub mod Install
pub mod Installed
