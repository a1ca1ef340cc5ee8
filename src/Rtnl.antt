-- ===== src/Rtnl.antt =====
-- internal/rtnl: the decoded kernel state.
pub mod Addr
pub mod Rule
pub mod Items
pub mod Delete
pub mod Route
