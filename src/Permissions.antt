-- ===== src/Permissions.antt =====
-- lib/permissions: what an extension may use of the launcher, and who has allowed it.
mod Tests
pub mod Internet
pub mod Handle
pub mod Store
