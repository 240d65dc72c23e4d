-- ===== src/Fetching.antt =====
-- lib/launcher/scopes/fetching: what a launch downloads, and lib/file-manager/verify-paths.ts.
pub mod Platform
pub mod Libraries
pub mod Client
pub mod Logging
pub mod Assets
mod Tests
