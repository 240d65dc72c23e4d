-- ===== src/Auth.antt =====
-- lib/auth: signing in with Microsoft, and the account that a launch is started with.
pub mod Types
pub mod Jwt
pub mod Requests
pub mod Chain
pub mod Fresh
pub mod LaunchAccount
mod Tests
