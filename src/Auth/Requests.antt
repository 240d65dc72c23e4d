-- ===== src/Auth/Requests.antt =====
-- The requests to Microsoft, Xbox Live and the Minecraft Services, each with its checks.
pub mod Xbox
pub mod Microsoft
pub mod Minecraft
