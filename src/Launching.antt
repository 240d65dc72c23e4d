-- ===== src/Launching.antt =====
-- lib/launcher/scopes: a launch from the instance to the process of the game.
pub mod PreLaunch
pub mod Directories
pub mod Natives
pub mod Spawn
pub mod Handle
mod Tests
