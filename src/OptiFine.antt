-- ===== src/OptiFine.antt =====
-- lib/launcher/scopes/optifine: the patch of OptiFine, which no meta server has.
pub mod Version
pub mod Jar
pub mod Patch
mod Tests
