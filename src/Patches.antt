-- ===== src/Patches.antt =====
-- lib/launcher/scopes/patches: the metadata of the patches that a launch is made of.
pub mod Version
pub mod Resolve
pub mod SubPatches
mod Tests
