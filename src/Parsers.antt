-- ===== src/Parsers.antt =====
-- lib/launcher/scopes/parsers: what a patch's metadata says of the platform, its libraries, its
-- natives, its main jar and its logging, and the finalized patch that they make.
mod Tests
pub mod Platform
pub mod Rules
pub mod ArtifactPath
pub mod Url
pub mod Native
pub mod Library
pub mod Libraries
pub mod MainJar
pub mod Finalize
