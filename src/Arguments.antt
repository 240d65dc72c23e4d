-- ===== src/Arguments.antt =====
-- lib/launcher/scopes/arguments: the parts of the command line of the game.
mod Tests
pub mod Split
pub mod ClassPaths
pub mod Jvm
pub mod Start
pub mod Game
pub mod Replace
pub mod Command
