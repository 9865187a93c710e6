-- ===== src/Utils.antt =====
-- src/utils: running programs and what they print. One module for each group of functions.
pub mod Args
pub mod Lines
pub mod Run
pub mod Version
pub mod Sync
pub mod Commands
pub mod Tests
