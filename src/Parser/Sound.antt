-- ===== src/Parser/Sound.antt =====
-- What the parser returns is derived by the grammar, and what it refuses it refuses at a token.
pub mod Cursors
pub mod Texts
pub mod Levels
pub mod Listed
pub mod Atoms
pub mod Types
pub mod Statements
pub mod Imports
pub mod Functions
pub mod Units
