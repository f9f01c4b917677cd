-- ===== src/Parser/Complete.antt =====
-- What the grammar derives the parser accepts, and returns the tree that is derived.
pub mod Cursors
pub mod Less
pub mod Levels
pub mod Primary
pub mod Expressions
pub mod Derives
pub mod Types
pub mod Statements
pub mod Imports
pub mod Functions
pub mod Units
