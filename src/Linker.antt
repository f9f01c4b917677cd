-- ===== src/Linker.antt =====
-- src/compiler/project: one unit out of a source file and all that it imports.
pub mod Visit
pub mod Index
pub mod Facts
pub mod Modules
pub mod Order
mod Tests
