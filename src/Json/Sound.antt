-- ===== src/Json/Sound.antt =====
-- What JsonParser.cpp ensures of every input.
pub mod Cursors
pub mod Texts
pub mod Values
