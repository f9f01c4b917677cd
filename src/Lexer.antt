-- ===== src/Lexer.antt =====
-- src/compiler/lexer: the tokens of a source file.
pub mod Token
pub mod Scan
pub mod Tokenize
pub mod Moves
pub mod Tiles
pub mod Position
mod Tests
