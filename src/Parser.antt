-- ===== src/Parser.antt =====
-- The parser of the Crossa language: src/compiler/parser/Parser.cpp, on the tokens of the lexer.
pub mod Cursor
pub mod Strings
pub mod Types
pub mod Expressions
pub mod Primary
pub mod Statements
pub mod Declarations
pub mod Grammar
pub mod Sound
pub mod Unit
pub mod FrontEnd
pub mod Nesting
pub mod Literals
pub mod Segments
pub mod Complete
pub mod Equivalence
mod Tests
