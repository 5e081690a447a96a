-- ===== src/Kaleidoscope.antt =====
-- The Kaleidoscope front end, kaleidoscope/: the lexer, the tree, the parser.
pub mod Chars
pub mod Floating
pub mod Lexer
pub mod Syntax
pub mod Parser
pub mod Codegen
pub mod Driver
mod Tests
mod CodegenTests
