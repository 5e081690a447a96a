-- ===== src/Kaleidoscope/Parser.antt =====
-- The parser, kaleidoscope/include/parser.h and kaleidoscope/src/parser.cpp.
pub mod State
pub mod Expressions
pub mod Toplevel
pub mod Grammar
pub mod Contract
pub mod Rules
pub mod Primaries
pub mod Operators
pub mod Prototypes
pub mod Soundness
pub mod Successes
pub mod Acceptance
