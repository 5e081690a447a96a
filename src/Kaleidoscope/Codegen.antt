-- ===== src/Kaleidoscope/Codegen.antt =====
-- The generation of code, the methods codegen of kaleidoscope/src/ast.cpp.
pub mod Builder
pub mod Expressions
pub mod Contract
pub mod Steps
pub mod Names
pub mod Scope
pub mod Blocks
pub mod Known
pub mod Functions
