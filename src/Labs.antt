-- ===== src/Labs.antt =====
-- The LLVM passes of labs/.
pub mod Ir
pub mod AlgIdentity
pub mod LocalOpts
pub mod StrengthReduction
pub mod MultiInstruction
pub mod LoopInvariant
pub mod Fusion
pub mod CallCount
mod Tests
mod LoopTests
mod FusionTests
mod LocalOptsTests
