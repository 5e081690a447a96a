-- ===== src/Kaleidoscope/Driver/Precedences.antt =====
-- The table BinopPrecedence behind the loop of kaleidoscope/src/main.cpp.
use llvm17_learning_repo.Common.{ℕ, ◌≤◌, ◌<◌, ◌≡◌, false, none, arith}
use llvm17_learning_repo.Kaleidoscope.Floating.{Floating}
use llvm17_learning_repo.Kaleidoscope.Parser.State.{State, builtin_precedence}
use llvm17_learning_repo.Kaleidoscope.Driver.{
  Round, running, stopped_function, stopped_extern, no_fuel, Backend,
}

-- The conversion to unsigned of a double from 1 to 100, which truncates.
pub record IsTruncating (fl : Floating) : Type 0 where
  pub in_range :
      (v : fl.Double)
      → fl.below_one v ≡ false
      → fl.above_hundred v ≡ false
      → (1 ≤ fl.to_unsigned v) × (fl.to_unsigned v ≤ 100)

-- Every precedence is at most 100, and only an ASCII character has one.
abbrev pub AreInRange : (ℕ → ℕ) → Type 0
AreInRange table = (k : ℕ) → (table k ≤ 100) × (1 ≤ table k → k < 128)

-- The table that the program starts with.
pub builtin_precedence-AreInRange : AreInRange builtin_precedence
builtin_precedence-AreInRange k = (ground arith, λ h. ground arith)

module _ (fl : Floating) (cast : IsTruncating fl) where
  open fl use {Double}

  module _ (backend : Backend Double) where
    open backend use {Memory}

    -- The table is in range when the loop goes on.
    abbrev InRange : Round fl backend → Type 0
    InRange (running t) = AreInRange t.state.binop_precedence
    InRange r = Unit {0}

    -- The loop returned, with the table in range, or a call of the backend does not return.
    abbrev pub ReturnsInRange : Round fl backend → Type 0
    ReturnsInRange (running t) = AreInRange t.state.binop_precedence
    ReturnsInRange (stopped_function fn m) = backend.generate fn m ≡ none
    ReturnsInRange (stopped_extern p m) = backend.declare p m ≡ none
    ReturnsInRange no_fuel = ⊥
