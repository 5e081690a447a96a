-- ===== src/Kaleidoscope/Floating.antt =====
-- The double arithmetic of kaleidoscope/, which is the machine's and not the repository's: a type
-- with the operations that the program applies to it. No law of them is assumed here.
use llvm17_learning_repo.Common.{ℕ, Bool}
use llvm17_learning_repo.Kaleidoscope.Chars.{Bytes}

pub record Floating : Type 1 where
  pub Double : Type 0
  -- `double NumVal;` at its static initial value, and `APFloat(0.0)`
  pub zero_double : Double
  -- `APFloat(1.0)`
  pub one_double : Double
  -- strtod on the text of a numeral
  pub strtod : Bytes → Double
  -- `x < 1` and `x > 100`
  pub below_one : Double → Bool
  pub above_hundred : Double → Bool
  -- `(unsigned)x`
  pub to_unsigned : Double → ℕ
  -- std::to_string
  pub to_string : Double → Bytes
