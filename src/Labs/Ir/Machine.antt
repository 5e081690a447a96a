-- ===== src/Labs/Ir/Machine.antt =====
-- What a block does when it is run, for the passes under labs/. LLVM itself is a parameter.
use llvm17_learning_repo.Common.{
  ℕ, ◌+◌, ◌-◌, ◌*◌, ◌^◌, ◌%◌, ◌<◌, ◌≡◌, List, [], ◌∷◌, map, ◌==◌, if◌then◌else◌,
}
use llvm17_learning_repo.Labs.Ir.{
  Opcode, add, sub, mul, shl, Value, constant, argument, result, Instruction, binary_operator,
  instruction, Block, identity,
}

-- An instruction that is no BinaryOperator, and the values of its operands.
pub data Event : Type 0 where
  event : ℕ → List ℕ → Event

-- Integers of `width` bits, each by its bits. `respond` is what an instruction that is no
-- BinaryOperator yields, which may depend on all such instructions so far, the latest first.
pub record Machine : Type 0 where
  pub width : ℕ
  pub operation : Opcode → ℕ → ℕ → ℕ
  pub respond : List Event → ℕ
  pub arguments : ℕ → ℕ

-- What the language reference says of the operations.
pub record Laws (m : Machine) : Type 0 where
  pub add_lem : (a b : ℕ) → m.operation add a b ≡ (a + b) % 2 ^ m.width
  pub sub_lem :
      (a b : ℕ) → b < 2 ^ m.width → m.operation sub a b ≡ (a + (2 ^ m.width - b)) % 2 ^ m.width
  pub mul_lem : (a b : ℕ) → m.operation mul a b ≡ a * b % 2 ^ m.width
  pub shl_lem : (a b : ℕ) → b < m.width → m.operation shl a b ≡ a * 2 ^ b % 2 ^ m.width
  pub operation-Fits : (op : Opcode) (a b : ℕ) → m.operation op a b < 2 ^ m.width
  pub respond-Fits : (es : List Event) → m.respond es < 2 ^ m.width
  pub arguments-Fits : (k : ℕ) → m.arguments k < 2 ^ m.width

-- The values of the instructions that were run, and the events, the latest first.
pub record Run : Type 0 where
  pub registers : ℕ → ℕ
  pub history : List Event

unfoldable pub update : (ℕ → ℕ) → ℕ → ℕ → ℕ → ℕ
update ρ x a j = if j == x then a else ρ j

module _ (m : Machine) where
  unfoldable pub value : (ℕ → ℕ) → Value → ℕ
  value ρ (constant n) = n
  value ρ (argument k) = m.arguments k
  value ρ (result j) = ρ j

  -- What an instruction adds to the history, and what it yields.
  unfoldable pub observe : Instruction → Run → List Event
  unfolding value
  observe (binary_operator x op l r) s = s.history
  observe (instruction x tag us) s = event tag (map (value s.registers) us) ∷ s.history

  unfoldable pub yield_of : Instruction → Run → ℕ
  unfolding value observe
  yield_of (binary_operator x op l r) s = m.operation op (value s.registers l) (value s.registers r)
  yield_of (instruction x tag us) s = m.respond (observe (instruction x tag us) s)

  unfoldable pub step : Instruction → Run → Run
  unfolding observe yield_of update identity
  step i s = record {
    registers = update s.registers (identity i) (yield_of i s);
    history = observe i s;
  }

  unfoldable pub run : Block → Run → Run
  unfolding step
  run [] s = s
  run (i ∷ b) s = run b (step i s)

  -- The state in which an instruction is reached.
  unfoldable pub reach : ℕ → Block → Run → Run
  unfolding step identity
  reach x [] s = s
  reach x (i ∷ b) s = if identity i == x then s else reach x b (step i s)

abbrev pub start : Run
start = record { registers = λ j. 0; history = [] }
