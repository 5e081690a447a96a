-- ===== src/Labs/Ir.antt =====
-- What the passes under labs/ see of a function in LLVM IR: basic blocks of instructions, whose
-- operands are constants, arguments and other instructions, and the edits that a pass makes.
use llvm17_learning_repo.Common.{
  ℕ, suc, ◌+◌, Bool, true, false, not, ◌||◌, ◌&&◌, Option, none, some, List, [], ◌∷◌, ◌++◌, map,
  ◌==◌, if◌then◌else◌,
}
pub mod Machine
pub mod Ssa
pub mod Replacing
pub mod Editing
pub mod Retiring
pub mod Rewriting

-- The opcodes of a BinaryOperator, those that no pass asks for under their number.
pub data Opcode : Type 0 where
  add : Opcode
  sub : Opcode
  mul : Opcode
  udiv : Opcode
  sdiv : Opcode
  shl : Opcode
  ashr : Opcode
  other_opcode : ℕ → Opcode

-- A Value: a ConstantInt by its bits, an argument by its position, an instruction by its identity.
pub data Value : Type 0 where
  constant : ℕ → Value
  argument : ℕ → Value
  result : ℕ → Value

-- An instruction and its identity. Those that are no BinaryOperator have a number and operands.
pub data Instruction : Type 0 where
  binary_operator : ℕ → Opcode → Value → Value → Instruction
  instruction : ℕ → ℕ → List Value → Instruction

abbrev pub Block : Type 0
Block = List Instruction

abbrev pub IrFunction : Type 0
IrFunction = List Block

unfoldable pub identity : Instruction → ℕ
identity (binary_operator x op l r) = x
identity (instruction x tag vs) = x

unfoldable pub identities : Block → List ℕ
unfolding identity
identities [] = []
identities (i ∷ b) = identity i ∷ identities b

-- The instruction of a block with an identity.
unfoldable pub find : ℕ → Block → Option Instruction
unfolding identity
find x [] = none
find x (i ∷ b) = if identity i == x then some i else find x b

abbrev pub or_else : Option Instruction → Option Instruction → Option Instruction
or_else (some i) o = some i
or_else none o = o

unfoldable pub find_in : ℕ → IrFunction → Option Instruction
unfolding find
find_in x [] = none
find_in x (b ∷ f) = or_else (find x b) (find_in x f)

unfoldable pub replace_operand : ℕ → Value → Value → Value
replace_operand x v (result j) = if j == x then v else result j
replace_operand x v u = u

unfoldable pub replace_in : ℕ → Value → Instruction → Instruction
unfolding replace_operand
replace_in x v (binary_operator k op l r) =
    binary_operator k op (replace_operand x v l) (replace_operand x v r)
replace_in x v (instruction k tag us) = instruction k tag (map (replace_operand x v) us)

-- `I.replaceAllUsesWith(v)`, in a block.
unfoldable pub replace_uses : ℕ → Value → Block → Block
unfolding replace_in
replace_uses x v b = map (replace_in x v) b

-- `I.removeFromParent()`, in a block.
unfoldable pub remove : ℕ → Block → Block
unfolding identity
remove x [] = []
remove x (i ∷ b) = if identity i == x then b else i ∷ remove x b

-- `I.replaceAllUsesWith(v); I.removeFromParent();`, in a block.
unfoldable pub retire : ℕ → Value → Block → Block
unfolding replace_uses remove
retire x v b = remove x (replace_uses x v b)

-- The same in a function.
abbrev pub retire_in : ℕ → Value → IrFunction → IrFunction
retire_in x v f = map (retire x v) f

unfoldable pub identities_in : IrFunction → List ℕ
unfolding identities
identities_in [] = []
identities_in (b ∷ f) = identities b ++ identities_in f

-- `New->insertAfter(&I)`, for a chain of new instructions behind I.
unfoldable pub insert_after : ℕ → Block → Block → Block
unfolding identity
insert_after x new [] = []
insert_after x new (i ∷ b) = if identity i == x then i ∷ new ++ b else i ∷ insert_after x new b

-- An identity above all those of a function, for a new instruction.
unfoldable pub fresh_above : List ℕ → ℕ
fresh_above [] = 0
fresh_above (x ∷ xs) = suc (x + fresh_above xs)
