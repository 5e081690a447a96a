-- ===== src/Labs/AlgIdentity.antt =====
-- The pass AlgIdentityPass, labs/assignment1/src/assignment1.cpp.
use llvm17_learning_repo.Common.{ℕ, Bool, true, false, Option, none, some, ◌==◌, if◌then◌else◌}
use llvm17_learning_repo.Labs.Ir.{
  Opcode, add, mul, Value, constant, Instruction, binary_operator, instruction, IrFunction,
  identities_in,
}
use llvm17_learning_repo.Labs.Ir.Rewriting.{visit_all}
pub mod Identities
pub mod Soundness

-- `C && C->isZero()` and `C && C->isOne()`, for the ConstantInt that the operand is, if it is one.
unfoldable pub is_zero : Value → Bool
is_zero (constant n) = n == 0
is_zero v = false

unfoldable pub is_one : Value → Bool
is_one (constant n) = n == 1
is_one v = false

-- `case Instruction::Mul:`
unfoldable pub mul_identity : Value → Value → Option Value
unfolding is_one
mul_identity l r = if is_one l then some r else if is_one r then some l else none

-- `case Instruction::Add:`, which has no break: the tests of the multiplication follow.
unfoldable pub add_identity : Value → Value → Option Value
unfolding is_zero mul_identity
add_identity l r = if is_zero l then some r else if is_zero r then some l else mul_identity l r

unfoldable pub get_identity_operand : Opcode → Value → Value → Option Value
unfolding add_identity mul_identity
get_identity_operand add l r = add_identity l r
get_identity_operand mul l r = mul_identity l r
get_identity_operand op l r = none

-- `dyn_cast<BinaryOperator>(&I)` and `getIdentityOperand(op)`
unfoldable pub identity_operand : Instruction → Option Value
unfolding get_identity_operand
identity_operand (binary_operator x op l r) = get_identity_operand op l r
identity_operand (instruction x tag us) = none

unfoldable pub alg_identity_pass : IrFunction → IrFunction
unfolding visit_all identities_in identity_operand
alg_identity_pass f = visit_all identity_operand (identities_in f) f
