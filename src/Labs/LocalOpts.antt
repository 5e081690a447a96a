-- ===== src/Labs/LocalOpts.antt =====
-- The pass LocalOptsPass, labs/lab2/src/LocalOpts.cpp. `width` is that of the integers.
use llvm17_learning_repo.Common.{
  ℕ, zero, suc, ◌+◌, ◌-◌, ◌*◌, ◌/◌, ◌%◌, Bool, false, not, ◌||◌, ◌&&◌, Option, none, some, List, [],
  ◌∷◌, map, ◌==◌, if◌then◌else◌,
}
use llvm17_learning_repo.Labs.Ir.{
  mul, shl, Value, constant, argument, result, Instruction, binary_operator, instruction,
  IrFunction, identities_in, find_in, replace_uses, insert_after, fresh_above,
}
use llvm17_learning_repo.Labs.StrengthReduction.{int_log2, is_negative}
pub mod Powers
pub mod Inserting
pub mod Editing
pub mod Soundness

-- `a & b` of integers with so many bits.
unfoldable pub bit_and : ℕ → ℕ → ℕ → ℕ
bit_and zero a b = 0
bit_and (suc w) a b = (a % 2) * (b % 2) + 2 * bit_and w (a / 2) (b / 2)

-- Of the bits of a constant, by getSExtValue().
unfoldable pub is_power_of_two : ℕ → ℕ → Bool
unfolding bit_and is_negative
is_power_of_two width n = not (n == 0 || is_negative width n) && bit_and 64 n (n - 1) == 0

module _ (width : ℕ) where
  -- The shift behind the product `x`, and `I.replaceAllUsesWith(shiftInst)`. The constant of the shift is
  -- an i32: BinaryOperator::Create aborts, `none`, on another type of `v`.
  unfoldable pub shift_instead : ℕ → Value → ℕ → IrFunction → Option IrFunction
  unfolding int_log2
  shift_instead x v n f =
      let k = fresh_above (identities_in f) in
      if width == 32
      then some (
          map (replace_uses x (result k))
            (map (insert_after x (binary_operator k shl v (constant (int_log2 n)) ∷ [])) f))
      else none

  unfoldable pub shift_if_power : ℕ → Value → ℕ → IrFunction → Option IrFunction
  unfolding shift_instead is_power_of_two
  shift_if_power x v n f = if is_power_of_two width n then shift_instead x v n f else some f

  -- The operands of a product: one of them is a constant, the other is none.
  unfoldable pub optimize_product : ℕ → Value → Value → IrFunction → Option IrFunction
  unfolding shift_if_power
  optimize_product x (constant n) (constant k) f = some f
  optimize_product x (constant n) r f = shift_if_power x r n f
  optimize_product x l (constant n) f = shift_if_power x l n f
  optimize_product x l r f = some f

  unfoldable pub optimize_operator : ℕ → Option Instruction → IrFunction → Option IrFunction
  unfolding optimize_product
  optimize_operator x (some (binary_operator y mul l r)) f = optimize_product x l r f
  optimize_operator x i f = some f

  -- The loop over the instructions that stand there at its start; it also comes to those that are
  -- inserted, which are no products.
  unfoldable pub optimize_all : List ℕ → IrFunction → Option IrFunction
  unfolding optimize_operator find_in
  optimize_all [] f = some f
  optimize_all (x ∷ xs) f = elim (optimize_operator x (find_in x f) f) [
    | none ↦ none
    | some g ↦ optimize_all xs g
  ]

  unfoldable pub local_opts_pass : IrFunction → Option IrFunction
  unfolding optimize_all identities_in
  local_opts_pass f = optimize_all (identities_in f) f
