-- ===== src/Labs/StrengthReduction.antt =====
-- The pass StrengthReductionPass, labs/assignment1/src/assignment1.cpp. `width` is that of the integers,
-- at most 64, for which getSExtValue asserts nothing.
use llvm17_learning_repo.Common.{
  ℕ, zero, suc, ◌+◌, ◌-◌, ◌*◌, ◌/◌, ◌^◌, Bool, true, false, ◌||◌, Option, none, some, List, [], ◌∷◌,
  map, ltb, leb, ◌==◌, if◌then◌else◌,
}
use llvm17_learning_repo.Labs.Ir.{
  Opcode, add, sub, mul, udiv, sdiv, shl, ashr, Value, constant, argument, result, Instruction,
  binary_operator, instruction, Block, IrFunction, identities_in, find_in, retire_in, insert_after,
  fresh_above,
}
pub mod Shifts

-- `static_cast<int>(std::log2(n))`, for n from 1.
unfoldable pub log2_fuel : ℕ → ℕ → ℕ
log2_fuel zero n = 0
log2_fuel (suc f) n = if ltb n 2 then 0 else suc (log2_fuel f (n / 2))

unfoldable pub int_log2 : ℕ → ℕ
unfolding log2_fuel
int_log2 n = log2_fuel n n

pub record Shift : Type 0 where
  pub shift_value : ℕ
  pub remainder : ℕ
  pub skip : Bool

-- `none` where the behaviour is undefined: log2(0) is no int, and `1 << 31` overflows.
unfoldable pub get_best_shift_value_and_remainder : ℕ → ℕ → Option Shift
unfolding int_log2
get_best_shift_value_and_remainder constant_value max_remainder =
    if constant_value == 0 || leb (2 ^ 31) constant_value
    then none
    else some (record {
      shift_value = int_log2 constant_value;
      remainder = constant_value - 2 ^ int_log2 constant_value;
      skip = ltb max_remainder (constant_value - 2 ^ int_log2 constant_value);
    })

-- The loop `while (remainder > 0)`: each instruction works on the one before, `result n`.
unfoldable pub chain : Opcode → Value → ℕ → ℕ → Block
chain op v n zero = []
chain op v n (suc r) = binary_operator (suc n) op (result n) v ∷ chain op v (suc n) r

-- The instructions that are inserted, under the identities from `n`. The constant of the shift is an i32,
-- so that BinaryOperator::Create asserts for any other width: `none`.
unfoldable pub shift_and_sums : ℕ → Value → ℕ → ℕ → Bool → ℕ → Option Block
unfolding chain
shift_and_sums width v shift_value remainder shift_left n =
    if width == 32
    then some (
        binary_operator n (if shift_left then shl else ashr) v (constant shift_value)
        ∷ chain (if shift_left then add else sub) v n remainder)
    else none

-- The last of them, `result k`, takes the place of the instruction.
unfoldable pub insert_sums : ℕ → ℕ → IrFunction → Option Block → Option IrFunction
unfolding insert_after
insert_sums x k f none = none
insert_sums x k f (some b) = some (retire_in x (result k) (map (insert_after x b) f))

unfoldable pub substitute_with_shift_and_sums :
    ℕ → ℕ → Value → ℕ → ℕ → Bool → IrFunction → Option IrFunction
unfolding shift_and_sums insert_sums
substitute_with_shift_and_sums width x v shift_value remainder shift_left f =
    let n = fresh_above (identities_in f) in
    insert_sums x (n + remainder) f (shift_and_sums width v shift_value remainder shift_left n)

-- `none` is a failed assertion or undefined behaviour, from here on.
unfoldable pub apply_shift : ℕ → ℕ → Value → Bool → IrFunction → Option Shift → Option IrFunction
unfolding substitute_with_shift_and_sums
apply_shift width x v shift_left f none = none
apply_shift width x v shift_left f (some p) =
    if p.skip
    then some f
    else substitute_with_shift_and_sums width x v p.shift_value p.remainder shift_left f

unfoldable pub reduce_strength : ℕ → ℕ → Value → ℕ → ℕ → Bool → IrFunction → Option IrFunction
unfolding apply_shift get_best_shift_value_and_remainder
reduce_strength width x v constant_value max_remainder shift_left f =
    apply_shift width x v shift_left f
      (get_best_shift_value_and_remainder constant_value max_remainder)

-- `getSExtValue() < 0`
unfoldable pub is_negative : ℕ → ℕ → Bool
is_negative width n = leb (2 ^ (width - 1)) n

module _ (width : ℕ) where
  unfoldable pub reduce_operands : ℕ → Value → Value → ℕ → Bool → IrFunction → Option IrFunction
  unfolding reduce_strength is_negative
  reduce_operands x (constant n) r max_remainder shift_left f =
      if is_negative width n then some f else reduce_strength width x r n max_remainder shift_left f
  reduce_operands x l (constant n) max_remainder shift_left f =
      if is_negative width n then some f else reduce_strength width x l n max_remainder shift_left f
  reduce_operands x l r max_remainder shift_left f = some f

  -- `switch (op->getOpcode())`
  unfoldable pub reduce_operator : Option Instruction → IrFunction → Option IrFunction
  unfolding reduce_operands
  reduce_operator (some (binary_operator x mul l r)) f = reduce_operands x l r 3 true f
  reduce_operator (some (binary_operator x udiv l r)) f = reduce_operands x l r 10 false f
  reduce_operator (some (binary_operator x sdiv l r)) f = reduce_operands x l r 10 false f
  reduce_operator i f = some f

  -- The loop over the instructions that stand there at its start: make_early_inc_range passes over
  -- those that are inserted.
  unfoldable pub reduce_all : List ℕ → IrFunction → Option IrFunction
  unfolding reduce_operator find_in
  reduce_all [] f = some f
  reduce_all (x ∷ xs) f = elim (reduce_operator (find_in x f) f) [
    | none ↦ none
    | some g ↦ reduce_all xs g
  ]

  unfoldable pub strength_reduction_pass : IrFunction → Option IrFunction
  unfolding reduce_all identities_in
  strength_reduction_pass f = reduce_all (identities_in f) f
