-- ===== src/Labs/MultiInstruction.antt =====
-- The pass MultiInstructionPass, labs/assignment1/src/assignment1.cpp. `width` is that of the integers; `none`
-- is a failed assertion or undefined behaviour.
use llvm17_learning_repo.Common.{
  ℕ, zero, suc, ◌+◌, ◌-◌, ◌^◌, Bool, true, false, ◌||◌, Option, none, some, List, [], ◌∷◌, ◌++◌,
  map, leb, ◌==◌, if◌then◌else◌,
}
use llvm17_learning_repo.Labs.Ir.{
  Opcode, add, sub, Value, constant, argument, result, Instruction, binary_operator, instruction,
  Block, IrFunction, identity, identities_in, find_in, replace_uses, remove,
}
pub mod Conditions

-- An int64_t: `minus n` is -n, for n from 1.
pub data Int64 : Type 0 where
  plus : ℕ → Int64
  minus : ℕ → Int64

-- `-v`, which overflows for the least int64_t.
unfoldable pub negated : Int64 → Option Int64
negated (plus n) = some (if n == 0 then plus 0 else minus n)
negated (minus n) = if leb (2 ^ 63) n then none else some (plus n)

infix 50 ◌equals◌
unfoldable pub ◌equals◌ : Int64 → Int64 → Bool
(plus n) equals (plus k) = n == k
(minus n) equals (minus k) = n == k
a equals b = false

unfoldable pub equals_negated : Int64 → Option Int64 → Option Bool
unfolding ◌equals◌
equals_negated a none = none
equals_negated a (some b) = some (a equals b)

-- The integer that bits stand for.
unfoldable pub signed : ℕ → ℕ → Int64
signed width n = if leb (2 ^ (width - 1)) n then minus (2 ^ width - n) else plus n

-- `getSExtValue()`, which asserts that the integer has at most 64 bits.
unfoldable pub get_s_ext_value : ℕ → ℕ → Option Int64
unfolding signed
get_s_ext_value width n = if leb width 64 then some (signed width n) else none

unfoldable pub with_constant : Value → Option Int64 → Option (Option (Value × Int64))
with_constant v none = none
with_constant v (some k) = some (some (v, k))

-- The variable operand and the constant, `some none` where there is no constant.
unfoldable pub parse_binop_operands : ℕ → Value → Value → Option (Option (Value × Int64))
unfolding with_constant get_s_ext_value
parse_binop_operands width (constant n) r = with_constant r (get_s_ext_value width n)
parse_binop_operands width l (constant n) = with_constant l (get_s_ext_value width n)
parse_binop_operands width l r = some none

-- `switch (userBinopOpcode)` and, in each case, `switch (useeBinopOpcode)`.
unfoldable pub compute_simplification_condition : Opcode → Opcode → Int64 → Int64 → Option Bool
unfolding negated ◌equals◌ equals_negated
compute_simplification_condition add add usee user = equals_negated usee (negated user)
compute_simplification_condition sub add usee user = some (usee equals user)
compute_simplification_condition add sub usee user = some (usee equals user)
compute_simplification_condition sub sub usee user = equals_negated usee (negated user)
compute_simplification_condition usee_opcode user_opcode usee user = some false

unfoldable pub is_use_of : ℕ → Value → Bool
is_use_of x (result j) = j == x
is_use_of x v = false

unfoldable pub any_use_of : ℕ → List Value → Bool
unfolding is_use_of
any_use_of x [] = false
any_use_of x (u ∷ us) = is_use_of x u || any_use_of x us

unfoldable pub uses : ℕ → Instruction → Bool
unfolding is_use_of any_use_of
uses x (binary_operator y op l r) = is_use_of x l || is_use_of x r
uses x (instruction y tag us) = any_use_of x us

-- `I.users()`, in the order of the block.
unfoldable pub users : ℕ → Block → List ℕ
unfolding uses identity
users x [] = []
users x (i ∷ b) = if uses x i then identity i ∷ users x b else users x b

unfoldable pub users_in : ℕ → IrFunction → List ℕ
unfolding users
users_in x [] = []
users_in x (b ∷ f) = users x b ++ users_in x f

-- The function, and the vector toDelete.
pub record Sweep : Type 0 where
  pub function : IrFunction
  pub to_delete : List ℕ

-- `userBinop->replaceAllUsesWith(useeVarOperand); toDelete.push_back(userBinop);`
unfoldable pub simplify_user : ℕ → Value → Sweep → Sweep
unfolding replace_uses
simplify_user y v s = record {
  function = map (replace_uses y v) s.function;
  to_delete = s.to_delete ++ y ∷ [];
}

unfoldable pub simplify_if : ℕ → Value → Sweep → Option Bool → Option Sweep
unfolding simplify_user
simplify_if y v s none = none
simplify_if y v s (some c) = some (if c then simplify_user y v s else s)

unfoldable pub check_user :
    Opcode → Value → Int64 → ℕ → Opcode → Sweep → Option (Option (Value × Int64)) → Option Sweep
unfolding compute_simplification_condition simplify_if
check_user op v c y user_op s none = none
check_user op v c y user_op s (some none) = some s
check_user op v c y user_op s (some (some (w, k))) =
    simplify_if y v s (compute_simplification_condition op user_op c k)

module _ (width : ℕ) where
  -- `dyn_cast<BinaryOperator>(user)` and what follows.
  unfoldable pub visit_user : Opcode → Value → Int64 → Option Instruction → Sweep → Option Sweep
  unfolding check_user parse_binop_operands
  visit_user op v c (some (binary_operator y user_op l r)) s =
      check_user op v c y user_op s (parse_binop_operands width l r)
  visit_user op v c i s = some s

  unfoldable pub visit_users : Opcode → Value → Int64 → List ℕ → Sweep → Option Sweep
  unfolding visit_user find_in
  visit_users op v c [] s = some s
  visit_users op v c (y ∷ ys) s = elim (visit_user op v c (find_in y s.function) s) [
    | none ↦ none
    | some t ↦ visit_users op v c ys t
  ]

  unfoldable pub visit_operands :
      ℕ → Opcode → Sweep → Option (Option (Value × Int64)) → Option Sweep
  unfolding visit_users users_in
  visit_operands x op s none = none
  visit_operands x op s (some none) = some s
  visit_operands x op s (some (some (v, c))) = visit_users op v c (users_in x s.function) s

  -- `switch (useeBinop->getOpcode())`
  unfoldable pub visit_usee : Option Instruction → Sweep → Option Sweep
  unfolding visit_operands parse_binop_operands
  visit_usee (some (binary_operator x add l r)) s =
      visit_operands x add s (parse_binop_operands width l r)
  visit_usee (some (binary_operator x sub l r)) s =
      visit_operands x sub s (parse_binop_operands width l r)
  visit_usee i s = some s

  unfoldable pub visit_usees : List ℕ → Sweep → Option Sweep
  unfolding visit_usee find_in
  visit_usees [] s = some s
  visit_usees (x ∷ xs) s = elim (visit_usee (find_in x s.function) s) [
    | none ↦ none
    | some t ↦ visit_usees xs t
  ]

-- `binop->eraseFromParent()` for those of toDelete.
unfoldable pub erase_all : List ℕ → IrFunction → IrFunction
unfolding remove
erase_all [] f = f
erase_all (y ∷ ys) f = erase_all ys (map (remove y) f)

unfoldable pub erase_swept : Option Sweep → Option IrFunction
unfolding erase_all
erase_swept none = none
erase_swept (some s) = some (erase_all s.to_delete s.function)

unfoldable pub multi_instruction_pass : ℕ → IrFunction → Option IrFunction
unfolding visit_usees erase_swept identities_in
multi_instruction_pass width f =
    erase_swept (visit_usees width (identities_in f) (record { function = f; to_delete = [] }))
