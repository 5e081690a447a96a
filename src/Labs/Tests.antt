-- ===== src/Labs/Tests.antt =====
-- Runs of the passes of labs/, and the theorems at inputs.
use native.Mathlib.Nat.{mod-lt}
use llvm17_learning_repo.Common.{
  ℕ, ◌+◌, ◌-◌, ◌*◌, ◌%◌, ◌^◌, ◌<◌, ◌≡◌, ◌≢◌, refl, true, false, none, some, [], ◌∷◌, arith,
}
use llvm17_learning_repo.Labs.Ir.{
  Opcode, add, sub, mul, shl, constant, argument, result, binary_operator, instruction, Block,
  retire, identity, fresh_above,
}
use llvm17_learning_repo.Labs.Ir.Machine.{Machine, Laws, run, start, value}
use llvm17_learning_repo.Labs.Ir.Ssa.{IsSsa, define}
use llvm17_learning_repo.Labs.Ir.Rewriting.{AllIn, DoesSame}
use llvm17_learning_repo.Labs.LocalOptsTests.{words, words-Laws}
use llvm17_learning_repo.Labs.AlgIdentity.{alg_identity_pass, is_one}
use llvm17_learning_repo.Labs.AlgIdentity.Soundness.{
  IsPlain, is_constant, alg_identity_pass_sound, increment, dropped, alg_identity_pass-increment,
}
use llvm17_learning_repo.Labs.MultiInstruction.{
  plus, minus, compute_simplification_condition, get_s_ext_value, multi_instruction_pass,
}
use llvm17_learning_repo.Labs.MultiInstruction.Conditions.{compute_simplification_condition-cancels}
use llvm17_learning_repo.Labs.StrengthReduction.{
  get_best_shift_value_and_remainder, shift_and_sums, Shift, strength_reduction_pass,
}
use llvm17_learning_repo.Labs.StrengthReduction.Shifts.{shift_and_sums-multiply}

abbrev byte_operation : Opcode → ℕ → ℕ → ℕ
byte_operation add a b = (a + b) % 256
byte_operation sub a b = (a + (256 - b)) % 256
byte_operation mul a b = a * b % 256
byte_operation shl a b = a * 2 ^ b % 256
byte_operation op a b = 0

-- Bytes with their wrap-around; what is not modelled yields 0, and the arguments are 7.
abbrev bytes : Machine
bytes = record { width = 8; operation = byte_operation; respond = λ es. 0; arguments = λ k. 7 }

bytes-Laws : Laws bytes
bytes-Laws = record {
  add_lem = λ a b. refl;
  sub_lem = λ a b h. refl;
  mul_lem = λ a b. refl;
  shl_lem = λ a b h. refl;
  operation-Fits = fits;
  respond-Fits = λ es. omega arith;
  arguments-Fits = λ k. omega arith;
}
  where
    fits : (op : Opcode) (a b : ℕ) → byte_operation op a b < 256
    fits add a b = omega arith
    fits sub a b = omega arith
    fits mul a b = mod-lt (a * b) (omega arith)
    fits shl a b = mod-lt (a * 2 ^ b) (omega arith)
    fits _ a b = omega arith

-- %0 = mul %a, 1; %1 = add 0, %0; %2 = add %1, %b; use %2
abbrev sum : Block
sum =
    binary_operator 0 mul (argument 0) (constant 1)
    ∷ binary_operator 1 add (constant 0) (result 0)
    ∷ binary_operator 2 add (result 1) (argument 1)
    ∷ instruction 3 0 (result 2 ∷ [])
    ∷ []

sum_run :
    alg_identity_pass (sum ∷ [])
    ≡ (binary_operator 2 add (argument 0) (argument 1) ∷ instruction 3 0 (result 2 ∷ []) ∷ []) ∷ []
unfolding alg_identity_pass retire
sum_run = refl

sum-IsSsa : IsSsa 8 (λ j. false) sum
unfolding define identity
sum-IsSsa = (
  (tt, omega arith),
  refl,
  ((omega arith, refl), refl, ((refl, tt), refl, ((refl, tt), refl, tt))),
)

sum-IsPlain : AllIn IsPlain sum
unfolding is_constant is_one
sum-IsPlain = (refl, ((refl, refl, refl), ((refl, refl, refl), (tt, tt))))

alg_identity_pass_sound_example : DoesSame bytes IsPlain sum (alg_identity_pass (sum ∷ []))
alg_identity_pass_sound_example = alg_identity_pass_sound bytes bytes-Laws sum sum-IsSsa sum-IsPlain

alg_identity_pass-increment_example :
    (alg_identity_pass (increment ∷ []) ≡ dropped ∷ [])
    × ((run bytes increment start).history ≢ (run bytes dropped start).history)
alg_identity_pass-increment_example = alg_identity_pass-increment bytes bytes-Laws (omega arith)

-- 10 = 2 ^ 3 + 2
abbrev ten : Shift
ten = record { shift_value = 3; remainder = 2; skip = false }

ten_shift : get_best_shift_value_and_remainder 10 3 ≡ some ten
unfolding get_best_shift_value_and_remainder
ten_shift = refl

shift_and_sums-multiply_example :
    (b : Block) × (shift_and_sums 32 (argument 0) 3 2 true 4 ≡ some b)
    × ((run words b start).registers 6
        ≡ words.operation mul (value words start.registers (argument 0)) 10)
    × ((run words b start).history ≡ start.history)
shift_and_sums-multiply_example =
    shift_and_sums-multiply words words-Laws 10 3 ten (argument 0) 4 start refl ten_shift
      (omega arith) λ j h e. cc

-- The constant of the shift is no byte.
byte_run :
    strength_reduction_pass 8 ((binary_operator 0 mul (argument 0) (constant 10) ∷ []) ∷ []) ≡ none
unfolding strength_reduction_pass fresh_above
byte_run = refl

-- %0 = mul %a, 10; use %0
product_run :
    strength_reduction_pass 32 (
      (binary_operator 0 mul (argument 0) (constant 10) ∷ instruction 1 0 (result 0 ∷ []) ∷ [])
      ∷ [])
    ≡ some (
        (binary_operator 3 shl (argument 0) (constant 3)
          ∷ binary_operator 4 add (result 3) (argument 0)
          ∷ binary_operator 5 add (result 4) (argument 0)
          ∷ instruction 1 0 (result 5 ∷ [])
          ∷ [])
        ∷ [])
unfolding strength_reduction_pass retire fresh_above
product_run = refl

-- A product with the constant 0 asks for the logarithm of 0.
zero_run :
    strength_reduction_pass 32 ((binary_operator 0 mul (argument 0) (constant 0) ∷ []) ∷ []) ≡ none
unfolding strength_reduction_pass
zero_run = refl

-- (x + 3) - 3 on bytes
compute_simplification_condition-cancels_example :
    bytes.operation sub (bytes.operation add 254 3) 3 ≡ 254
unfolding compute_simplification_condition get_s_ext_value
compute_simplification_condition-cancels_example =
    compute_simplification_condition-cancels bytes bytes-Laws add sub 3 3 254 (plus 3) (plus 3)
      (omega arith) (omega arith) (omega arith) refl refl refl

-- The least int64_t has no opposite, and an integer of 65 bits is not read.
least_run : compute_simplification_condition add add (plus 0) (minus (2 ^ 63)) ≡ none
unfolding compute_simplification_condition
least_run = refl

wide_run : get_s_ext_value 65 3 ≡ none
unfolding get_s_ext_value
wide_run = refl

-- %0 = sub 5, %a; %1 = add %0, 5; use %1: the constant of the subtraction is on the left.
left_run :
    multi_instruction_pass 8 (
      (binary_operator 0 sub (constant 5) (argument 0)
        ∷ binary_operator 1 add (result 0) (constant 5)
        ∷ instruction 2 0 (result 1 ∷ [])
        ∷ [])
      ∷ [])
    ≡ some (
        (binary_operator 0 sub (constant 5) (argument 0) ∷ instruction 2 0 (argument 0 ∷ []) ∷ [])
        ∷ [])
unfolding multi_instruction_pass
left_run = refl
