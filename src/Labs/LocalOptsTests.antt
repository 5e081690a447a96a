-- ===== src/Labs/LocalOptsTests.antt =====
-- Runs of the pass of labs/lab2/src/LocalOpts.cpp, and the theorems about it at inputs.
use llvm17_learning_repo.Common.{
  ℕ, ◌+◌, ◌-◌, ◌*◌, ◌%◌, ◌^◌, ◌<◌, ◌≡◌, ◌↔◌, refl, true, false, some, [], ◌∷◌, arith,
}
use llvm17_learning_repo.Labs.Ir.{
  Opcode, add, sub, mul, shl, constant, argument, result, binary_operator, instruction, Block,
  IrFunction, identity, identities_in, fresh_above, find_in, find, insert_after, replace_uses,
}
use llvm17_learning_repo.Labs.Ir.Machine.{Machine, Laws}
use llvm17_learning_repo.Labs.Ir.Ssa.{IsSsa, define}
use llvm17_learning_repo.Labs.Ir.Rewriting.{DoesSame}
use llvm17_learning_repo.Labs.StrengthReduction.{int_log2, is_negative, log2_fuel}
use llvm17_learning_repo.Labs.LocalOpts.{
  is_power_of_two, local_opts_pass, optimize_all, optimize_operator, optimize_product,
  shift_if_power, shift_instead, bit_and,
}
use llvm17_learning_repo.Labs.LocalOpts.Powers.{is_power_of_two-exact}
use llvm17_learning_repo.Labs.LocalOpts.Soundness.{IsAny, local_opts_pass_sound}

abbrev word_operation : Opcode → ℕ → ℕ → ℕ
word_operation add a b = (a + b) % 2 ^ 32
word_operation sub a b = (a + (2 ^ 32 - b)) % 2 ^ 32
word_operation mul a b = a * b % 2 ^ 32
word_operation shl a b = a * 2 ^ b % 2 ^ 32
word_operation op a b = 0

-- Words with their wrap-around; what is not modelled yields 0, and the arguments are 7.
abbrev pub words : Machine
words = record { width = 32; operation = word_operation; respond = λ es. 0; arguments = λ k. 7 }

pub words-Laws : Laws words
words-Laws = record {
  add_lem = λ a b. refl;
  sub_lem = λ a b h. refl;
  mul_lem = λ a b. refl;
  shl_lem = λ a b h. refl;
  operation-Fits = fits;
  respond-Fits = λ es. omega arith;
  arguments-Fits = λ k. omega arith;
}
  where
    fits : (op : Opcode) (a b : ℕ) → word_operation op a b < 2 ^ 32
    fits add a b = omega arith
    fits sub a b = omega arith
    fits mul a b = omega arith
    fits shl a b = omega arith
    fits _ a b = omega arith

-- `%0 = mul %a, 8; %1 = mul 3, %0; use %1`
abbrev products : Block
products =
    binary_operator 0 mul (argument 0) (constant 8)
    ∷ binary_operator 1 mul (constant 3) (result 0)
    ∷ instruction 2 0 (result 1 ∷ [])
    ∷ []

-- The first product gets a shift behind it, the second none.
products_run :
    local_opts_pass 32 (products ∷ [])
    ≡ some (
        (binary_operator 0 mul (argument 0) (constant 8)
          ∷ binary_operator 6 shl (argument 0) (constant 3)
          ∷ binary_operator 1 mul (constant 3) (result 6)
          ∷ instruction 2 0 (result 1 ∷ [])
          ∷ [])
        ∷ [])
unfolding local_opts_pass optimize_all optimize_operator optimize_product shift_if_power
    shift_instead is_power_of_two bit_and is_negative int_log2 log2_fuel fresh_above identities_in
    find_in find insert_after replace_uses
products_run = refl

products-IsSsa : IsSsa 32 (λ j. false) products
unfolding define identity
products-IsSsa = ((tt, omega arith), refl, ((omega arith, refl), refl, ((refl, tt), refl, tt)))

local_opts_pass_sound_example :
    (g : IrFunction) × (local_opts_pass 32 (products ∷ []) ≡ some g)
    × DoesSame words IsAny products g
local_opts_pass_sound_example = local_opts_pass_sound words words-Laws products refl products-IsSsa

is_power_of_two-exact_example :
    (is_power_of_two 32 1024 ≡ true) ↔ ((1024 ≡ 2 ^ int_log2 1024) × (int_log2 1024 < 31))
is_power_of_two-exact_example = is_power_of_two-exact 32 1024 (omega arith)
