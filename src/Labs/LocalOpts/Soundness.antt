-- ===== src/Labs/LocalOpts/Soundness.antt =====
-- LocalOptsPass of labs/lab2/src/LocalOpts.cpp leaves a block that does what the block did.
use native.Mathlib.Nat.{mul_comm}
use llvm17_learning_repo.Common.{
  ℕ, zero, suc, ◌*◌, ◌^◌, ◌%◌, ◌<◌, ◌≡◌, refl, sym, ap, ◌∙◌, subst, false, Option, none, some, List,
  [], ◌∷◌, ◌++◌, ◌==◌, IsIn, IsIn-append_left, if_intro, arith,
}
use llvm17_learning_repo.Labs.Ir.{
  mul, shl, Value, constant, argument, result, Instruction, binary_operator, instruction, Block,
  IrFunction, identities, identities_in, find, find_in, or_else, fresh_above,
}
use llvm17_learning_repo.Labs.Ir.Machine.{Machine, Laws, value, yield_of, run, start}
use llvm17_learning_repo.Labs.Ir.Ssa.{IsSsa}
use llvm17_learning_repo.Labs.Ir.Rewriting.{AllIn, DoesSame}
use llvm17_learning_repo.Labs.StrengthReduction.{int_log2}
use llvm17_learning_repo.Labs.LocalOpts.{
  is_power_of_two, shift_instead, shift_if_power, optimize_product, optimize_operator, optimize_all,
  local_opts_pass,
}
use llvm17_learning_repo.Labs.LocalOpts.Powers.{is_power_of_two-exact}
use llvm17_learning_repo.Labs.LocalOpts.Inserting.{fresh_above-fresh}
use llvm17_learning_repo.Labs.LocalOpts.Editing.{Stands, edited, edited-same, edited-IsSsa}

-- Nothing is asked of an instruction.
abbrev pub IsAny : Instruction → Type 0
IsAny i = Unit

all_any : (b : Block) → AllIn IsAny b
all_any [] = tt
all_any (i ∷ b) = (tt, all_any b)

small_power : (c : ℕ) → c < 2 ^ c
small_power zero = omega arith
small_power (suc c) = omega (arith, small_power c)

module _ (m : Machine) (laws : Laws m) where
  open laws use {mul_lem, shl_lem}

  shifted : (n c a : ℕ) → n ≡ 2 ^ c → c < m.width → m.operation mul n a ≡ m.operation shl a c
  shifted n c a e lt =
      mul_lem n a
      ∙ ap (λ p. p % 2 ^ m.width) (mul_comm n a ∙ ap (λ p. a * p) e)
      ∙ sym (shl_lem a c lt)

  module _ (y k n c : ℕ) (v : Value) (x : ℕ) (e : n ≡ 2 ^ c) (lt : c < m.width) where
    left_Stands : Stands m x k (binary_operator y mul (constant n) v) shl v (constant c)
    unfolding yield_of value
    left_Stands = record {
      bound = λ d h. (h.1, omega (arith, lt, small_power m.width));
      yields = λ d s h. shifted n c (value m s.registers v) e lt;
    }

    right_Stands : Stands m x k (binary_operator y mul v (constant n)) shl v (constant c)
    unfolding yield_of value
    right_Stands = record {
      bound = λ d h. (h.0, omega (arith, lt, small_power m.width));
      yields = λ d s h.
          mul_lem (value m s.registers v) n
          ∙ ap (λ p. p % 2 ^ m.width) (mul_comm (value m s.registers v) n)
          ∙ sym (mul_lem n (value m s.registers v))
          ∙ shifted n c (value m s.registers v) e lt;
    }

  -- A function is returned, and does what the block does.
  abbrev Done : Block → Option IrFunction → Type 0
  Done b none = ⊥
  Done b (some g) = DoesSame m IsAny b g

  module _ (wide : m.width ≡ 32) (b : Block) where
    same_block :
        (c : Block)
        → IsSsa m.width (λ j. false) c
        → (run m b start).history ≡ (run m c start).history
        → DoesSame m IsAny b (c ∷ [])
    same_block c ssa same = record {
      block = c;
      whole = refl;
      ssa = ssa;
      kept = all_any c;
      same = same;
    }

    module _ (c : Block) (x : ℕ) (i : Instruction) (found : find x c ≡ some i)
        (ssa : IsSsa m.width (λ j. false) c)
        (same : (run m b start).history ≡ (run m c start).history) where
      new_identity : IsIn (fresh_above (identities_in (c ∷ []))) (identities c) → ⊥
      unfolding identities_in
      new_identity h = omega (
        arith,
        fresh_above-fresh (identities c ++ []) (fresh_above (identities c ++ []))
            (IsIn-append_left (fresh_above (identities c ++ [])) (identities c) [] h),
      )

      shift_instead-Done :
          (v : Value) (n : ℕ)
          → Stands m x (fresh_above (identities_in (c ∷ []))) i shl v (constant (int_log2 n))
          → Done b (shift_instead m.width x v n (c ∷ []))
      unfolding shift_instead
      shift_instead-Done v n stands =
          let k = fresh_above (identities_in (c ∷ [])) in
          if_intro (Done b) (m.width == 32)
            (λ _.
              same_block (edited m x k i shl v (constant (int_log2 n)) c)
                (edited-IsSsa m x k i shl v (constant (int_log2 n)) stands c (λ j. false) found ssa
                  refl new_identity)
                (same
                  ∙ edited-same m x k i shl v (constant (int_log2 n)) stands c (λ j. false) start
                      found ssa refl new_identity))
            (λ h. ground (arith, h, wide))

      shift_if_power-Done :
          (v : Value) (n : ℕ)
          → (n ≡ 2 ^ int_log2 n
              → int_log2 n < m.width
              → Stands m x (fresh_above (identities_in (c ∷ []))) i shl v (constant (int_log2 n)))
          → Done b (shift_if_power m.width x v n (c ∷ []))
      unfolding shift_if_power
      shift_if_power-Done v n stands =
          if_intro (Done b) (is_power_of_two m.width n)
            (λ h.
              let (e, lt) = (is_power_of_two-exact m.width n (omega (arith, wide))).0 h in
              shift_instead-Done v n (stands e (omega (arith, lt))))
            (λ h. same_block c ssa same)

    module _ (c : Block) (x : ℕ) (ssa : IsSsa m.width (λ j. false) c)
        (same : (run m b start).history ≡ (run m c start).history) where
      optimize_product-Done :
          (y : ℕ) (l r : Value)
          → find x c ≡ some (binary_operator y mul l r)
          → Done b (optimize_product m.width x l r (c ∷ []))
      unfolding optimize_product
      optimize_product-Done y (constant n) (constant k) found = same_block c ssa same
      optimize_product-Done y (constant n) (argument k) found =
          shift_if_power-Done c x (binary_operator y mul (constant n) (argument k)) found ssa same
            (argument k) n
            (left_Stands y (fresh_above (identities_in (c ∷ []))) n (int_log2 n) (argument k) x)
      optimize_product-Done y (constant n) (result j) found =
          shift_if_power-Done c x (binary_operator y mul (constant n) (result j)) found ssa same
            (result j) n
            (left_Stands y (fresh_above (identities_in (c ∷ []))) n (int_log2 n) (result j) x)
      optimize_product-Done y (argument k) (constant n) found =
          shift_if_power-Done c x (binary_operator y mul (argument k) (constant n)) found ssa same
            (argument k) n
            (right_Stands y (fresh_above (identities_in (c ∷ []))) n (int_log2 n) (argument k) x)
      optimize_product-Done y (result j) (constant n) found =
          shift_if_power-Done c x (binary_operator y mul (result j) (constant n)) found ssa same
            (result j) n
            (right_Stands y (fresh_above (identities_in (c ∷ []))) n (int_log2 n) (result j) x)
      optimize_product-Done y (argument k) (argument q) found = same_block c ssa same
      optimize_product-Done y (argument k) (result q) found = same_block c ssa same
      optimize_product-Done y (result k) (argument q) found = same_block c ssa same
      optimize_product-Done y (result k) (result q) found = same_block c ssa same

      optimize_operator-Done :
          (o : Option Instruction) → find x c ≡ o → Done b (optimize_operator m.width x o (c ∷ []))
      unfolding optimize_operator
      optimize_operator-Done none found = same_block c ssa same
      optimize_operator-Done (some (instruction y tag us)) found = same_block c ssa same
      optimize_operator-Done (some (binary_operator y mul l r)) found =
          optimize_product-Done y l r found
      optimize_operator-Done (some (binary_operator y _ l r)) found = same_block c ssa same

      optimize_found-Done :
          (o : Option Instruction)
          → find x c ≡ o
          → Done b (optimize_operator m.width x (or_else o none) (c ∷ []))
      optimize_found-Done none found = optimize_operator-Done none found
      optimize_found-Done (some i) found = optimize_operator-Done (some i) found

    optimize_one-Done :
        (x : ℕ) (f : IrFunction)
        → DoesSame m IsAny b f
        → Done b (optimize_operator m.width x (find_in x f) f)
    unfolding find_in
    optimize_one-Done x f h =
        subst (λ g. Done b (optimize_operator m.width x (find_in x g) g)) (sym h.whole)
          (optimize_found-Done h.block x h.ssa h.same (find x h.block) refl)

    Done-next :
        (o : Option IrFunction) (k : IrFunction → Option IrFunction)
        → Done b o
        → ((g : IrFunction) → DoesSame m IsAny b g → Done b (k g))
        → Done b (elim o [ none ↦ none | some g ↦ k g ])
    Done-next none k h f = h
    Done-next (some g) k h f = f g h

    optimize_all-Done :
        (xs : List ℕ) (f : IrFunction) → DoesSame m IsAny b f → Done b (optimize_all m.width xs f)
    unfolding optimize_all
    optimize_all-Done [] f h = h
    optimize_all-Done (x ∷ xs) f h =
        Done-next (optimize_operator m.width x (find_in x f) f) (optimize_all m.width xs)
          (optimize_one-Done x f h) (optimize_all-Done xs)

  returned_function :
      (b : Block) (o : Option IrFunction)
      → Done b o
      → (g : IrFunction) × (o ≡ some g) × DoesSame m IsAny b g
  returned_function b none h = absurd h
  returned_function b (some g) h = (g, refl, h)

  -- On a function of one block in SSA form, of integers of 32 bits, LocalOptsPass returns, and leaves one
  -- block in SSA form that does exactly what the first one did.
  pub local_opts_pass_sound :
      (b : Block)
      → m.width ≡ 32
      → IsSsa m.width (λ j. false) b
      → (g : IrFunction) × (local_opts_pass m.width (b ∷ []) ≡ some g) × DoesSame m IsAny b g
  unfolding local_opts_pass
  local_opts_pass_sound b wide ssa =
      returned_function b _
        (optimize_all-Done wide b (identities_in (b ∷ [])) (b ∷ []) (same_block wide b b ssa refl))
