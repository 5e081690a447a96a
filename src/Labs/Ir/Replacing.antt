-- ===== src/Labs/Ir/Replacing.antt =====
-- Replacing the uses of an instruction and removing it, the edit of the passes under labs/: the
-- block stays in SSA form, and it does what it did.
use llvm17_learning_repo.Common.{
  ℕ, ◌≡◌, ◌≢◌, inl, inr, refl, sym, ap, ◌∙◌, subst, Bool, true, false, List, [], ◌∷◌, map, ◌==◌,
  ℕ-cases, if_intro, arith,
}
use llvm17_learning_repo.Labs.Ir.{
  Value, constant, argument, result, Instruction, binary_operator, instruction, Block, identity,
  replace_operand, replace_in, replace_uses,
}
use llvm17_learning_repo.Labs.Ir.Machine.{Machine, Run, update, value, observe, yield_of, step, run}
use llvm17_learning_repo.Labs.Ir.Ssa.{
  define, IsBound, AreBound, HasBound, IsSsa, IsClear, define_other, define-true,
}

pub update_same : (ρ : ℕ → ℕ) (x a : ℕ) → update ρ x a x ≡ a
unfolding update
update_same ρ x a = ground arith

pub update_other : (ρ : ℕ → ℕ) (x a j : ℕ) → j ≢ x → update ρ x a j ≡ ρ j
unfolding update
update_other ρ x a j h = ground arith

pub replace_operand_same : (x : ℕ) (v : Value) → replace_operand x v (result x) ≡ v
unfolding replace_operand
replace_operand_same x v = ground arith

pub replace_operand_other :
    (x : ℕ) (v : Value) (j : ℕ) → j ≢ x → replace_operand x v (result j) ≡ result j
unfolding replace_operand
replace_operand_other x v j h = ground arith

result_injective : (j k : ℕ) → result j ≡ result k → j ≡ k
result_injective j k h = cc

pub defined_apart : (d : ℕ → Bool) (k x : ℕ) → d k ≡ false → d x ≡ true → k ≢ x
defined_apart d k x new old = λ e. grind arith

pub replace_operand_clear :
    (x : ℕ) (v : Value) (j k : ℕ) → j ≢ k → v ≢ result k → replace_operand x v (result j) ≢ result k
unfolding replace_operand
replace_operand_clear x v j k n clear =
    if_intro (λ u. u ≢ result k) (j == x) (λ e. clear) (λ e q. n (result_injective j k q))

pub identity-replace :
    (x : ℕ) (v : Value) (i : Instruction) → identity (replace_in x v i) ≡ identity i
unfolding identity replace_in
identity-replace x v (binary_operator k op l r) = refl
identity-replace x v (instruction k tag us) = refl

module _ (m : Machine) where
  -- A value that is not the instruction just run.
  pub value-update :
      (ρ : ℕ → ℕ) (k a : ℕ) (v : Value) → v ≢ result k → value m (update ρ k a) v ≡ value m ρ v
  unfolding value
  value-update ρ k a (constant n) h = refl
  value-update ρ k a (argument n) h = refl
  value-update ρ k a (result j) h = update_other ρ k a j λ e. h (ap result e)

  -- Two runs of what stands behind a replaced instruction: the first has its value under `x`, the
  -- second under `v`.
  pub record Agree (d : ℕ → Bool) (x : ℕ) (v : Value) (s t : Run) : Type 0 where
    pub registers_agree :
        (j : ℕ) → d j ≡ true → s.registers j ≡ value m t.registers (replace_operand x v (result j))
    pub history_agree : s.history ≡ t.history

  module _ (d : ℕ → Bool) (x : ℕ) (v : Value) (s t : Run) (a : Agree d x v s t) where
    value-replace :
        (u : Value)
        → IsBound m.width d u
        → value m s.registers u ≡ value m t.registers (replace_operand x v u)
    unfolding value replace_operand
    value-replace (constant n) h = refl
    value-replace (argument k) h = refl
    value-replace (result j) h = a.registers_agree j h

    values-replace :
        (us : List Value)
        → AreBound m.width d us
        → map (value m s.registers) us ≡ map (value m t.registers) (map (replace_operand x v) us)
    values-replace [] h = refl
    values-replace (u ∷ us) h = rw (value-replace u h.0, values-replace us h.1) refl

    observe-replace :
        (i : Instruction) → HasBound m.width d i → observe m i s ≡ observe m (replace_in x v i) t
    unfolding observe replace_in
    observe-replace (binary_operator k op l r) h = a.history_agree
    observe-replace (instruction k tag us) h = rw (values-replace us h, a.history_agree) refl

    yield_of-replace :
        (i : Instruction) → HasBound m.width d i → yield_of m i s ≡ yield_of m (replace_in x v i) t
    unfolding yield_of replace_in
    yield_of-replace (binary_operator k op l r) h =
        ap (λ a. m.operation op a (value m s.registers r)) (value-replace l h.0)
        ∙ ap (m.operation op (value m t.registers (replace_operand x v l))) (value-replace r h.1)
    yield_of-replace (instruction k tag us) h =
        ap m.respond (observe-replace (instruction k tag us) h)

    registers-Agree :
        (k c j : ℕ)
        → d k ≡ false
        → d x ≡ true
        → v ≢ result k
        → define k d j ≡ true
        → update s.registers k c j
          ≡ value m (update t.registers k c) (replace_operand x v (result j))
    unfolding value
    registers-Agree k c j new old clear b = elim (ℕ-cases j k) [
      | inl e ↦
          subst
            (λ i.
              update s.registers k c i
              ≡ value m (update t.registers k c) (replace_operand x v (result i)))
            (sym e)
            (update_same s.registers k c
              ∙ sym (
                  ap (value m (update t.registers k c))
                    (replace_operand_other x v k (defined_apart d k x new old))
                  ∙ update_same t.registers k c))
      | inr n ↦
          update_other s.registers k c j n
          ∙ a.registers_agree j (define-true k d j b n)
          ∙ sym (
              value-update t.registers k c (replace_operand x v (result j))
                (replace_operand_clear x v j k n clear))
    ]

    -- The runs still agree behind an instruction below.
    step-Agree :
        (i : Instruction)
        → HasBound m.width d i
        → d (identity i) ≡ false
        → d x ≡ true
        → v ≢ result (identity i)
        → Agree (define (identity i) d) x v (step m i s) (step m (replace_in x v i) t)
    unfolding step
    step-Agree i h new old clear = record {
      registers_agree = λ j b.
          rw (identity-replace x v i, sym (yield_of-replace i h))
            (registers-Agree (identity i) (yield_of m i s) j new old clear b);
      history_agree = observe-replace i h;
    }

  -- What stands behind an instruction does the same when its uses are replaced by its value.
  pub run-replace :
      (x : ℕ) (v : Value) (b : Block) (d : ℕ → Bool) (s t : Run)
      → d x ≡ true
      → IsClear v b
      → IsSsa m.width d b
      → Agree d x v s t
      → (run m b s).history ≡ (run m (replace_uses x v b) t).history
  unfolding run replace_uses
  run-replace x v [] d s t old clear ssa a = a.history_agree
  run-replace x v (i ∷ b) d s t old clear (h, new, ssa) a =
      run-replace x v b (define (identity i) d) (step m i s) (step m (replace_in x v i) t)
        (define_other (identity i) d x old) clear.1 ssa (step-Agree d x v s t a i h new old clear.0)
