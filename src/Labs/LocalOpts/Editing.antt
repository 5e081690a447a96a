-- ===== src/Labs/LocalOpts/Editing.antt =====
-- A block does what it did when an instruction that yields the same takes the uses of another, behind
-- which it stands.
use llvm17_learning_repo.Common.{
  ℕ, ◌≡◌, ◌≢◌, inl, inr, refl, sym, ap, ◌∙◌, subst, Bool, true, false, some, [], ◌∷◌, ◌==◌, IsIn,
  ℕ-cases, if_intro, arith,
}
use llvm17_learning_repo.Labs.Ir.{
  Opcode, Value, constant, argument, result, Instruction, binary_operator, Block, identity,
  identities, find, replace_operand, replace_in, replace_uses, insert_after,
}
use llvm17_learning_repo.Labs.Ir.Machine.{Machine, Run, update, value, observe, yield_of, step, run}
use llvm17_learning_repo.Labs.Ir.Ssa.{
  define, IsBound, HasBound, IsSsa, IsClear, define_other, define_same, define-true,
}
use llvm17_learning_repo.Labs.Ir.Replacing.{
  update_same, update_other, replace_operand_same, replace_operand_other, value-update, Agree,
  run-replace,
}
use llvm17_learning_repo.Labs.Ir.Editing.{find-cases, find-new, replace_in-bound, IsSsa-replace}
use llvm17_learning_repo.Labs.LocalOpts.Inserting.{
  insert_here, insert_below, HasBound-mono, IsSsa-more,
}

defined_apart : (d : ℕ → Bool) (j k : ℕ) → d j ≡ true → d k ≡ false → j ≢ k
defined_apart d j k old new = λ e. grind arith

result-apart : (k j : ℕ) → k ≢ j → result k ≢ result j
result-apart k j n e = n cc

IsClear-fresh : (k : ℕ) (b : Block) → (IsIn k (identities b) → ⊥) → IsClear (result k) b
unfolding identities
IsClear-fresh k [] h = tt
IsClear-fresh k (i ∷ b) h =
    (result-apart k (identity i) (λ e. h (inl e)), IsClear-fresh k b (λ q. h (inr q)))

undefined_too : (d : ℕ → Bool) (j k : ℕ) → k ≢ j → d k ≡ false → define j d k ≡ false
unfolding define
undefined_too d j k n h = ground (arith, n, h)

bound_apart :
    (w : ℕ) (d : ℕ → Bool) (x : ℕ) (u : Value) → IsBound w d u → d x ≡ false → u ≢ result x
bound_apart w d x (constant n) h new = λ e. cc
bound_apart w d x (argument n) h new = λ e. cc
bound_apart w d x (result j) h new = λ e. cc

registers_taken :
    (m : Machine) (ρ : ℕ → ℕ) (x k a c : ℕ) (d : ℕ → Bool)
    → a ≡ c
    → d k ≡ false
    → (j : ℕ) → define x d j ≡ true
    → update ρ x a j ≡ value m (update (update ρ x a) k c) (replace_operand x (result k) (result j))
unfolding value
registers_taken m ρ x k a c d e free j h = elim (ℕ-cases j x) [
  | inl q ↦
      subst
        (λ i.
          update ρ x a i
          ≡ value m (update (update ρ x a) k c) (replace_operand x (result k) (result i)))
        (sym q)
        (update_same ρ x a
          ∙ e
          ∙ sym (
              ap (value m (update (update ρ x a) k c)) (replace_operand_same x (result k))
              ∙ update_same (update ρ x a) k c))
  | inr n ↦
      let apart : j ≢ k = defined_apart d j k (define-true x d j h n) free in
      sym (
        ap (value m (update (update ρ x a) k c)) (replace_operand_other x (result k) j n)
        ∙ update_other (update ρ x a) k c j apart)
]

module _ (m : Machine) (x k : ℕ) (i : Instruction) (op : Opcode) (l r : Value) where
  abbrev inserted : Instruction
  inserted = binary_operator k op l r

  -- The block behind the edit.
  abbrev pub edited : Block → Block
  edited b = replace_uses x (result k) (insert_after x (binary_operator k op l r ∷ []) b)

  -- What is inserted uses no more than what it stands for, and yields the same.
  pub record Stands : Type 0 where
    pub bound : (d : ℕ → Bool) → HasBound m.width d i → IsBound m.width d l × IsBound m.width d r
    pub yields :
        (d : ℕ → Bool) (s : Run)
        → HasBound m.width d i
        → yield_of m i s ≡ yield_of m (binary_operator k op l r) s

  module _ (stands : Stands) where
    edited_below :
        (j : Instruction) (b : Block) (d : ℕ → Bool)
        → identity j ≢ x
        → d x ≡ false
        → HasBound m.width d j
        → edited (j ∷ b) ≡ j ∷ edited b
    unfolding replace_uses
    edited_below j b d n new h =
        ap (replace_uses x (result k)) (insert_below x (inserted ∷ []) j b n)
        ∙ ap (λ c. c ∷ edited b) (replace_in-bound m.width x (result k) d new j h)

    edited_here :
        (b : Block) (d : ℕ → Bool)
        → identity i ≡ x
        → d x ≡ false
        → HasBound m.width d i
        → edited (i ∷ b) ≡ i ∷ inserted ∷ replace_uses x (result k) b
    unfolding replace_uses
    edited_here b d e new h =
        ap (replace_uses x (result k)) (insert_here x (inserted ∷ []) i b e)
        ∙ ap (λ c. c ∷ replace_in x (result k) inserted ∷ replace_uses x (result k) b)
            (replace_in-bound m.width x (result k) d new i h)
        ∙ ap (λ c. i ∷ c ∷ replace_uses x (result k) b)
            (replace_in-bound m.width x (result k) d new inserted (stands.bound d h))

    yield_moved :
        (d : ℕ → Bool) (s : Run)
        → identity i ≡ x
        → d x ≡ false
        → HasBound m.width d i
        → yield_of m i s ≡ yield_of m inserted (step m i s)
    unfolding step yield_of
    yield_moved d s e new h =
        let (bl, br) = stands.bound d h in
        let away : (u : Value) → IsBound m.width d u → u ≢ result (identity i) =
          λ u b. bound_apart m.width d (identity i) u b (subst (λ y. d y ≡ false) (sym e) new) in
        stands.yields d s h
        ∙ sym (
            ap (λ a. m.operation op a (value m (step m i s).registers r))
              (value-update m s.registers (identity i) (yield_of m i s) l (away l bl))
            ∙ ap (m.operation op (value m s.registers l))
                (value-update m s.registers (identity i) (yield_of m i s) r (away r br)))

    -- Behind both instructions the uses may be replaced.
    inserted-Agree :
        (d : ℕ → Bool) (s : Run)
        → identity i ≡ x
        → d x ≡ false
        → d k ≡ false
        → HasBound m.width d i
        → Agree m (define x d) x (result k) (step m i s) (step m inserted (step m i s))
    unfolding step observe identity
    inserted-Agree d s e new free h = record {
      registers_agree = λ j b.
          subst
            (λ y.
              update s.registers y (yield_of m i s) j
              ≡ value m
                  (update (update s.registers y (yield_of m i s)) k
                    (yield_of m inserted (step m i s)))
                  (replace_operand x (result k) (result j)))
            (sym e)
            (registers_taken m s.registers x k (yield_of m i s) (yield_of m inserted (step m i s)) d
              (yield_moved d s e new h) free j b);
      history_agree = refl;
    }

    same_here :
        (b : Block) (d : ℕ → Bool) (s : Run)
        → identity i ≡ x
        → d x ≡ false
        → IsSsa m.width d (i ∷ b)
        → d k ≡ false
        → (IsIn k (identities b) → ⊥)
        → (run m (i ∷ b) s).history ≡ (run m (edited (i ∷ b)) s).history
    unfolding run
    same_here b d s e apart (h, new, ssa) free fresh =
        run-replace m x (result k) b (define x d) (step m i s) (step m inserted (step m i s))
          (define_same x d) (IsClear-fresh k b fresh)
          (subst (λ y. IsSsa m.width (define y d) b) e ssa) (inserted-Agree d s e apart free h)
        ∙ ap (λ c. (run m c s).history) (sym (edited_here b d e apart h))

    -- The block does what it did.
    pub edited-same :
        (b : Block) (d : ℕ → Bool) (s : Run)
        → find x b ≡ some i
        → IsSsa m.width d b
        → d k ≡ false
        → (IsIn k (identities b) → ⊥)
        → (run m b s).history ≡ (run m (edited b) s).history
    unfolding find identities run
    edited-same [] d s found ssa free fresh = absurd cc
    edited-same (j ∷ b) d s found (h, new, ssa) free fresh = elim (find-cases x j b i found) [
      | inl q ↦
          subst (λ c. (run m (c ∷ b) s).history ≡ (run m (edited (c ∷ b)) s).history) (sym q.1)
            (same_here b d s (ap identity (sym q.1) ∙ q.0)
              (find-new m.width x (j ∷ b) d i (h, new, ssa) found)
              (subst (λ c. IsSsa m.width d (c ∷ b)) q.1 (h, new, ssa)) free (λ z. fresh (inr z)))
      | inr q ↦
          let apart : d x ≡ false = find-new m.width x (j ∷ b) d i (h, new, ssa) found in
          edited-same b (define (identity j) d) (step m j s) q.1 ssa
            (undefined_too d (identity j) k (λ e. fresh (inl e)) free) (λ z. fresh (inr z))
          ∙ ap (λ c. (run m c s).history) (sym (edited_below j b d q.0 apart h))
    ]

    taken_bound :
        (d : ℕ → Bool) (j : ℕ)
        → define k d j ≡ true
        → IsBound m.width (define k d) (replace_operand x (result k) (result j))
    unfolding replace_operand
    taken_bound d j h =
        if_intro (IsBound m.width (define k d)) (j == x) (λ e. define_same k d) (λ e. h)

    IsSsa-edited_here :
        (b : Block) (d : ℕ → Bool)
        → identity i ≡ x
        → d x ≡ false
        → IsSsa m.width d (i ∷ b)
        → d k ≡ false
        → k ≢ identity i
        → (IsIn k (identities b) → ⊥)
        → IsSsa m.width d (edited (i ∷ b))
    unfolding identity
    IsSsa-edited_here b d e apart (h, new, ssa) free other fresh =
        let below = define (identity i) d in
        let none : below k ≡ false = undefined_too d (identity i) k other free in
        let more : IsSsa m.width (define k below) b =
          IsSsa-more m.width b below (define k below) (define_other k below)
            (λ j q u.
              undefined_too below k j (λ p. fresh (subst (λ z. IsIn z (identities b)) p q)) u)
            ssa in
        let old : define k below x ≡ true =
          define_other k below x (subst (λ y. define y d x ≡ true) (sym e) (define_same x d)) in
        subst (IsSsa m.width d) (sym (edited_here b d e apart h)) (
          h,
          new,
          (
            HasBound-mono m.width d below (define_other (identity i) d) inserted (stands.bound d h),
            none,
            IsSsa-replace m.width x (result k) b (define k below) (define k below) old
                (taken_bound below) (λ j q. q) more,
          ),
        )

    -- The block stays in SSA form.
    pub edited-IsSsa :
        (b : Block) (d : ℕ → Bool)
        → find x b ≡ some i
        → IsSsa m.width d b
        → d k ≡ false
        → (IsIn k (identities b) → ⊥)
        → IsSsa m.width d (edited b)
    unfolding find identities
    edited-IsSsa [] d found ssa free fresh = absurd cc
    edited-IsSsa (j ∷ b) d found (h, new, ssa) free fresh = elim (find-cases x j b i found) [
      | inl q ↦
          subst (λ c. IsSsa m.width d (edited (c ∷ b))) (sym q.1)
            (IsSsa-edited_here b d (ap identity (sym q.1) ∙ q.0)
              (find-new m.width x (j ∷ b) d i (h, new, ssa) found)
              (subst (λ c. IsSsa m.width d (c ∷ b)) q.1 (h, new, ssa)) free
              (λ e. fresh (inl (e ∙ ap identity (sym q.1)))) (λ z. fresh (inr z)))
      | inr q ↦
          let apart : d x ≡ false = find-new m.width x (j ∷ b) d i (h, new, ssa) found in
          subst (IsSsa m.width d) (sym (edited_below j b d q.0 apart h)) (
            h,
            new,
            edited-IsSsa b (define (identity j) d) q.1 ssa
                (undefined_too d (identity j) k (λ e. fresh (inl e)) free) (λ z. fresh (inr z)),
          )
    ]
