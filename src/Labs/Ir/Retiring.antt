-- ===== src/Labs/Ir/Retiring.antt =====
-- One edit of a pass under labs/ changes nothing that is observed: an instruction is replaced by a
-- value of the same run, and removed.
use llvm17_learning_repo.Common.{
  ℕ, ◌≡◌, inl, inr, sym, ap, ◌∙◌, subst, Bool, some, [], ◌∷◌, ℕ-cases,
}
use llvm17_learning_repo.Labs.Ir.{
  Value, result, Instruction, Block, identity, find, replace_operand, retire,
}
use llvm17_learning_repo.Labs.Ir.Machine.{
  Machine, Run, value, observe, yield_of, update, step, run, reach,
}
use llvm17_learning_repo.Labs.Ir.Ssa.{
  define, IsBound, IsSsa, define_other, define_same, define-false,
}
use llvm17_learning_repo.Labs.Ir.Replacing.{
  update_same, update_other, replace_operand_other, replace_operand_same, Agree, run-replace,
}
use llvm17_learning_repo.Labs.Ir.Editing.{
  IsBound-IsClear, IsBound-mono, above, above_below, above_here, find-cases, find-new, reach_below,
  reach_here, replace_in-bound, retire_below, retire_here,
}

module _ (m : Machine) (x : ℕ) (v : Value) where
  Agree-here :
      (d : ℕ → Bool) (i : Instruction) (s : Run)
      → identity i ≡ x
      → observe m i s ≡ s.history
      → yield_of m i s ≡ value m s.registers v
      → Agree m (define x d) x v (step m i s) s
  unfolding step value
  Agree-here d i s e quiet same = record {
    registers_agree = λ j b. elim (ℕ-cases j x) [
      | inl q ↦
          subst
            (λ k.
              update s.registers (identity i) (yield_of m i s) k
              ≡ value m s.registers (replace_operand x v (result k)))
            (e ∙ sym q)
            (update_same s.registers (identity i) (yield_of m i s)
              ∙ same
              ∙ ap (value m s.registers) (
                  sym (replace_operand_same x v)
                  ∙ ap (λ k. replace_operand x v (result k)) (sym e)))
      | inr q ↦
          update_other s.registers (identity i) (yield_of m i s) j (λ r. q (r ∙ e))
          ∙ ap (value m s.registers) (sym (replace_operand_other x v j q))
    ];
    history_agree = quiet;
  }

  -- The edit of a pass changes nothing that is observed.
  pub run-retire :
      (b : Block) (d : ℕ → Bool) (s : Run) (i : Instruction)
      → find x b ≡ some i
      → IsBound m.width (above x b d) v
      → IsSsa m.width d b
      → observe m i (reach m x b s) ≡ (reach m x b s).history
      → yield_of m i (reach m x b s) ≡ value m (reach m x b s).registers v
      → (run m b s).history ≡ (run m (retire x v b) s).history
  unfolding run find
  run-retire [] d s i h bound ssa quiet same = absurd cc
  run-retire (j ∷ b) d s i h bound (hb, new, ssa) quiet same = elim (find-cases x j b i h) [
    | inl q ↦
        let bound' : IsBound m.width d v =
          subst (λ e. IsBound m.width e v) (above_here x j b d q.0) bound in
        let ssa' : IsSsa m.width (define x d) b =
          subst (λ k. IsSsa m.width (define k d) b) q.0 ssa in
        run-replace m x v b (define x d) (step m j s) s (define_same x d)
          (IsBound-IsClear m.width v (define x d) b
            (IsBound-mono m.width d (define x d) (define_other x d) v bound') ssa')
          ssa'
          (Agree-here d j s q.0
            (subst (λ k. observe m k s ≡ s.history) (sym q.1)
              (subst (λ r. observe m i r ≡ r.history) (reach_here m x j b s q.0) quiet))
            (subst (λ k. yield_of m k s ≡ value m s.registers v) (sym q.1)
              (subst (λ r. yield_of m i r ≡ value m r.registers v) (reach_here m x j b s q.0)
                same)))
        ∙ ap (λ c. (run m c s).history) (sym (retire_here x v j b q.0))
    | inr q ↦
        run-retire b (define (identity j) d) (step m j s) i q.1
          (subst (λ e. IsBound m.width e v) (above_below x j b d q.0) bound) ssa
          (subst (λ r. observe m i r ≡ r.history) (reach_below m x j b s q.0) quiet)
          (subst (λ r. yield_of m i r ≡ value m r.registers v) (reach_below m x j b s q.0) same)
        ∙ ap (λ c. (run m c s).history)
            (sym (
              retire_below x v j b q.0
              ∙ ap (λ k. k ∷ retire x v b)
                  (replace_in-bound m.width x v d
                    (define-false (identity j) d x
                      (find-new m.width x b (define (identity j) d) i ssa q.1)).1
                    j hb)))
  ]
