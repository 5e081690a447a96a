-- ===== src/Labs/LocalOpts/Inserting.antt =====
-- An instruction is inserted behind another, whose uses it takes, as labs/lab2/src/LocalOpts.cpp does.
use llvm17_learning_repo.Common.{
  ℕ, ◌<◌, ◌≡◌, ◌≢◌, inl, inr, refl, sym, subst, Bool, true, false, List, [], ◌∷◌, ◌++◌, ◌==◌, IsIn,
  ℕ-cases, if_intro, ==_iff, arith,
}
use llvm17_learning_repo.Labs.Ir.{
  Value, Instruction, binary_operator, instruction, Block, identity, identities, insert_after,
  fresh_above,
}
use llvm17_learning_repo.Labs.Ir.Ssa.{
  define, AreBound, HasBound, IsSsa, define_other, define_same, define-true, define-false,
}
use llvm17_learning_repo.Labs.Ir.Editing.{IsBound-mono}

pub fresh_above-fresh : (xs : List ℕ) (j : ℕ) → IsIn j xs → j < fresh_above xs
unfolding fresh_above
fresh_above-fresh [] j h = absurd h
fresh_above-fresh (x ∷ xs) j (inl e) = omega (arith, e)
fresh_above-fresh (x ∷ xs) j (inr h) = omega (arith, fresh_above-fresh xs j h)

pub insert_here :
    (x : ℕ) (new : Block) (i : Instruction) (b : Block)
    → identity i ≡ x
    → insert_after x new (i ∷ b) ≡ i ∷ new ++ b
unfolding insert_after
insert_here x new i b e =
    if_intro (λ c. c ≡ i ∷ new ++ b) (identity i == x) (λ q. refl) (λ q. ground (arith, q, e))

pub insert_below :
    (x : ℕ) (new : Block) (i : Instruction) (b : Block)
    → identity i ≢ x
    → insert_after x new (i ∷ b) ≡ i ∷ insert_after x new b
unfolding insert_after
insert_below x new i b n =
    if_intro (λ c. c ≡ i ∷ insert_after x new b) (identity i == x)
      (λ q. absurd (n ((==_iff (identity i) x).0 q))) (λ q. refl)

module _ (w : ℕ) where
  AreBound-mono :
      (d e : ℕ → Bool)
      → ((j : ℕ) → d j ≡ true → e j ≡ true)
      → (us : List Value) → AreBound w d us
      → AreBound w e us
  AreBound-mono d e f [] h = tt
  AreBound-mono d e f (u ∷ us) h = (IsBound-mono w d e f u h.0, AreBound-mono d e f us h.1)

  pub HasBound-mono :
      (d e : ℕ → Bool)
      → ((j : ℕ) → d j ≡ true → e j ≡ true)
      → (i : Instruction) → HasBound w d i
      → HasBound w e i
  HasBound-mono d e f (binary_operator x op l r) h =
      (IsBound-mono w d e f l h.0, IsBound-mono w d e f r h.1)
  HasBound-mono d e f (instruction x tag us) h = AreBound-mono d e f us h

  define-more :
      (k : ℕ) (d e : ℕ → Bool)
      → ((j : ℕ) → d j ≡ true → e j ≡ true)
      → (j : ℕ) → define k d j ≡ true
      → define k e j ≡ true
  define-more k d e f j h = elim (ℕ-cases j k) [
    | inl q ↦ subst (λ i. define k e i ≡ true) (sym q) (define_same k e)
    | inr n ↦ define_other k e j (f j (define-true k d j h n))
  ]

  define-apart :
      (k : ℕ) (d e : ℕ → Bool) (j : ℕ)
      → (d j ≡ false → e j ≡ false)
      → define k d j ≡ false
      → define k e j ≡ false
  unfolding define
  define-apart k d e j f h = let (n, q) = define-false k d j h in ground (arith, n, f q)

  -- More identities are defined above a block, none of them its own.
  pub IsSsa-more :
      (b : Block) (d e : ℕ → Bool)
      → ((j : ℕ) → d j ≡ true → e j ≡ true)
      → ((j : ℕ) → IsIn j (identities b) → d j ≡ false → e j ≡ false)
      → IsSsa w d b
      → IsSsa w e b
  unfolding identities
  IsSsa-more [] d e sub apart ssa = tt
  IsSsa-more (i ∷ b) d e sub apart (h, new, ssa) = (
    HasBound-mono d e sub i h,
    apart (identity i) (inl refl) new,
    IsSsa-more b (define (identity i) d) (define (identity i) e) (define-more (identity i) d e sub)
        (λ j q. define-apart (identity i) d e j (apart j (inr q))) ssa,
  )
