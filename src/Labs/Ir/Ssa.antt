-- ===== src/Labs/Ir/Ssa.antt =====
-- Blocks in SSA form: an operand is defined above its use, and nothing is defined twice.
use llvm17_learning_repo.Common.{
  ℕ, ◌^◌, ◌<◌, ◌≡◌, ◌≢◌, Bool, true, false, ◌||◌, List, [], ◌∷◌, ◌==◌, arith,
}
use llvm17_learning_repo.Labs.Ir.{
  Value, constant, argument, result, Instruction, binary_operator, instruction, Block, identity,
}

-- The identities defined so far, with one more.
unfoldable pub define : ℕ → (ℕ → Bool) → ℕ → Bool
define x d j = j == x || d j

module _ (width : ℕ) where
  abbrev pub IsBound : (ℕ → Bool) → Value → Type 0
  IsBound d (constant n) = n < 2 ^ width
  IsBound d (argument k) = Unit
  IsBound d (result j) = d j ≡ true

  abbrev pub AreBound : (ℕ → Bool) → List Value → Type 0
  AreBound d [] = Unit
  AreBound d (u ∷ us) = IsBound d u × AreBound d us

  abbrev pub HasBound : (ℕ → Bool) → Instruction → Type 0
  HasBound d (binary_operator x op l r) = IsBound d l × IsBound d r
  HasBound d (instruction x tag us) = AreBound d us

  abbrev pub IsSsa : (ℕ → Bool) → Block → Type 0
  IsSsa d [] = Unit
  IsSsa d (i ∷ b) = HasBound d i × (d (identity i) ≡ false) × IsSsa (define (identity i) d) b

-- No instruction of the block is this value.
abbrev pub IsClear : Value → Block → Type 0
IsClear v [] = Unit
IsClear v (i ∷ b) = (v ≢ result (identity i)) × IsClear v b

pub define_other : (x : ℕ) (d : ℕ → Bool) (j : ℕ) → d j ≡ true → define x d j ≡ true
unfolding define
define_other x d j h = ground arith

pub define_same : (x : ℕ) (d : ℕ → Bool) → define x d x ≡ true
unfolding define
define_same x d = ground arith

pub define-false : (x : ℕ) (d : ℕ → Bool) (j : ℕ) → define x d j ≡ false → (j ≢ x) × (d j ≡ false)
unfolding define
define-false x d j h = ground arith

pub define-true : (x : ℕ) (d : ℕ → Bool) (j : ℕ) → define x d j ≡ true → j ≢ x → d j ≡ true
unfolding define
define-true x d j h n = ground arith
