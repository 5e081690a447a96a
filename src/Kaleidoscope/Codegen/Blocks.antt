-- ===== src/Kaleidoscope/Codegen/Blocks.antt =====
-- The basic blocks of the function that kaleidoscope/src/ast.cpp builds: which of them have their
-- terminator, and where the terminators go.
use llvm17_learning_repo.Common.{
  ℕ, suc, ◌+◌, ◌≤◌, ◌<◌, ◌≡◌, ◌≢◌, refl, sym, ap, subst, ◌∙◌, ◌⊎◌, inl, inr, Bool, true, false,
  ◌&&◌, not, List, [], ◌∷◌, ◌++◌, IsIn, IsIn-append_left, IsIn-append_right, IsIn-append_cases,
  if◌then◌else◌, if_intro, ◌==◌, ==_iff, ==-false, ℕ-cases, arith,
}
use llvm17_learning_repo.Kaleidoscope.Codegen.Builder.{
  Operand, Instruction, compute, load, store, call_function, phi, branch, branch_if, give_back,
  set_code,
}
use llvm17_learning_repo.Kaleidoscope.Codegen.Contract.{ends_block, successors}
pub mod Transitions
pub mod Invariant
pub mod Kept
pub mod Closed

module _ {D : Type 0} where
  -- No instruction ends the block.
  unfoldable pub is_open : List (Instruction D) → Bool
  unfolding ends_block
  is_open [] = true
  is_open (i ∷ is) = not (ends_block i) && is_open is

  -- The last instruction ends the block, and no other.
  unfoldable pub is_closed : List (Instruction D) → Bool
  unfolding ends_block
  is_closed [] = false
  is_closed (i ∷ []) = ends_block i
  is_closed (i ∷ j ∷ is) = not (ends_block i) && is_closed (j ∷ is)

  -- The blocks that the instructions go on to.
  unfoldable pub goes_to : List (Instruction D) → List ℕ
  unfolding successors
  goes_to [] = []
  goes_to (i ∷ is) = successors i ++ goes_to is

  pub is_open-append :
      (is : List (Instruction D)) (i : Instruction D)
      → is_open is ≡ true
      → ends_block i ≡ false
      → is_open (is ++ i ∷ []) ≡ true
  unfolding is_open
  is_open-append [] i h e = ground (arith, e)
  is_open-append (j ∷ is) i h e = ground (arith, h, e, is_open-append is i)

  pub is_closed-append :
      (is : List (Instruction D)) (i : Instruction D)
      → is_open is ≡ true
      → ends_block i ≡ true
      → is_closed (is ++ i ∷ []) ≡ true
  unfolding is_open is_closed
  is_closed-append [] i h e = e
  is_closed-append (j ∷ []) i h e = ground (arith, h, e)
  is_closed-append (j ∷ k ∷ is) i h e = ground (arith, h, e, is_closed-append (k ∷ is) i)

  pub goes_to-append :
      (is : List (Instruction D)) (i : Instruction D) (m : ℕ)
      → IsIn m (goes_to (is ++ i ∷ []))
      → IsIn m (goes_to is) ⊎ IsIn m (successors i)
  unfolding goes_to
  goes_to-append [] i m h = elim (IsIn-append_cases m (successors i) [] h) [
    | inl p ↦ inr p
    | inr q ↦ absurd q
  ]
  goes_to-append (j ∷ is) i m h =
      elim (IsIn-append_cases m (successors j) (goes_to (is ++ i ∷ [])) h) [
        | inl p ↦ inl (IsIn-append_left m (successors j) (goes_to is) p)
        | inr q ↦ elim (goes_to-append is i m q) [
          | inl r ↦ inl (IsIn-append_right m (successors j) (goes_to is) r)
          | inr r ↦ inr r
        ]
      ]

  pub successors-none :
      (i : Instruction D) (m : ℕ) → ends_block i ≡ false → IsIn m (successors i) → ⊥
  unfolding ends_block successors
  successors-none (branch l) m h p = ground arith
  successors-none (branch_if v l k) m h p = ground arith
  successors-none (compute r op vs) m h p = p
  successors-none (load r slot) m h p = p
  successors-none (store v slot) m h p = p
  successors-none (call_function r f vs) m h p = p
  successors-none (phi r v a w b) m h p = p
  successors-none (give_back v) m h p = p

  -- Every block of the function is closed but those of `waiting`, which are open, and every jump goes to
  -- a block of the function or of `waiting`; the blocks of `kept` are in the function.
  pub record Sealed (waiting kept : List ℕ) (fresh : ℕ) (order : List ℕ)
      (code : ℕ → List (Instruction D)) : Type 0 where
    pub ends : (l : ℕ) → IsIn l order → IsIn l waiting ⊎ (is_closed (code l) ≡ true)
    pub opens : (l : ℕ) → IsIn l waiting → (l < fresh) × (is_open (code l) ≡ true)
    pub above : (l : ℕ) → fresh ≤ l → code l ≡ []
    pub jumps : (l m : ℕ) → IsIn m (goes_to (code l)) → IsIn m order ⊎ IsIn m waiting
    pub holds : (l : ℕ) → IsIn l kept → IsIn l order

  -- The block that is built is in the function, and waits beside `waiting`.
  pub record Built (waiting kept : List ℕ) (fresh : ℕ) (order : List ℕ)
      (code : ℕ → List (Instruction D)) (here : ℕ) : Type 0 where
    pub sealed : Sealed (here ∷ waiting) kept fresh order code
    pub inside : IsIn here order
    pub apart : IsIn here waiting → ⊥
