-- ===== src/Kaleidoscope/Codegen/Blocks/Invariant.antt =====
-- The blocks of the function that is built, as an invariant of the methods codegen of
-- kaleidoscope/src/ast.cpp.
use llvm17_learning_repo.Common.{ℕ, ◌≡◌, refl, ◌⊎◌, inl, inr, true, Option, List, ◌∷◌, IsIn}
use llvm17_learning_repo.Kaleidoscope.Chars.{Bytes}
use llvm17_learning_repo.Kaleidoscope.Codegen.Builder.{
  Operand, Instruction, phi, Gen, named_value, bind_name, new_number, emit,
  create_entry_block_alloca, create_block_in_function, insert_at_end, set_insert_point,
  get_insert_block, create_phi,
}
use llvm17_learning_repo.Kaleidoscope.Codegen.Contract.{
  ends_block, successors, Post, value, Keeps, IsLocal, Keeps-pure, Keeps-bind, Keeps-then,
}
use llvm17_learning_repo.Kaleidoscope.Codegen.Blocks.{Sealed, Built}
use llvm17_learning_repo.Kaleidoscope.Codegen.Blocks.Transitions.{
  Built-emit, Built-end, Built-fresh, Built-number, Built-block, Built-insert, Built-enter,
  Sealed-insert,
}

module _ {D : Type 0} where
  -- The blocks that wait, and those that are known to be in the function.
  abbrev pub IsSealed : List ℕ → List ℕ → Gen D → Type 0
  IsSealed waiting kept s = Sealed waiting kept s.fresh s.order s.code

  abbrev pub IsBuilt : List ℕ × List ℕ → Gen D → Type 0
  IsBuilt x s = Built x.0 x.1 s.fresh s.order s.code s.insert_block

  pub IsBuilt-IsLocal : IsLocal IsBuilt
  unfolding emit new_number create_entry_block_alloca
  IsBuilt-IsLocal = record {
    keeps_emit = λ i h. record { at = λ x s b. value (Built-emit i h b) };
    keeps_new_number = record { at = λ x s b. value (Built-number b) };
    keeps_alloca = record { at = λ x s b. value (Built-number b) };
    keeps_functions = λ x s fs b. b;
  }

  pub named_value-IsBuilt : (x : Bytes) → Keeps {D = D} IsBuilt (named_value x)
  unfolding named_value
  named_value-IsBuilt x = record { at = λ y s b. value b }

  pub bind_name-IsBuilt : (x : Bytes) (slot : Option ℕ) → Keeps {D = D} IsBuilt (bind_name x slot)
  unfolding bind_name
  bind_name-IsBuilt x slot = record { at = λ y s b. value b }

  pub create_phi-IsBuilt :
      (v : Operand D) (a : ℕ) (w : Operand D) (c : ℕ) → Keeps IsBuilt (create_phi v a w c)
  unfolding create_phi ends_block
  create_phi-IsBuilt v a w c =
      Keeps-bind IsBuilt IsBuilt-IsLocal (IsBuilt-IsLocal.keeps_new_number) (λ r.
        Keeps-then IsBuilt IsBuilt-IsLocal (IsBuilt-IsLocal.keeps_emit (phi r v a w c) refl)
          (Keeps-pure IsBuilt IsBuilt-IsLocal (Operand.register r)))

  module _ {waiting kept : List ℕ} where
    -- A terminator that goes on to blocks of the function or blocks that wait.
    pub emit-IsSealed :
        (i : Instruction D) (s : Gen D)
        → ends_block i ≡ true
        → ((m : ℕ) → IsIn m (successors i) → IsIn m kept ⊎ IsIn m waiting)
        → IsBuilt (waiting, kept) s
        → Post (λ a t. IsSealed waiting kept t) (emit i s)
    unfolding emit
    emit-IsSealed i s e targets b = value (
        Built-end i e
          (λ m h. elim (targets m h) [ inl p ↦ inl (b.sealed.holds m p) | inr q ↦ inr q ]) b)

    pub new_block-IsBuilt :
        (s : Gen D)
        → IsBuilt (waiting, kept) s
        → Post (λ l t. IsBuilt (l ∷ waiting, kept) t × (IsIn l waiting → ⊥)) (new_number s)
    unfolding new_number
    new_block-IsBuilt s b = value (Built-block b, (Built-fresh b).1)

    pub create_block-IsBuilt :
        (s : Gen D)
        → IsBuilt (waiting, kept) s
        → Post
            (λ l t. IsBuilt (l ∷ waiting, l ∷ kept) t × (IsIn l waiting → ⊥))
            (create_block_in_function s)
    unfolding create_block_in_function
    create_block-IsBuilt s b =
        value (Built-insert s.fresh (inl refl) (Built-block b), (Built-fresh b).1)

    pub insert-IsSealed :
        (l : ℕ) (s : Gen D)
        → IsIn l waiting
        → IsSealed waiting kept s
        → Post (λ a t. IsSealed waiting (l ∷ kept) t) (insert_at_end l s)
    unfolding insert_at_end
    insert-IsSealed l s w b = value (Sealed-insert l w b)

    pub enter-IsBuilt :
        (l : ℕ) (s : Gen D)
        → IsIn l kept
        → (IsIn l waiting → ⊥)
        → IsSealed (l ∷ waiting) kept s
        → Post (λ a t. IsBuilt (waiting, kept) t) (set_insert_point l s)
    unfolding set_insert_point
    enter-IsBuilt l s k n b = value (Built-enter b k n)

    pub get_insert-IsSealed :
        (s : Gen D)
        → IsSealed waiting kept s
        → Post (λ a t. IsSealed waiting kept t) (get_insert_block s)
    unfolding get_insert_block
    get_insert-IsSealed s b = value b
