-- ===== src/Kaleidoscope/Codegen/Blocks/Closed.antt =====
-- The blocks of a function that FunctionAST::codegen of kaleidoscope/src/ast.cpp returns.
use llvm17_learning_repo.Common.{
  ℕ, suc, ◌≡◌, refl, ◌⊎◌, inl, inr, true, none, some, List, [], ◌∷◌, IsIn, arith,
}
use llvm17_learning_repo.Kaleidoscope.Chars.{Bytes}
use llvm17_learning_repo.Kaleidoscope.Syntax.{Prototype, Function}
use llvm17_learning_repo.Kaleidoscope.Codegen.Builder.{
  Operand, parameter, store, give_back, Gen, Result, returned, pure, emit, or_fail,
}
use llvm17_learning_repo.Kaleidoscope.Codegen.Expressions.{Target, get_function, gen}
use llvm17_learning_repo.Kaleidoscope.Codegen.Functions.{
  keep_prototype, enter_function, store_arguments, gen_body, erase_function, gen_defined,
  gen_function,
}
use llvm17_learning_repo.Kaleidoscope.Codegen.Contract.{
  ends_block, successors, Post, value, null, stopped, Post-bind, Post-then, Post-any, Post-returned,
  Keeps, Keeps-pure, Turns-Keeps, kept_bind, kept_then, Keeps-Turns,
}
use llvm17_learning_repo.Kaleidoscope.Codegen.Blocks.{is_open, is_closed, goes_to}
use llvm17_learning_repo.Kaleidoscope.Codegen.Blocks.Invariant.{
  IsSealed, IsBuilt, IsBuilt-IsLocal, bind_name-IsBuilt, emit-IsSealed,
}
use llvm17_learning_repo.Kaleidoscope.Codegen.Blocks.Kept.{gen-IsBuilt}

in_none : {p : Type 0} (l : ℕ) → IsIn l [] ⊎ p → p
in_none l (inl h) = absurd h
in_none l (inr e) = e

without_none : (m : ℕ) (order : List ℕ) → IsIn m order ⊎ IsIn m [] → IsIn m order
without_none m order (inl h) = h
without_none m order (inr h) = absurd h

module _ (tg : Target) where
  open tg use {Double}

  store_arguments-IsBuilt : (i : ℕ) (xs : List Bytes) → Keeps IsBuilt (store_arguments tg i xs)
  unfolding store_arguments ends_block
  store_arguments-IsBuilt i [] = Keeps-pure IsBuilt IsBuilt-IsLocal tt
  store_arguments-IsBuilt i (x ∷ xs) = Turns-Keeps (λ y.
      kept_bind (IsBuilt-IsLocal.keeps_alloca) (λ slot.
        kept_then (IsBuilt-IsLocal.keeps_emit (store (parameter i) slot) refl) (
          kept_then (bind_name-IsBuilt x (some slot))
            (Keeps-Turns (store_arguments-IsBuilt (suc i) xs)))))

  enter_function-IsBuilt : (s : Gen Double) → Post (λ a t. IsBuilt ([], []) t) (enter_function tg s)
  unfolding enter_function is_open is_closed goes_to
  enter_function-IsBuilt s = value (record {
    sealed = record {
      ends = λ l h. elim h [ inl e ↦ inl (inl e) | inr z ↦ absurd z ];
      opens = λ l h. elim h [ inl e ↦ (omega (arith, e), refl) | inr z ↦ absurd z ];
      above = λ l h. refl;
      jumps = λ l m h. absurd h;
      holds = λ l h. absurd h;
    };
    inside = inl refl;
    apart = λ h. h;
  })

  gen_body-IsSealed :
      (names : List Bytes) (fn : Function Double) (s : Gen Double)
      → Post (λ v t. IsSealed [] [] t) (gen_body tg names fn s)
  unfolding gen_body ends_block successors
  gen_body-IsSealed names fn s =
      Post-then (enter_function tg) _ (enter_function-IsBuilt s) (λ a s1 b1.
        Post-then (store_arguments tg 0 names) _ ((store_arguments-IsBuilt 0 names).at _ s1 b1)
          (λ c s2 b2. Post-bind (gen tg fn.body) ((gen-IsBuilt tg fn.body).at _ s2 b2) (λ v s3 b3.
            Post-then (emit (give_back v)) (pure v)
              (emit-IsSealed (give_back v) s3 refl (λ m h. absurd h) b3) (λ d s4 b4. value b4))))

  erase_function-Post :
      {P : Operand Double → Gen Double → Type 0} (p : Prototype)
      (r : Result Double (Operand Double))
      → Post P r
      → Post P (erase_function tg p r)
  unfolding erase_function
  erase_function-Post p (returned none t) h = null
  erase_function-Post p (returned (some v) t) h = h
  erase_function-Post p Result.aborted h = stopped

  gen_function-IsSealed :
      (fn : Function Double) (s : Gen Double)
      → Post (λ v t. IsSealed [] [] t) (gen_function tg fn s)
  unfolding gen_function gen_defined
  gen_function-IsSealed fn s =
      Post-then (keep_prototype tg fn.proto) _ (Post-any (keep_prototype tg fn.proto s)) (λ a s1 b1.
        Post-bind (or_fail _ (get_function tg fn.proto.name)) (Post-any _) (λ names s2 b2.
          erase_function-Post fn.proto (gen_body tg names fn s2) (gen_body-IsSealed names fn s2)))

  -- Each block of a function that is returned ends in a terminator, has no other, and goes on to blocks of
  -- the function.
  pub gen_function-closed :
      (fn : Function Double) (s t : Gen Double) (v : Operand Double)
      → gen_function tg fn s ≡ returned (some v) t
      → (l : ℕ) → IsIn l t.order
      → (is_closed (t.code l) ≡ true) × ((m : ℕ) → IsIn m (goes_to (t.code l)) → IsIn m t.order)
  gen_function-closed fn s t v e l h =
      let sealed = Post-returned v t (gen_function-IsSealed fn s) e in
      (in_none l (sealed.ends l h), λ m j. without_none m t.order (sealed.jumps l m j))
