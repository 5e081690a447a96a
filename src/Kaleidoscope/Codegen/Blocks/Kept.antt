-- ===== src/Kaleidoscope/Codegen/Blocks/Kept.antt =====
-- The methods codegen of kaleidoscope/src/ast.cpp keep the blocks of the function built.
use llvm17_learning_repo.Common.{
  ℕ, ◌≡◌, refl, sym, subst, true, ◌⊎◌, inl, inr, Option, some, List, [], ◌∷◌, IsIn,
}
use Prim.Native.String.{String}
use llvm17_learning_repo.Kaleidoscope.Chars.{Bytes}
use llvm17_learning_repo.Kaleidoscope.Syntax.{
  Expr, number, variable, unary, binary, call, if_expr, for_expr, var_expr, Args, no_args, arg,
  OptExpr, absent, present, Bindings, no_bindings, binding,
}
use llvm17_learning_repo.Kaleidoscope.Codegen.Builder.{
  Operand, literal, fadd, fcmp_one, Instruction, store, branch, branch_if, Gen, Make, ◌>>=◌, ◌>>◌,
  new_number, emit, create_block_in_function, insert_at_end, set_insert_point, get_insert_block,
}
use llvm17_learning_repo.Kaleidoscope.Codegen.Expressions.{
  Target, args_size, gen_if, gen_for, gen_binding, restore_names, gen_var, gen, gen_args,
  gen_optional, gen_bindings,
}
use llvm17_learning_repo.Kaleidoscope.Codegen.Contract.{
  ends_block, successors, Post, Post-bind, Post-mono, or_fail-Post, Keeps, Keeps-pure, Keeps-bind,
  Keeps-then, or_fail-Keeps, create_load-Keeps, create-Keeps, Turns, Turns-Keeps, kept_bind,
  kept_then, pure-Turns,
}
use llvm17_learning_repo.Kaleidoscope.Codegen.Steps.{
  gen_variable-Keeps, gen_unary-Keeps, gen_binary-Keeps, gen_call-Keeps, gen_args_step-Keeps,
}
use llvm17_learning_repo.Kaleidoscope.Codegen.Blocks.Transitions.{Sealed-same, Built-forget}
use llvm17_learning_repo.Kaleidoscope.Codegen.Blocks.Invariant.{
  IsBuilt, IsBuilt-IsLocal, named_value-IsBuilt, bind_name-IsBuilt, create_phi-IsBuilt,
  emit-IsSealed, new_block-IsBuilt, create_block-IsBuilt, insert-IsSealed, enter-IsBuilt,
  get_insert-IsSealed,
}

module _ {a b c : ℕ} (rest : List ℕ) where
  third_first : (l : ℕ) → IsIn l (a ∷ b ∷ c ∷ rest) → IsIn l (c ∷ a ∷ b ∷ rest)
  third_first l (inl e) = inr (inl e)
  third_first l (inr (inl e)) = inr (inr (inl e))
  third_first l (inr (inr (inl e))) = inl e
  third_first l (inr (inr (inr h))) = inr (inr (inr h))

  first_third : (l : ℕ) → IsIn l (c ∷ a ∷ b ∷ rest) → IsIn l (a ∷ b ∷ c ∷ rest)
  first_third l (inl e) = inr (inr (inl e))
  first_third l (inr (inl e)) = inl e
  first_third l (inr (inr (inl e))) = inr (inl e)
  first_third l (inr (inr (inr h))) = inr (inr (inr h))

swapped : {a b : ℕ} (rest : List ℕ) (l : ℕ) → IsIn l (a ∷ b ∷ rest) → IsIn l (b ∷ a ∷ rest)
swapped rest l (inl e) = inr (inl e)
swapped rest l (inr (inl e)) = inl e
swapped rest l (inr (inr h)) = inr (inr h)

module _ {D : Type 0} {waiting kept : List ℕ} where
  -- The current block ends in a branch to a block that waits, and one that waits is built next.
  leave_block :
      {Q : Operand D → Gen D → Type 0} (target next : ℕ) (rest : List ℕ)
      {k : ℕ → Make D (Operand D)} (s : Gen D)
      → IsIn target waiting
      → ((l : ℕ) → IsIn l waiting → IsIn l (next ∷ rest))
      → ((l : ℕ) → IsIn l (next ∷ rest) → IsIn l waiting)
      → (IsIn next rest → ⊥)
      → IsBuilt (waiting, kept) s
      → ((l : ℕ) (t : Gen D) → IsBuilt (rest, next ∷ kept) t → Post Q (k l t))
      → Post Q (
          (emit (branch target)
              >> (get_insert_block >>= λ l. insert_at_end next >> (set_insert_point next >> k l)))
            s)
  unfolding ends_block successors ◌>>◌
  leave_block target next rest {k} s w to from n b h =
      Post-bind (emit (branch target))
        (emit-IsSealed (branch target) s refl
          (λ m q. elim q [ inl e ↦ inr (subst (λ j. IsIn j waiting) (sym e) w) | inr z ↦ absurd z ])
          b)
        (λ a1 s1 c1. Post-bind get_insert_block (get_insert-IsSealed s1 c1) (λ l s2 c2.
          Post-bind (insert_at_end next) (insert-IsSealed next s2 (from next (inl refl)) c2)
            (λ a3 s3 c3.
              Post-bind (set_insert_point next)
                (enter-IsBuilt next s3 (inl refl) n (Sealed-same (next ∷ rest) to from c3))
                (λ a4 s4 b4. h l s4 b4))))

  -- The current block ends in a branch, and a block of the function is built next.
  branch_and_enter :
      {A : Type 0} {Q : A → Gen D → Type 0} (i : Instruction D) (next : ℕ) (rest : List ℕ)
      {q : Make D A} (s : Gen D)
      → ends_block i ≡ true
      → ((m : ℕ) → IsIn m (successors i) → IsIn m kept ⊎ IsIn m waiting)
      → ((l : ℕ) → IsIn l waiting → IsIn l (next ∷ rest))
      → ((l : ℕ) → IsIn l (next ∷ rest) → IsIn l waiting)
      → (IsIn next rest → ⊥)
      → IsIn next kept
      → IsBuilt (waiting, kept) s
      → ((t : Gen D) → IsBuilt (rest, kept) t → Post Q (q t))
      → Post Q ((emit i >> (set_insert_point next >> q)) s)
  unfolding ◌>>◌
  branch_and_enter i next rest s e targets to from n k b h =
      Post-bind (emit i) (emit-IsSealed i s e targets b) (λ a1 s1 c1.
        Post-bind (set_insert_point next)
          (enter-IsBuilt next s1 k n (Sealed-same (next ∷ rest) to from c1)) (λ a2 s2 b2. h s2 b2))

module _ (tg : Target) where
  open tg use {Double, zero_double, one_double, fold}

  gen_if-IsBuilt :
      {c t e : Make Double (Operand Double)}
      → Keeps IsBuilt c
      → Keeps IsBuilt t
      → Keeps IsBuilt e
      → Keeps IsBuilt (gen_if tg c t e)
  unfolding gen_if ends_block successors
  gen_if-IsBuilt {c} {t} {e} hc ht he =
      Keeps-bind IsBuilt IsBuilt-IsLocal (or_fail-Keeps IsBuilt IsBuilt-IsLocal _ hc) (λ v.
        Keeps-bind IsBuilt IsBuilt-IsLocal
          (create-Keeps IsBuilt IsBuilt-IsLocal fold fcmp_one (v ∷ literal zero_double ∷ []))
          (λ cond. record {
            at = λ (waiting, kept) s b.
                Post-bind create_block_in_function (create_block-IsBuilt s b) (λ f0 s0 (b0, n0).
                  Post-bind new_number (new_block-IsBuilt s0 b0) (λ f1 s1 (b1, n1).
                    Post-bind new_number (new_block-IsBuilt s1 b1) (λ f2 s2 (b2, n2).
                      branch_and_enter (branch_if cond f0 f1) f0 (f2 ∷ f1 ∷ waiting) s2 refl
                        (λ m h. elim h [
                          | inl e ↦ inl (inl e)
                          | inr (inl e) ↦ inr (inr (inl e))
                          | inr (inr z) ↦ absurd z
                        ])
                        (third_first waiting) (first_third waiting)
                        (λ h. elim h [
                          | inl e ↦ n2 (inr (inl (sym e)))
                          | inr (inl e) ↦ n1 (inl (sym e))
                          | inr (inr q) ↦ n0 q
                        ])
                        (inl refl) b2
                        (λ s3 b3.
                          Post-bind _
                            (or_fail-Post _ t (ht.at (f2 ∷ f1 ∷ waiting, f0 ∷ kept) s3 b3))
                            (λ tv s4 b4.
                              leave_block f2 f1 (f2 ∷ waiting) s4 (inl refl) (swapped waiting)
                                (swapped waiting)
                                (λ h. elim h [ inl e ↦ n2 (inl (sym e)) | inr q ↦ n1 (inr q) ]) b4
                                (λ then_end s5 b5.
                                  Post-bind _
                                    (or_fail-Post _ e (he.at (f2 ∷ waiting, f1 ∷ f0 ∷ kept) s5 b5))
                                    (λ ev s6 b6.
                                      leave_block f2 f2 waiting s6 (inl refl) (λ l h. h) (λ l h. h)
                                        (λ h. n2 (inr (inr h))) b6
                                        (λ else_end s7 b7.
                                          (create_phi-IsBuilt tv then_end ev else_end).at
                                            (waiting, kept) s7
                                            (Built-forget (λ l h. inr (inr (inr h))) b7)))))))));
          }))

  -- A jump to a block of the function or to a new block, which is built next.
  loop_test :
      {B : Type 0} {waiting kept : List ℕ} (loop_block : ℕ) (cond : Operand Double)
      {q : Make Double B}
      → IsIn loop_block kept
      → ((f : ℕ) → Turns IsBuilt (waiting, f ∷ kept) (waiting, f ∷ kept) q)
      → Turns IsBuilt
          (waiting, kept)
          (waiting, kept)
          (create_block_in_function >>= λ after_block.
            emit (branch_if cond loop_block after_block) >> (set_insert_point after_block >> q))
  unfolding ends_block successors
  loop_test {waiting = waiting} {kept} loop_block cond k hq = record {
    run = λ s b. Post-bind create_block_in_function (create_block-IsBuilt s b) (λ f s1 (b1, n1).
        branch_and_enter (branch_if cond loop_block f) f waiting s1 refl
          (λ m h. elim h [
            | inl e ↦ inl (inr (subst (λ j. IsIn j kept) (sym e) k))
            | inr (inl e) ↦ inl (inl e)
            | inr (inr z) ↦ absurd z
          ])
          (λ l h. h) (λ l h. h) n1 (inl refl) b1
          (λ s2 b2. Post-mono ((hq f).run s2 b2) (λ v t b3. Built-forget (λ l h. inr h) b3)));
  }

  -- A block that is built next, and stays in the function.
  loop_start :
      {B : Type 0} {waiting kept : List ℕ} {q : ℕ → Make Double B}
      → ((f : ℕ) → Turns IsBuilt (waiting, f ∷ kept) (waiting, f ∷ kept) (q f))
      → Turns IsBuilt
          (waiting, kept)
          (waiting, kept)
          (create_block_in_function >>= λ loop_block.
            emit (branch loop_block) >> (set_insert_point loop_block >> q loop_block))
  unfolding ends_block successors
  loop_start {waiting = waiting} hq = record {
    run = λ s b. Post-bind create_block_in_function (create_block-IsBuilt s b) (λ f s1 (b1, n1).
        branch_and_enter (branch f) f waiting s1 refl
          (λ m h. elim h [ inl e ↦ inl (inl e) | inr z ↦ absurd z ]) (λ l h. h) (λ l h. h) n1
          (inl refl) b1
          (λ s2 b2. Post-mono ((hq f).run s2 b2) (λ v t b3. Built-forget (λ l h. inr h) b3)));
  }

  gen_for-IsBuilt :
      (x : Bytes) {start end step body : Make Double (Operand Double)}
      → Keeps IsBuilt start
      → Keeps IsBuilt end
      → Keeps IsBuilt step
      → Keeps IsBuilt body
      → Keeps IsBuilt (gen_for tg x start end step body)
  unfolding gen_for ends_block
  gen_for-IsBuilt x hs he ht hb = Turns-Keeps (λ (waiting, kept).
      kept_bind (IsBuilt-IsLocal.keeps_alloca) (λ slot.
        kept_bind (or_fail-Keeps IsBuilt IsBuilt-IsLocal _ hs) (λ v.
          kept_then (IsBuilt-IsLocal.keeps_emit (store v slot) refl) (
            loop_start (λ loop_block. kept_bind (named_value-IsBuilt x) (λ old.
              kept_then (bind_name-IsBuilt x (some slot)) (
                kept_bind (or_fail-Keeps IsBuilt IsBuilt-IsLocal _ hb) (λ b. kept_bind ht (λ sv.
                  kept_bind (or_fail-Keeps IsBuilt IsBuilt-IsLocal _ he) (λ ev.
                    kept_bind (create_load-Keeps IsBuilt IsBuilt-IsLocal slot) (λ current.
                      kept_bind (create-Keeps IsBuilt IsBuilt-IsLocal fold fadd (current ∷ sv ∷ []))
                        (λ next. kept_then (IsBuilt-IsLocal.keeps_emit (store next slot) refl) (
                          kept_bind
                            (create-Keeps IsBuilt IsBuilt-IsLocal fold fcmp_one
                              (ev ∷ literal zero_double ∷ []))
                            (λ cond. loop_test loop_block cond (inl refl) (λ f.
                              kept_then (bind_name-IsBuilt x old)
                                (pure-Turns (literal zero_double)))))))))))))))))

  restore_names-IsBuilt : (olds : List (Bytes × Option ℕ)) → Keeps IsBuilt (restore_names tg olds)
  unfolding restore_names
  restore_names-IsBuilt [] = Keeps-pure IsBuilt IsBuilt-IsLocal tt
  restore_names-IsBuilt ((x, old) ∷ olds) =
      Keeps-then IsBuilt IsBuilt-IsLocal (bind_name-IsBuilt x old) (restore_names-IsBuilt olds)

  gen_var-IsBuilt :
      {p : Make Double (List (Bytes × Option ℕ))} {body : Make Double (Operand Double)}
      → Keeps IsBuilt p
      → Keeps IsBuilt body
      → Keeps IsBuilt (gen_var tg p body)
  unfolding gen_var
  gen_var-IsBuilt hp hb = Turns-Keeps (λ x. kept_bind hp (λ olds.
      kept_bind (or_fail-Keeps IsBuilt IsBuilt-IsLocal _ hb)
        (λ v. kept_then (restore_names-IsBuilt olds) (pure-Turns v))))

  gen_binding-IsBuilt :
      (x : Bytes) {init : Make Double (Operand Double)} {p : Make Double (List (Bytes × Option ℕ))}
      → Keeps IsBuilt init
      → Keeps IsBuilt p
      → Keeps IsBuilt (gen_binding tg x init p)
  unfolding gen_binding ends_block
  gen_binding-IsBuilt x hi hp = Turns-Keeps (λ y. kept_bind hi (λ v.
      kept_bind (IsBuilt-IsLocal.keeps_alloca) (λ slot.
        kept_then (IsBuilt-IsLocal.keeps_emit (store v slot) refl) (
          kept_bind (named_value-IsBuilt x) (λ old.
            kept_then (bind_name-IsBuilt x (some slot))
              (kept_bind hp (λ olds. pure-Turns ((x, old) ∷ olds))))))))

  mutual
    unfolding gen gen_args gen_optional gen_bindings

    pub gen-IsBuilt : (e : Expr Double) → Keeps IsBuilt (gen tg e)
    gen-IsBuilt (number v) = Keeps-pure IsBuilt IsBuilt-IsLocal (literal v)
    gen-IsBuilt (variable x) = gen_variable-Keeps tg IsBuilt IsBuilt-IsLocal x
    gen-IsBuilt (unary op e) = gen_unary-Keeps tg IsBuilt IsBuilt-IsLocal op (gen-IsBuilt e)
    gen-IsBuilt (binary op l r) =
        gen_binary-Keeps tg IsBuilt IsBuilt-IsLocal op l (gen-IsBuilt l) (gen-IsBuilt r)
    gen-IsBuilt (call name args) =
        gen_call-Keeps tg IsBuilt IsBuilt-IsLocal name (args_size args) (gen_args-IsBuilt args)
    gen-IsBuilt (if_expr c t e) = gen_if-IsBuilt (gen-IsBuilt c) (gen-IsBuilt t) (gen-IsBuilt e)
    gen-IsBuilt (for_expr x start end step body) =
        gen_for-IsBuilt x (gen-IsBuilt start) (gen-IsBuilt end)
          (gen_optional-IsBuilt one_double _ step) (gen-IsBuilt body)
    gen-IsBuilt (var_expr names body) =
        gen_var-IsBuilt (gen_bindings-IsBuilt names) (gen-IsBuilt body)

    gen_args-IsBuilt : (args : Args Double) → Keeps IsBuilt (gen_args tg args)
    gen_args-IsBuilt no_args = Keeps-pure IsBuilt IsBuilt-IsLocal []
    gen_args-IsBuilt (arg e rest) =
        gen_args_step-Keeps tg IsBuilt IsBuilt-IsLocal (gen-IsBuilt e) (gen_args-IsBuilt rest)

    gen_optional-IsBuilt :
        (v : Double) (msg : String) (o : OptExpr Double) → Keeps IsBuilt (gen_optional tg v msg o)
    gen_optional-IsBuilt v msg absent = Keeps-pure IsBuilt IsBuilt-IsLocal (literal v)
    gen_optional-IsBuilt v msg (present e) =
        or_fail-Keeps IsBuilt IsBuilt-IsLocal msg (gen-IsBuilt e)

    gen_bindings-IsBuilt : (names : Bindings Double) → Keeps IsBuilt (gen_bindings tg names)
    gen_bindings-IsBuilt no_bindings = Keeps-pure IsBuilt IsBuilt-IsLocal []
    gen_bindings-IsBuilt (binding x init rest) =
        gen_binding-IsBuilt x (gen_optional-IsBuilt zero_double _ init) (gen_bindings-IsBuilt rest)
