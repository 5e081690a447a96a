-- ===== src/Kaleidoscope/Codegen/Steps.antt =====
-- What the methods codegen of kaleidoscope/src/ast.cpp that stay within a block keep.
use llvm17_learning_repo.Common.{
  ℕ, refl, Option, none, some, List, [], ◌∷◌, ◌++◌, if_intro, length, ◌==◌,
}
use Prim.Native.String.{String}
use llvm17_learning_repo.Kaleidoscope.Chars.{Bytes, codes}
use llvm17_learning_repo.Kaleidoscope.Syntax.{Expr, variable, Prototype}
use llvm17_learning_repo.Kaleidoscope.Codegen.Builder.{
  Operand, fadd, fsub, fmul, fcmp_ult, ui_to_fp, store, Gen, Make, pure, abort, fail, resume, ◌>>=◌,
}
use llvm17_learning_repo.Kaleidoscope.Codegen.Expressions.{
  Target, gen_prototype, declare_again, get_declared, get_function, slot_or_fail, find_slot,
  gen_variable, gen_unary, assigned_name, gen_assignment, both_operands, asserted,
  gen_operator_call, gen_operation, gen_operands, gen_binary, gen_call,
}
use llvm17_learning_repo.Kaleidoscope.Codegen.Contract.{
  ends_block, value, null, stopped, attempt-Post, Post-any, Keeps, IsLocal, Keeps-pure, Keeps-bind,
  Keeps-then, or_fail-Keeps, fail-Keeps, abort-Keeps, named_value-Keeps, create_load-Keeps,
  create_call-Keeps, create-Keeps,
}

module _ (tg : Target) {X : Type 0} (I : X → Gen tg.Double → Type 0) (local : IsLocal I) where
  open tg use {Double, fold, argument_names, function_name}
  open local use {keeps_emit, keeps_functions}

  gen_prototype-Keeps : (p : Prototype) → Keeps I (gen_prototype tg p)
  unfolding gen_prototype
  gen_prototype-Keeps p = record { at = λ x s i. value (keeps_functions x s _ i) }

  declare_again-Keeps : (o : Option Prototype) → Keeps I (declare_again tg o)
  unfolding declare_again
  declare_again-Keeps none = record { at = λ x s i. null }
  declare_again-Keeps (some p) = record { at = (gen_prototype-Keeps p).at }

  get_declared-Keeps : (name : Bytes) (o : Option (List Bytes)) → Keeps I (get_declared tg name o)
  unfolding get_declared
  get_declared-Keeps name (some names) = record { at = λ x s i. value i }
  get_declared-Keeps name none = record {
    at = λ x s i. (declare_again-Keeps (s.function_protos name)).at x s i;
  }

  pub get_function-Keeps : (name : Bytes) → Keeps I (get_function tg name)
  unfolding get_function
  get_function-Keeps name = record {
    at = λ x s i. (get_declared-Keeps name (s.functions name)).at x s i;
  }

  slot_or_fail-Keeps : (msg : String) (o : Option ℕ) → Keeps I (slot_or_fail tg msg o)
  unfolding slot_or_fail
  slot_or_fail-Keeps msg none = fail-Keeps I local msg
  slot_or_fail-Keeps msg (some slot) = Keeps-pure I local slot

  find_slot-Keeps : (msg : String) (y : Bytes) → Keeps I (find_slot tg msg y)
  unfolding find_slot
  find_slot-Keeps msg y = Keeps-bind I local (named_value-Keeps I local y) (slot_or_fail-Keeps msg)

  pub gen_variable-Keeps : (y : Bytes) → Keeps I (gen_variable tg y)
  unfolding gen_variable
  gen_variable-Keeps y = Keeps-bind I local (find_slot-Keeps _ y) (create_load-Keeps I local)

  pub gen_unary-Keeps :
      (op : ℕ) {p : Make Double (Operand Double)} → Keeps I p → Keeps I (gen_unary tg op p)
  unfolding gen_unary
  gen_unary-Keeps op h = Keeps-bind I local (or_fail-Keeps I local _ h) (λ v.
      Keeps-bind I local (or_fail-Keeps I local _ (get_function-Keeps (codes "unary" ++ op ∷ [])))
        (λ f. create_call-Keeps I local (codes "unary" ++ op ∷ []) (v ∷ [])))

  assigned_name-Keeps : (e : Expr Double) → Keeps I (assigned_name tg e)
  unfolding assigned_name
  assigned_name-Keeps (variable y) = Keeps-pure I local y
  assigned_name-Keeps _ = abort-Keeps I local

  gen_assignment-Keeps :
      (lhs : Expr Double) {p : Make Double (Operand Double)}
      → Keeps I p
      → Keeps I (gen_assignment tg lhs p)
  unfolding gen_assignment ends_block
  gen_assignment-Keeps lhs h = Keeps-bind I local (or_fail-Keeps I local _ h) (λ v.
      Keeps-bind I local (assigned_name-Keeps lhs) (λ y.
        Keeps-bind I local (find_slot-Keeps _ y)
          (λ slot. Keeps-then I local (keeps_emit (store v slot) refl) (Keeps-pure I local v))))

  asserted-Keeps : (o : Option (List Bytes)) → Keeps I (asserted tg o)
  unfolding asserted
  asserted-Keeps none = abort-Keeps I local
  asserted-Keeps (some f) = Keeps-pure I local f

  gen_operator_call-Keeps : (op : ℕ) (l r : Operand Double) → Keeps I (gen_operator_call tg op l r)
  unfolding gen_operator_call asserted abort resume ◌>>=◌
  gen_operator_call-Keeps op l r = record {
    at = λ x s i.
        attempt-Post (get_function tg (codes "binary" ++ op ∷ [])) _
          ((get_function-Keeps (codes "binary" ++ op ∷ [])).at x s i)
          (λ f t j.
            (Keeps-bind I local (asserted-Keeps (some f))
                (λ g. create_call-Keeps I local (codes "binary" ++ op ∷ []) (l ∷ r ∷ []))).at
              x t j)
          (λ t. stopped);
  }

  gen_operation-Keeps : (op : ℕ) (l r : Operand Double) → Keeps I (gen_operation tg op l r)
  unfolding gen_operation
  gen_operation-Keeps op l r =
      if_intro (Keeps I) (op == b'+') (λ _. create-Keeps I local fold fadd (l ∷ r ∷ []))
        (λ _.
          if_intro (Keeps I) (op == b'-') (λ _. create-Keeps I local fold fsub (l ∷ r ∷ []))
            (λ _.
              if_intro (Keeps I) (op == b'*') (λ _. create-Keeps I local fold fmul (l ∷ r ∷ []))
                (λ _.
                  if_intro (Keeps I) (op == b'<')
                    (λ _.
                      Keeps-bind I local (create-Keeps I local fold fcmp_ult (l ∷ r ∷ []))
                        (λ c. create-Keeps I local fold ui_to_fp (c ∷ [])))
                    (λ _. gen_operator_call-Keeps op l r))))

  gen_operands-Keeps :
      (op : ℕ) {p q : Make Double (Operand Double)}
      → Keeps I p
      → Keeps I q
      → Keeps I (gen_operands tg op p q)
  unfolding gen_operands both_operands fail resume ◌>>=◌
  gen_operands-Keeps op {p} {q} hp hq = record {
    at = λ x s i.
        attempt-Post p _ (hp.at x s i)
          (λ l t j.
            attempt-Post q _ (hq.at x t j) (λ r u k. (gen_operation-Keeps op l r).at x u k)
              (λ u. null))
          (λ t. attempt-Post q _ (Post-any (q t)) (λ r u k. null) (λ u. null));
  }

  pub gen_binary-Keeps :
      (op : ℕ) (lhs : Expr Double) {p q : Make Double (Operand Double)}
      → Keeps I p
      → Keeps I q
      → Keeps I (gen_binary tg op lhs p q)
  unfolding gen_binary
  gen_binary-Keeps op lhs {p} {q} hp hq =
      if_intro (Keeps I) (op == b'=') (λ _. gen_assignment-Keeps lhs hq)
        (λ _. gen_operands-Keeps op hp hq)

  pub gen_call-Keeps :
      (name : Bytes) (size : ℕ) {p : Make Double (List (Operand Double))}
      → Keeps I p
      → Keeps I (gen_call tg name size p)
  unfolding gen_call
  gen_call-Keeps name size {p} h =
      Keeps-bind I local (or_fail-Keeps I local _ (get_function-Keeps name)) (λ f.
        if_intro (Keeps I) (length f == size)
          (λ _. Keeps-bind I local h (create_call-Keeps I local name)) (λ _. fail-Keeps I local _))

  pub gen_args_step-Keeps :
      {p : Make Double (Operand Double)} {q : Make Double (List (Operand Double))}
      → Keeps I p
      → Keeps I q
      → Keeps I (p >>= λ v. q >>= λ vs. pure (v ∷ vs))
  gen_args_step-Keeps hp hq =
      Keeps-bind I local hp (λ v. Keeps-bind I local hq (λ vs. Keeps-pure I local (v ∷ vs)))
