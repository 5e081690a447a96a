-- ===== src/Kaleidoscope/Codegen/Scope.antt =====
-- The scopes of the methods codegen of kaleidoscope/src/ast.cpp: what they leave in NamedValues.
use llvm17_learning_repo.Common.{
  ℕ, ◌≡◌, refl, sym, ap, subst, ◌∙◌, Bool, true, false, ◌||◌, List, [], ◌∷◌, Option, some,
  if◌then◌else◌,
}
use Prim.Native.String.{String}
use llvm17_learning_repo.Kaleidoscope.Chars.{Bytes, bytes_eq}
use llvm17_learning_repo.Kaleidoscope.Syntax.{
  Expr, number, variable, unary, binary, call, if_expr, for_expr, var_expr, Args, no_args, arg,
  OptExpr, absent, present, Bindings, no_bindings, binding, Prototype,
}
use llvm17_learning_repo.Kaleidoscope.Codegen.Builder.{
  Operand, literal, fadd, fcmp_one, Instruction, store, branch, branch_if, Gen, Make, pure, resume,
  ◌>>=◌, ◌>>◌, set_name, named_value, bind_name, new_number, emit, create_entry_block_alloca,
  create_block_in_function, insert_at_end, set_insert_point, get_insert_block, create_load,
  create_phi, phi,
}
use llvm17_learning_repo.Kaleidoscope.Codegen.Expressions.{
  Target, args_size, gen_if, gen_for, gen_binding, restore_names, gen_var, gen, gen_args,
  gen_optional, gen_bindings,
}
use llvm17_learning_repo.Kaleidoscope.Codegen.Contract.{
  ends_block, Post, value, Post-bind, or_fail-Post, Keeps, IsLocal, Keeps-pure, Keeps-bind,
  Keeps-then, or_fail-Keeps, named_value-Keeps, create_load-Keeps, create-Keeps, Turns,
}
use llvm17_learning_repo.Kaleidoscope.Codegen.Steps.{
  gen_variable-Keeps, gen_unary-Keeps, gen_binary-Keeps, gen_call-Keeps,
}
use llvm17_learning_repo.Kaleidoscope.Codegen.Names.{set_name-back}
pub mod Restored

module _ {D : Type 0} where
  -- Whether a var/in binds the name.
  unfoldable pub binds : Bytes → Bindings D → Bool
  binds x no_bindings = false
  binds x (binding y init rest) = bytes_eq x y || binds x rest

unfoldable mutual
  -- No var/in of the expression binds a name twice.
  pub BindsOnce : {D : Type 0} → Expr D → Type 0
  BindsOnce (number v) = Unit {0}
  BindsOnce (variable x) = Unit {0}
  BindsOnce (unary op e) = BindsOnce e
  BindsOnce (binary op l r) = BindsOnce l × BindsOnce r
  BindsOnce (call name args) = ArgsBindOnce args
  BindsOnce (if_expr c t e) = BindsOnce c × BindsOnce t × BindsOnce e
  BindsOnce (for_expr x start end step body) =
      BindsOnce start × BindsOnce end × OptBindsOnce step × BindsOnce body
  BindsOnce (var_expr names body) = NamesBindOnce names × BindsOnce body

  pub ArgsBindOnce : {D : Type 0} → Args D → Type 0
  ArgsBindOnce no_args = Unit {0}
  ArgsBindOnce (arg e rest) = BindsOnce e × ArgsBindOnce rest

  pub OptBindsOnce : {D : Type 0} → OptExpr D → Type 0
  OptBindsOnce absent = Unit {0}
  OptBindsOnce (present e) = BindsOnce e

  pub NamesBindOnce : {D : Type 0} → Bindings D → Type 0
  NamesBindOnce no_bindings = Unit {0}
  NamesBindOnce (binding x init rest) =
      (binds x rest ≡ false) × OptBindsOnce init × NamesBindOnce rest

module _ {D : Type 0} where
  abbrev pub NamesAre : (Bytes → Option ℕ) → Gen D → Type 0
  NamesAre m s = s.named_values ≡ m

  pub NamesAre-IsLocal : IsLocal NamesAre
  unfolding emit new_number create_entry_block_alloca
  NamesAre-IsLocal = record {
    keeps_emit = λ i h. record { at = λ m s e. value e };
    keeps_new_number = record { at = λ m s e. value e };
    keeps_alloca = record { at = λ m s e. value e };
    keeps_functions = λ m s fs e. e;
  }

  pub any_emit : (i : Instruction D) → Keeps NamesAre (emit i)
  unfolding emit
  any_emit i = record { at = λ m s e. value e }

  pub create_block-Keeps : Keeps {D = D} NamesAre create_block_in_function
  unfolding create_block_in_function
  create_block-Keeps = record { at = λ m s e. value e }

  pub insert-Keeps : (l : ℕ) → Keeps {D = D} NamesAre (insert_at_end l)
  unfolding insert_at_end
  insert-Keeps l = record { at = λ m s e. value e }

  pub set_insert-Keeps : (l : ℕ) → Keeps {D = D} NamesAre (set_insert_point l)
  unfolding set_insert_point
  set_insert-Keeps l = record { at = λ m s e. value e }

  pub get_insert-Keeps : Keeps {D = D} NamesAre get_insert_block
  unfolding get_insert_block
  get_insert-Keeps = record { at = λ m s e. value e }

  pub create_phi-Keeps :
      (v : Operand D) (a : ℕ) (w : Operand D) (b : ℕ) → Keeps NamesAre (create_phi v a w b)
  unfolding create_phi
  create_phi-Keeps v a w b =
      Keeps-bind NamesAre NamesAre-IsLocal (NamesAre-IsLocal.keeps_new_number) (λ r.
        Keeps-then NamesAre NamesAre-IsLocal (any_emit (phi r v a w b))
          (Keeps-pure NamesAre NamesAre-IsLocal (Operand.register r)))

  pub named_value-Turns :
      {B : Type 0} {m n : Bytes → Option ℕ} (x : Bytes) (f : Option ℕ → Make D B)
      → Turns NamesAre m n (f (m x))
      → Turns NamesAre m n (named_value x >>= f)
  unfolding named_value ◌>>=◌ resume
  named_value-Turns {m = m} {n} x f h = record {
    run = λ s e. subst (λ k. Post (λ a t. t.named_values ≡ n) (f (k x) s)) (sym e) (h.run s e);
  }

  pub bind_name-Turns :
      (m : Bytes → Option ℕ) (x : Bytes) (slot : Option ℕ)
      → Turns NamesAre m (set_name x slot m) (bind_name x slot)
  unfolding bind_name
  bind_name-Turns m x slot = record { run = λ s e. value (ap (set_name x slot) e) }

  pub bind-back :
      (m : Bytes → Option ℕ) (x : Bytes) (slot : Option ℕ)
      → Turns NamesAre (set_name x slot m) m (bind_name x (m x))
  unfolding bind_name
  bind-back m x slot = record {
    run = λ s e. value (ap (set_name x (m x)) e ∙ set_name-back x slot m);
  }
