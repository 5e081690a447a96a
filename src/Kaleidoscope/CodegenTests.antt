-- ===== src/Kaleidoscope/CodegenTests.antt =====
-- Runs of the methods codegen of kaleidoscope/src/ast.cpp, and examples of the theorems about them.
use llvm17_learning_repo.Common.{
  ℕ, ◌≡◌, refl, sym, subst, arith, Option, none, some, [], ◌∷◌, IsIn, inl, inr, Bool, true, false,
}
use llvm17_learning_repo.Kaleidoscope.Chars.{Bytes, codes}
use llvm17_learning_repo.Kaleidoscope.Syntax.{
  Expr, number, variable, binary, call, if_expr, for_expr, var_expr, no_args, arg, absent, present,
  no_bindings, binding, Function,
}
use llvm17_learning_repo.Kaleidoscope.Codegen.Builder.{
  Operand, literal, Gen, set_name, Result, returned, aborted, resume, attempted, report, or_fail,
  from_option, fail, ◌>>=◌, ◌>>◌, named_value, bind_name, new_number, emit,
  create_entry_block_alloca, create_block_in_function, insert_at_end, set_insert_point,
  get_insert_block, create_load, create_call, create_phi, create, attempt,
}
use llvm17_learning_repo.Kaleidoscope.Codegen.Expressions.{
  Target, gen, gen_variable, gen_binary, gen_operands, gen_operation, both_operands, gen_call,
  gen_if, gen_for, gen_var, gen_binding, restore_names, find_slot, slot_or_fail, get_function,
  get_declared, declare_again, gen_prototype, gen_assignment, assigned_name,
}
use llvm17_learning_repo.Kaleidoscope.Codegen.Functions.{
  gen_function, gen_body, gen_defined, erase_function, enter_function, store_arguments,
  keep_prototype,
}
use llvm17_learning_repo.Kaleidoscope.Codegen.Blocks.{is_closed, goes_to}
use llvm17_learning_repo.Kaleidoscope.Codegen.Blocks.Closed.{gen_function-closed}
use llvm17_learning_repo.Kaleidoscope.Codegen.Scope.{binds, BindsOnce}
use llvm17_learning_repo.Kaleidoscope.Codegen.Scope.Restored.{gen-named_values}

abbrev plain : Target
plain = record {
  Double = ℕ;
  zero_double = 0;
  one_double = 1;
  fold = λ op vs. none;
  argument_names = λ xs. xs;
  function_name = λ x fs. x;
}

abbrev start : Gen ℕ
start = record {
  named_values = λ x. none;
  function_protos = λ x. none;
  functions = λ x. none;
  fresh = 0;
  slots = [];
  order = [];
  code = λ l. [];
  insert_block = 0;
  errors = [];
}

abbrev state_of : Result ℕ (Operand ℕ) → Gen ℕ
state_of (returned o t) = t
state_of aborted = start

abbrev value_of : Result ℕ (Operand ℕ) → Operand ℕ
value_of (returned (some v) t) = v
value_of _ = literal 0

abbrev returns_value : Result ℕ (Operand ℕ) → Bool
returns_value (returned (some v) t) = true
returns_value _ = false

has_value :
    (r : Result ℕ (Operand ℕ))
    → returns_value r ≡ true
    → r ≡ returned (some (value_of r)) (state_of r)
has_value (returned (some v) t) h = refl
has_value (returned none t) h = ground arith
has_value aborted h = ground arith

-- `def f(n) if n < 3 then n else (for i = 0, i < n in f(i))`
abbrev f_function : Function ℕ
f_function = record {
  proto = record { name = codes "f"; args = codes "n" ∷ []; is_operator = false; precedence = 0 };
  body = if_expr (binary b'<' (variable (codes "n")) (number 3)) (variable (codes "n")) (
      for_expr (codes "i") (number 0) (binary b'<' (variable (codes "i")) (variable (codes "n")))
        absent (call (codes "f") (arg (variable (codes "i")) no_args)));
}

abbrev f_result : Result ℕ (Operand ℕ)
f_result = gen_function plain f_function start

f_runs : returns_value f_result ≡ true
unfolding gen_function gen_body gen_defined ◌>>◌ ◌>>=◌ resume keep_prototype or_fail report
    get_function get_declared declare_again gen_prototype erase_function enter_function
    store_arguments create_entry_block_alloca emit bind_name gen named_value create_load create
    create_block_in_function set_insert_point create_call create_phi fail from_option
    get_insert_block insert_at_end new_number attempt attempted both_operands find_slot slot_or_fail
    gen_binary gen_operands gen_operation gen_call gen_if gen_for gen_variable
f_runs = refl

-- The entry block, then, else, loop, afterloop and ifcont.
f_order : (state_of f_result).order ≡ 0 ∷ 6 ∷ 7 ∷ 11 ∷ 21 ∷ 8 ∷ []
unfolding gen_function gen_body gen_defined ◌>>◌ ◌>>=◌ resume keep_prototype or_fail report
    get_function get_declared declare_again gen_prototype erase_function enter_function
    store_arguments create_entry_block_alloca emit bind_name gen named_value create_load create
    create_block_in_function set_insert_point create_call create_phi fail from_option
    get_insert_block insert_at_end new_number attempt attempted both_operands find_slot slot_or_fail
    gen_binary gen_operands gen_operation gen_call gen_if gen_for gen_variable
f_order = refl

gen_function-closed_example :
    (is_closed ((state_of f_result).code 11) ≡ true)
    × ((m : ℕ) → IsIn m (goes_to ((state_of f_result).code 11)) → IsIn m (state_of f_result).order)
gen_function-closed_example =
    gen_function-closed plain f_function start (state_of f_result) (value_of f_result)
      (has_value f_result f_runs) 11 (subst (IsIn 11) (sym f_order) (inr (inr (inr (inl refl)))))

-- `var a = 1, b in a = b`, behind a binding of a.
abbrev shadowing : Expr ℕ
shadowing =
    var_expr (binding (codes "a") (present (number 1)) (binding (codes "b") absent no_bindings))
      (binary b'=' (variable (codes "a")) (variable (codes "b")))

abbrev bound : Gen ℕ
bound = record start { named_values = set_name (codes "a") (some 4) start.named_values }

abbrev shadowing_result : Result ℕ (Operand ℕ)
shadowing_result = gen plain shadowing bound

shadowing_runs : returns_value shadowing_result ≡ true
unfolding gen_function gen_body gen_defined ◌>>◌ ◌>>=◌ resume keep_prototype or_fail report
    get_function get_declared declare_again gen_prototype erase_function enter_function
    store_arguments create_entry_block_alloca emit bind_name gen named_value create_load create
    create_block_in_function set_insert_point create_call create_phi fail from_option
    get_insert_block insert_at_end new_number attempt attempted both_operands find_slot slot_or_fail
    gen_binary gen_operands gen_operation gen_call gen_if gen_for gen_variable gen_var gen_binding
    restore_names gen_assignment assigned_name
shadowing_runs = refl

shadowing-BindsOnce : BindsOnce shadowing
unfolding BindsOnce binds
shadowing-BindsOnce = ((refl, tt, (refl, tt, tt)), (tt, tt))

gen-named_values_example : (state_of shadowing_result).named_values ≡ bound.named_values
gen-named_values_example =
    gen-named_values plain shadowing bound (state_of shadowing_result) (value_of shadowing_result)
      shadowing-BindsOnce (has_value shadowing_result shadowing_runs)

-- `var a = 1, a = 2 in a` leaves the first a behind, in a scope that binds none.
abbrev doubled : Expr ℕ
doubled =
    var_expr
      (binding (codes "a") (present (number 1))
        (binding (codes "a") (present (number 2)) no_bindings))
      (variable (codes "a"))

doubled_leaves : (state_of (gen plain doubled start)).named_values (codes "a") ≡ some 0
unfolding gen_function gen_body gen_defined ◌>>◌ ◌>>=◌ resume keep_prototype or_fail report
    get_function get_declared declare_again gen_prototype erase_function enter_function
    store_arguments create_entry_block_alloca emit bind_name gen named_value create_load create
    create_block_in_function set_insert_point create_call create_phi fail from_option
    get_insert_block insert_at_end new_number attempt attempted both_operands find_slot slot_or_fail
    gen_binary gen_operands gen_operation gen_call gen_if gen_for gen_variable gen_var gen_binding
    restore_names gen_assignment assigned_name
doubled_leaves = refl

abbrev nothing_known : Bytes → Option ℕ
nothing_known x = none
