-- ===== src/Kaleidoscope/Codegen/Expressions.antt =====
-- The methods codegen of the expressions, kaleidoscope/src/ast.cpp. What a method does with the nodes
-- below it takes their codegen as arguments; `gen` ties the knot.
use Prim.Native.String.{String}
use llvm17_learning_repo.Common.{
  ℕ, Option, none, some, List, [], ◌∷◌, ◌++◌, length, ◌==◌, ◌+◌, if◌then◌else◌,
}
use llvm17_learning_repo.Kaleidoscope.Chars.{Bytes, codes}
use llvm17_learning_repo.Kaleidoscope.Syntax.{
  Expr, number, variable, unary, binary, call, if_expr, for_expr, var_expr, Args, no_args, arg,
  OptExpr, absent, present, Bindings, no_bindings, binding, Prototype,
}
use llvm17_learning_repo.Kaleidoscope.Codegen.Builder.{
  Operand, literal, Operation, fadd, fsub, fmul, fcmp_ult, fcmp_one, ui_to_fp, store, branch,
  branch_if, returned, Make, set_name, pure, fail, abort, or_fail, attempt, ◌>>=◌, ◌>>◌,
  named_value, bind_name, new_number, emit, create_entry_block_alloca, create_block_in_function,
  insert_at_end, set_insert_point, get_insert_block, create_load, create_call, create_phi, create,
}

-- What is LLVM's, over a type of doubles: the constants 0.0 and 1.0, the folding of constants, and the
-- names that the symbol tables of a function and of TheModule give, made unique, to the arguments and
-- to a new function.
pub record Target : Type 1 where
  pub Double : Type 0
  pub zero_double : Double
  pub one_double : Double
  pub fold : Operation → List (Operand Double) → Option (Operand Double)
  pub argument_names : List Bytes → List Bytes
  pub function_name : Bytes → (Bytes → Option (List Bytes)) → Bytes

abbrev pub args_size : {D : Type 0} → Args D → ℕ
args_size no_args = 0
args_size (arg e rest) = 1 + args_size rest

module _ (tg : Target) where
  open tg use {Double, zero_double, one_double, fold, argument_names, function_name}

  abbrev pub Codegen : Type 0 → Type 0
  Codegen A = Make Double A

  -- PrototypeAST::codegen, which adds a function to TheModule; the names of its arguments stand for it.
  unfoldable pub gen_prototype : Prototype → Codegen (List Bytes)
  gen_prototype p s = returned (some (argument_names p.args)) (record s {
    functions =
        set_name (function_name p.name s.functions) (some (argument_names p.args)) s.functions;
  })

  unfoldable pub declare_again : Option Prototype → Codegen (List Bytes)
  unfolding gen_prototype
  declare_again none s = returned none s
  declare_again (some p) s = gen_prototype p s

  unfoldable pub get_declared : Bytes → Option (List Bytes) → Codegen (List Bytes)
  unfolding declare_again
  get_declared name (some names) s = returned (some names) s
  get_declared name none s = declare_again (s.function_protos name) s

  -- The names of the arguments of a Function*.
  unfoldable pub get_function : Bytes → Codegen (List Bytes)
  unfolding get_declared
  get_function name s = get_declared name (s.functions name) s

  unfoldable pub slot_or_fail : String → Option ℕ → Codegen ℕ
  unfolding fail
  slot_or_fail msg none = fail msg
  slot_or_fail msg (some slot) = pure slot

  unfoldable pub find_slot : String → Bytes → Codegen ℕ
  unfolding slot_or_fail
  find_slot msg x = do old ← named_value x; slot_or_fail msg old

  unfoldable pub gen_variable : Bytes → Codegen (Operand Double)
  unfolding find_slot
  gen_variable x = do
    slot ← find_slot "VariableExprAST::codegen() | Unknown variable name" x
    create_load slot

  unfoldable pub gen_unary : ℕ → Codegen (Operand Double) → Codegen (Operand Double)
  unfolding get_function
  gen_unary op operand = do
    v ← or_fail "UnaryExprAST::codegen() | couldn't codegen the unary operand" operand
    let name = codes "unary" ++ op ∷ []
    f ← or_fail "UnaryExprAST::codegen() | Unknown unary operator" (get_function name)
    create_call name (v ∷ [])

  -- `static_cast<VariableExprAST *>(LHS.get())` and `getName()`: undefined on another node.
  unfoldable pub assigned_name : Expr Double → Codegen Bytes
  unfolding abort
  assigned_name (variable x) = pure x
  assigned_name e = abort

  unfoldable pub gen_assignment : Expr Double → Codegen (Operand Double) → Codegen (Operand Double)
  unfolding assigned_name find_slot
  gen_assignment lhs rhs = do
    v ← or_fail "BinaryExprAST::codegen() | couldn't codegen the RHS of the assignement" rhs
    x ← assigned_name lhs
    slot ← find_slot "BinaryExprAST::codegen() | Unknown variable name" x
    emit (store v slot)
    pure v

  -- `if (!L || !R)`
  unfoldable pub both_operands :
      Option (Operand Double) → Option (Operand Double) → Codegen (Operand Double × Operand Double)
  unfolding fail
  both_operands (some l) (some r) = pure (l, r)
  both_operands l r = fail "BinaryExprAST::codegen() | couldn't codegen of of my operands"

  unfoldable pub asserted : Option (List Bytes) → Codegen (List Bytes)
  unfolding abort
  asserted none = abort
  asserted (some f) = pure f

  -- A user-defined operator; `assert(F)`.
  unfoldable pub gen_operator_call : ℕ → Operand Double → Operand Double → Codegen (Operand Double)
  unfolding asserted get_function
  gen_operator_call op l r = do
    let name = codes "binary" ++ op ∷ []
    o ← attempt (get_function name)
    f ← asserted o
    create_call name (l ∷ r ∷ [])

  -- `switch (Op)`
  unfoldable pub gen_operation : ℕ → Operand Double → Operand Double → Codegen (Operand Double)
  unfolding gen_operator_call
  gen_operation op l r =
      if op == b'+'
      then create fold fadd (l ∷ r ∷ [])
      else if op == b'-'
      then create fold fsub (l ∷ r ∷ [])
      else if op == b'*'
      then create fold fmul (l ∷ r ∷ [])
      else if op == b'<'
      then (do c ← create fold fcmp_ult (l ∷ r ∷ []); create fold ui_to_fp (c ∷ []))
      else gen_operator_call op l r

  unfoldable pub gen_operands :
      ℕ → Codegen (Operand Double) → Codegen (Operand Double) → Codegen (Operand Double)
  unfolding both_operands gen_operation
  gen_operands op lhs rhs = do
    l ← attempt lhs
    r ← attempt rhs
    vs ← both_operands l r
    gen_operation op (vs.0) (vs.1)

  unfoldable pub gen_binary :
      ℕ
      → Expr Double
      → Codegen (Operand Double)
      → Codegen (Operand Double)
      → Codegen (Operand Double)
  unfolding gen_assignment gen_operands
  gen_binary op lhs l r = if op == b'=' then gen_assignment lhs r else gen_operands op l r

  unfoldable pub gen_call : Bytes → ℕ → Codegen (List (Operand Double)) → Codegen (Operand Double)
  unfolding get_function fail
  gen_call name size args = do
    f ← or_fail "CallExprAST::codegen() | Unknown function referenced" (get_function name)
    if length f == size
        then (do vs ← args; create_call name vs)
        else fail "CallExprAST::codegen() | Incorrect # arguments passed"

  unfoldable pub gen_if :
      Codegen (Operand Double)
      → Codegen (Operand Double)
      → Codegen (Operand Double)
      → Codegen (Operand Double)
  gen_if c t e = do
    v ← or_fail "IfExprAST::codegen() | couldn't codegen the condition" c
    cond ← create fold fcmp_one (v ∷ literal zero_double ∷ [])
    then_block ← create_block_in_function
    else_block ← new_number
    merge_block ← new_number
    emit (branch_if cond then_block else_block)
    set_insert_point then_block
    tv ← or_fail "IfExprAST::codegen() | couldn't codegen the then block" t
    emit (branch merge_block)
    then_end ← get_insert_block
    insert_at_end else_block
    set_insert_point else_block
    ev ← or_fail "IfExprAST::codegen() | couldn't codegen the else block" e
    emit (branch merge_block)
    else_end ← get_insert_block
    insert_at_end merge_block
    set_insert_point merge_block
    create_phi tv then_end ev else_end

  unfoldable pub gen_for :
      Bytes
      → Codegen (Operand Double)
      → Codegen (Operand Double)
      → Codegen (Operand Double)
      → Codegen (Operand Double)
      → Codegen (Operand Double)
  gen_for x start end step body = do
    slot ← create_entry_block_alloca
    v ← or_fail "ForExprAST::codegen() | couldn't codegen the start expression" start
    emit (store v slot)
    loop_block ← create_block_in_function
    emit (branch loop_block)
    set_insert_point loop_block
    old ← named_value x
    bind_name x (some slot)
    b ← or_fail "ForExprAST::codegen() | couldn't codegen the body of the loop" body
    sv ← step
    ev ← or_fail "ForExprAST::codegen() | couldn't codegen the end condition" end
    current ← create_load slot
    next ← create fold fadd (current ∷ sv ∷ [])
    emit (store next slot)
    cond ← create fold fcmp_one (ev ∷ literal zero_double ∷ [])
    after_block ← create_block_in_function
    emit (branch_if cond loop_block after_block)
    set_insert_point after_block
    bind_name x old
    pure (literal zero_double)

  -- A name of a var/in, with its initializer: the earlier binding and those of the names that follow.
  unfoldable pub gen_binding :
      Bytes
      → Codegen (Operand Double)
      → Codegen (List (Bytes × Option ℕ))
      → Codegen (List (Bytes × Option ℕ))
  gen_binding x init rest = do
    v ← init
    slot ← create_entry_block_alloca
    emit (store v slot)
    old ← named_value x
    bind_name x (some slot)
    olds ← rest
    pure ((x, old) ∷ olds)

  -- `NamedValues[VarNames[i].first] = OldBindings[i];`, from the first on.
  unfoldable pub restore_names : List (Bytes × Option ℕ) → Codegen (Unit {0})
  unfolding bind_name
  restore_names [] = pure tt
  restore_names ((x, old) ∷ olds) = do bind_name x old; restore_names olds

  unfoldable pub gen_var :
      Codegen (List (Bytes × Option ℕ)) → Codegen (Operand Double) → Codegen (Operand Double)
  unfolding restore_names
  gen_var names body = do
    olds ← names
    v ← or_fail "VarExprAST::codegen() | couldn't codegen the var/in body" body
    restore_names olds
    pure v

  unfoldable mutual
    unfolding gen_variable gen_unary gen_binary gen_call gen_if gen_for gen_binding gen_var

    pub gen : Expr Double → Make Double (Operand Double)
    gen (number v) = pure (literal v)
    gen (variable x) = gen_variable x
    gen (unary op e) = gen_unary op (gen e)
    gen (binary op l r) = gen_binary op l (gen l) (gen r)
    gen (call name args) = gen_call name (args_size args) (gen_args args)
    gen (if_expr c t e) = gen_if (gen c) (gen t) (gen e)
    gen (for_expr x start end step body) =
        gen_for x (gen start) (gen end)
          (gen_optional one_double "ForExprAST::codegen() | couldn't codegen the step expression"
            step)
          (gen body)
    gen (var_expr names body) = gen_var (gen_bindings names) (gen body)

    pub gen_args : Args Double → Make Double (List (Operand Double))
    gen_args no_args = pure []
    gen_args (arg e rest) = do v ← gen e; vs ← gen_args rest; pure (v ∷ vs)

    -- An expression that may be left out, with what stands for it.
    pub gen_optional : Double → String → OptExpr Double → Make Double (Operand Double)
    gen_optional v msg absent = pure (literal v)
    gen_optional v msg (present e) = or_fail msg (gen e)

    pub gen_bindings : Bindings Double → Make Double (List (Bytes × Option ℕ))
    gen_bindings no_bindings = pure []
    gen_bindings (binding x init rest) =
        gen_binding x
          (gen_optional zero_double
            "VarExprAST::codegen() | couldn't codegen a variable initializer" init)
          (gen_bindings rest)
