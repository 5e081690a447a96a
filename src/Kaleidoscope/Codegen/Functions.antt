-- ===== src/Kaleidoscope/Codegen/Functions.antt =====
-- FunctionAST::codegen of kaleidoscope/src/ast.cpp, all of it but BinopPrecedence, and the declaration
-- of HandleExtern in kaleidoscope/src/main.cpp.
use llvm17_learning_repo.Common.{ℕ, suc, none, some, List, [], ◌∷◌}
use llvm17_learning_repo.Kaleidoscope.Chars.{Bytes}
use llvm17_learning_repo.Kaleidoscope.Syntax.{Prototype, Function}
use llvm17_learning_repo.Kaleidoscope.Codegen.Builder.{
  Operand, parameter, store, give_back, Result, returned, aborted, set_name, pure, or_fail, ◌>>=◌,
  ◌>>◌, bind_name, emit, create_entry_block_alloca,
}
use llvm17_learning_repo.Kaleidoscope.Codegen.Expressions.{
  Target, Codegen, gen_prototype, get_function, gen,
}

module _ (tg : Target) where
  open tg use {Double}

  -- `FunctionProtos[p.getName()] = p`
  unfoldable pub keep_prototype : Prototype → Codegen tg (Unit {0})
  keep_prototype p s =
      returned (some tt) (record s { function_protos = set_name p.name (some p) s.function_protos })

  -- `BasicBlock::Create(*TheContext, "entry", TheFunction)`, SetInsertPoint and NamedValues.clear(), in
  -- a function that has no block yet: the handlers of main.cpp start a module behind each body.
  unfoldable pub enter_function : Codegen tg (Unit {0})
  enter_function s = returned (some tt) (record s {
    named_values = λ _. none;
    fresh = 1;
    slots = [];
    order = 0 ∷ [];
    code = λ _. [];
    insert_block = 0;
  })

  -- `for (auto &Arg : TheFunction->args())`, from the argument `i` on.
  unfoldable pub store_arguments : ℕ → List Bytes → Codegen tg (Unit {0})
  store_arguments i [] = pure tt
  store_arguments i (x ∷ xs) = do
    slot ← create_entry_block_alloca
    emit (store (parameter i) slot)
    bind_name x (some slot)
    store_arguments (suc i) xs

  -- The body and its CreateRet; verifyFunction and the passes of TheFPM that run behind it are LLVM's.
  unfoldable pub gen_body : List Bytes → Function Double → Codegen tg (Operand Double)
  gen_body names fn = do
    enter_function
    store_arguments 0 names
    v ← gen tg fn.body
    emit (give_back v)
    pure v

  -- `TheFunction->eraseFromParent()` and nullptr, behind a body that returned nullptr.
  unfoldable pub erase_function :
      Prototype → Result Double (Operand Double) → Result Double (Operand Double)
  erase_function p (returned none t) = returned none (record t {
    functions = set_name p.name none t.functions;
    errors = "FunctionAST::codegen() | Function body could not be codegened." ∷ t.errors;
  })
  erase_function p (returned (some v) t) = returned (some v) t
  erase_function p aborted = aborted

  unfoldable pub gen_defined : Function Double → List Bytes → Codegen tg (Operand Double)
  gen_defined fn names s = erase_function fn.proto (gen_body names fn s)

  unfoldable pub gen_function : Function Double → Codegen tg (Operand Double)
  gen_function fn = do
    keep_prototype fn.proto
    names ←
        or_fail "FunctionAST::codegen() | Function prototype could not be codegened."
          (get_function tg fn.proto.name)
    gen_defined fn names

  -- `ProtoAST->codegen()` of HandleExtern; the prototype is kept behind it.
  unfoldable pub gen_extern : Prototype → Codegen tg (Unit {0})
  gen_extern p = do gen_prototype tg p; keep_prototype p
