-- ===== src/Kaleidoscope/Codegen/Known/Functions.antt =====
-- FunctionAST::codegen of kaleidoscope/src/ast.cpp returns a function for a body that is known.
use llvm17_learning_repo.Common.{ℕ, Bool, true, Option, some, List, [], ◌∷◌, length}
use llvm17_learning_repo.Kaleidoscope.Chars.{Bytes}
use llvm17_learning_repo.Kaleidoscope.Syntax.{Prototype}
use llvm17_learning_repo.Kaleidoscope.Codegen.Builder.{set_name}

-- The scope of a body, and the functions that it may call, its own among them.
abbrev pub scope_of_arguments : (Bytes → Bool) → List Bytes → Bytes → Bool
scope_of_arguments scope [] = scope
scope_of_arguments scope (x ∷ xs) = scope_of_arguments (set_name x true scope) xs

abbrev pub arity_with : Prototype → (Bytes → Option ℕ) → Bytes → Option ℕ
arity_with p arity = set_name p.name (some (length p.args)) arity
