-- ===== src/Kaleidoscope/Syntax.antt =====
-- The tree of kaleidoscope/include/ast.h. A std::vector of trees and a std::unique_ptr that may be
-- null are data types of the block.
use llvm17_learning_repo.Common.{ℕ, Bool, List, ◌&&◌, ◌==◌, length}
use llvm17_learning_repo.Kaleidoscope.Chars.{Bytes}

mutual
  pub data Expr (D : Type 0) : Type 0 where
    number : D → Expr D
    variable : Bytes → Expr D
    unary : ℕ → Expr D → Expr D
    binary : ℕ → Expr D → Expr D → Expr D
    call : Bytes → Args D → Expr D
    if_expr : Expr D → Expr D → Expr D → Expr D
    for_expr : Bytes → Expr D → Expr D → OptExpr D → Expr D → Expr D
    var_expr : Bindings D → Expr D → Expr D

  pub data Args (D : Type 0) : Type 0 where
    no_args : Args D
    arg : Expr D → Args D → Args D

  pub data OptExpr (D : Type 0) : Type 0 where
    absent : OptExpr D
    present : Expr D → OptExpr D

  pub data Bindings (D : Type 0) : Type 0 where
    no_bindings : Bindings D
    binding : Bytes → OptExpr D → Bindings D → Bindings D

pub record Prototype : Type 0 where
  pub name : Bytes
  pub args : List Bytes
  pub is_operator : Bool
  pub precedence : ℕ

pub record Function (D : Type 0) : Type 0 where
  pub proto : Prototype
  pub body : Expr D

unfoldable pub is_unary_op : Prototype → Bool
is_unary_op p = p.is_operator && length p.args == 1

unfoldable pub is_binary_op : Prototype → Bool
is_binary_op p = p.is_operator && length p.args == 2
