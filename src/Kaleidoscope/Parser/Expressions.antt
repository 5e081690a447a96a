-- ===== src/Kaleidoscope/Parser/Expressions.antt =====
-- The expression parsers of kaleidoscope/src/parser.cpp. Each takes the parser of the expressions
-- inside it as an argument, and a loop its fuel; `parse_expression` ties the knot.
use Prim.Native.String.{String}
use llvm17_learning_repo.Common.{
  ℕ, zero, suc, Bool, true, false, not, ◌||◌, Option, none, some, ltb, ◌==◌, if◌then◌else◌,
}
use llvm17_learning_repo.Kaleidoscope.Chars.{is_ascii}
use llvm17_learning_repo.Kaleidoscope.Floating.{Floating}
use llvm17_learning_repo.Kaleidoscope.Lexer.{
  Token, tok_identifier, tok_number, tok_if, tok_then, tok_else, tok_for, tok_in, tok_var, tok_char,
}
use llvm17_learning_repo.Kaleidoscope.Syntax.{
  Expr, number, variable, unary, binary, call, if_expr, for_expr, var_expr, Args, no_args, arg,
  OptExpr, absent, present, Bindings, no_bindings, binding,
}
use llvm17_learning_repo.Kaleidoscope.Parser.State.{
  out_of_fuel, ◌is◌, pure, fail, or_log, ◌>>=◌, ◌>>◌, Parser, get_next_token, current,
  identifier_str, num_val, get_tok_precedence, expect, expect_identifier,
}

-- `!isascii(CurTok) || CurTok == '(' || CurTok == ','`: no operator stands here.
unfoldable pub begins_primary : Token → Bool
unfolding is_ascii
begins_primary (tok_char c) = not (is_ascii c) || c == b'(' || c == b','
begins_primary _ = true

-- The character of an operator token.
unfoldable pub operator_char : Token → ℕ
operator_char (tok_char c) = c
operator_char _ = 0

-- `TokPrec < NextPrec`
unfoldable pub binds_tighter : ℕ → Option ℕ → Bool
binds_tighter p none = false
binds_tighter p (some q) = ltb p q

module _ (fl : Floating) where
  open fl use {Double}

  unfoldable pub parse_number_expr : Parser fl (Expr Double)
  parse_number_expr = do v ← num_val fl; get_next_token fl; pure (number v)

  -- `if (CurTok == mark) { getNextToken(InputFile); ... }` around an optional expression.
  unfoldable pub parse_optional : Token → Parser fl (Expr Double) → Parser fl (OptExpr Double)
  parse_optional mark p = do
    t ← current fl
    if t is mark then (do get_next_token fl; e ← p; pure (present e)) else pure absent

  -- The parsers below call `expr` for ParseExpression.
  module _ (expr : Parser fl (Expr Double)) where
    unfoldable pub parse_paren_expr : Parser fl (Expr Double)
    parse_paren_expr = do
      get_next_token fl
      v ← or_log "ParseParenExpr | couldn't parse the expression inside the parenthesis" expr
      expect fl (tok_char b')') "ParseParenExpr | expected ')'"
      pure v

    -- `while (true)` over the arguments of a call, up to the ')'.
    unfoldable pub parse_args : ℕ → Parser fl (Args Double)
    parse_args zero = λ s. out_of_fuel
    parse_args (suc f) = do
      a ← or_log "ParseIdentifierExpr | couldn't parse an argument of the call expression" expr
      t ← current fl
      if t is tok_char b')' then pure (arg a no_args) else do
        expect fl (tok_char b',') "ParseIdentifierExpr | Expected ')' or ',' in argument list"
        rest ← parse_args f
        pure (arg a rest)

    -- The call behind its '(': `if (CurTok != ')')` the loop; then the ')' is eaten.
    unfoldable pub parse_call_args : ℕ → Parser fl (Args Double)
    unfolding parse_args
    parse_call_args f = do
      t ← current fl
      args ← if t is tok_char b')' then pure no_args else parse_args f
      get_next_token fl
      pure args

    unfoldable pub parse_identifier_expr : ℕ → Parser fl (Expr Double)
    unfolding parse_call_args
    parse_identifier_expr f = do
      name ← identifier_str fl
      get_next_token fl
      t ← current fl
      if t is tok_char b'('
          then (do get_next_token fl; args ← parse_call_args f; pure (call name args))
          else pure (variable name)

    unfoldable pub parse_if_expr : Parser fl (Expr Double)
    parse_if_expr = do
      get_next_token fl
      c ← or_log "ParseIfExpr | couldn't parse the if condition expression" expr
      expect fl tok_then "ParseIfExpr | expected 'then'"
      t ← or_log "ParseIfExpr | couldn't parse the then expression" expr
      expect fl tok_else "ParseIfExpr | expected 'else'"
      e ← or_log "ParseIfExpr | couldn't parse the else expression" expr
      pure (if_expr c t e)

    unfoldable pub parse_for_expr : Parser fl (Expr Double)
    unfolding parse_optional
    parse_for_expr = do
      get_next_token fl
      name ← expect_identifier fl "expected identifier after for"
      expect fl (tok_char b'=') "expected '=' after for"
      start ← expr
      expect fl (tok_char b',') "expected ',' after for start value"
      end ← expr
      step ← parse_optional (tok_char b',') expr
      expect fl tok_in "expected 'in' after for"
      body ← expr
      pure (for_expr name start end step body)

    -- `while (true)` over the variables of a var/in; `msg` is what a missing name is reported with.
    unfoldable pub parse_bindings : ℕ → String → Parser fl (Bindings Double)
    unfolding parse_optional
    parse_bindings zero msg = λ s. out_of_fuel
    parse_bindings (suc f) msg = do
      name ← expect_identifier fl msg
      init ←
          parse_optional (tok_char b'=')
            (or_log "ParseVarExpr | couldn't parse the initilizer expression" expr)
      t ← current fl
      if t is tok_char b','
          then (do
            get_next_token fl
            rest ← parse_bindings f "ParseVarExpr | expected identifier list after var"
            pure (binding name init rest))
          else pure (binding name init no_bindings)

    unfoldable pub parse_var_expr : ℕ → Parser fl (Expr Double)
    unfolding parse_bindings
    parse_var_expr f = do
      get_next_token fl
      names ← parse_bindings f "ParseVarExpr | expected identifier after var"
      expect fl tok_in "ParseVarExpr | expected 'in' keyword after 'var'"
      body ← or_log "ParseVarExpr | couldn't parse the body of the var/in construct" expr
      pure (var_expr names body)

    -- `switch (CurTok)`
    unfoldable pub primary_of : ℕ → Token → Parser fl (Expr Double)
    unfolding parse_identifier_expr parse_number_expr parse_paren_expr parse_if_expr parse_for_expr
        parse_var_expr
    primary_of f tok_identifier = parse_identifier_expr f
    primary_of f tok_number = parse_number_expr
    primary_of f tok_if = parse_if_expr
    primary_of f tok_for = parse_for_expr
    primary_of f tok_var = parse_var_expr f
    primary_of f (tok_char c) =
        if c == b'('
        then parse_paren_expr
        else fail "ParsePrimary | unknown token when expecting a primary expression"
    primary_of f _ = fail "ParsePrimary | unknown token when expecting a primary expression"

    unfoldable pub parse_primary : ℕ → Parser fl (Expr Double)
    unfolding primary_of
    parse_primary f = do t ← current fl; primary_of f t

  -- `primary` is ParsePrimary.
  unfoldable pub parse_unary : Parser fl (Expr Double) → ℕ → Parser fl (Expr Double)
  unfolding begins_primary operator_char
  parse_unary primary zero = λ s. out_of_fuel
  parse_unary primary (suc f) = do
    t ← current fl
    if begins_primary t then primary else do
      get_next_token fl
      operand ← or_log "ParseUnary | questo non dovrebbe essere successo" (parse_unary primary f)
      pure (unary (operator_char t) operand)

  -- A round of the loop of ParseBinOpRHS, on the precedence of CurTok. `operand` is ParseUnary and
  -- `rhs_loop` is ParseBinOpRHS: the right side takes the operators that bind tighter, and the next
  -- round goes on from the merged tree.
  unfoldable pub binop_round :
      Parser fl (Expr Double)
      → (ℕ → Expr Double → Parser fl (Expr Double))
      → ℕ
      → Expr Double
      → Option ℕ
      → Parser fl (Expr Double)
  unfolding binds_tighter operator_char
  binop_round operand rhs_loop expr_prec lhs none = pure lhs
  binop_round operand rhs_loop expr_prec lhs (some tok_prec) =
      if ltb tok_prec expr_prec then pure lhs else do
        op ← current fl
        get_next_token fl
        rhs ← or_log "ParseBinOpRHS | couldn't parse primary expression" operand
        next_prec ← get_tok_precedence fl
        rhs' ←
            if binds_tighter tok_prec next_prec
            then or_log "ParseBinOpRHS | couldn't parse rhs" (rhs_loop (suc tok_prec) rhs)
            else pure rhs
        rhs_loop expr_prec (binary (operator_char op) lhs rhs')

  unfoldable pub parse_binop_rhs :
      Parser fl (Expr Double) → ℕ → ℕ → Expr Double → Parser fl (Expr Double)
  unfolding binop_round
  parse_binop_rhs operand zero expr_prec lhs = λ s. out_of_fuel
  parse_binop_rhs operand (suc f) expr_prec lhs = do
    prec ← get_tok_precedence fl
    binop_round operand (parse_binop_rhs operand f) expr_prec lhs prec

  unfoldable pub parse_expression : ℕ → Parser fl (Expr Double)
  unfolding parse_primary parse_unary parse_binop_rhs
  parse_expression zero = λ s. out_of_fuel
  parse_expression (suc f) = do
    let operand = parse_unary (parse_primary (parse_expression f) f) (suc f)
    lhs ← or_log "ParseExpression | couldn't parse a primary expression" operand
    parse_binop_rhs operand (suc f) 0 lhs
