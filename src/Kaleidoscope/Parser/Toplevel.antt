-- ===== src/Kaleidoscope/Parser/Toplevel.antt =====
-- Prototypes, definitions and top-level expressions, kaleidoscope/src/parser.cpp.
use llvm17_learning_repo.Common.{
  ℕ, zero, suc, Bool, false, not, ◌&&◌, ◌||◌, List, [], ◌∷◌, ◌++◌, ◌==◌, if◌then◌else◌, length,
}
use llvm17_learning_repo.Kaleidoscope.Chars.{Bytes, codes, is_ascii}
use llvm17_learning_repo.Kaleidoscope.Floating.{Floating}
use llvm17_learning_repo.Kaleidoscope.Lexer.{
  Token, tok_identifier, tok_number, tok_binary, tok_unary, tok_char,
}
use llvm17_learning_repo.Kaleidoscope.Syntax.{Prototype, Function}
use llvm17_learning_repo.Kaleidoscope.Parser.State.{
  out_of_fuel, ◌is◌, pure, fail, or_log, ◌>>=◌, ◌>>◌, Parser, get_next_token, current,
  identifier_str, num_val, expect,
}
use llvm17_learning_repo.Kaleidoscope.Parser.Expressions.{parse_expression, operator_char}

-- FnName, Kind and BinaryPrecedence of ParsePrototype.
pub record Head : Type 0 where
  pub fn_name : Bytes
  pub kind : ℕ
  pub binary_precedence : ℕ

-- `isascii(CurTok)`
unfoldable pub is_ascii_token : Token → Bool
unfolding is_ascii
is_ascii_token (tok_char c) = is_ascii c
is_ascii_token _ = false

-- PrototypeAST("__anon_expr", {}), with its default arguments.
abbrev pub anonymous : Prototype
anonymous = record { name = codes "__anon_expr"; args = []; is_operator = false; precedence = 0 }

module _ (fl : Floating) where
  open fl use {Double, below_one, above_hundred, to_unsigned}

  -- `if (CurTok == tok_number) { ... }` behind a binary operator.
  unfoldable pub parse_precedence : Parser fl ℕ
  parse_precedence = do
    t ← current fl
    if t is tok_number
        then (do
          v ← num_val fl
          if below_one v || above_hundred v
              then fail "ParsePrototype | Invalid precedence: must be 1..100"
              else (do get_next_token fl; pure (to_unsigned v)))
        else pure 30

  -- `switch (CurTok)` of ParsePrototype.
  unfoldable pub prototype_head : Token → Parser fl Head
  unfolding is_ascii_token operator_char parse_precedence
  prototype_head tok_identifier = do
    name ← identifier_str fl
    get_next_token fl
    pure (record { fn_name = name; kind = 0; binary_precedence = 30 })
  prototype_head tok_unary = do
    get_next_token fl
    op ← current fl
    if is_ascii_token op
        then (do
          get_next_token fl
          pure (record {
            fn_name = codes "unary" ++ operator_char op ∷ [];
            kind = 1;
            binary_precedence = 30;
          }))
        else fail "ParsePrototype | Expected unary operator"
  prototype_head tok_binary = do
    get_next_token fl
    op ← current fl
    if is_ascii_token op
        then (do
          get_next_token fl
          prec ← parse_precedence
          pure (record {
            fn_name = codes "binary" ++ operator_char op ∷ [];
            kind = 2;
            binary_precedence = prec;
          }))
        else fail "ParsePrototype | Expected binary operator"
  prototype_head _ = fail "ParsePrototype | Expected function name in prototype"

  -- `while (getNextToken(InputFile) == tok_identifier) ArgNames.push_back(IdentifierStr);`
  unfoldable pub parse_arg_names : ℕ → Parser fl (List Bytes)
  parse_arg_names zero = λ s. out_of_fuel
  parse_arg_names (suc f) = do
    get_next_token fl
    t ← current fl
    if t is tok_identifier
        then (do name ← identifier_str fl; rest ← parse_arg_names f; pure (name ∷ rest))
        else pure []

  -- CurTok is the '(' that `get_next_token` in the loop eats.
  unfoldable pub parse_prototype : ℕ → Parser fl Prototype
  unfolding prototype_head parse_arg_names ◌is◌
  parse_prototype f = do
    t ← current fl
    head ← prototype_head t
    t' ← current fl
    if t' is tok_char b'('
        then (do
          names ← parse_arg_names f
          expect fl (tok_char b')') "ParsePrototype | Expected ')' in prototype"
          if not (head.kind == 0) && not (length names == head.kind)
              then fail "ParsePrototype | Invalid number of operands for operator"
              else pure (record {
                name = head.fn_name;
                args = names;
                is_operator = not (head.kind == 0);
                precedence = head.binary_precedence;
              }))
        else fail "ParseProtytype | Expected '(' in prototype"

  unfoldable pub parse_definition : ℕ → Parser fl (Function Double)
  unfolding parse_prototype
  parse_definition f = do
    get_next_token fl
    proto ← or_log "ParseDefinition | couldn't parse the function prototype" (parse_prototype f)
    body ← or_log "ParseDefinition | couldn't parse the function body" (parse_expression fl f)
    pure (record { proto = proto; body = body })

  unfoldable pub parse_extern : ℕ → Parser fl Prototype
  unfolding parse_prototype
  parse_extern f = do get_next_token fl; parse_prototype f

  unfoldable pub parse_top_level_expr : ℕ → Parser fl (Function Double)
  parse_top_level_expr f = do
    e ← or_log "ParseTopLevelExpr | couldn't parse the expression" (parse_expression fl f)
    pure (record { proto = anonymous; body = e })
