-- ===== src/Kaleidoscope/Parser/Grammar.antt =====
-- The grammar in the comments of kaleidoscope/include/parser.h, over tokens, with the precedences of
-- the operators: which tree stands for which tokens. It knows nothing of the parser.
use llvm17_learning_repo.Common.{
  ℕ, suc, ◌≤◌, ◌<◌, ◌≡◌, ◌≢◌, List, [], ◌∷◌, ◌++◌, length, length-append, arith,
}
use llvm17_learning_repo.Kaleidoscope.Chars.{Bytes}
use llvm17_learning_repo.Kaleidoscope.Lexer.{
  Token, tok_if, tok_then, tok_else, tok_for, tok_in, tok_var, tok_char,
}
use llvm17_learning_repo.Kaleidoscope.Lexer.Stream.{Lexeme, plain, identifier}
use llvm17_learning_repo.Kaleidoscope.Lexer.Stream
use llvm17_learning_repo.Kaleidoscope.Syntax.{
  Expr, number, variable, unary, binary, call, if_expr, for_expr, var_expr, Args, no_args, arg,
  OptExpr, absent, present, Bindings, no_bindings, binding,
}

-- A nonterminal with the tree that it derives. An expression whose operators all have at least the
-- precedence `n` is `level n`; an optional expression stands behind its mark.
pub data Phrase (D : Type 0) : Type 0 where
  primary : Expr D → Phrase D
  operand : Expr D → Phrase D
  level : ℕ → Expr D → Phrase D
  arguments : Args D → Phrase D
  optional : Token → OptExpr D → Phrase D
  variables : Bindings D → Phrase D

abbrev pub mark : {D : Type 0} → ℕ → Lexeme D
mark c = plain (tok_char c)

-- `isascii(c) && c != '(' && c != ','`: what may stand in front of an operand as its operator.
pub record IsPrefix (c : ℕ) : Type 0 where
  pub ascii : c < 128
  pub not_paren : c ≢ b'('
  pub not_comma : c ≢ b','

-- A binary operator of precedence `p`: 1 is the lowest.
pub record IsInfix (table : ℕ → ℕ) (c p : ℕ) : Type 0 where
  pub ascii : c < 128
  pub found : table c ≡ p
  pub declared : 0 < p

-- `table` gives the precedence of an operator character, 0 for none.
pub data Derives {D : Type 0} (table : ℕ → ℕ) : Phrase D → List (Lexeme D) → Type 0 where
  literal : {d : D} → Derives table (primary (number d)) (Stream.number d ∷ [])
  reference : {x : Bytes} → Derives table (primary (variable x)) (identifier x ∷ [])
  parens :
      {e : Expr D} {ts : List (Lexeme D)}
      → Derives table (level 0 e) ts
      → Derives table (primary e) (mark b'(' ∷ ts ++ mark b')' ∷ [])
  call_none :
      {f : Bytes}
      → Derives table (primary (call f no_args)) (identifier f ∷ mark b'(' ∷ mark b')' ∷ [])
  call_some :
      {f : Bytes} {es : Args D} {ts : List (Lexeme D)}
      → Derives table (arguments es) ts
      → Derives table (primary (call f es)) (identifier f ∷ mark b'(' ∷ ts ++ mark b')' ∷ [])
  last_argument :
      {e : Expr D} {ts : List (Lexeme D)}
      → Derives table (level 0 e) ts
      → Derives table (arguments (arg e no_args)) ts
  next_argument :
      {e : Expr D} {es : Args D} {ts us : List (Lexeme D)}
      → Derives table (level 0 e) ts
      → Derives table (arguments es) us
      → Derives table (arguments (arg e es)) (ts ++ mark b',' ∷ us)
  conditional :
      {c t e : Expr D} {ts us vs : List (Lexeme D)}
      → Derives table (level 0 c) ts
      → Derives table (level 0 t) us
      → Derives table (level 0 e) vs
      → Derives table
          (primary (if_expr c t e))
          (plain tok_if ∷ (ts ++ plain tok_then ∷ (us ++ plain tok_else ∷ vs)))
  left_out : {m : Token} → Derives table (optional m absent) []
  given :
      {m : Token} {e : Expr D} {ts : List (Lexeme D)}
      → Derives table (level 0 e) ts
      → Derives table (optional m (present e)) (plain m ∷ ts)
  loop :
      {x : Bytes} {start end body : Expr D} {step : OptExpr D} {ts us vs ws : List (Lexeme D)}
      → Derives table (level 0 start) ts
      → Derives table (level 0 end) us
      → Derives table (optional (tok_char b',') step) vs
      → Derives table (level 0 body) ws
      → Derives table (primary (for_expr x start end step body)) (
          plain tok_for
          ∷ identifier x
          ∷ mark b'='
          ∷ (ts ++ mark b',' ∷ (us ++ (vs ++ plain tok_in ∷ ws))))
  last_variable :
      {x : Bytes} {init : OptExpr D} {ts : List (Lexeme D)}
      → Derives table (optional (tok_char b'=') init) ts
      → Derives table (variables (binding x init no_bindings)) (identifier x ∷ ts)
  next_variable :
      {x : Bytes} {init : OptExpr D} {bs : Bindings D} {ts us : List (Lexeme D)}
      → Derives table (optional (tok_char b'=') init) ts
      → Derives table (variables bs) us
      → Derives table (variables (binding x init bs)) (identifier x ∷ (ts ++ mark b',' ∷ us))
  scope :
      {bs : Bindings D} {body : Expr D} {ts us : List (Lexeme D)}
      → Derives table (variables bs) ts
      → Derives table (level 0 body) us
      → Derives table (primary (var_expr bs body)) (plain tok_var ∷ (ts ++ plain tok_in ∷ us))
  unprefixed :
      {e : Expr D} {ts : List (Lexeme D)}
      → Derives table (primary e) ts
      → Derives table (operand e) ts
  prefixed :
      {c : ℕ} {e : Expr D} {ts : List (Lexeme D)}
      → IsPrefix c
      → Derives table (operand e) ts
      → Derives table (operand (unary c e)) (mark c ∷ ts)
  single :
      {n : ℕ} {e : Expr D} {ts : List (Lexeme D)}
      → Derives table (operand e) ts
      → Derives table (level n e) ts
  infixed :
      {n p c : ℕ} {l r : Expr D} {ts us : List (Lexeme D)}
      → IsInfix table c p
      → n ≤ p
      → Derives table (level p l) ts
      → Derives table (level (suc p) r) us
      → Derives table (level n (binary c l r)) (ts ++ mark c ∷ us)

-- The tokens that a phrase has at least: an optional expression alone may have none.
abbrev pub least_tokens : {D : Type 0} → Phrase D → ℕ
least_tokens (optional _ _) = 0
least_tokens _ = 1

module _ {D : Type 0} {table : ℕ → ℕ} where
  pub Derives-length :
      {ph : Phrase D} {ts : List (Lexeme D)} → Derives table ph ts → least_tokens ph ≤ length ts
  Derives-length (last_argument d) = Derives-length d
  Derives-length (next_argument {ts} {us} d _) =
      omega (arith, Derives-length d, length-append ts (mark b',' ∷ us))
  Derives-length (unprefixed d) = Derives-length d
  Derives-length (single d) = Derives-length d
  Derives-length (infixed {ts} {us} _ _ d _) =
      omega (arith, Derives-length d, length-append ts (mark _ ∷ us))
  Derives-length _ = omega arith

  -- A higher level is a lower one.
  pub level-le :
      {n m : ℕ} {e : Expr D} {ts : List (Lexeme D)}
      → m ≤ n
      → Derives table (level n e) ts
      → Derives table (level m e) ts
  level-le h (single d) = single d
  level-le h (infixed op b l r) = infixed op (omega arith) l r
