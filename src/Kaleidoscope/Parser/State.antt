-- ===== src/Kaleidoscope/Parser/State.antt =====
-- The globals that kaleidoscope/src/parser.cpp works on, and its parsers as functions of them: a
-- parser returns a node or nullptr, and the globals as it leaves them.
use Prim.Native.String.{String}
use llvm17_learning_repo.Common.{
  ℕ, suc, Bool, ◌||◌, Option, none, some, List, ◌∷◌, ◌==◌, if◌then◌else◌,
}
use llvm17_learning_repo.Kaleidoscope.Chars.{Bytes, is_ascii}
use llvm17_learning_repo.Kaleidoscope.Floating.{Floating}
use llvm17_learning_repo.Kaleidoscope.Lexer.{
  Token, tok_eof, tok_def, tok_extern, tok_identifier, tok_number, tok_if, tok_then, tok_else,
  tok_for, tok_in, tok_binary, tok_unary, tok_var, tok_char, Lexer, gettok,
}

-- `binop_precedence` is the std::map BinopPrecedence, 0 where a character has no entry: reading a
-- missing entry inserts 0, which this view does not tell apart. `errors` holds what LogError and the
-- failure lines of std::cout said, the latest first.
pub record State (D : Type 0) : Type 0 where
  pub lexer : Lexer D
  pub cur_tok : Token
  pub binop_precedence : ℕ → ℕ
  pub errors : List String

-- A return, `none` for nullptr. `out_of_fuel` has no counterpart in the program.
pub data Outcome (D : Type 0) (A : Type 0) : Type 0 where
  done : Option A → State D → Outcome D A
  out_of_fuel : Outcome D A

-- The integer of a token, up to the order: 0 to 12 for the enumerators, then the characters.
abbrev pub token_code : Token → ℕ
token_code tok_eof = 0
token_code tok_def = 1
token_code tok_extern = 2
token_code tok_identifier = 3
token_code tok_number = 4
token_code tok_if = 5
token_code tok_then = 6
token_code tok_else = 7
token_code tok_for = 8
token_code tok_in = 9
token_code tok_binary = 10
token_code tok_unary = 11
token_code tok_var = 12
token_code (tok_char c) =
    suc (suc (suc (suc (suc (suc (suc (suc (suc (suc (suc (suc (suc c))))))))))))

infix 50 ◌is◌
unfoldable pub ◌is◌ : Token → Token → Bool
a is b = token_code a == token_code b

-- The map as it is initialised in kaleidoscope/src/ast.cpp.
abbrev pub builtin_precedence : ℕ → ℕ
builtin_precedence c =
    if c == b'='
    then 2
    else if c == b'<'
    then 10
    else if c == b'+' || c == b'-'
    then 20
    else if c == b'*'
    then 40
    else 0

-- GetTokPrecedence, `none` for -1.
unfoldable pub tok_precedence : (ℕ → ℕ) → Token → Option ℕ
unfolding is_ascii
tok_precedence table (tok_char c) =
    if is_ascii c then (if table c == 0 then none else some (table c)) else none
tok_precedence table _ = none

abbrev pub log : {D : Type 0} → String → State D → State D
log msg s = record s { errors = msg ∷ s.errors }

module _ {D A : Type 0} where
  abbrev pub pure : A → State D → Outcome D A
  pure a s = done (some a) s

  -- `return LogError(msg)`
  unfoldable pub fail : String → State D → Outcome D A
  fail msg s = done none (log msg s)

  unfoldable pub report : String → Outcome D A → Outcome D A
  report msg (done none t) = done none (log msg t)
  report msg (done (some a) t) = done (some a) t
  report msg out_of_fuel = out_of_fuel

  -- A call whose nullptr is reported: `if (!V) return LogError(msg);`
  unfoldable pub or_log : String → (State D → Outcome D A) → State D → Outcome D A
  unfolding report
  or_log msg p s = report msg (p s)

module _ {D A B : Type 0} where
  -- What follows a call: nothing, if it returned nullptr.
  unfoldable pub resume : Outcome D A → (A → State D → Outcome D B) → Outcome D B
  resume (done none t) f = done none t
  resume (done (some a) t) f = f a t
  resume out_of_fuel f = out_of_fuel

  infixl 5 ◌>>=◌ ◌>>◌
  unfoldable pub ◌>>=◌ :
      (State D → Outcome D A) → (A → State D → Outcome D B) → State D → Outcome D B
  unfolding resume
  ◌>>=◌ p f s = resume (p s) f

  unfoldable pub ◌>>◌ : (State D → Outcome D A) → (State D → Outcome D B) → State D → Outcome D B
  unfolding ◌>>=◌
  p >> q = p >>= λ _. q

module _ (fl : Floating) where
  open fl use {Double}

  -- `CurTok = gettok(InputFile)`
  unfoldable pub advance : State Double → State Double
  advance s = record s { cur_tok = (gettok fl s.lexer).0; lexer = (gettok fl s.lexer).1 }

  abbrev pub Parser : Type 0 → Type 0
  Parser A = State Double → Outcome Double A

  unfoldable pub get_next_token : Parser (Unit {0})
  unfolding advance
  get_next_token s = done (some tt) (advance s)

  -- Reading CurTok, IdentifierStr, NumVal and the precedence of CurTok.
  unfoldable pub current : Parser Token
  current s = done (some s.cur_tok) s

  unfoldable pub identifier_str : Parser Bytes
  identifier_str s = done (some s.lexer.identifier_str) s

  unfoldable pub num_val : Parser Double
  num_val s = done (some s.lexer.num_val) s

  unfoldable pub get_tok_precedence : Parser (Option ℕ)
  unfolding tok_precedence
  get_tok_precedence s = done (some (tok_precedence s.binop_precedence s.cur_tok)) s

  -- `if (CurTok != t) return LogError(msg); getNextToken(InputFile);`
  unfoldable pub expect : Token → String → Parser (Unit {0})
  unfolding get_next_token fail ◌is◌
  expect t msg s = if s.cur_tok is t then get_next_token s else fail msg s

  -- `if (CurTok != tok_identifier) return LogError(msg); Name = IdentifierStr; getNextToken(InputFile);`
  unfoldable pub expect_identifier : String → Parser Bytes
  unfolding advance fail ◌is◌
  expect_identifier msg s =
      if s.cur_tok is tok_identifier
      then done (some s.lexer.identifier_str) (advance s)
      else fail msg s
