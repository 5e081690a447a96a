-- ===== src/Kaleidoscope/Lexer.antt =====
-- The lexer, kaleidoscope/include/lexer.h and kaleidoscope/src/lexer.cpp. The globals that `gettok`
-- reads and writes are one record; the FILE is the list of the bytes that fgetc has not returned.
pub mod Progress
pub mod Unfold
pub mod Spelling
pub mod Stream
use llvm17_learning_repo.Common.{
  ℕ, zero, suc, Bool, ◌||◌, Option, none, some, [], ◌∷◌, ◌++◌, ◌==◌, if◌then◌else◌, length,
}
use llvm17_learning_repo.Kaleidoscope.Chars.{
  Bytes, codes, bytes_eq, is_space, is_digit, is_alpha, is_alnum,
}
use llvm17_learning_repo.Kaleidoscope.Floating.{Floating}

-- A known token, or any other character as its code.
pub data Token : Type 0 where
  tok_eof tok_def tok_extern tok_identifier tok_number : Token
  tok_if tok_then tok_else tok_for tok_in tok_binary tok_unary tok_var : Token
  tok_char : ℕ → Token

-- `last_char` is the static LastChar, `none` for EOF.
pub record Lexer (D : Type 0) : Type 0 where
  pub input : Bytes
  pub last_char : Option ℕ
  pub identifier_str : Bytes
  pub num_val : D

-- `while (isspace(LastChar)) LastChar = fgetc(InputFile);`
unfoldable pub skip_space : Option ℕ → Bytes → Option ℕ × Bytes
skip_space none rest = (none, rest)
skip_space (some c) [] = if is_space c then (none, []) else (some c, [])
skip_space (some c) (d ∷ rest) = if is_space c then skip_space (some d) rest else (some c, d ∷ rest)

-- `while (p(LastChar = fgetc(InputFile))) acc += LastChar;`: the text, LastChar and what is left.
unfoldable pub read_while : (ℕ → Bool) → Bytes → Bytes → Bytes × Option ℕ × Bytes
read_while p acc [] = (acc, none, [])
read_while p acc (c ∷ rest) = if p c then read_while p (acc ++ c ∷ []) rest else (acc, some c, rest)

-- `do LastChar = fgetc(InputFile); while (LastChar != EOF && LastChar != '\n' && LastChar != '\r');`
unfoldable pub skip_line : Bytes → Option ℕ × Bytes
skip_line [] = (none, [])
skip_line (c ∷ rest) = if c == b'\n' || c == b'\r' then (some c, rest) else skip_line rest

unfoldable pub keyword : Bytes → Token
keyword s =
    if bytes_eq s (codes "def")
    then tok_def
    else if bytes_eq s (codes "extern")
    then tok_extern
    else if bytes_eq s (codes "if")
    then tok_if
    else if bytes_eq s (codes "then")
    then tok_then
    else if bytes_eq s (codes "else")
    then tok_else
    else if bytes_eq s (codes "for")
    then tok_for
    else if bytes_eq s (codes "in")
    then tok_in
    else if bytes_eq s (codes "binary")
    then tok_binary
    else if bytes_eq s (codes "unary")
    then tok_unary
    else if bytes_eq s (codes "var")
    then tok_var
    else tok_identifier

-- `isdigit(c) || c == '.'`
unfoldable pub is_numeral : ℕ → Bool
unfolding is_digit
is_numeral c = is_digit c || c == b'.'

module _ (fl : Floating) where
  open fl use {Double, strtod}

  unfoldable pub lex_identifier : ℕ → Lexer Double → Token × Lexer Double
  unfolding read_while keyword is_alnum
  lex_identifier c lx =
      let (s, last, rest) = read_while is_alnum (c ∷ []) lx.input in
      (keyword s, record lx { identifier_str = s; last_char = last; input = rest })

  unfoldable pub lex_number : ℕ → Lexer Double → Token × Lexer Double
  unfolding read_while is_numeral
  lex_number c lx =
      let (s, last, rest) = read_while is_numeral (c ∷ []) lx.input in
      (tok_number, record lx { num_val = strtod s; last_char = last; input = rest })

  -- The end of a comment: `return gettok(InputFile)` unless the file has ended.
  unfoldable pub after_comment :
      (Lexer Double → Token × Lexer Double) → Option ℕ → Lexer Double → Token × Lexer Double
  after_comment again none lx = (tok_eof, lx)
  after_comment again (some c) lx = again lx

  unfoldable pub lex_comment :
      (Lexer Double → Token × Lexer Double) → Lexer Double → Token × Lexer Double
  unfolding after_comment skip_line
  lex_comment again lx =
      let (last, rest) = skip_line lx.input in
      after_comment again last (record lx { last_char = last; input = rest })

  -- `int ThisChar = LastChar; LastChar = fgetc(InputFile); return ThisChar;`
  unfoldable pub lex_char : ℕ → Bytes → Lexer Double → Token × Lexer Double
  lex_char c [] lx = (tok_char c, record lx { last_char = none; input = [] })
  lex_char c (d ∷ rest) lx = (tok_char c, record lx { last_char = some d; input = rest })

  -- The body of `gettok` behind the whitespace, on LastChar; `again` is the call behind a comment.
  unfoldable pub dispatch :
      (Lexer Double → Token × Lexer Double) → Option ℕ → Lexer Double → Token × Lexer Double
  unfolding lex_identifier lex_number lex_comment lex_char is_alpha
  dispatch again none lx = (tok_eof, lx)
  dispatch again (some c) lx =
      if is_alpha c
      then lex_identifier c lx
      else if is_numeral c
      then lex_number c lx
      else if c == b'#'
      then lex_comment again lx
      else lex_char c lx.input lx

  unfoldable pub gettok_body :
      (Lexer Double → Token × Lexer Double) → Lexer Double → Token × Lexer Double
  unfolding dispatch skip_space is_space
  gettok_body again lx =
      let (last, rest) = skip_space lx.last_char lx.input in
      dispatch again last (record lx { last_char = last; input = rest })

  -- Each call behind a comment costs a unit of fuel.
  unfoldable pub gettok_fuel : ℕ → Lexer Double → Token × Lexer Double
  unfolding gettok_body
  gettok_fuel zero lx = (tok_eof, lx)
  gettok_fuel (suc f) lx = gettok_body (gettok_fuel f) lx

  unfoldable pub gettok : Lexer Double → Token × Lexer Double
  unfolding gettok_fuel
  gettok lx = gettok_fuel (suc (length lx.input)) lx

  -- The globals before the first call, on a file of these bytes.
  abbrev pub open_file : Bytes → Lexer Double
  open_file bytes = record {
    input = bytes;
    last_char = some 32;
    identifier_str = [];
    num_val = fl.zero_double;
  }
