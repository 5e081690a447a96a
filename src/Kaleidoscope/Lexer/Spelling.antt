-- ===== src/Kaleidoscope/Lexer/Spelling.antt =====
-- kaleidoscope/src/lexer.cpp: the text of each token, read back.
use llvm17_learning_repo.Common.{
  ℕ, ◌≡◌, refl, ◌∙◌, Bool, true, false, some, [], ◌∷◌, ◌++◌, ◌==◌, arith, if◌then◌else◌, ◌||◌,
  append_assoc, append-nil, sym,
}
use llvm17_learning_repo.Kaleidoscope.Chars.{Bytes, is_space, is_alpha, is_alnum}
use llvm17_learning_repo.Kaleidoscope.Floating.{Floating}
use llvm17_learning_repo.Kaleidoscope.Lexer.{
  tok_number, tok_char, Lexer, skip_space, skip_line, read_while, is_numeral, lex_identifier,
  lex_number, lex_char, lex_comment, dispatch, gettok_body, gettok, keyword,
}
use llvm17_learning_repo.Kaleidoscope.Lexer.Unfold.{gettok_unfold}

-- Every byte passes the test.
abbrev pub All : (ℕ → Bool) → Bytes → Type 0
All p [] = Unit
All p (c ∷ cs) = (p c ≡ true) × All p cs

read_while-append :
    (p : ℕ → Bool) (acc w : Bytes) (d : ℕ) (rest : Bytes)
    → All p w
    → p d ≡ false
    → read_while p acc (w ++ d ∷ rest) ≡ (acc ++ w, some d, rest)
unfolding read_while
read_while-append p acc [] d rest h stop = rw (stop, append-nil)
read_while-append p acc (c ∷ w) d rest h stop =
    rw h.0 (read_while-append p (acc ++ c ∷ []) w d rest h.1 stop ∙ rw append_assoc refl)

-- A byte that is neither `\n` nor `\r`.
unfoldable pub in_line : ℕ → Bool
in_line c = if c == b'\n' || c == b'\r' then false else true

skip_line-append :
    (w : Bytes) (rest : Bytes) → All in_line w → skip_line (w ++ b'\n' ∷ rest) ≡ (some b'\n', rest)
unfolding skip_line in_line
skip_line-append [] rest h = refl
skip_line-append (c ∷ w) rest h = ground (arith, skip_line-append w rest h.1)

skip_space-nonspace :
    (c : ℕ) (rest : Bytes) → is_space c ≡ false → skip_space (some c) rest ≡ (some c, rest)
unfolding skip_space
skip_space-nonspace c [] h = rw h
skip_space-nonspace c (d ∷ rest) h = rw h

is_alpha-nonspace : (c : ℕ) → is_alpha c ≡ true → is_space c ≡ false
unfolding is_alpha is_space
is_alpha-nonspace c h = ground arith

is_numeral-nonspace : (c : ℕ) → is_numeral c ≡ true → (is_space c ≡ false) × (is_alpha c ≡ false)
unfolding is_numeral is_alpha is_space
is_numeral-nonspace c h = ground arith

hash_nonspace : is_space b'#' ≡ false
unfolding is_space
hash_nonspace = refl

-- A character that `gettok` returns as itself.
pub record IsMark (c : ℕ) : Type 0 where
  pub nonspace : is_space c ≡ false
  pub nonalpha : is_alpha c ≡ false
  pub nonnumeral : is_numeral c ≡ false
  pub noncomment : (c == b'#') ≡ false

module _ (fl : Floating) where
  open fl use {Double, strtod}

  -- The lexer with this LastChar, and this text behind it.
  abbrev pub at : Lexer Double → ℕ → Bytes → Lexer Double
  at lx c rest = record lx { last_char = some c; input = rest }

  gettok-nonspace :
      (lx : Lexer Double) (c : ℕ) (rest : Bytes)
      → is_space c ≡ false
      → gettok fl (at lx c rest) ≡ dispatch fl (gettok fl) (some c) (at lx c rest)
  unfolding gettok_body
  gettok-nonspace lx c rest h =
      gettok_unfold fl (at lx c rest) ∙ rw (skip_space-nonspace c rest h) refl

  -- A word that begins with a letter is read whole, up to a character that is no letter or digit.
  pub gettok-word :
      (lx : Lexer Double) (c : ℕ) (w : Bytes) (d : ℕ) (rest : Bytes)
      → is_alpha c ≡ true
      → All is_alnum w
      → is_alnum d ≡ false
      → gettok fl (at lx c (w ++ d ∷ rest))
        ≡ (keyword (c ∷ w), record (at lx d rest) { identifier_str = c ∷ w })
  unfolding dispatch lex_identifier
  gettok-word lx c w d rest first word stop =
      gettok-nonspace lx c (w ++ d ∷ rest) (is_alpha-nonspace c first)
      ∙ rw (first, read_while-append is_alnum (c ∷ []) w d rest word stop) refl

  -- A numeral is read whole, up to a character that is no digit and no point.
  pub gettok-numeral :
      (lx : Lexer Double) (c : ℕ) (w : Bytes) (d : ℕ) (rest : Bytes)
      → is_numeral c ≡ true
      → All is_numeral w
      → is_numeral d ≡ false
      → gettok fl (at lx c (w ++ d ∷ rest))
        ≡ (tok_number, record (at lx d rest) { num_val = strtod (c ∷ w) })
  unfolding dispatch lex_number
  gettok-numeral lx c w d rest first word stop =
      let plain = is_numeral-nonspace c first in
      gettok-nonspace lx c (w ++ d ∷ rest) plain.0
      ∙ rw (plain.1, first, read_while-append is_numeral (c ∷ []) w d rest word stop) refl

  -- Any other character but `#` is a token by itself.
  pub gettok-mark :
      (lx : Lexer Double) (c d : ℕ) (rest : Bytes)
      → IsMark c
      → gettok fl (at lx c (d ∷ rest)) ≡ (tok_char c, at lx d rest)
  unfolding dispatch lex_char
  gettok-mark lx c d rest m =
      gettok-nonspace lx c (d ∷ rest) m.nonspace ∙ rw (m.nonalpha, m.nonnumeral, m.noncomment) refl

  -- Whitespace in front of a token changes nothing.
  pub gettok-space :
      (lx : Lexer Double) (c d : ℕ) (rest : Bytes)
      → is_space c ≡ true
      → gettok fl (at lx c (d ∷ rest)) ≡ gettok fl (at lx d rest)
  unfolding gettok_body skip_space
  gettok-space lx c d rest h =
      gettok_unfold fl (at lx c (d ∷ rest)) ∙ rw h (sym (gettok_unfold fl (at lx d rest)))

  -- A comment up to the end of its line is read as that end of line.
  pub gettok-comment :
      (lx : Lexer Double) (w rest : Bytes)
      → All in_line w
      → gettok fl (at lx b'#' (w ++ b'\n' ∷ rest)) ≡ gettok fl (at lx b'\n' rest)
  unfolding dispatch lex_comment is_numeral
  gettok-comment lx w rest h =
      gettok-nonspace lx b'#' (w ++ b'\n' ∷ rest) hash_nonspace
      ∙ rw (skip_line-append w rest h) refl
