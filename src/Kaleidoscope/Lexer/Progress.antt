-- ===== src/Kaleidoscope/Lexer/Progress.antt =====
-- kaleidoscope/src/lexer.cpp: how much of the file each call of gettok consumes.
use llvm17_learning_repo.Common.{
  ℕ, zero, suc, ◌+◌, ◌≤◌, ◌<◌, ◌≡◌, Bool, Option, none, some, [], ◌∷◌, ◌++◌, ◌==◌, length, arith,
  if_intro,
}
use llvm17_learning_repo.Kaleidoscope.Chars.{Bytes, is_alpha, is_alnum}
use llvm17_learning_repo.Kaleidoscope.Floating.{Floating}
use llvm17_learning_repo.Kaleidoscope.Lexer.{
  Token, tok_eof, Lexer, skip_space, read_while, skip_line, is_numeral, lex_identifier, lex_number,
  lex_comment, after_comment, lex_char, dispatch, gettok_body, gettok_fuel, gettok, keyword,
}

-- The bytes that are still to be processed, LastChar included.
abbrev pub pending : Option ℕ → Bytes → ℕ
pending none rest = 0
pending (some c) rest = suc (length rest)

pub skip_space-pending :
    (last : Option ℕ) (rest : Bytes)
    → pending (skip_space last rest).0 (skip_space last rest).1 ≤ pending last rest
unfolding skip_space
skip_space-pending none rest = omega arith
skip_space-pending (some c) [] = ground arith
skip_space-pending (some c) (d ∷ rest) = ground (arith, skip_space-pending (some d) rest)

pub skip_space-length :
    (last : Option ℕ) (rest : Bytes) → length (skip_space last rest).1 ≤ length rest
unfolding skip_space
skip_space-length none rest = omega arith
skip_space-length (some c) [] = ground arith
skip_space-length (some c) (d ∷ rest) = ground (arith, skip_space-length (some d) rest)

pub read_while-pending :
    (p : ℕ → Bool) (acc rest : Bytes)
    → pending (read_while p acc rest).1 (read_while p acc rest).2 ≤ length rest
unfolding read_while
read_while-pending p acc [] = omega arith
read_while-pending p acc (c ∷ rest) = ground (arith, read_while-pending p (acc ++ c ∷ []) rest)

pub skip_line-pending : (rest : Bytes) → pending (skip_line rest).0 (skip_line rest).1 ≤ length rest
unfolding skip_line
skip_line-pending [] = omega arith
skip_line-pending (c ∷ rest) = ground (arith, skip_line-pending rest)

-- What a token takes of the input: nothing at the end of the file.
abbrev pub weight : Token → ℕ
weight tok_eof = 0
weight _ = 1

weight-keyword : (s : Bytes) → weight (keyword s) ≡ 1
unfolding keyword
weight-keyword s = ground arith

weight-le-one : (t : Token) → weight t ≤ 1
weight-le-one tok_eof = omega arith
weight-le-one _ = omega arith

module _ (fl : Floating) where
  open fl use {Double}

  abbrev pub remaining : Lexer Double → ℕ
  remaining lx = pending lx.last_char lx.input

  -- The token and what is left fit in `n` bytes, and the end of the file is announced only there.
  abbrev pub Progress : ℕ → Token × Lexer Double → Type 0
  Progress n r = (weight r.0 + remaining r.1 ≤ n) × (r.0 ≡ tok_eof → r.1.last_char ≡ none)

  lex_identifier-Progress :
      (c : ℕ) (lx : Lexer Double) → Progress (suc (length lx.input)) (lex_identifier fl c lx)
  unfolding lex_identifier
  lex_identifier-Progress c lx = ground (
    arith,
    weight-keyword (read_while is_alnum (c ∷ []) lx.input).0,
    read_while-pending is_alnum (c ∷ []) lx.input,
  )

  lex_number-Progress :
      (c : ℕ) (lx : Lexer Double) → Progress (suc (length lx.input)) (lex_number fl c lx)
  unfolding lex_number
  lex_number-Progress c lx = ground (arith, read_while-pending is_numeral (c ∷ []) lx.input)

  lex_char-Progress :
      (c : ℕ) (input : Bytes) (lx : Lexer Double)
      → Progress (suc (length input)) (lex_char fl c input lx)
  unfolding lex_char
  lex_char-Progress c [] lx = ground arith
  lex_char-Progress c (d ∷ rest) lx = ground arith

  -- A run of `again` from a lexer with fewer bytes behind LastChar than `n`.
  abbrev ProgressBelow : ℕ → (Lexer Double → Token × Lexer Double) → Type 0
  ProgressBelow n again =
      (lx : Lexer Double) → length lx.input < n → Progress (remaining lx) (again lx)

  lex_comment-Progress :
      (again : Lexer Double → Token × Lexer Double) (lx : Lexer Double)
      → ProgressBelow (length lx.input) again
      → Progress (suc (length lx.input)) (lex_comment fl again lx)
  unfolding lex_comment
  lex_comment-Progress again lx h =
      go (skip_line lx.input).0 (skip_line lx.input).1 (skip_line-pending lx.input)
    where
      go :
          (last : Option ℕ) (rest : Bytes)
          → pending last rest ≤ length lx.input
          → Progress
              (suc (length lx.input))
              (after_comment fl again last (record lx { last_char = last; input = rest }))
      go none rest b = ground arith
      go (some c) rest b =
          let p = h (record lx { last_char = some c; input = rest }) b in (omega arith, p.1)

  dispatch-Progress :
      (again : Lexer Double → Token × Lexer Double) (last : Option ℕ) (rest : Bytes)
      (lx : Lexer Double)
      → ProgressBelow (length rest) again
      → Progress
          (pending last rest)
          (dispatch fl again last (record lx { last_char = last; input = rest }))
  unfolding dispatch
  dispatch-Progress again none rest lx h = ground arith
  dispatch-Progress again (some c) rest lx h =
      let here : Lexer Double = record lx { last_char = some c; input = rest } in
      if_intro (Progress _) (is_alpha c) (λ _. lex_identifier-Progress c here)
        λ _.
          if_intro (Progress _) (is_numeral c) (λ _. lex_number-Progress c here)
            λ _.
              if_intro (Progress _) (c == b'#') (λ _. lex_comment-Progress again here h)
                λ _. lex_char-Progress c rest here

  gettok_body-Progress :
      (again : Lexer Double → Token × Lexer Double) (lx : Lexer Double)
      → ProgressBelow (length lx.input) again
      → Progress (remaining lx) (gettok_body fl again lx)
  unfolding gettok_body
  gettok_body-Progress again lx h =
      let skipped = skip_space lx.last_char lx.input in
      let shorter = skip_space-length lx.last_char lx.input in
      let p = dispatch-Progress again skipped.0 skipped.1 lx λ next b. h next (omega arith) in
      let bound = skip_space-pending lx.last_char lx.input in (omega arith, p.1)

  gettok_fuel-Progress :
      (f : ℕ) (lx : Lexer Double)
      → length lx.input < f
      → Progress (remaining lx) (gettok_fuel fl f lx)
  unfolding gettok_fuel
  gettok_fuel-Progress zero lx h = absurd (omega arith)
  gettok_fuel-Progress (suc f) lx h =
      gettok_body-Progress (gettok_fuel fl f) lx λ next b. gettok_fuel-Progress f next (omega arith)

  -- A token takes at least one byte of what is left, LastChar included, and nothing is put back; the
  -- end of the file is announced only when LastChar is EOF, and takes nothing.
  pub gettok-Progress : (lx : Lexer Double) → Progress (remaining lx) (gettok fl lx)
  unfolding gettok
  gettok-Progress lx = gettok_fuel-Progress (suc (length lx.input)) lx (omega arith)
