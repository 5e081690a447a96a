-- ===== src/Kaleidoscope/Lexer/Unfold.antt =====
-- kaleidoscope/src/lexer.cpp: gettok without fuel, by its own equation.
use llvm17_learning_repo.Common.{
  ℕ, zero, suc, ◌≤◌, ◌<◌, ◌≡◌, refl, Option, none, some, ◌==◌, length, arith, ap, if◌then◌else◌,
}
use llvm17_learning_repo.Kaleidoscope.Chars.{Bytes, is_alpha}
use llvm17_learning_repo.Kaleidoscope.Floating.{Floating}
use llvm17_learning_repo.Kaleidoscope.Lexer.{
  Token, Lexer, skip_space, skip_line, is_numeral, lex_identifier, lex_number, lex_char,
  lex_comment, after_comment, dispatch, gettok_body, gettok_fuel, gettok,
}
use llvm17_learning_repo.Kaleidoscope.Lexer.Progress.{pending, skip_line-pending, skip_space-length}

module _ (fl : Floating) where
  open fl use {Double}

  -- The two agree on every lexer with fewer than `n` bytes behind LastChar.
  abbrev AgreeBelow :
      ℕ → (Lexer Double → Token × Lexer Double) → (Lexer Double → Token × Lexer Double) → Type 0
  AgreeBelow n f g = (lx : Lexer Double) → length lx.input < n → f lx ≡ g lx

  module _ (f g : Lexer Double → Token × Lexer Double) where
    lex_comment-agree :
        (lx : Lexer Double)
        → AgreeBelow (length lx.input) f g
        → lex_comment fl f lx ≡ lex_comment fl g lx
    unfolding lex_comment
    lex_comment-agree lx h =
        go (skip_line lx.input).0 (skip_line lx.input).1 (skip_line-pending lx.input)
      where
        go :
            (last : Option ℕ) (rest : Bytes)
            → pending last rest ≤ length lx.input
            → after_comment fl f last (record lx { last_char = last; input = rest })
              ≡ after_comment fl g last (record lx { last_char = last; input = rest })
        go none rest b = refl
        go (some c) rest b = h _ b

    dispatch-agree :
        (last : Option ℕ) (lx : Lexer Double)
        → AgreeBelow (length lx.input) f g
        → dispatch fl f last lx ≡ dispatch fl g last lx
    unfolding dispatch
    dispatch-agree none lx h = refl
    dispatch-agree (some c) lx h =
        ap
          (λ (r : Token × Lexer Double).
            if is_alpha c
            then lex_identifier fl c lx
            else if is_numeral c
            then lex_number fl c lx
            else if c == b'#'
            then r
            else lex_char fl c lx.input lx)
          (lex_comment-agree lx h)

    gettok_body-agree :
        (lx : Lexer Double)
        → AgreeBelow (length lx.input) f g
        → gettok_body fl f lx ≡ gettok_body fl g lx
    unfolding gettok_body
    gettok_body-agree lx h =
        let shorter = skip_space-length lx.last_char lx.input in
        let (last, rest) = skip_space lx.last_char lx.input in
        dispatch-agree last (record lx { last_char = last; input = rest })
          λ next b. h next (omega arith)

  gettok_fuel-agree :
      (f g : ℕ) (lx : Lexer Double)
      → length lx.input < f
      → length lx.input < g
      → gettok_fuel fl f lx ≡ gettok_fuel fl g lx
  unfolding gettok_fuel
  gettok_fuel-agree zero g lx hf hg = absurd (omega arith)
  gettok_fuel-agree (suc f) zero lx hf hg = absurd (omega arith)
  gettok_fuel-agree (suc f) (suc g) lx hf hg =
      gettok_body-agree (gettok_fuel fl f) (gettok_fuel fl g) lx
        λ next b. gettok_fuel-agree f g next (omega arith) (omega arith)

  -- The fuel is never used up: `gettok` is its body, with itself as the call behind a comment.
  pub gettok_unfold : (lx : Lexer Double) → gettok fl lx ≡ gettok_body fl (gettok fl) lx
  unfolding gettok
  gettok_unfold lx =
      gettok_body-agree (gettok_fuel fl (length lx.input)) (gettok fl) lx
        λ next b. gettok_fuel-agree (length lx.input) (suc (length next.input)) next b (omega arith)
