-- ===== src/Kaleidoscope/Lexer/Stream.antt =====
-- The loop of kaleidoscope/test/lexer_test.cpp, which calls gettok up to the end of the file, and
-- texts whose tokens stand apart.
use llvm17_learning_repo.Common.{
  ℕ, zero, suc, ◌+◌, ◌≤◌, ◌<◌, ◌≡◌, refl, ◌∙◌, true, false, List, [], ◌∷◌, ◌++◌, arith, ap, map,
}
use llvm17_learning_repo.Kaleidoscope.Chars.{Bytes, is_space, is_alpha, is_alnum}
use llvm17_learning_repo.Kaleidoscope.Floating.{Floating}
use llvm17_learning_repo.Kaleidoscope.Lexer.{
  Token, tok_eof, tok_identifier, tok_number, tok_char, Lexer, gettok, gettok_body, skip_space,
  dispatch, keyword, is_numeral,
}
use llvm17_learning_repo.Kaleidoscope.Lexer.Progress.{remaining, weight, gettok-Progress}
use llvm17_learning_repo.Kaleidoscope.Lexer.Unfold.{gettok_unfold}
use llvm17_learning_repo.Kaleidoscope.Lexer.Spelling.{
  All, IsMark, at, gettok-word, gettok-numeral, gettok-mark, gettok-space,
}

-- A token with the global that belongs to it.
pub data Lexeme (D : Type 0) : Type 0 where
  plain : Token → Lexeme D
  identifier : Bytes → Lexeme D
  number : D → Lexeme D

module _ {D : Type 0} where
  -- A word is a keyword or a name.
  unfoldable pub named : Token → Bytes → Lexeme D
  named tok_identifier s = identifier s
  named t s = plain t

  unfoldable pub lexeme : Token → Lexer D → Lexeme D
  lexeme tok_identifier lx = identifier lx.identifier_str
  lexeme tok_number lx = number lx.num_val
  lexeme t lx = plain t

  -- A round of `while ((cur_tok = gettok(InputFile)) != tok_eof)`.
  unfoldable pub emit : Token → Lexer D → List (Lexeme D) → List (Lexeme D)
  unfolding lexeme
  emit tok_eof lx rest = []
  emit t lx rest = lexeme t lx ∷ rest

-- A token as it is written.
pub data Piece : Type 0 where
  word numeral : ℕ → Bytes → Piece
  mark : ℕ → Piece

abbrev pub IsPiece : Piece → Type 0
IsPiece (word c w) = (is_alpha c ≡ true) × All is_alnum w
IsPiece (numeral c w) = (is_numeral c ≡ true) × All is_numeral w
IsPiece (mark c) = IsMark c

abbrev pub ArePieces : List Piece → Type 0
ArePieces [] = Unit
ArePieces (p ∷ ps) = IsPiece p × ArePieces ps

abbrev pub spell : Piece → Bytes
spell (word c w) = c ∷ w
spell (numeral c w) = c ∷ w
spell (mark c) = c ∷ []

-- The text, a blank behind each token.
abbrev pub text : List Piece → Bytes
text [] = []
text (p ∷ ps) = spell p ++ 32 ∷ text ps

blank : is_space 32 ≡ true
unfolding is_space
blank = refl

blank_ends_word : is_alnum 32 ≡ false
unfolding is_alnum
blank_ends_word = refl

blank_ends_numeral : is_numeral 32 ≡ false
unfolding is_numeral
blank_ends_numeral = refl

module _ (fl : Floating) where
  open fl use {Double, strtod}

  unfoldable pub tokens_fuel : ℕ → Lexer Double → List (Lexeme Double)
  tokens_fuel zero lx = []
  tokens_fuel (suc f) lx =
      let (t, next) = gettok fl lx in let rest = tokens_fuel f next in emit t next rest

  unfoldable pub tokens : Lexer Double → List (Lexeme Double)
  unfolding tokens_fuel
  tokens lx = tokens_fuel (suc (remaining fl lx)) lx

  emit-agree :
      (n : ℕ) (t : Token) (lx : Lexer Double) (xs ys : List (Lexeme Double))
      → weight t + remaining fl lx ≤ n
      → (remaining fl lx < n → xs ≡ ys)
      → emit t lx xs ≡ emit t lx ys
  unfolding emit
  emit-agree n tok_eof lx xs ys b h = refl
  emit-agree n _ lx xs ys b h = rw (h (omega arith))

  tokens_fuel-agree :
      (f g : ℕ) (lx : Lexer Double)
      → remaining fl lx < f
      → remaining fl lx < g
      → tokens_fuel f lx ≡ tokens_fuel g lx
  unfolding tokens_fuel
  tokens_fuel-agree zero g lx hf hg = absurd (omega arith)
  tokens_fuel-agree (suc f) zero lx hf hg = absurd (omega arith)
  tokens_fuel-agree (suc f) (suc g) lx hf hg =
      emit-agree (remaining fl lx) (gettok fl lx).0 (gettok fl lx).1 _ _ (gettok-Progress fl lx).0
        λ b. tokens_fuel-agree f g (gettok fl lx).1 (omega arith) (omega arith)

  -- The fuel of the loop is never used up: it ends at the end of the file, and nowhere else.
  pub tokens_unfold :
      (lx : Lexer Double)
      → tokens lx ≡ emit (gettok fl lx).0 (gettok fl lx).1 (tokens (gettok fl lx).1)
  unfolding tokens
  tokens_unfold lx =
      emit-agree (remaining fl lx) (gettok fl lx).0 (gettok fl lx).1 _ _ (gettok-Progress fl lx).0
        λ b.
          tokens_fuel-agree (remaining fl lx) (suc (remaining fl (gettok fl lx).1)) (gettok fl lx).1
            b (omega arith)

  -- What the loop reports of a token: the keyword or the name, the value, the character.
  unfoldable pub reading : Piece → Lexeme Double
  reading (word c w) = named (keyword (c ∷ w)) (c ∷ w)
  reading (numeral c w) = number (strtod (c ∷ w))
  reading (mark c) = plain (tok_char c)

  emit-word :
      (lx : Lexer Double) (s : Bytes) (rest : List (Lexeme Double))
      → emit (keyword s) (record lx { identifier_str = s }) rest ≡ named (keyword s) s ∷ rest
  unfolding emit keyword named
  emit-word lx s rest = ground arith

  -- One token and its blank.
  tokens-piece :
      (lx : Lexer Double) (p : Piece) (rest : Bytes)
      → IsPiece p
      → (next : Lexer Double) × (tokens (at fl lx 32 (spell p ++ 32 ∷ rest))
          ≡ reading p ∷ tokens (at fl next 32 rest))
  unfolding reading emit
  tokens-piece lx (word c w) rest h =
      let got =
        gettok-space fl lx 32 c (w ++ 32 ∷ rest) blank
        ∙ gettok-word fl lx c w 32 rest h.0 h.1 blank_ends_word in
      (
        record lx { identifier_str = c ∷ w },
        tokens_unfold _ ∙ rw got (emit-word (at fl lx 32 rest) (c ∷ w) _),
      )
  tokens-piece lx (numeral c w) rest h =
      let got =
        gettok-space fl lx 32 c (w ++ 32 ∷ rest) blank
        ∙ gettok-numeral fl lx c w 32 rest h.0 h.1 blank_ends_numeral in
      (record lx { num_val = strtod (c ∷ w) }, tokens_unfold _ ∙ rw got refl)
  tokens-piece lx (mark c) rest h =
      let got = gettok-space fl lx 32 c (32 ∷ rest) blank ∙ gettok-mark fl lx c 32 rest h in
      (lx, tokens_unfold _ ∙ rw got refl)

  tokens-end : (lx : Lexer Double) → tokens (at fl lx 32 []) ≡ []
  unfolding emit gettok_body skip_space dispatch is_space
  tokens-end lx = tokens_unfold _ ∙ rw (gettok_unfold fl (at fl lx 32 [])) refl

  -- A text of tokens that blanks separate is read as exactly those tokens, in order.
  pub tokens-text :
      (lx : Lexer Double) (ps : List Piece)
      → ArePieces ps
      → tokens (at fl lx 32 (text ps)) ≡ map reading ps
  tokens-text lx [] h = tokens-end lx
  tokens-text lx (p ∷ ps) h =
      let (next, one) = tokens-piece lx p (text ps) h.0 in
      one ∙ ap (λ (r : List (Lexeme Double)). reading p ∷ r) (tokens-text next ps h.1)
