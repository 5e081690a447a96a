-- ===== src/Kaleidoscope/Parser/Successes.antt =====
-- How the steps of a parser of kaleidoscope/src/parser.cpp that succeeds are put together.
use llvm17_learning_repo.Common.{
  ◌≡◌, refl, ap, Bool, true, false, some, List, [], ◌∷◌, arith, if◌then◌else◌,
}
use llvm17_learning_repo.Kaleidoscope.Floating.{Floating}
use llvm17_learning_repo.Kaleidoscope.Chars.{Bytes}
use llvm17_learning_repo.Kaleidoscope.Lexer.{Token, tok_identifier, tok_number, tok_char, Lexer}
use llvm17_learning_repo.Kaleidoscope.Lexer.Stream.{Lexeme, plain, identifier, lexeme}
use llvm17_learning_repo.Kaleidoscope.Lexer.Stream
use llvm17_learning_repo.Kaleidoscope.Parser.State.{
  token_code, State, Outcome, done, ◌is◌, advance, ◌>>=◌, ◌>>◌,
}

pub lexeme-name :
    {D : Type 0} (t : Token) (lx : Lexer D) (x : Bytes)
    → identifier x ≡ lexeme t lx
    → (t ≡ tok_identifier) × (lx.identifier_str ≡ x)
unfolding lexeme
lexeme-name tok_identifier lx x h = (refl, cc)
lexeme-name tok_number lx x h = absurd cc
lexeme-name t lx x h = absurd cc

pub lexeme-number :
    {D : Type 0} (t : Token) (lx : Lexer D) (v : D)
    → Stream.number v ≡ lexeme t lx
    → (t ≡ tok_number) × (lx.num_val ≡ v)
unfolding lexeme
lexeme-number tok_identifier lx v h = absurd cc
lexeme-number tok_number lx v h = (refl, cc)
lexeme-number t lx v h = absurd cc

pub lexeme-plain : {D : Type 0} (t k : Token) (lx : Lexer D) → plain k ≡ lexeme t lx → t ≡ k
unfolding lexeme
lexeme-plain tok_identifier k lx h = absurd cc
lexeme-plain tok_number k lx h = absurd cc
lexeme-plain t k lx h = cc

pub close : (tok_char b')' is tok_identifier) ≡ false
unfolding ◌is◌
close = refl

pub open_parenthesis : (tok_char b'(' is tok_number) ≡ false
unfolding ◌is◌
open_parenthesis = refl

module _ (fl : Floating) where
  open fl use {Double}

  -- The tokens stand in front.
  abbrev pub IsInFront : List (Lexeme Double) → State Double → Type 0
  IsInFront [] s = Unit
  IsInFront (t ∷ ts) s = (t ≡ lexeme s.cur_tok s.lexer) × IsInFront ts (advance fl s)

  -- getNextToken was called once for each of them.
  abbrev pub behind : List (Lexeme Double) → State Double → State Double
  behind [] s = s
  behind (t ∷ ts) s = behind ts (advance fl s)

  -- How the steps of a parser that succeeds are put together.
  pub bind :
      {A B : Type 0} (p : State Double → Outcome Double A) (f : A → State Double → Outcome Double B)
      {s t : State Double} {a : A} {r : Outcome Double B}
      → p s ≡ done (some a) t
      → f a t ≡ r
      → (p >>= f) s ≡ r
  unfolding ◌>>=◌
  bind _ _ h k = rw h k

  pub next :
      {A B : Type 0} (p : State Double → Outcome Double A) (q : State Double → Outcome Double B)
      {s t : State Double} {a : A} {r : Outcome Double B}
      → p s ≡ done (some a) t
      → q t ≡ r
      → (p >> q) s ≡ r
  unfolding ◌>>◌ ◌>>=◌
  next _ _ h k = rw h k

  pub holds :
      {A : Type 0} {c : Bool} (p q : State Double → Outcome Double A) {s : State Double}
      {r : Outcome Double A}
      → c ≡ true
      → p s ≡ r
      → (if c then p else q) s ≡ r
  holds _ _ h k = rw h k

  pub fails :
      {A : Type 0} {c : Bool} (p q : State Double → Outcome Double A) {s : State Double}
      {r : Outcome Double A}
      → c ≡ false
      → q s ≡ r
      → (if c then p else q) s ≡ r
  fails _ _ h k = rw h k

  pub same_token : (t k : Token) → t ≡ k → (t is k) ≡ true
  unfolding ◌is◌
  same_token t k e = ground (arith, ap token_code e)

  pub other_token : (t k j : Token) → t ≡ k → (k is j) ≡ false → (t is j) ≡ false
  other_token t k j e h = rw e h
