-- ===== src/Kaleidoscope/Parser/Contract.antt =====
-- What a parser of kaleidoscope/src/parser.cpp does to the globals: a node was made of the tokens that
-- were consumed, and nothing was reported; or nullptr was returned, and something was.
use Prim.Native.String.{String}
use llvm17_learning_repo.Common.{
  ◌<◌, ◌⊎◌, inl, inr, ℕ, ◌+◌, ◌≤◌, ◌≡◌, ◌≢◌, refl, ◌∙◌, none, some, List, [], ◌∷◌, ◌++◌, length,
  arith, subst,
}
use llvm17_learning_repo.Kaleidoscope.Floating.{Floating}
use llvm17_learning_repo.Kaleidoscope.Lexer.{Token, tok_eof}
use llvm17_learning_repo.Kaleidoscope.Lexer.Stream.{Lexeme, lexeme}
use llvm17_learning_repo.Kaleidoscope.Lexer.Progress.{weight, remaining, gettok-Progress}
use llvm17_learning_repo.Kaleidoscope.Parser.State.{
  State, Outcome, done, report, resume, fail, or_log, ◌>>=◌, advance, Parser,
}

-- The later messages are the earlier ones with at least one in front.
pub data Reported (old : List String) : List String → Type 0 where
  first : {msg : String} → Reported old (msg ∷ old)
  again : {msg : String} {new : List String} → Reported old new → Reported old (msg ∷ new)

module _ (fl : Floating) where
  open fl use {Double}

  -- The tokens that are left, at most: CurTok and the bytes behind it.
  abbrev pub measure : State Double → ℕ
  measure s = weight s.cur_tok + remaining fl s.lexer

  -- getNextToken was called once for each of these tokens, and nothing else happened.
  pub data Consumes : State Double → List (Lexeme Double) → State Double → Type 0 where
    nothing : {s : State Double} → Consumes s [] s
    token :
        {s u : State Double} {t : Lexeme Double} {ts : List (Lexeme Double)}
        → t ≡ lexeme s.cur_tok s.lexer
        → s.cur_tok ≢ tok_eof
        → Consumes (advance fl s) ts u
        → Consumes s (t ∷ ts) u

  -- The table of precedences is as it was.
  abbrev pub SameTable : State Double → State Double → Type 0
  SameTable s u = u.binop_precedence ≡ s.binop_precedence

  pub record Fails (s u : State Double) : Type 0 where
    pub shrinks : measure u ≤ measure s
    pub stuck : (u.cur_tok ≡ s.cur_tok) ⊎ (measure u < measure s)
    pub reported : Reported s.errors u.errors
    pub table : SameTable s u

  -- A return from `s`: what `P` says of the node, its tokens and the globals behind it; or nullptr.
  pub data Returns {A : Type 0} (P : A → List (Lexeme Double) → State Double → Type 0)
      (s : State Double) : Outcome Double A → Type 0 where
    node :
        {a : A} {u : State Double} (ts : List (Lexeme Double))
        → Consumes s ts u
        → P a ts u
        → Returns P s (done (some a) u)
    null : {u : State Double} → Fails s u → Returns P s (done none u)

  pub weight-pos : (t : Token) → t ≢ tok_eof → weight t ≡ 1
  weight-pos tok_eof h = absurd (h refl)
  weight-pos _ h = refl

  pub advance-measure : (s : State Double) → measure (advance fl s) + weight s.cur_tok ≤ measure s
  unfolding advance
  advance-measure s = omega (arith, (gettok-Progress fl s.lexer).0)

  pub Consumes-measure :
      {s u : State Double} {ts : List (Lexeme Double)}
      → Consumes s ts u
      → measure u + length ts ≤ measure s
  Consumes-measure nothing = omega arith
  Consumes-measure (token {s} _ h r) =
      omega (arith, Consumes-measure r, advance-measure s, weight-pos s.cur_tok h)

  pub Consumes-same :
      {s u : State Double} {ts : List (Lexeme Double)}
      → Consumes s ts u
      → (u.errors ≡ s.errors) × SameTable s u
  unfolding advance
  Consumes-same nothing = (refl, refl)
  Consumes-same (token _ _ r) = Consumes-same r

  pub Consumes-append :
      {s u v : State Double} {ts us : List (Lexeme Double)}
      → Consumes s ts u
      → Consumes u us v
      → Consumes s (ts ++ us) v
  Consumes-append nothing q = q
  Consumes-append (token e h r) q = token e h (Consumes-append r q)

  -- CurTok stands where it stood, or less is left.
  pub Consumes-stuck :
      {s u : State Double} (v : State Double) {ts : List (Lexeme Double)}
      → Consumes s ts u
      → measure v ≤ measure u
      → (v.cur_tok ≡ u.cur_tok) ⊎ (measure v < measure u)
      → (v.cur_tok ≡ s.cur_tok) ⊎ (measure v < measure s)
  Consumes-stuck v nothing le h = h
  Consumes-stuck v (token {s} e n r) le h =
      inr (omega (arith, Consumes-measure r, advance-measure s, weight-pos s.cur_tok n, le))

  -- A failure behind consumed tokens is a failure.
  pub Fails-behind :
      {s u v : State Double} {ts : List (Lexeme Double)} → Consumes s ts u → Fails u v → Fails s v
  Fails-behind {s} {u} {v} c f = record {
    shrinks = omega (arith, Consumes-measure c, f.shrinks);
    stuck = Consumes-stuck v c f.shrinks f.stuck;
    reported = subst (λ old. Reported old v.errors) (Consumes-same c).0 f.reported;
    table = f.table ∙ (Consumes-same c).1;
  }

  module _ {A : Type 0} {P : A → List (Lexeme Double) → State Double → Type 0} where
    pub Returns-fail : (msg : String) (s : State Double) → Returns P s (fail msg s)
    unfolding fail
    Returns-fail msg s =
        null (record { shrinks = omega arith; stuck = inl refl; reported = first; table = refl })

    report-Returns :
        (msg : String) {s : State Double} {r : Outcome Double A}
        → Returns P s r
        → Returns P s (report msg r)
    unfolding report
    report-Returns msg (node ts c h) = node ts c h
    report-Returns msg (null f) = null (record {
      shrinks = f.shrinks;
      stuck = f.stuck;
      reported = again f.reported;
      table = f.table;
    })

    pub Returns-or_log :
        (msg : String) (p : Parser fl A) {s : State Double}
        → Returns P s (p s)
        → Returns P s (or_log msg p s)
    unfolding or_log
    Returns-or_log msg p h = report-Returns msg h

    pub Returns-mono :
        {Q : A → List (Lexeme Double) → State Double → Type 0} {s : State Double}
        {r : Outcome Double A}
        → ((a : A) (ts : List (Lexeme Double)) (u : State Double) → P a ts u → Q a ts u)
        → Returns P s r
        → Returns Q s r
    Returns-mono k (node {a} {u} ts c h) = node ts c (k a ts u h)
    Returns-mono k (null f) = null f

  pub Returns-behind :
      {B : Type 0} {Q : B → List (Lexeme Double) → State Double → Type 0} {s u : State Double}
      {ts : List (Lexeme Double)} {r : Outcome Double B}
      → Consumes s ts u
      → Returns (λ b us v. Q b (ts ++ us) v) u r
      → Returns Q s r
  Returns-behind {ts} c (node us d h) = node (ts ++ us) (Consumes-append c d) h
  Returns-behind c (null f) = null (Fails-behind c f)

  module _ {A B : Type 0} {P : A → List (Lexeme Double) → State Double → Type 0}
      {Q : B → List (Lexeme Double) → State Double → Type 0} where
    resume-Returns :
        (f : A → Parser fl B) {s : State Double} {r : Outcome Double A}
        → Returns P s r
        → ((a : A) (ts : List (Lexeme Double)) (u : State Double)
            → Consumes s ts u
            → P a ts u
            → Returns (λ b us v. Q b (ts ++ us) v) u (f a u))
        → Returns Q s (resume r f)
    unfolding resume
    resume-Returns f (node {a} {u} ts c h) k = Returns-behind c (k a ts u c h)
    resume-Returns f (null x) k = null x

    pub Returns-bind :
        (p : Parser fl A) (f : A → Parser fl B) {s : State Double}
        → Returns P s (p s)
        → ((a : A) (ts : List (Lexeme Double)) (u : State Double)
            → Consumes s ts u
            → P a ts u
            → Returns (λ b us v. Q b (ts ++ us) v) u (f a u))
        → Returns Q s ((p >>= f) s)
    unfolding ◌>>=◌
    Returns-bind p f h k = resume-Returns f h k
