-- ===== src/Kaleidoscope/Parser/Rules.antt =====
-- Rules for the steps that the parsers of kaleidoscope/src/parser.cpp are made of.
use Prim.Native.String.{String}
use llvm17_learning_repo.Common.{
  ℕ, zero, suc, ◌≡◌, ◌≢◌, refl, sym, ◌∙◌, ap, Bool, true, false, Option, List, [], ◌∷◌,
  if◌then◌else◌, if_intro, ==_iff,
}
use llvm17_learning_repo.Kaleidoscope.Chars.{Bytes}
use llvm17_learning_repo.Kaleidoscope.Floating.{Floating}
use llvm17_learning_repo.Kaleidoscope.Lexer.{
  Token, tok_eof, tok_def, tok_extern, tok_identifier, tok_number, tok_if, tok_then, tok_else,
  tok_for, tok_in, tok_binary, tok_unary, tok_var, tok_char, Lexer,
}
use llvm17_learning_repo.Kaleidoscope.Lexer.Stream.{Lexeme, plain, identifier, lexeme}
use llvm17_learning_repo.Kaleidoscope.Parser.State.{
  State, Outcome, token_code, ◌is◌, ◌>>=◌, ◌>>◌, resume, advance, Parser, get_next_token, current,
  get_tok_precedence, tok_precedence, identifier_str, num_val, expect, expect_identifier,
}
use llvm17_learning_repo.Kaleidoscope.Parser.Contract.{
  Consumes, nothing, token, Returns, Returns-fail, Returns-behind,
}

decode : ℕ → Token
decode zero = tok_eof
decode (suc zero) = tok_def
decode (suc (suc zero)) = tok_extern
decode (suc (suc (suc zero))) = tok_identifier
decode (suc (suc (suc (suc zero)))) = tok_number
decode (suc (suc (suc (suc (suc zero))))) = tok_if
decode (suc (suc (suc (suc (suc (suc zero)))))) = tok_then
decode (suc (suc (suc (suc (suc (suc (suc zero))))))) = tok_else
decode (suc (suc (suc (suc (suc (suc (suc (suc zero)))))))) = tok_for
decode (suc (suc (suc (suc (suc (suc (suc (suc (suc zero))))))))) = tok_in
decode (suc (suc (suc (suc (suc (suc (suc (suc (suc (suc zero)))))))))) = tok_binary
decode (suc (suc (suc (suc (suc (suc (suc (suc (suc (suc (suc zero))))))))))) = tok_unary
decode (suc (suc (suc (suc (suc (suc (suc (suc (suc (suc (suc (suc zero)))))))))))) = tok_var
decode (suc (suc (suc (suc (suc (suc (suc (suc (suc (suc (suc (suc (suc c))))))))))))) = tok_char c

decode-token_code : (t : Token) → decode (token_code t) ≡ t
unfolding decode
decode-token_code tok_eof = refl
decode-token_code _ = refl

pub is→eq : (a b : Token) → (a is b) ≡ true → a ≡ b
unfolding ◌is◌
is→eq a b h =
    sym (decode-token_code a)
    ∙ ap decode ((==_iff (token_code a) (token_code b)).0 h)
    ∙ decode-token_code b

-- A token that carries no global with it.
pub record IsPlain (D : Type 0) (t : Token) : Type 0 where
  pub not_eof : t ≢ tok_eof
  pub lexeme_plain : (lx : Lexer D) → plain t ≡ lexeme t lx

pub tok_char-IsPlain : {D : Type 0} (c : ℕ) → IsPlain D (tok_char c)
unfolding lexeme
tok_char-IsPlain c = record { not_eof = λ e. cc; lexeme_plain = λ lx. refl }

pub tok_if-IsPlain : {D : Type 0} → IsPlain D tok_if
unfolding lexeme
tok_if-IsPlain = record { not_eof = λ e. cc; lexeme_plain = λ lx. refl }

pub tok_then-IsPlain : {D : Type 0} → IsPlain D tok_then
unfolding lexeme
tok_then-IsPlain = record { not_eof = λ e. cc; lexeme_plain = λ lx. refl }

pub tok_else-IsPlain : {D : Type 0} → IsPlain D tok_else
unfolding lexeme
tok_else-IsPlain = record { not_eof = λ e. cc; lexeme_plain = λ lx. refl }

pub tok_for-IsPlain : {D : Type 0} → IsPlain D tok_for
unfolding lexeme
tok_for-IsPlain = record { not_eof = λ e. cc; lexeme_plain = λ lx. refl }

pub tok_in-IsPlain : {D : Type 0} → IsPlain D tok_in
unfolding lexeme
tok_in-IsPlain = record { not_eof = λ e. cc; lexeme_plain = λ lx. refl }

pub tok_var-IsPlain : {D : Type 0} → IsPlain D tok_var
unfolding lexeme
tok_var-IsPlain = record { not_eof = λ e. cc; lexeme_plain = λ lx. refl }

module _ (fl : Floating) where
  open fl use {Double}

  pub Consumes-plain :
      {s : State Double} {t : Token}
      → s.cur_tok ≡ t
      → IsPlain Double t
      → Consumes fl s (plain t ∷ []) (advance fl s)
  Consumes-plain {s} e p =
      token (p.lexeme_plain s.lexer ∙ rw e refl) (λ x. p.not_eof (sym e ∙ x)) nothing

  pub Consumes-identifier :
      {s : State Double}
      → s.cur_tok ≡ tok_identifier
      → Consumes fl s (identifier s.lexer.identifier_str ∷ []) (advance fl s)
  unfolding lexeme
  Consumes-identifier {s} e = token (rw e refl) (λ x. cc) nothing

  module _ {B : Type 0} {Q : B → List (Lexeme Double) → State Double → Type 0} where
    known :
        {s : State Double} {t : Token} (r : Outcome Double B)
        → s.cur_tok ≡ t
        → IsPlain Double t
        → (Consumes fl s (plain t ∷ []) (advance fl s)
            → Returns fl (λ b us v. Q b (plain t ∷ us) v) (advance fl s) r)
        → Returns fl Q s r
    known r e p k = let c = Consumes-plain e p in Returns-behind fl c (k c)

    -- getNextToken where CurTok is known.
    pub Returns-eat :
        {s : State Double} {t : Token} (f : Parser fl B)
        → s.cur_tok ≡ t
        → IsPlain Double t
        → ((u : State Double)
            → Consumes fl s (plain t ∷ []) u
            → Returns fl (λ b us v. Q b (plain t ∷ us) v) u (f u))
        → Returns fl Q s ((get_next_token fl >> f) s)
    unfolding ◌>>◌ resume get_next_token
    Returns-eat {s} f e p k = known (f (advance fl s)) e p (k (advance fl s))

    pub Returns-current :
        {s : State Double} (f : Token → Parser fl B)
        → Returns fl Q s (f s.cur_tok s)
        → Returns fl Q s ((current fl >>= f) s)
    unfolding ◌>>=◌ resume current
    Returns-current f k = k

    pub Returns-precedence :
        {s : State Double} (f : Option ℕ → Parser fl B)
        → Returns fl Q s (f (tok_precedence s.binop_precedence s.cur_tok) s)
        → Returns fl Q s ((get_tok_precedence fl >>= f) s)
    unfolding ◌>>=◌ resume get_tok_precedence
    Returns-precedence f k = k

    -- IdentifierStr, and getNextToken, where CurTok is a name.
    pub Returns-name :
        {s : State Double} (f : Bytes → Parser fl B)
        → s.cur_tok ≡ tok_identifier
        → ((x : Bytes) (u : State Double)
            → Consumes fl s (identifier x ∷ []) u
            → Returns fl (λ b us v. Q b (identifier x ∷ us) v) u (f x u))
        → Returns fl Q s ((identifier_str fl >>= λ x. get_next_token fl >> f x) s)
    unfolding ◌>>=◌ ◌>>◌ resume identifier_str get_next_token
    Returns-name {s} f e k =
        let c = Consumes-identifier e in
        Returns-behind fl c (k s.lexer.identifier_str (advance fl s) c)

    pub Returns-expect :
        {s : State Double} (t : Token) (msg : String) (f : Parser fl B)
        → IsPlain Double t
        → ((u : State Double)
            → Consumes fl s (plain t ∷ []) u
            → Returns fl (λ b us v. Q b (plain t ∷ us) v) u (f u))
        → Returns fl Q s ((expect fl t msg >> f) s)
    unfolding expect ◌>>◌ resume
    Returns-expect {s} t msg f p k =
        if_intro (λ (r : Outcome Double (Unit {0})). Returns fl Q s (resume r (λ _. f)))
          (s.cur_tok is t) (λ h. known (f (advance fl s)) (is→eq _ _ h) p (k (advance fl s)))
          (λ _. Returns-fail fl msg s)

    pub Returns-expect_identifier :
        {s : State Double} (msg : String) (f : Bytes → Parser fl B)
        → ((x : Bytes) (u : State Double)
            → Consumes fl s (identifier x ∷ []) u
            → Returns fl (λ b us v. Q b (identifier x ∷ us) v) u (f x u))
        → Returns fl Q s ((expect_identifier fl msg >>= f) s)
    unfolding expect_identifier ◌>>=◌ resume
    Returns-expect_identifier {s} msg f k =
        if_intro (λ r. Returns fl Q s (resume r f)) (s.cur_tok is tok_identifier)
          (λ h.
            let c = Consumes-identifier (is→eq _ _ h) in
            Returns-behind fl c (k s.lexer.identifier_str (advance fl s) c))
          (λ _. Returns-fail fl msg s)

    -- A conditional between two parsers.
    pub if_else :
        (b : Bool) (p q : Parser fl B) {s : State Double}
        → (b ≡ true → Returns fl Q s (p s))
        → (b ≡ false → Returns fl Q s (q s))
        → Returns fl Q s ((if b then p else q) s)
    if_else true p q hp hq = hp refl
    if_else false p q hp hq = hq refl

    -- getNextToken in front of the end of the file.
    pub Returns-token :
        {s : State Double} (f : Parser fl B)
        → s.cur_tok ≢ tok_eof
        → ((u : State Double)
            → Consumes fl s (lexeme s.cur_tok s.lexer ∷ []) u
            → Returns fl (λ b us v. Q b (lexeme s.cur_tok s.lexer ∷ us) v) u (f u))
        → Returns fl Q s ((get_next_token fl >> f) s)
    unfolding ◌>>◌ resume get_next_token
    Returns-token {s} f e k =
        let c : Consumes fl s (lexeme s.cur_tok s.lexer ∷ []) (advance fl s) =
          token refl e nothing in
        Returns-behind fl c (k (advance fl s) c)

    pub Returns-identifier_str :
        {s : State Double} (f : Bytes → Parser fl B)
        → Returns fl Q s (f s.lexer.identifier_str s)
        → Returns fl Q s ((identifier_str fl >>= f) s)
    unfolding ◌>>=◌ resume identifier_str
    Returns-identifier_str f k = k

    pub Returns-num_val :
        {s : State Double} (f : Double → Parser fl B)
        → Returns fl Q s (f s.lexer.num_val s)
        → Returns fl Q s ((num_val fl >>= f) s)
    unfolding ◌>>=◌ resume num_val
    Returns-num_val f k = k
