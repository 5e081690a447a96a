-- ===== src/Kaleidoscope/Parser/Primaries.antt =====
-- The productions behind ParsePrimary, kaleidoscope/src/parser.cpp: each derives what it returns, where
-- ParseExpression does so on less input.
use Prim.Native.String.{String}
use llvm17_learning_repo.Common.{
  ℕ, zero, suc, ◌≤◌, ◌<◌, ◌≡◌, refl, ◌∙◌, ap, Bool, true, false, List, [], ◌∷◌, ◌++◌, ◌==◌, length,
  arith, append-nil, if◌then◌else◌, ==_iff,
}
use llvm17_learning_repo.Kaleidoscope.Chars.{Bytes}
use llvm17_learning_repo.Kaleidoscope.Floating.{Floating}
use llvm17_learning_repo.Kaleidoscope.Lexer.{
  Token, tok_identifier, tok_number, tok_if, tok_then, tok_else, tok_for, tok_in, tok_var, tok_char,
}
use llvm17_learning_repo.Kaleidoscope.Lexer.Stream.{Lexeme, identifier, lexeme}
use llvm17_learning_repo.Kaleidoscope.Syntax.{Expr, call, Args, no_args}
use llvm17_learning_repo.Kaleidoscope.Parser.State.{
  State, ◌is◌, pure, ◌>>=◌, ◌>>◌, resume, Parser, get_next_token, num_val,
}
use llvm17_learning_repo.Kaleidoscope.Parser.Expressions.{
  parse_number_expr, parse_paren_expr, parse_args, parse_call_args, parse_identifier_expr,
  parse_if_expr, parse_optional, parse_for_expr, parse_bindings, parse_var_expr, primary_of,
  parse_primary,
}
use llvm17_learning_repo.Kaleidoscope.Parser.Grammar.{
  Phrase, primary, level, arguments, optional, variables, mark, Derives, literal, reference, parens,
  call_none, call_some, last_argument, next_argument, conditional, left_out, given, loop,
  last_variable, next_variable, scope,
}
use llvm17_learning_repo.Kaleidoscope.Parser.Contract.{
  measure, Consumes, nothing, token, Returns, node, Returns-fail, Returns-bind, Returns-or_log,
  Returns-mono, Consumes-measure, Consumes-same,
}
use llvm17_learning_repo.Kaleidoscope.Parser.Rules.{
  is→eq, IsPlain, tok_char-IsPlain, tok_if-IsPlain, tok_then-IsPlain, tok_else-IsPlain,
  tok_for-IsPlain, tok_in-IsPlain, tok_var-IsPlain, Returns-eat, Returns-current, Returns-name,
  Returns-expect, if_else, Returns-expect_identifier,
}

module _ (fl : Floating) (table : ℕ → ℕ) where
  open fl use {Double}

  -- Fewer than `n` tokens are left, and the table is the one of the grammar.
  pub record Within (n : ℕ) (s : State Double) : Type 0 where
    pub fewer : measure fl s < n
    pub same : s.binop_precedence ≡ table

  pub Within-consumed :
      {n : ℕ} {s u : State Double} {ts : List (Lexeme Double)}
      → Consumes fl s ts u
      → 0 < length ts
      → Within (suc n) s
      → Within n u
  Within-consumed c h w = record {
    fewer = omega (arith, Consumes-measure fl c, w.fewer);
    same = (Consumes-same fl c).1 ∙ w.same;
  }

  pub Within-later :
      {n : ℕ} {s u : State Double} {ts : List (Lexeme Double)}
      → Consumes fl s ts u
      → Within n s
      → Within n u
  Within-later c w = record {
    fewer = omega (arith, Consumes-measure fl c, w.fewer);
    same = (Consumes-same fl c).1 ∙ w.same;
  }

  -- What a parser returns derives the tokens that it took.
  abbrev pub Yields :
      {A : Type 0} → (A → Phrase Double) → A → List (Lexeme Double) → State Double → Type 0
  Yields ph a ts u = Derives table (ph a) ts

  abbrev pub Sound : {A : Type 0} → ℕ → (A → Phrase Double) → Parser fl A → Type 0
  Sound n ph p = (s : State Double) → Within n s → Returns fl (Yields ph) s (p s)

  parse_number_expr-Returns :
      (s : State Double)
      → s.cur_tok ≡ tok_number
      → Returns fl (Yields primary) s (parse_number_expr fl s)
  unfolding parse_number_expr num_val get_next_token ◌>>=◌ ◌>>◌ resume lexeme
  parse_number_expr-Returns s e = node _ (token (rw e refl) (λ x. cc) nothing) literal

  parse_optional-Returns :
      (n : ℕ) (m : Token) (p : Parser fl (Expr Double)) (s : State Double)
      → IsPlain Double m
      → Sound n (level 0) p
      → Within n s
      → Returns fl (Yields (optional m)) s (parse_optional fl m p s)
  unfolding parse_optional
  parse_optional-Returns n m p s plain_mark p-Sound w = Returns-current fl _ (
      if_else fl (s.cur_tok is m) _ _
        (λ h. Returns-eat fl _ (is→eq _ _ h) plain_mark λ u c.
          Returns-bind fl _ _ (p-Sound u (Within-later c w))
            λ e ts u₂ c₂ d. node [] nothing (rw append-nil (given d)))
        λ h. node [] nothing left_out)

  module _ (expr : Parser fl (Expr Double)) (n : ℕ) (expr-Sound : Sound n (level 0) expr) where
    parse_paren_expr-Returns :
        (s : State Double)
        → Within (suc n) s
        → s.cur_tok ≡ tok_char b'('
        → Returns fl (Yields primary) s (parse_paren_expr fl expr s)
    unfolding parse_paren_expr
    parse_paren_expr-Returns s w e = Returns-eat fl _ e (tok_char-IsPlain b'(') λ u₀ c₀.
        Returns-bind fl _ _
          (Returns-or_log fl _ expr (expr-Sound _ (Within-consumed c₀ (omega arith) w)))
          λ v ts u c₁ d.
            Returns-expect fl (tok_char b')') _ _ (tok_char-IsPlain b')')
              λ u₂ c₂. node [] nothing (parens d)

    -- The loop stops in front of the ')'.
    abbrev ArgsRead : Args Double → List (Lexeme Double) → State Double → Type 0
    ArgsRead es ts u = Derives table (arguments es) ts × (u.cur_tok ≡ tok_char b')')

    parse_args-Returns :
        (f : ℕ) (s : State Double)
        → measure fl s < f
        → Within n s
        → Returns fl ArgsRead s (parse_args fl expr f s)
    unfolding parse_args
    parse_args-Returns zero s m w = absurd (omega arith)
    parse_args-Returns (suc f) s m w =
        Returns-bind fl _ _ (Returns-or_log fl _ expr (expr-Sound _ w)) λ a ts u c d.
          Returns-current fl _ (
            if_else fl (u.cur_tok is tok_char b')') _ _
              (λ h. node [] nothing (rw append-nil (last_argument d), is→eq _ _ h))
              λ h. Returns-expect fl (tok_char b',') _ _ (tok_char-IsPlain b',') λ u₂ c₂.
                Returns-bind fl _ _
                  (parse_args-Returns f u₂
                    (omega (arith, Consumes-measure fl c, Consumes-measure fl c₂))
                    (Within-later c₂ (Within-later c w)))
                  λ es us u₃ c₃ (ds, e). node [] nothing (rw append-nil (next_argument d ds), e))

    -- The arguments and the ')' behind them, or the ')' alone, for any callee.
    abbrev CallRead : Args Double → List (Lexeme Double) → State Double → Type 0
    CallRead es ts u =
        (x : Bytes) → Derives table (primary (call x es)) (identifier x ∷ mark b'(' ∷ ts)

    parse_call_args-Returns :
        (f : ℕ) (s : State Double)
        → measure fl s < f
        → Within n s
        → Returns fl CallRead s (parse_call_args fl expr f s)
    unfolding parse_call_args
    parse_call_args-Returns f s m w = Returns-current fl _ (
        Returns-bind fl _ _ (arguments_or_none (s.cur_tok is tok_char b')') refl)
          λ es ts u c (d, e). Returns-eat fl _ e (tok_char-IsPlain b')') λ u₂ c₂. node [] nothing d)
      where
        arguments_or_none :
            (b : Bool)
            → (s.cur_tok is tok_char b')') ≡ b
            → Returns fl
                (λ es ts u.
                  ((x : Bytes)
                    → Derives table
                        (primary (call x es))
                        (identifier x ∷ mark b'(' ∷ (ts ++ mark b')' ∷ [])))
                  × (u.cur_tok ≡ tok_char b')'))
                s
                ((if b then pure no_args else parse_args fl expr f) s)
        arguments_or_none true h = node [] nothing (λ x. call_none, is→eq _ _ h)
        arguments_or_none false h =
            Returns-mono fl (λ es ts u (d, e). (λ x. call_some d, e)) (parse_args-Returns f s m w)

    parse_identifier_expr-Returns :
        (f : ℕ) (s : State Double)
        → measure fl s < suc f
        → Within (suc n) s
        → s.cur_tok ≡ tok_identifier
        → Returns fl (Yields primary) s (parse_identifier_expr fl expr f s)
    unfolding parse_identifier_expr
    parse_identifier_expr-Returns f s m w e = Returns-name fl _ e λ x u c. Returns-current fl _ (
        if_else fl (u.cur_tok is tok_char b'(') _ _
          (λ h. Returns-eat fl _ (is→eq _ _ h) (tok_char-IsPlain b'(') λ u₁ c₁.
            Returns-bind fl _ _
              (parse_call_args-Returns f u₁
                (omega (arith, Consumes-measure fl c, Consumes-measure fl c₁))
                (Within-later c₁ (Within-consumed c (omega arith) w)))
              λ es ts u₂ c₂ d. node [] nothing (rw append-nil (d x)))
          λ h. node [] nothing reference)

    parse_if_expr-Returns :
        (s : State Double)
        → Within (suc n) s
        → s.cur_tok ≡ tok_if
        → Returns fl (Yields primary) s (parse_if_expr fl expr s)
    unfolding parse_if_expr
    parse_if_expr-Returns s w e = Returns-eat fl _ e tok_if-IsPlain λ u₁ c₁.
        let w₁ = Within-consumed c₁ (omega arith) w in
        Returns-bind fl _ _ (Returns-or_log fl _ expr (expr-Sound _ w₁)) λ c ts u₂ c₂ d₁.
          let w₂ = Within-later c₂ w₁ in
          Returns-expect fl tok_then _ _ tok_then-IsPlain λ u₃ c₃.
            let w₃ = Within-later c₃ w₂ in
            Returns-bind fl _ _ (Returns-or_log fl _ expr (expr-Sound _ w₃)) λ t us u₄ c₄ d₂.
              let w₄ = Within-later c₄ w₃ in
              Returns-expect fl tok_else _ _ tok_else-IsPlain λ u₅ c₅.
                Returns-bind fl _ _ (Returns-or_log fl _ expr (expr-Sound _ (Within-later c₅ w₄)))
                  λ e vs u₆ c₆ d₃. node [] nothing (rw append-nil (conditional d₁ d₂ d₃))

    parse_for_expr-Returns :
        (s : State Double)
        → Within (suc n) s
        → s.cur_tok ≡ tok_for
        → Returns fl (Yields primary) s (parse_for_expr fl expr s)
    unfolding parse_for_expr
    parse_for_expr-Returns s w e = Returns-eat fl _ e tok_for-IsPlain λ u₁ c₁.
        let w₁ = Within-consumed c₁ (omega arith) w in
        Returns-expect_identifier fl _ _ λ x u₂ c₂.
          Returns-expect fl (tok_char b'=') _ _ (tok_char-IsPlain b'=') λ u₃ c₃.
            let w₃ = Within-later c₃ (Within-later c₂ w₁) in
            Returns-bind fl _ _ (expr-Sound _ w₃) λ start ts u₄ c₄ d₁.
              Returns-expect fl (tok_char b',') _ _ (tok_char-IsPlain b',') λ u₅ c₅.
                let w₅ = Within-later c₅ (Within-later c₄ w₃) in
                Returns-bind fl _ _ (expr-Sound _ w₅) λ end us u₆ c₆ d₂.
                  let w₆ = Within-later c₆ w₅ in
                  Returns-bind fl _ _
                    (parse_optional-Returns n (tok_char b',') expr u₆ (tok_char-IsPlain b',')
                      expr-Sound w₆)
                    λ step vs u₇ c₇ d₃. Returns-expect fl tok_in _ _ tok_in-IsPlain λ u₈ c₈.
                      let w₈ = Within-later c₈ (Within-later c₇ w₆) in
                      Returns-bind fl _ _ (expr-Sound _ w₈)
                        λ body ws u₉ c₉ d₄. node [] nothing (rw append-nil (loop d₁ d₂ d₃ d₄))

    parse_bindings-Returns :
        (f : ℕ) (msg : String) (s : State Double)
        → measure fl s < f
        → Within n s
        → Returns fl (Yields variables) s (parse_bindings fl expr f msg s)
    unfolding parse_bindings
    parse_bindings-Returns zero msg s m w = absurd (omega arith)
    parse_bindings-Returns (suc f) msg s m w = Returns-expect_identifier fl _ _ λ x u c.
        let w₁ = Within-later c w in
        Returns-bind fl _ _
          (parse_optional-Returns n (tok_char b'=') _ u (tok_char-IsPlain b'=')
            (λ v wv. Returns-or_log fl _ expr (expr-Sound v wv)) w₁)
          λ init ts u₂ c₂ d.
            let w₂ = Within-later c₂ w₁ in
            Returns-current fl _ (
              if_else fl (u₂.cur_tok is tok_char b',') _ _
                (λ h. Returns-eat fl _ (is→eq _ _ h) (tok_char-IsPlain b',') λ u₃ c₃.
                  Returns-bind fl _ _
                    (parse_bindings-Returns f _ u₃
                      (omega (
                        arith,
                        Consumes-measure fl c,
                        Consumes-measure fl c₂,
                        Consumes-measure fl c₃,
                      ))
                      (Within-later c₃ w₂))
                    λ bs us u₄ c₄ ds. node [] nothing (rw append-nil (next_variable d ds)))
                λ h. node [] nothing (rw append-nil (last_variable d)))

    parse_var_expr-Returns :
        (f : ℕ) (s : State Double)
        → measure fl s < suc f
        → Within (suc n) s
        → s.cur_tok ≡ tok_var
        → Returns fl (Yields primary) s (parse_var_expr fl expr f s)
    unfolding parse_var_expr
    parse_var_expr-Returns f s m w e = Returns-eat fl _ e tok_var-IsPlain λ u₁ c₁.
        let w₁ = Within-consumed c₁ (omega arith) w in
        Returns-bind fl _ _
          (parse_bindings-Returns f _ u₁ (omega (arith, Consumes-measure fl c₁)) w₁)
          λ bs ts u₂ c₂ d₁. Returns-expect fl tok_in _ _ tok_in-IsPlain λ u₃ c₃.
            Returns-bind fl _ _
              (Returns-or_log fl _ expr (expr-Sound _ (Within-later c₃ (Within-later c₂ w₁))))
              λ body us u₄ c₄ d₂. node [] nothing (rw append-nil (scope d₁ d₂))

    primary_of-Returns :
        (f : ℕ) (t : Token) (s : State Double)
        → measure fl s < suc f
        → Within (suc n) s
        → s.cur_tok ≡ t
        → Returns fl (Yields primary) s (primary_of fl expr f t s)
    unfolding primary_of
    primary_of-Returns f tok_identifier s m w e = parse_identifier_expr-Returns f s m w e
    primary_of-Returns f tok_number s m w e = parse_number_expr-Returns s e
    primary_of-Returns f tok_if s m w e = parse_if_expr-Returns s w e
    primary_of-Returns f tok_for s m w e = parse_for_expr-Returns s w e
    primary_of-Returns f tok_var s m w e = parse_var_expr-Returns f s m w e
    primary_of-Returns f (tok_char c) s m w e =
        if_else fl (c == b'(') _ _
          (λ h. parse_paren_expr-Returns s w (e ∙ ap tok_char ((==_iff c b'(').0 h)))
          λ h. Returns-fail fl _ s
    primary_of-Returns f _ s m w e = Returns-fail fl _ s

    -- ParsePrimary derives what it returns.
    pub parse_primary-Sound : (f : ℕ) → n ≤ f → Sound (suc n) primary (parse_primary fl expr f)
    unfolding parse_primary
    parse_primary-Sound f h s w =
        Returns-current fl _ (primary_of-Returns f s.cur_tok s (omega (arith, w.fewer)) w refl)
