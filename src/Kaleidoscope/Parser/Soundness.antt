-- ===== src/Kaleidoscope/Parser/Soundness.antt =====
-- What the parsers of kaleidoscope/include/parser.h return, from any state of the globals.
use llvm17_learning_repo.Common.{
  ℕ, ◌<◌, ◌≡◌, refl, ◌∙◌, none, List, [], ◌∷◌, ◌++◌, arith, append-nil, Option, some,
}
use llvm17_learning_repo.Kaleidoscope.Floating.{Floating}
use llvm17_learning_repo.Kaleidoscope.Lexer.{tok_def, tok_extern}
use llvm17_learning_repo.Kaleidoscope.Lexer.Stream.{Lexeme, plain, lexeme}
use llvm17_learning_repo.Kaleidoscope.Syntax.{Expr, Prototype, Function}
use llvm17_learning_repo.Kaleidoscope.Parser.State.{State, tok_precedence}
use llvm17_learning_repo.Kaleidoscope.Parser.Expressions.{parse_expression}
use llvm17_learning_repo.Kaleidoscope.Parser.Toplevel.{
  parse_prototype, parse_definition, parse_extern, parse_top_level_expr, anonymous,
}
use llvm17_learning_repo.Kaleidoscope.Parser.Grammar.{level, Derives}
use llvm17_learning_repo.Kaleidoscope.Parser.Contract.{
  measure, nothing, Returns, node, Returns-mono, Returns-bind, Returns-or_log, Consumes-measure,
  Consumes-same,
}
use llvm17_learning_repo.Kaleidoscope.Parser.Rules.{IsPlain, Returns-eat}
use llvm17_learning_repo.Kaleidoscope.Parser.Operators.{expression-Returns}
use llvm17_learning_repo.Kaleidoscope.Parser.Prototypes.{
  DerivesPrototype, DerivesFunction, parse_prototype-Returns,
}

tok_def-IsPlain : {D : Type 0} → IsPlain D tok_def
unfolding lexeme
tok_def-IsPlain = record { not_eof = λ e. cc; lexeme_plain = λ lx. refl }

tok_extern-IsPlain : {D : Type 0} → IsPlain D tok_extern
unfolding lexeme
tok_extern-IsPlain = record { not_eof = λ e. cc; lexeme_plain = λ lx. refl }

module _ (fl : Floating) where
  open fl use {Double}

  -- An expression for these tokens, up to a token that is no binary operator.
  abbrev pub ExpressionRead :
      State Double → Expr Double → List (Lexeme Double) → State Double → Type 0
  ExpressionRead s e ts u =
      Derives s.binop_precedence (level 0 e) ts
      × (tok_precedence u.binop_precedence u.cur_tok ≡ none)

  -- A definition, with the `def` in front.
  abbrev pub DefinitionRead :
      State Double → Function Double → List (Lexeme Double) → State Double → Type 0
  DefinitionRead s fn ts u =
      (us : List (Lexeme Double)) × (ts ≡ plain tok_def ∷ us)
      × DerivesFunction fl s.binop_precedence fn us

  abbrev pub ExternRead : Prototype → List (Lexeme Double) → State Double → Type 0
  ExternRead proto ts u =
      (us : List (Lexeme Double)) × (ts ≡ plain tok_extern ∷ us) × DerivesPrototype fl proto us

  abbrev pub TopLevelRead :
      State Double → Function Double → List (Lexeme Double) → State Double → Type 0
  TopLevelRead s fn ts u = (fn.proto ≡ anonymous) × ExpressionRead s fn.body ts u

  no_operator : (o : Option ℕ) → ((q : ℕ) → o ≡ some q → q < 0) → o ≡ none
  no_operator none h = refl
  no_operator (some q) h = absurd (omega (arith, h q refl))

  -- With more fuel than tokens and bytes are left, ParseExpression returns. A node derives exactly the
  -- tokens that were consumed, operators grouped by precedence and to the left, no binary operator
  -- follows, and nothing is reported; nullptr comes with a report. The precedences stay as they are.
  pub parse_expression_sound :
      (f : ℕ) (s : State Double)
      → measure fl s < f
      → Returns fl (ExpressionRead s) s (parse_expression fl f s)
  parse_expression_sound f s m =
      Returns-mono fl (λ e ts u (d, stop). (d, no_operator _ stop))
        (expression-Returns fl s.binop_precedence f s (record { fewer = m; same = refl }))

  -- ParsePrototype returns. A node derives exactly the tokens that were consumed, so that an operator
  -- has one or two parameters by its kind and a precedence from its literal or 30; nothing is reported
  -- with a node, and nullptr comes with a report.
  pub parse_prototype_sound :
      (f : ℕ) (s : State Double)
      → measure fl s < f
      → Returns fl (λ proto ts u. DerivesPrototype fl proto ts) s (parse_prototype fl f s)
  parse_prototype_sound = parse_prototype-Returns fl

  -- On a `def`, ParseDefinition returns: the function that the consumed tokens derive and no report, or
  -- nullptr and a report.
  pub parse_definition_sound :
      (f : ℕ) (s : State Double)
      → measure fl s < f
      → s.cur_tok ≡ tok_def
      → Returns fl (DefinitionRead s) s (parse_definition fl f s)
  unfolding parse_definition
  parse_definition_sound f s m e = Returns-eat fl _ e tok_def-IsPlain λ u₁ c₁.
      let m₁ : measure fl u₁ < f = omega (arith, Consumes-measure fl c₁) in
      Returns-bind fl _ _ (Returns-or_log fl _ _ (parse_prototype-Returns fl f u₁ m₁))
        λ proto us u₂ c₂ d₁.
          Returns-bind fl _ _
            (Returns-or_log fl _ _ (
              expression-Returns fl s.binop_precedence f u₂ (record {
                fewer = omega (arith, Consumes-measure fl c₂);
                same = (Consumes-same fl c₂).1 ∙ (Consumes-same fl c₁).1;
              })))
            λ body vs u₃ c₃ (d₂, _).
              node [] nothing (us ++ vs, rw append-nil refl, (us, vs, refl, d₁, d₂))

  -- On an `extern`, ParseExtern returns: the prototype that the tokens behind it derive and no report,
  -- or nullptr and a report.
  pub parse_extern_sound :
      (f : ℕ) (s : State Double)
      → measure fl s < f
      → s.cur_tok ≡ tok_extern
      → Returns fl ExternRead s (parse_extern fl f s)
  unfolding parse_extern
  parse_extern_sound f s m e = Returns-eat fl _ e tok_extern-IsPlain λ u₁ c₁.
      Returns-mono fl (λ proto ts u d. (ts, refl, d))
        (parse_prototype-Returns fl f u₁ (omega (arith, Consumes-measure fl c₁)))

  -- ParseTopLevelExpr returns: an anonymous function for the expression that the tokens derive and no
  -- report, or nullptr and a report.
  pub parse_top_level_expr_sound :
      (f : ℕ) (s : State Double)
      → measure fl s < f
      → Returns fl (TopLevelRead s) s (parse_top_level_expr fl f s)
  unfolding parse_top_level_expr
  parse_top_level_expr_sound f s m =
      Returns-bind fl _ _ (Returns-or_log fl _ _ (parse_expression_sound f s m))
        λ e ts u c (d, stop). node [] nothing (refl, (rw append-nil d, stop))
