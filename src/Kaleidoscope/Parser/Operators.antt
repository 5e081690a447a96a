-- ===== src/Kaleidoscope/Parser/Operators.antt =====
-- ParseUnary, ParseBinOpRHS and ParseExpression, kaleidoscope/src/parser.cpp: operator precedence.
use llvm17_learning_repo.Common.{
  ℕ, zero, suc, ◌≤◌, ◌<◌, ◌≡◌, refl, Bool, true, false, Option, none, some, List, [], ◌∷◌, ◌++◌,
  arith, append_assoc, append-nil, if◌then◌else◌, subst, ltb,
}
use llvm17_learning_repo.Kaleidoscope.Floating.{Floating}
use llvm17_learning_repo.Kaleidoscope.Lexer.{Token, tok_char}
use llvm17_learning_repo.Kaleidoscope.Lexer.Stream.{Lexeme}
use llvm17_learning_repo.Kaleidoscope.Syntax.{Expr, unary, binary}
use llvm17_learning_repo.Kaleidoscope.Parser.State.{State, tok_precedence, Parser, or_log, pure}
use llvm17_learning_repo.Kaleidoscope.Parser.Expressions.{
  begins_primary, operator_char, binds_tighter, parse_unary, binop_round, parse_binop_rhs,
  parse_primary, parse_expression,
}
use llvm17_learning_repo.Kaleidoscope.Parser.Grammar.{
  primary, operand, level, mark, IsPrefix, IsInfix, Derives, unprefixed, prefixed, single, infixed,
}
use llvm17_learning_repo.Kaleidoscope.Parser.Contract.{
  measure, nothing, Returns, node, Returns-mono, Returns-bind, Returns-or_log, Consumes-measure,
}
use llvm17_learning_repo.Kaleidoscope.Parser.Rules.{
  tok_char-IsPlain, Returns-eat, Returns-current, Returns-precedence, if_else,
}
use llvm17_learning_repo.Kaleidoscope.Parser.Primaries.{
  Within, Within-later, Yields, Sound, parse_primary-Sound,
}

begins_primary-IsPrefix :
    (t : Token) → begins_primary t ≡ false → (c : ℕ) × (t ≡ tok_char c) × IsPrefix c
unfolding begins_primary
begins_primary-IsPrefix (tok_char c) h = (c, refl, ground arith)
begins_primary-IsPrefix _ h = cc

tok_precedence-IsInfix :
    (table : ℕ → ℕ) (t : Token) (p : ℕ)
    → tok_precedence table t ≡ some p
    → (c : ℕ) × (t ≡ tok_char c) × IsInfix table c p
unfolding tok_precedence
tok_precedence-IsInfix table (tok_char c) p h = (c, refl, ground arith)
tok_precedence-IsInfix table _ p h = cc

merged_tokens :
    {D : Type 0} (before : List (Lexeme D)) (op : Lexeme D) (ts us vs : List (Lexeme D))
    → (before ++ op ∷ (ts ++ us)) ++ vs ≡ before ++ op ∷ (ts ++ (us ++ vs))
merged_tokens before op ts us vs = simp append_assoc

ltb-false→le : (a b : ℕ) → ltb a b ≡ false → b ≤ a
ltb-false→le a b h = ground arith

module _ (fl : Floating) (table : ℕ → ℕ) where
  open fl use {Double}

  prefixed_token :
      {t : Token} {c : ℕ} {e : Expr Double} {ts : List (Lexeme Double)}
      → t ≡ tok_char c
      → IsPrefix c
      → Derives table (operand e) ts
      → Derives table (operand (unary (operator_char t) e)) (mark c ∷ ts)
  unfolding operator_char
  prefixed_token tok q d = rw tok (prefixed q d)

  module _ (n : ℕ) (p : Parser fl (Expr Double)) (p-Sound : Sound fl table n primary p) where
    -- ParseUnary derives what it returns, where ParsePrimary does.
    parse_unary-Returns :
        (f : ℕ) (s : State Double)
        → measure fl s < f
        → Within fl table n s
        → Returns fl (Yields fl table operand) s (parse_unary fl p f s)
    unfolding parse_unary
    parse_unary-Returns zero s m w = absurd (omega arith)
    parse_unary-Returns (suc f) s m w = Returns-current fl _ (
        if_else fl (begins_primary s.cur_tok) _ _
          (λ h. Returns-mono fl (λ e ts u d. unprefixed d) (p-Sound s w))
          λ h.
            let (c, e, q) = begins_primary-IsPrefix s.cur_tok h in
            Returns-eat fl _ e (tok_char-IsPlain c) λ u c₁.
              Returns-bind fl _ _
                (Returns-or_log fl _ (parse_unary fl p f) (
                  parse_unary-Returns f u (omega (arith, Consumes-measure fl c₁))
                    (Within-later fl table c₁ w)))
                λ e' ts u₂ c₂ d. node [] nothing (rw append-nil (prefixed_token e q d)))

  -- The next token is no operator of the precedence `n` or more.
  abbrev pub Stops : ℕ → State Double → Type 0
  Stops n s = (q : ℕ) → tok_precedence s.binop_precedence s.cur_tok ≡ some q → q < n

  -- The left side derives `ts` at the level that is asked for, and at that of the next operator.
  record Ready (n : ℕ) (lhs : Expr Double) (ts : List (Lexeme Double)) (s : State Double)
      : Type 0 where
    here : Derives table (level n lhs) ts
    next :
        (q : ℕ)
        → tok_precedence s.binop_precedence s.cur_tok ≡ some q
        → n ≤ q
        → Derives table (level q lhs) ts

  abbrev RhsRead :
      ℕ → List (Lexeme Double) → Expr Double → List (Lexeme Double) → State Double → Type 0
  RhsRead n before e ts u = Derives table (level n e) (before ++ ts) × Stops n u

  -- A right side for an operator of precedence `p`, `before` the tokens of its first operand.
  abbrev RightSide :
      ℕ → List (Lexeme Double) → Expr Double → List (Lexeme Double) → State Double → Type 0
  RightSide p before e ts u = Derives table (level (suc p) e) (before ++ ts) × Stops (suc p) u

  module _ (n : ℕ) (p : Parser fl (Expr Double)) (p-Sound : Sound fl table n operand p) where
    abbrev LoopSound : ℕ → (ℕ → Expr Double → Parser fl (Expr Double)) → Type 0
    LoopSound f rhs_loop =
        (prec : ℕ) (lhs : Expr Double) (before : List (Lexeme Double)) (s : State Double)
        → measure fl s < f
        → Within fl table n s
        → Ready prec lhs before s
        → Returns fl (RhsRead prec before) s (rhs_loop prec lhs s)

    module _ (f : ℕ) (rhs_loop : ℕ → Expr Double → Parser fl (Expr Double))
        (loop-Sound : LoopSound f rhs_loop) where
      RightSide-Returns :
          (q : ℕ) (rhs : Expr Double) (ts : List (Lexeme Double)) (s : State Double)
          → measure fl s < f
          → Within fl table n s
          → Derives table (operand rhs) ts
          → (b : Bool) → binds_tighter q (tok_precedence s.binop_precedence s.cur_tok) ≡ b
          → Returns fl (RightSide q ts) s (
              (if b
                  then or_log "ParseBinOpRHS | couldn't parse rhs" (rhs_loop (suc q) rhs)
                  else pure rhs)
                s)
      unfolding binds_tighter
      RightSide-Returns q rhs ts s m w d true h =
          Returns-or_log fl _ (rhs_loop (suc q) rhs)
            (loop-Sound (suc q) rhs ts s m w (record { here = single d; next = λ r e l. single d }))
      RightSide-Returns q rhs ts s m w d false h =
          node [] nothing (rw append-nil (single d), λ r e. ground (arith, e))

      -- The merged tree is ready for the next round.
      merged :
          {prec : ℕ} {lhs rhs : Expr Double} {before ts : List (Lexeme Double)} {t : Token}
          {u : State Double} (c q : ℕ)
          → t ≡ tok_char c
          → IsInfix table c q
          → prec ≤ q
          → Derives table (level q lhs) before
          → Derives table (level (suc q) rhs) ts
          → Stops (suc q) u
          → Ready prec (binary (operator_char t) lhs rhs) (before ++ mark c ∷ ts) u
      unfolding operator_char
      merged c q tok op le l r stop = rw tok (record {
        here = infixed op le l r;
        next = λ q' e _. infixed op (omega (arith, stop q' e)) l r;
      })

      binop_round-Returns :
          (prec : ℕ) (lhs : Expr Double) (before : List (Lexeme Double)) (s : State Double)
          (o : Option ℕ)
          → tok_precedence s.binop_precedence s.cur_tok ≡ o
          → measure fl s < suc f
          → Within fl table n s
          → Ready prec lhs before s
          → Returns fl (RhsRead prec before) s (binop_round fl p rhs_loop prec lhs o s)
      unfolding binop_round
      binop_round-Returns prec lhs before s none e m w r =
          node [] nothing (rw append-nil r.here, λ q e'. cc)
      binop_round-Returns prec lhs before s (some q) e m w r =
          if_else fl (ltb q prec) _ _
            (λ h. node [] nothing (rw append-nil r.here, λ q' e'. ground arith))
            (λ h.
              let (c, tok, found) = tok_precedence-IsInfix s.binop_precedence s.cur_tok q e in
              Returns-current fl _ (
                Returns-eat fl _ tok (tok_char-IsPlain c) λ u₁ c₁.
                  let w₁ = Within-later fl table c₁ w in
                  Returns-bind fl _ _ (Returns-or_log fl _ p (p-Sound u₁ w₁)) λ rhs ts u₂ c₂ d.
                    let w₂ = Within-later fl table c₂ w₁ in
                    let m₂ : measure fl u₂ < f =
                      omega (arith, Consumes-measure fl c₁, Consumes-measure fl c₂) in
                    Returns-precedence fl _ (
                      Returns-bind fl _ _ (RightSide-Returns q rhs ts u₂ m₂ w₂ d _ refl)
                        λ rhs' us u₃ c₃ (d', stop).
                          Returns-mono fl
                            (λ e' vs v (d'', stop'). (
                              subst (λ all. Derives table (level prec e') all)
                                  (merged_tokens before (mark c) ts us vs) d'',
                              stop',
                            ))
                            (loop-Sound prec _ (before ++ mark c ∷ (ts ++ us)) u₃
                              (omega (arith, Consumes-measure fl c₃)) (Within-later fl table c₃ w₂)
                              (merged c q tok (subst (λ t. IsInfix t c q) w.same found)
                                (ltb-false→le q prec h) (r.next q e (ltb-false→le q prec h)) d'
                                stop)))))

    parse_binop_rhs-LoopSound : (f : ℕ) → LoopSound f (parse_binop_rhs fl p f)
    unfolding parse_binop_rhs
    parse_binop_rhs-LoopSound zero prec lhs before s m w r = absurd (omega arith)
    parse_binop_rhs-LoopSound (suc f) prec lhs before s m w r = Returns-precedence fl _ (
        binop_round-Returns f (parse_binop_rhs fl p f) (parse_binop_rhs-LoopSound f) prec lhs before
          s _ refl m w r)

  -- ParseExpression, given that it is right on less input.
  expression-step :
      (f : ℕ)
      → Sound fl table f (level 0) (parse_expression fl f)
      → (s : State Double) → Within fl table (suc f) s
      → Returns fl (RhsRead 0 []) s (parse_expression fl (suc f) s)
  unfolding parse_expression
  expression-step f below s w =
      let operand-Sound : Sound fl table (suc f) operand
          (parse_unary fl (parse_primary fl (parse_expression fl f) f) (suc f)) =
        λ v wv.
          parse_unary-Returns (suc f) _ (parse_primary-Sound fl table _ f below f (omega arith))
            (suc f) v wv.fewer wv in
      Returns-bind fl _ _ (Returns-or_log fl _ _ (operand-Sound s w)) λ lhs ts u c d.
        let wu = Within-later fl table c w in
        parse_binop_rhs-LoopSound (suc f) _ operand-Sound (suc f) 0 lhs ts u wu.fewer wu
          (record { here = single d; next = λ q e _. single d })

  expression-Sound : (f : ℕ) → Sound fl table f (level 0) (parse_expression fl f)
  expression-Sound zero s w = absurd (omega (arith, w.fewer))
  expression-Sound (suc f) s w =
      Returns-mono fl (λ e ts u (d, stop). d) (expression-step f (expression-Sound f) s w)

  pub expression-Returns :
      (f : ℕ) (s : State Double)
      → Within fl table f s
      → Returns fl (RhsRead 0 []) s (parse_expression fl f s)
  expression-Returns zero s w = absurd (omega (arith, w.fewer))
  expression-Returns (suc f) s w = expression-step f (expression-Sound f) s w
