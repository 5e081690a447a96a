-- ===== src/Kaleidoscope/Parser/Prototypes.antt =====
-- ParsePrototype, ParseDefinition, ParseExtern and ParseTopLevelExpr, kaleidoscope/src/parser.cpp.
use llvm17_learning_repo.Common.{
  ℕ, zero, suc, ◌<◌, ◌≡◌, ◌≢◌, refl, sym, ◌∙◌, ap, Bool, true, false, not, ◌&&◌, ◌||◌, List, [],
  ◌∷◌, ◌++◌, ◌==◌, length, arith, append-nil, subst, map,
}
use llvm17_learning_repo.Kaleidoscope.Floating.{Floating}
use llvm17_learning_repo.Kaleidoscope.Chars.{Bytes, codes}
use llvm17_learning_repo.Kaleidoscope.Lexer.{
  Token, tok_eof, tok_identifier, tok_number, tok_binary, tok_unary, tok_char, Lexer,
}
use llvm17_learning_repo.Kaleidoscope.Lexer.Stream.{Lexeme, plain, identifier, lexeme}
use llvm17_learning_repo.Kaleidoscope.Lexer.Stream
use llvm17_learning_repo.Kaleidoscope.Syntax.{Prototype, Function}
use llvm17_learning_repo.Kaleidoscope.Parser.State.{State, ◌is◌}
use llvm17_learning_repo.Kaleidoscope.Parser.Expressions.{operator_char}
use llvm17_learning_repo.Kaleidoscope.Parser.Toplevel.{
  Head, is_ascii_token, parse_precedence, prototype_head, parse_arg_names, parse_prototype,
}
use llvm17_learning_repo.Kaleidoscope.Parser.Grammar.{level, mark, Derives}
use llvm17_learning_repo.Kaleidoscope.Parser.Contract.{
  measure, nothing, Returns, node, Returns-bind, Returns-fail, Consumes-measure,
}
use llvm17_learning_repo.Kaleidoscope.Parser.Rules.{
  is→eq, IsPlain, tok_char-IsPlain, Returns-eat, Returns-current, Returns-name, Returns-token,
  Returns-identifier_str, Returns-num_val, Returns-expect, if_else,
}

tok_unary-IsPlain : {D : Type 0} → IsPlain D tok_unary
unfolding lexeme
tok_unary-IsPlain = record { not_eof = λ e. cc; lexeme_plain = λ lx. refl }

tok_binary-IsPlain : {D : Type 0} → IsPlain D tok_binary
unfolding lexeme
tok_binary-IsPlain = record { not_eof = λ e. cc; lexeme_plain = λ lx. refl }

is_ascii_token-char : (t : Token) → is_ascii_token t ≡ true → (c : ℕ) × (t ≡ tok_char c) × (c < 128)
unfolding is_ascii_token
is_ascii_token-char (tok_char c) h = (c, refl, ground arith)
is_ascii_token-char _ h = cc

lexeme_number :
    {D : Type 0} {t : Token} (lx : Lexer D)
    → t ≡ tok_number
    → lexeme t lx ≡ Stream.number lx.num_val
unfolding lexeme
lexeme_number lx e = rw e

lexeme_identifier :
    {D : Type 0} {t : Token} (lx : Lexer D)
    → t ≡ tok_identifier
    → lexeme t lx ≡ identifier lx.identifier_str
unfolding lexeme
lexeme_identifier lx e = rw e

or_false : (a b : Bool) → (a || b) ≡ false → (a ≡ false) × (b ≡ false)
or_false a b h = ground arith

-- The names between the parentheses of a prototype.
abbrev pub parameters : {D : Type 0} → List Bytes → List (Lexeme D)
parameters xs = mark b'(' ∷ (map identifier xs ++ mark b')' ∷ [])

module _ (fl : Floating) where
  open fl use {Double, below_one, above_hundred, to_unsigned}

  -- The precedence of a binary operator: 30, or a number from 1 to 100.
  pub data DerivesPrecedence : ℕ → List (Lexeme Double) → Type 0 where
    by_default : DerivesPrecedence 30 []
    stated :
        {v : Double}
        → below_one v ≡ false
        → above_hundred v ≡ false
        → DerivesPrecedence (to_unsigned v) (Stream.number v ∷ [])

  -- The grammar of prototypes in kaleidoscope/include/parser.h, but for the comma that it has between the
  -- parameters of a binary operator: they stand one behind the other, like those of a function.
  pub data DerivesPrototype : Prototype → List (Lexeme Double) → Type 0 where
    function :
        {x : Bytes} {xs : List Bytes}
        → DerivesPrototype
            (record { name = x; args = xs; is_operator = false; precedence = 30 })
            (identifier x ∷ parameters xs)
    unary_operator :
        {c : ℕ} {x : Bytes}
        → c < 128
        → DerivesPrototype
            (record {
              name = codes "unary" ++ c ∷ [];
              args = x ∷ [];
              is_operator = true;
              precedence = 30;
            })
            (plain tok_unary ∷ mark c ∷ parameters (x ∷ []))
    binary_operator :
        {c p : ℕ} {x y : Bytes} {ts : List (Lexeme Double)}
        → c < 128
        → DerivesPrecedence p ts
        → DerivesPrototype
            (record {
              name = codes "binary" ++ c ∷ [];
              args = x ∷ y ∷ [];
              is_operator = true;
              precedence = p;
            })
            (plain tok_binary ∷ mark c ∷ (ts ++ parameters (x ∷ y ∷ [])))

  -- A head, for any tokens behind it.
  data DerivesHead : Head → List (Lexeme Double) → Type 0 where
    function :
        {x : Bytes}
        → DerivesHead (record { fn_name = x; kind = 0; binary_precedence = 30 }) (identifier x ∷ [])
    unary_operator :
        {c : ℕ}
        → c < 128
        → DerivesHead
            (record { fn_name = codes "unary" ++ c ∷ []; kind = 1; binary_precedence = 30 })
            (plain tok_unary ∷ mark c ∷ [])
    binary_operator :
        {c p : ℕ} {ts : List (Lexeme Double)}
        → c < 128
        → DerivesPrecedence p ts
        → DerivesHead
            (record { fn_name = codes "binary" ++ c ∷ []; kind = 2; binary_precedence = p })
            (plain tok_binary ∷ mark c ∷ ts)

  parse_precedence-Returns :
      (s : State Double) → Returns fl (λ p ts u. DerivesPrecedence p ts) s (parse_precedence fl s)
  unfolding parse_precedence
  parse_precedence-Returns s = Returns-current fl _ (
      if_else fl (s.cur_tok is tok_number) _ _
        (λ h.
          let e = is→eq _ _ h in
          Returns-num_val fl _ (
            if_else fl (below_one s.lexer.num_val || above_hundred s.lexer.num_val) _ _
              (λ bad. Returns-fail fl _ s)
              λ good.
                Returns-token fl _ (λ x. cc)
                  λ u c. node [] nothing (
                    rw (lexeme_number s.lexer e)
                      (let (lo, hi) = or_false _ _ good in stated lo hi))))
        λ h. node [] nothing by_default)

  unary_head :
      {t : Token} {c : ℕ}
      → t ≡ tok_char c
      → c < 128
      → DerivesHead
          (record {
            fn_name = codes "unary" ++ operator_char t ∷ [];
            kind = 1;
            binary_precedence = 30;
          })
          (plain tok_unary ∷ mark c ∷ [])
  unfolding operator_char
  unary_head e b = rw e (unary_operator b)

  binary_head :
      {t : Token} {c p : ℕ} {ts : List (Lexeme Double)}
      → t ≡ tok_char c
      → c < 128
      → DerivesPrecedence p ts
      → DerivesHead
          (record {
            fn_name = codes "binary" ++ operator_char t ∷ [];
            kind = 2;
            binary_precedence = p;
          })
          (plain tok_binary ∷ mark c ∷ ts)
  unfolding operator_char
  binary_head e b d = rw e (binary_operator b d)

  prototype_head-Returns :
      (t : Token) (s : State Double)
      → s.cur_tok ≡ t
      → Returns fl (λ h ts u. DerivesHead h ts) s (prototype_head fl t s)
  unfolding prototype_head
  prototype_head-Returns tok_identifier s e = Returns-name fl _ e λ x u c. node [] nothing function
  prototype_head-Returns tok_unary s e = Returns-eat fl _ e tok_unary-IsPlain λ u c.
      Returns-current fl _ (
        if_else fl (is_ascii_token u.cur_tok) _ _
          (λ h.
            let (op, e', b) = is_ascii_token-char u.cur_tok h in
            Returns-eat fl _ e' (tok_char-IsPlain op) λ u₂ c₂. node [] nothing (unary_head e' b))
          λ h. Returns-fail fl _ u)
  prototype_head-Returns tok_binary s e = Returns-eat fl _ e tok_binary-IsPlain λ u c.
      Returns-current fl _ (
        if_else fl (is_ascii_token u.cur_tok) _ _
          (λ h.
            let (op, e', b) = is_ascii_token-char u.cur_tok h in
            Returns-eat fl _ e' (tok_char-IsPlain op) λ u₂ c₂.
              Returns-bind fl _ _ (parse_precedence-Returns u₂)
                λ p ts u₃ c₃ d. node [] nothing (rw append-nil (binary_head e' b d)))
          λ h. Returns-fail fl _ u)
  prototype_head-Returns _ s e = Returns-fail fl _ s

  parse_arg_names-Returns :
      (f : ℕ) (s : State Double)
      → measure fl s < f
      → s.cur_tok ≢ tok_eof
      → Returns fl
          (λ xs ts u. ts ≡ lexeme s.cur_tok s.lexer ∷ map identifier xs)
          s
          (parse_arg_names fl f s)
  unfolding parse_arg_names
  parse_arg_names-Returns zero s m e = absurd (omega arith)
  parse_arg_names-Returns (suc f) s m e = Returns-token fl _ e λ u c. Returns-current fl _ (
      if_else fl (u.cur_tok is tok_identifier) _ _
        (λ h.
          let e' = is→eq _ _ h in
          Returns-identifier_str fl _ (
            Returns-bind fl _ _
              (parse_arg_names-Returns f u (omega (arith, Consumes-measure fl c)) (λ x. cc))
              λ xs ts u₂ c₂ d. node [] nothing (
                rw append-nil (
                  ap (λ (r : List (Lexeme Double)). lexeme s.cur_tok s.lexer ∷ r)
                    (d ∙ rw (lexeme_identifier u.lexer e') refl)))))
        λ h. node [] nothing refl)

  abbrev make_prototype : Head → List Bytes → Prototype
  make_prototype head names = record {
    name = head.fn_name;
    args = names;
    is_operator = not (head.kind == 0);
    precedence = head.binary_precedence;
  }

  -- A head with as many names as its kind asks for is a prototype.
  assemble :
      {head : Head} {ts : List (Lexeme Double)} (names : List Bytes)
      → DerivesHead head ts
      → (not (head.kind == 0) && not (length names == head.kind)) ≡ false
      → DerivesPrototype (make_prototype head names) (ts ++ parameters names)
  assemble names function h = function
  assemble (x ∷ []) (unary_operator b) h = unary_operator b
  assemble (x ∷ y ∷ []) (binary_operator b d) h = binary_operator b d
  assemble names (unary_operator b) h = absurd (ground arith)
  assemble names (binary_operator b d) h = absurd (ground arith)

  -- What the loop read, and the ')' behind it, is the names between parentheses.
  parenthesised :
      (u : State Double) (names : List Bytes) (us : List (Lexeme Double))
      → u.cur_tok ≡ tok_char b'('
      → us ≡ lexeme u.cur_tok u.lexer ∷ map identifier names
      → us ++ mark b')' ∷ [] ≡ parameters names
  unfolding lexeme
  parenthesised u names us e e₂ = rw (e₂, e) refl

  -- A prototype is returned for the tokens of a prototype, an operator with as many names as it takes.
  pub parse_prototype-Returns :
      (f : ℕ) (s : State Double)
      → measure fl s < f
      → Returns fl (λ proto ts u. DerivesPrototype proto ts) s (parse_prototype fl f s)
  unfolding parse_prototype
  parse_prototype-Returns f s m = Returns-current fl _ (
      Returns-bind fl _ _ (prototype_head-Returns s.cur_tok s refl) λ head ts u c d.
        Returns-current fl _ (
          if_else fl (u.cur_tok is tok_char b'(') _ _
            (λ h.
              let e = is→eq _ _ h in
              Returns-bind fl _ _
                (parse_arg_names-Returns f u (omega (arith, Consumes-measure fl c)) (λ x. cc))
                λ names us u₂ c₂ e₂.
                  Returns-expect fl (tok_char b')') _ _ (tok_char-IsPlain b')') λ u₃ c₃.
                    if_else fl (not (head.kind == 0) && not (length names == head.kind)) _ _
                      (λ bad. Returns-fail fl _ u₃)
                      λ good. node [] nothing (
                        subst (λ r. DerivesPrototype (make_prototype head names) (ts ++ r))
                          (sym (parenthesised u names us e e₂)) (assemble names d good)))
            λ h. Returns-fail fl _ u))

  module _ (table : ℕ → ℕ) where
    -- A definition is its prototype, and an expression behind it.
    abbrev pub DerivesFunction : Function Double → List (Lexeme Double) → Type 0
    DerivesFunction fn ts =
        (us : List (Lexeme Double)) × (vs : List (Lexeme Double)) × (ts ≡ us ++ vs)
        × DerivesPrototype fn.proto us
        × Derives table (level 0 fn.body) vs
