-- ===== src/Kaleidoscope/Parser/Acceptance.antt =====
-- What ParsePrototype, ParseExtern and ParseDefinition, kaleidoscope/src/parser.cpp, accept.
use Prim.Native.String.{String}
use llvm17_learning_repo.Common.{
  ℕ, zero, suc, ◌<◌, ◌≡◌, refl, sym, subst, ◌∙◌, ap, true, false, not, ◌&&◌, ◌||◌, some, List, [],
  ◌∷◌, ◌++◌, ◌==◌, length, length-append, arith, map,
}
use llvm17_learning_repo.Kaleidoscope.Floating.{Floating}
use llvm17_learning_repo.Kaleidoscope.Chars.{Bytes, codes, is_ascii}
use llvm17_learning_repo.Kaleidoscope.Lexer.{
  Token, tok_def, tok_identifier, tok_number, tok_extern, tok_binary, tok_unary, tok_char,
}
use llvm17_learning_repo.Kaleidoscope.Lexer.Stream.{Lexeme, plain, identifier, lexeme}
use llvm17_learning_repo.Kaleidoscope.Syntax.{Expr, Prototype}
use llvm17_learning_repo.Kaleidoscope.Parser.State.{
  or_log, State, Outcome, done, ◌is◌, advance, current, get_next_token, identifier_str, num_val,
  expect,
}
use llvm17_learning_repo.Kaleidoscope.Parser.Expressions.{operator_char, parse_expression}
use llvm17_learning_repo.Kaleidoscope.Parser.Toplevel.{
  Head, is_ascii_token, parse_precedence, prototype_head, parse_arg_names, parse_prototype,
  parse_extern, parse_definition,
}
use llvm17_learning_repo.Kaleidoscope.Parser.Grammar.{mark}
use llvm17_learning_repo.Kaleidoscope.Parser.Prototypes.{
  parameters, DerivesPrecedence, by_default, stated, DerivesPrototype, function, unary_operator,
  binary_operator,
}
use llvm17_learning_repo.Kaleidoscope.Parser.Successes.{
  IsInFront, behind, bind, close, fails, holds, lexeme-name, lexeme-number, lexeme-plain, next,
  open_parenthesis, other_token, same_token,
}

module _ (fl : Floating) where
  open fl use {Double}

  arg_names-accepts :
      (f : ℕ) (xs : List Bytes) (s : State Double)
      → length xs < f
      → IsInFront fl (map identifier xs ++ mark b')' ∷ []) (advance fl s)
      → parse_arg_names fl f s ≡ done (some xs) (behind fl (map identifier xs) (advance fl s))
  unfolding parse_arg_names get_next_token current identifier_str
  arg_names-accepts zero xs s l h = absurd (omega arith)
  arg_names-accepts (suc f) [] s l h =
      let e = lexeme-plain (advance fl s).cur_tok (tok_char b')') (advance fl s).lexer h.0 in
      next fl _ _ refl (
        bind fl _ _ refl
          (fails fl _ _ (other_token fl _ (tok_char b')') tok_identifier e close) refl))
  arg_names-accepts (suc f) (x ∷ xs) s l h =
      let (e, n) = lexeme-name (advance fl s).cur_tok (advance fl s).lexer x h.0 in
      let rest = arg_names-accepts f xs (advance fl s) (omega arith) h.1 in
      next fl _ _ refl (
        bind fl _ _ refl (
          holds fl _ _ (same_token fl _ tok_identifier e) (
            bind fl _ _ refl (
              bind fl _ _ rest (
                ap
                  (λ y.
                    done (some (y ∷ xs))
                      (behind fl (map identifier xs) (advance fl (advance fl s))))
                  n)))))

  ahead :
      (c : ℕ) (s : State Double)
      → mark c ≡ lexeme s.cur_tok s.lexer
      → (s.cur_tok is tok_char c) ≡ true
  ahead c s h = same_token fl _ (tok_char c) (lexeme-plain s.cur_tok (tok_char c) s.lexer h)

  -- The tokens of a list and then of another.
  behind-append :
      (ts us : List (Lexeme Double)) (s : State Double)
      → behind fl (ts ++ us) s ≡ behind fl us (behind fl ts s)
  behind-append [] us s = refl
  behind-append (t ∷ ts) us s = behind-append ts us (advance fl s)

  front-append :
      (ts us : List (Lexeme Double)) (s : State Double)
      → IsInFront fl (ts ++ us) s
      → IsInFront fl ts s × IsInFront fl us (behind fl ts s)
  front-append [] us s h = (tt, h)
  front-append (t ∷ ts) us s h =
      let rest = front-append ts us (advance fl s) h.1 in ((h.0, rest.0), rest.1)

  expect-accepts :
      (k : Token) (msg : String) (s : State Double)
      → (s.cur_tok is k) ≡ true
      → expect fl k msg s ≡ done (some tt) (advance fl s)
  unfolding expect get_next_token
  expect-accepts k msg s h = rw h refl

  -- Behind a head whose kind is the number of the parameters, or 0.
  prototype-accepts_from :
      (f : ℕ) (t : Token) (head : Head) (xs : List Bytes) (s u : State Double)
      → s.cur_tok ≡ t
      → prototype_head fl t s ≡ done (some head) u
      → length xs < f
      → (not (head.kind == 0) && not (length xs == head.kind)) ≡ false
      → IsInFront fl (parameters xs) u
      → parse_prototype fl f s
        ≡ done
            (some (record {
              name = head.fn_name;
              args = xs;
              is_operator = not (head.kind == 0);
              precedence = head.binary_precedence;
            }))
            (behind fl (parameters xs) u)
  unfolding parse_prototype current
  prototype-accepts_from f t head xs s u e r l k h =
      let names = map identifier xs in
      let accepted : Prototype = record {
        name = head.fn_name;
        args = xs;
        is_operator = not (head.kind == 0);
        precedence = head.binary_precedence;
      } in
      let split = front-append names (mark b')' ∷ []) (advance fl u) h.1 in
      bind fl _ _ refl (
        bind fl _ _ (subst (λ k. prototype_head fl k s ≡ done (some head) u) (sym e) r) (
          bind fl _ _ refl (
            holds fl _ _ (ahead b'(' u h.0) (
              bind fl _ _ (arg_names-accepts f xs u l h.1) (
                next fl _ _
                  (expect-accepts (tok_char b')') _ _
                    (ahead b')' (behind fl names (advance fl u)) split.1.0))
                  (fails fl _ _ k (
                    ap (λ w. done (some accepted) w)
                      (sym (behind-append names (mark b')' ∷ []) (advance fl u))))))))))

  in_bounds :
      (w v : Double)
      → w ≡ v
      → fl.below_one v ≡ false
      → fl.above_hundred v ≡ false
      → (fl.below_one w || fl.above_hundred w) ≡ false
  in_bounds w v q b a = rw (q, b, a) refl

  precedence-accepts :
      (p : ℕ) (ts : List (Lexeme Double)) (s : State Double)
      → DerivesPrecedence fl p ts
      → IsInFront fl ts s
      → ((behind fl ts s).cur_tok is tok_number) ≡ false
      → parse_precedence fl s ≡ done (some p) (behind fl ts s)
  unfolding parse_precedence current num_val get_next_token
  precedence-accepts _ _ s by_default h n = bind fl _ _ refl (fails fl _ _ n refl)
  precedence-accepts _ _ s (stated {v} b a) h n =
      let (e, q) = lexeme-number s.cur_tok s.lexer v h.0 in
      bind fl _ _ refl (
        holds fl _ _ (same_token fl _ tok_number e) (
          bind fl _ _ refl (
            fails fl _ _ (in_bounds s.lexer.num_val v q b a)
              (next fl _ _ refl (ap (λ w. done (some (fl.to_unsigned w)) (advance fl s)) q)))))

  ascii-accepts : (c : ℕ) (t : Token) → t ≡ tok_char c → c < 128 → is_ascii_token t ≡ true
  unfolding is_ascii_token is_ascii
  ascii-accepts c t e l = rw e (ground arith)

  length-parameters : (xs : List Bytes) → length xs < length (parameters {D = Double} xs)
  length-parameters [] = omega arith
  length-parameters (x ∷ xs) = omega (arith, length-parameters xs)

  -- The head of an operator, on the character behind `unary` or `binary`.
  unary_head :
      (c : ℕ) (s : State Double)
      → c < 128
      → (advance fl s).cur_tok ≡ tok_char c
      → prototype_head fl tok_unary s
        ≡ done
            (some (record { fn_name = codes "unary" ++ c ∷ []; kind = 1; binary_precedence = 30 }))
            (advance fl (advance fl s))
  unfolding prototype_head get_next_token current operator_char
  unary_head c s k e = next fl _ _ refl (
      bind fl _ _ refl (
        holds fl _ _ (ascii-accepts c (advance fl s).cur_tok e k) (
          next fl _ _ refl (
            ap
              (λ o.
                done
                  (some (record {
                    fn_name = codes "unary" ++ operator_char o ∷ [];
                    kind = 1;
                    binary_precedence = 30;
                  }))
                  (advance fl (advance fl s)))
              e))))

  binary_head :
      (c p : ℕ) (ts : List (Lexeme Double)) (s : State Double)
      → c < 128
      → (advance fl s).cur_tok ≡ tok_char c
      → parse_precedence fl (advance fl (advance fl s))
        ≡ done (some p) (behind fl ts (advance fl (advance fl s)))
      → prototype_head fl tok_binary s
        ≡ done
            (some (record { fn_name = codes "binary" ++ c ∷ []; kind = 2; binary_precedence = p }))
            (behind fl ts (advance fl (advance fl s)))
  unfolding prototype_head get_next_token current operator_char
  binary_head c p ts s k e r = next fl _ _ refl (
      bind fl _ _ refl (
        holds fl _ _ (ascii-accepts c (advance fl s).cur_tok e k) (
          next fl _ _ refl (
            bind fl _ _ r (
              ap
                (λ o.
                  done
                    (some (record {
                      fn_name = codes "binary" ++ operator_char o ∷ [];
                      kind = 2;
                      binary_precedence = p;
                    }))
                    (behind fl ts (advance fl (advance fl s))))
                e)))))

  -- ParsePrototype returns the prototype for its tokens.
  parse_prototype-accepts :
      (f : ℕ) (proto : Prototype) (ts : List (Lexeme Double)) (s : State Double)
      → length ts < f
      → DerivesPrototype fl proto ts
      → IsInFront fl ts s
      → parse_prototype fl f s ≡ done (some proto) (behind fl ts s)
  unfolding prototype_head get_next_token identifier_str current operator_char
  parse_prototype-accepts f _ _ s l (function {x} {xs}) h =
      let (e, n) = lexeme-name s.cur_tok s.lexer x h.0 in
      prototype-accepts_from f tok_identifier
        (record { fn_name = x; kind = 0; binary_precedence = 30 }) xs s (advance fl s) e
        (bind fl _ _ refl (
          next fl _ _ refl (
            ap
              (λ y.
                done (some (record { fn_name = y; kind = 0; binary_precedence = 30 }))
                  (advance fl s))
              n)))
        (omega (arith, length-parameters xs)) refl h.1
  parse_prototype-accepts f _ _ s l (unary_operator {c} {x} k) h =
      prototype-accepts_from f tok_unary
        (record { fn_name = codes "unary" ++ c ∷ []; kind = 1; binary_precedence = 30 }) (x ∷ []) s
        (advance fl (advance fl s)) (lexeme-plain s.cur_tok tok_unary s.lexer h.0)
        (unary_head c s k
          (lexeme-plain (advance fl s).cur_tok (tok_char c) (advance fl s).lexer h.1.0))
        (omega arith) refl h.1.1
  parse_prototype-accepts f _ _ s l (binary_operator {c} {p} {x} {y} {ts} k d) h =
      let t = advance fl (advance fl s) in
      let (here, rest) = front-append ts (parameters (x ∷ y ∷ [])) t h.1.1 in
      let before =
        lexeme-plain (behind fl ts t).cur_tok (tok_char b'(') (behind fl ts t).lexer rest.0 in
      prototype-accepts_from f tok_binary
        (record { fn_name = codes "binary" ++ c ∷ []; kind = 2; binary_precedence = p })
        (x ∷ y ∷ []) s (behind fl ts t) (lexeme-plain s.cur_tok tok_binary s.lexer h.0)
        (binary_head c p ts s k
          (lexeme-plain (advance fl s).cur_tok (tok_char c) (advance fl s).lexer h.1.0)
          (precedence-accepts p ts t d here
            (other_token fl _ (tok_char b'(') tok_number before open_parenthesis)))
        (omega (arith, length-append ts (parameters {D = Double} (x ∷ y ∷ [])))) refl rest
      ∙ ap
          (λ u.
            done
              (some (record {
                name = codes "binary" ++ c ∷ [];
                args = x ∷ y ∷ [];
                is_operator = true;
                precedence = p;
              }))
              u)
          (sym (behind-append ts (parameters (x ∷ y ∷ [])) t))

  -- On the tokens of an extern, ParseExtern returns its prototype, with CurTok behind them and nothing
  -- reported, given more fuel than tokens.
  pub parse_extern-accepts :
      (f : ℕ) (proto : Prototype) (ts : List (Lexeme Double)) (s : State Double)
      → length ts < f
      → DerivesPrototype fl proto ts
      → IsInFront fl (plain tok_extern ∷ ts) s
      → parse_extern fl f s ≡ done (some proto) (behind fl (plain tok_extern ∷ ts) s)
  unfolding parse_extern get_next_token
  parse_extern-accepts f proto ts s l d h =
      next fl _ _ refl (parse_prototype-accepts f proto ts (advance fl s) l d h.1)

  or_log-accepts :
      {A : Type 0} (msg : String) (p : State Double → Outcome Double A) (s t : State Double) (a : A)
      → p s ≡ done (some a) t
      → or_log msg p s ≡ done (some a) t
  unfolding or_log
  or_log-accepts msg p s t a h = rw h refl

  -- On `def`, the tokens of a prototype, and what ParseExpression accepts, ParseDefinition returns the
  -- function of the prototype and the body, in the state that ParseExpression leaves, given more fuel
  -- than the prototype has tokens.
  pub parse_definition-accepts :
      (f : ℕ) (proto : Prototype) (ts : List (Lexeme Double)) (body : Expr Double)
      (s u : State Double)
      → length ts < f
      → DerivesPrototype fl proto ts
      → IsInFront fl (plain tok_def ∷ ts) s
      → parse_expression fl f (behind fl (plain tok_def ∷ ts) s) ≡ done (some body) u
      → parse_definition fl f s ≡ done (some (record { proto = proto; body = body })) u
  unfolding parse_definition get_next_token
  parse_definition-accepts f proto ts body s u l d h r = next fl _ _ refl (
      bind fl _ _
        (or_log-accepts _ _ (advance fl s) (behind fl ts (advance fl s)) proto
          (parse_prototype-accepts f proto ts (advance fl s) l d h.1))
        (bind fl _ _ (or_log-accepts _ _ (behind fl ts (advance fl s)) u body r) refl))
