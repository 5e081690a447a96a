-- ===== src/Kaleidoscope/Driver/Termination.antt =====
-- The loop of kaleidoscope/src/main.cpp comes to the end of the file.
use llvm17_learning_repo.Common.{
  ℕ, zero, suc, ◌≤◌, ◌<◌, ◌≡◌, ◌≢◌, inl, inr, refl, sym, ◌∙◌, subst, Option, none, some, List,
  length, ◌==◌, if_intro, arith,
}
use llvm17_learning_repo.Kaleidoscope.Floating.{Floating}
use llvm17_learning_repo.Kaleidoscope.Lexer.{Token, tok_eof, tok_def, tok_extern, tok_char}
use llvm17_learning_repo.Kaleidoscope.Lexer.Stream.{Lexeme}
use llvm17_learning_repo.Kaleidoscope.Syntax.{Prototype, Function}
use llvm17_learning_repo.Kaleidoscope.Parser.State.{State, Outcome}
use llvm17_learning_repo.Kaleidoscope.Parser.Grammar.{Derives-length}
use llvm17_learning_repo.Kaleidoscope.Parser.Contract.{
  measure, Returns, node, null, Consumes-measure, advance-measure, weight-pos,
}
use llvm17_learning_repo.Kaleidoscope.Parser.Soundness.{
  parse_definition_sound, parse_extern_sound, parse_top_level_expr_sound,
}
use llvm17_learning_repo.Kaleidoscope.Driver.{
  Generated, Round, running, stopped_function, stopped_extern, no_fuel, install_generated,
  install_extern, Backend, Session, handle, handle_definition, handle_extern,
  handle_top_level_expression, handle_token, main_loop, next_round, main_switch, generate_function,
  generate_extern,
}

module _ (fl : Floating) (backend : Backend fl.Double) where
  open fl use {Double}
  open backend use {Memory}

  -- The round leaves less than there was, or is within a call of the backend that does not return.
  abbrev pub Decreases : State Double → Round fl backend → Type 0
  Decreases s (running t) = measure fl t.state < measure fl s
  Decreases s (stopped_function fn m) = backend.generate fn m ≡ none
  Decreases s (stopped_extern p m) = backend.declare p m ≡ none
  Decreases s no_fuel = ⊥

  -- As much is left as before, or the backend does not return.
  abbrev Keeps : State Double → Round fl backend → Type 0
  Keeps u (running t) = measure fl t.state ≡ measure fl u
  Keeps u (stopped_function fn m) = backend.generate fn m ≡ none
  Keeps u (stopped_extern p m) = backend.declare p m ≡ none
  Keeps u no_fuel = ⊥

  install_generated-Keeps :
      (fn : Function Double) (u : State Double) (m : Memory) (o : Option (Generated × Memory))
      → backend.generate fn m ≡ o
      → Keeps u (install_generated fl backend fn u m o)
  unfolding install_generated
  install_generated-Keeps fn u m none e = e
  install_generated-Keeps fn u m (some g) e = refl

  install_extern-Keeps :
      (p : Prototype) (u : State Double) (m : Memory) (o : Option Memory)
      → backend.declare p m ≡ o
      → Keeps u (install_extern fl backend p u m o)
  unfolding install_extern
  install_extern-Keeps p u m none e = e
  install_extern-Keeps p u m (some after) e = refl

  Keeps-Decreases :
      (s u : State Double) (r : Round fl backend)
      → Keeps u r
      → measure fl u < measure fl s
      → Decreases s r
  Keeps-Decreases s u (running t) k h = omega (arith, k)
  Keeps-Decreases s u (stopped_function fn m) k h = k
  Keeps-Decreases s u (stopped_extern p m) k h = k
  Keeps-Decreases s u no_fuel k h = k

  handle-Decreases :
      {A : Type 0} {P : A → List (Lexeme Double) → State Double → Type 0}
      (generated : A → State Double → Memory → Round fl backend) (m : Memory) (s : State Double)
      (o : Outcome Double A)
      → ((a : A) (u : State Double) → Keeps u (generated a u m))
      → ((a : A) (ts : List (Lexeme Double)) (u : State Double) → P a ts u → 1 ≤ length ts)
      → s.cur_tok ≢ tok_eof
      → Returns fl P s o
      → Decreases s (handle fl backend generated m o)
  unfolding handle
  handle-Decreases generated m s _ same least live (node {a} {u} ts c h) =
      Keeps-Decreases s u (generated a u m) (same a u)
        (omega (arith, least a ts u h, Consumes-measure fl c))
  handle-Decreases generated m s _ same least live (null {u} f) = elim f.stuck [
    | inl e ↦
        omega
          (arith, advance-measure fl u, f.shrinks, weight-pos fl u.cur_tok λ q. live (sym e ∙ q))
    | inr lt ↦ omega (arith, advance-measure fl u)
  ]

  module _ (f : ℕ) (s : Session fl backend) (enough : measure fl s.state < f) where
    definition-Decreases :
        s.state.cur_tok ≡ tok_def → Decreases s.state (handle_definition fl backend f s)
    unfolding handle_definition generate_function
    definition-Decreases e =
        handle-Decreases (generate_function fl backend) s.memory s.state _
          (λ fn u. install_generated-Keeps fn u s.memory _ refl)
          (λ fn ts u d. subst (λ l. 1 ≤ length l) (sym d.1) (omega arith))
          (λ q. absurd (tokens_differ (sym e ∙ q))) (parse_definition_sound fl f s.state enough e)
      where
        tokens_differ : tok_def ≡ tok_eof → ⊥
        tokens_differ h = cc

    extern-Decreases :
        s.state.cur_tok ≡ tok_extern → Decreases s.state (handle_extern fl backend f s)
    unfolding handle_extern generate_extern
    extern-Decreases e =
        handle-Decreases (generate_extern fl backend) s.memory s.state _
          (λ p u. install_extern-Keeps p u s.memory _ refl)
          (λ p ts u d. subst (λ l. 1 ≤ length l) (sym d.1) (omega arith))
          (λ q. absurd (tokens_differ (sym e ∙ q))) (parse_extern_sound fl f s.state enough e)
      where
        tokens_differ : tok_extern ≡ tok_eof → ⊥
        tokens_differ h = cc

    top_level-Decreases :
        s.state.cur_tok ≢ tok_eof → Decreases s.state (handle_top_level_expression fl backend f s)
    unfolding handle_top_level_expression generate_function
    top_level-Decreases live =
        handle-Decreases (generate_function fl backend) s.memory s.state _
          (λ fn u. install_generated-Keeps fn u s.memory _ refl) (λ fn ts u d. Derives-length d.1.0)
          live (parse_top_level_expr_sound fl f s.state enough)

    -- A round on a token that is not the end of the file.
    pub handle_token-Decreases :
        (t : Token)
        → s.state.cur_tok ≡ t
        → t ≢ tok_eof
        → Decreases s.state (handle_token fl backend f t s)
    unfolding handle_token
    handle_token-Decreases tok_def e n = definition-Decreases e
    handle_token-Decreases tok_extern e n = extern-Decreases e
    handle_token-Decreases (tok_char c) e n =
        if_intro (Decreases s.state) (c == b';')
          (λ q.
            omega (
              arith,
              advance-measure fl s.state,
              weight-pos fl s.state.cur_tok (λ h. n (sym e ∙ h)),
            ))
          λ q. top_level-Decreases λ h. n (sym e ∙ h)
    handle_token-Decreases _ e n = top_level-Decreases λ h. n (sym e ∙ h)

  -- The loop returned, at the end of the file, or a call of the backend does not.
  abbrev pub AtEnd : Round fl backend → Type 0
  AtEnd (running t) = t.state.cur_tok ≡ tok_eof
  AtEnd (stopped_function fn m) = backend.generate fn m ≡ none
  AtEnd (stopped_extern p m) = backend.declare p m ≡ none
  AtEnd no_fuel = ⊥

  next_round-AtEnd :
      (loop : Session fl backend → Round fl backend) (s : State Double) (r : Round fl backend)
      → Decreases s r
      → ((t : Session fl backend) → measure fl t.state < measure fl s → AtEnd (loop t))
      → AtEnd (next_round fl backend loop r)
  next_round-AtEnd loop s (running t) d h = h t d
  next_round-AtEnd loop s (stopped_function fn m) d h = d
  next_round-AtEnd loop s (stopped_extern p m) d h = d
  next_round-AtEnd loop s no_fuel d h = d

  main_switch-AtEnd :
      (loop : Session fl backend → Round fl backend) (f : ℕ) (s : Session fl backend) (t : Token)
      → measure fl s.state < f
      → s.state.cur_tok ≡ t
      → ((u : Session fl backend) → measure fl u.state < measure fl s.state → AtEnd (loop u))
      → AtEnd (main_switch fl backend loop f t s)
  main_switch-AtEnd loop f s tok_eof m e h = e
  main_switch-AtEnd loop f s t m e h =
      next_round-AtEnd loop s.state (handle_token fl backend f t s)
        (handle_token-Decreases f s m t e (λ q. cc)) h

  -- With more fuel than tokens and bytes are left, MainLoop comes to the end of the file, whatever the
  -- file holds, unless a call of the backend does not return: a definition, an extern, an expression or
  -- a token that starts none of them takes at least one token of it.
  pub main_loop_ends :
      (f : ℕ) (s : Session fl backend) → measure fl s.state < f → AtEnd (main_loop fl backend f s)
  unfolding main_loop
  main_loop_ends zero s m = absurd (omega arith)
  main_loop_ends (suc f) s m =
      main_switch-AtEnd (main_loop fl backend f) (suc f) s s.state.cur_tok m refl
        λ u lt. main_loop_ends f u (omega arith)
