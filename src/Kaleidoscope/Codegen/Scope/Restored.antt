-- ===== src/Kaleidoscope/Codegen/Scope/Restored.antt =====
-- The scopes of kaleidoscope/src/ast.cpp are left as they were entered.
use llvm17_learning_repo.Common.{ℕ, ◌≡◌, refl, ap, ◌∙◌, false, List, [], ◌∷◌, Option, some, arith}
use Prim.Native.String.{String}
use llvm17_learning_repo.Kaleidoscope.Chars.{Bytes}
use llvm17_learning_repo.Kaleidoscope.Syntax.{
  Expr, number, variable, unary, binary, call, if_expr, for_expr, var_expr, Args, no_args, arg,
  OptExpr, absent, present, Bindings, no_bindings, binding,
}
use llvm17_learning_repo.Kaleidoscope.Codegen.Builder.{
  Operand, literal, fadd, fcmp_one, store, branch, branch_if, Gen, returned, Make, ◌>>◌, emit,
  create_entry_block_alloca, set_name, named_value, bind_name,
}
use llvm17_learning_repo.Kaleidoscope.Codegen.Expressions.{
  Target, args_size, gen_if, gen_for, gen_binding, restore_names, gen_var, gen, gen_args,
  gen_optional, gen_bindings,
}
use llvm17_learning_repo.Kaleidoscope.Codegen.Contract.{
  Post, value, Post-bind, Post-returned, Keeps, Keeps-pure, or_fail-Keeps, create_load-Keeps,
  create-Keeps, Turns, Keeps-Turns, Turns-Keeps, Turns-then, kept_bind, kept_then, pure-Turns,
}
use llvm17_learning_repo.Kaleidoscope.Codegen.Steps.{
  gen_variable-Keeps, gen_unary-Keeps, gen_binary-Keeps, gen_call-Keeps, gen_args_step-Keeps,
}
use llvm17_learning_repo.Kaleidoscope.Codegen.Names.{
  set_back, sets_back, set_back-set_name, set_name-back,
}
use llvm17_learning_repo.Kaleidoscope.Codegen.Scope.{
  binds, BindsOnce, ArgsBindOnce, OptBindsOnce, NamesBindOnce, NamesAre, NamesAre-IsLocal, any_emit,
  create_block-Keeps, insert-Keeps, set_insert-Keeps, get_insert-Keeps, create_phi-Keeps,
  named_value-Turns, bind_name-Turns, bind-back,
}

module _ (tg : Target) where
  open tg use {Double, zero_double, one_double, fold}

  gen_if-Keeps :
      {c t e : Make Double (Operand Double)}
      → Keeps NamesAre c
      → Keeps NamesAre t
      → Keeps NamesAre e
      → Keeps NamesAre (gen_if tg c t e)
  unfolding gen_if
  gen_if-Keeps hc ht he = Turns-Keeps (λ m.
      kept_bind (or_fail-Keeps NamesAre NamesAre-IsLocal _ hc) (λ v.
        kept_bind
          (create-Keeps NamesAre NamesAre-IsLocal fold fcmp_one (v ∷ literal zero_double ∷ []))
          (λ cond. kept_bind create_block-Keeps (λ then_block.
            kept_bind (NamesAre-IsLocal.keeps_new_number) (λ else_block.
              kept_bind (NamesAre-IsLocal.keeps_new_number) (λ merge_block.
                kept_then (any_emit (branch_if cond then_block else_block)) (
                  kept_then (set_insert-Keeps then_block) (
                    kept_bind (or_fail-Keeps NamesAre NamesAre-IsLocal _ ht) (λ tv.
                      kept_then (any_emit (branch merge_block)) (
                        kept_bind get_insert-Keeps (λ then_end.
                          kept_then (insert-Keeps else_block) (
                            kept_then (set_insert-Keeps else_block) (
                              kept_bind (or_fail-Keeps NamesAre NamesAre-IsLocal _ he) (λ ev.
                                kept_then (any_emit (branch merge_block)) (
                                  kept_bind get_insert-Keeps (λ else_end.
                                    kept_then (insert-Keeps merge_block) (
                                      kept_then (set_insert-Keeps merge_block) (
                                        Keeps-Turns (
                                          create_phi-Keeps tv then_end ev
                                            else_end)))))))))))))))))))

  gen_for-Keeps :
      (x : Bytes) {start end step body : Make Double (Operand Double)}
      → Keeps NamesAre start
      → Keeps NamesAre end
      → Keeps NamesAre step
      → Keeps NamesAre body
      → Keeps NamesAre (gen_for tg x start end step body)
  unfolding gen_for
  gen_for-Keeps x hs he ht hb = Turns-Keeps (λ m. kept_bind (NamesAre-IsLocal.keeps_alloca) (λ slot.
      kept_bind (or_fail-Keeps NamesAre NamesAre-IsLocal _ hs) (λ v.
        kept_then (any_emit (store v slot)) (
          kept_bind create_block-Keeps (λ loop_block. kept_then (any_emit (branch loop_block)) (
            kept_then (set_insert-Keeps loop_block) (
              named_value-Turns x _ (
                Turns-then (bind_name-Turns m x (some slot)) (
                  kept_bind (or_fail-Keeps NamesAre NamesAre-IsLocal _ hb) (λ b. kept_bind ht (λ sv.
                    kept_bind (or_fail-Keeps NamesAre NamesAre-IsLocal _ he) (λ ev.
                      kept_bind (create_load-Keeps NamesAre NamesAre-IsLocal slot) (λ current.
                        kept_bind
                          (create-Keeps NamesAre NamesAre-IsLocal fold fadd (current ∷ sv ∷ []))
                          (λ next. kept_then (any_emit (store next slot)) (
                            kept_bind
                              (create-Keeps NamesAre NamesAre-IsLocal fold fcmp_one
                                (ev ∷ literal zero_double ∷ []))
                              (λ cond. kept_bind create_block-Keeps (λ after_block.
                                kept_then (any_emit (branch_if cond loop_block after_block)) (
                                  kept_then (set_insert-Keeps after_block) (
                                    Turns-then (bind-back m x (some slot))
                                      (pure-Turns (literal zero_double)))))))))))))))))))))

  -- What a var/in sets back gives the map that it was entered with.
  Olds : (Bytes → Option ℕ) → Bindings Double → List (Bytes × Option ℕ) → Gen Double → Type 0
  Olds m names olds t =
      (set_back olds t.named_values ≡ m)
      × ((y : Bytes) → binds y names ≡ false → sets_back y olds ≡ false)

  restore_names-Turns :
      (olds : List (Bytes × Option ℕ)) (k : Bytes → Option ℕ) {m : Bytes → Option ℕ}
      → set_back olds k ≡ m
      → Turns NamesAre k m (restore_names tg olds)
  unfolding restore_names set_back
  restore_names-Turns [] k e = record { run = λ s q. value (q ∙ e) }
  restore_names-Turns ((x, old) ∷ olds) k e =
      Turns-then (bind_name-Turns k x old) (restore_names-Turns olds (set_name x old k) e)

  Olds-none : (m : Bytes → Option ℕ) (s : Gen Double) → s.named_values ≡ m → Olds m no_bindings [] s
  unfolding Olds set_back sets_back
  Olds-none m s e = (e, λ y h. refl)

  named_value-Post :
      (x : Bytes) (m : Bytes → Option ℕ) (s : Gen Double)
      → s.named_values ≡ m
      → Post (λ o t. (o ≡ m x) × NamesAre m t) (named_value x s)
  unfolding named_value
  named_value-Post x m s e = value (ap (λ k. k x) e, e)

  -- The entry of a name in front of those that follow it.
  Olds-binding :
      (x : Bytes) (slot : Option ℕ) (init : OptExpr Double) (rest : Bindings Double)
      (m : Bytes → Option ℕ) {old : Option ℕ} (olds : List (Bytes × Option ℕ)) (t : Gen Double)
      → binds x rest ≡ false
      → old ≡ m x
      → Olds (set_name x slot m) rest olds t
      → Olds m (binding x init rest) ((x, old) ∷ olds) t
  unfolding set_back sets_back binds Olds
  Olds-binding x slot init rest m {old} olds t once e (back, apart) =
      let here : (set_back olds (set_name x old t.named_values) ≡ m) =
        set_back-set_name olds x old t.named_values (apart x once)
        ∙ ap (set_name x old) back
        ∙ ap (λ o. set_name x o (set_name x slot m)) e
        ∙ set_name-back x slot m in
      (here, λ y h. ground (arith, h, apart y))

  gen_binding-Post :
      (x : Bytes) (o : OptExpr Double) (rest : Bindings Double)
      {init : Make Double (Operand Double)} {p : Make Double (List (Bytes × Option ℕ))}
      → binds x rest ≡ false
      → Keeps NamesAre init
      → ((m : Bytes → Option ℕ) (s : Gen Double) → s.named_values ≡ m → Post (Olds m rest) (p s))
      → (m : Bytes → Option ℕ) (s : Gen Double) → s.named_values ≡ m
      → Post (Olds m (binding x o rest)) (gen_binding tg x init p s)
  unfolding gen_binding ◌>>◌
  gen_binding-Post x o rest {init} {p} once hi hp m s e = Post-bind init (hi.at m s e) (λ v s1 e1.
      Post-bind create_entry_block_alloca (NamesAre-IsLocal.keeps_alloca.at m s1 e1) (λ slot s2 e2.
        Post-bind (emit (store v slot)) ((any_emit (store v slot)).at m s2 e2) (λ a s3 e3.
          Post-bind (named_value x) (named_value-Post x m s3 e3) (λ old s4 e4.
            Post-bind (bind_name x (some slot)) ((bind_name-Turns m x (some slot)).run s4 e4.1)
              (λ b s5 e5. Post-bind p (hp _ s5 e5) (λ olds s6 e6.
                value (Olds-binding x (some slot) o rest m olds s6 once e4.0 e6)))))))

  gen_var-Keeps :
      (names : Bindings Double) {p : Make Double (List (Bytes × Option ℕ))}
      {body : Make Double (Operand Double)}
      → ((m : Bytes → Option ℕ) (s : Gen Double) → s.named_values ≡ m → Post (Olds m names) (p s))
      → Keeps NamesAre body
      → Keeps NamesAre (gen_var tg p body)
  unfolding gen_var ◌>>◌ Olds
  gen_var-Keeps names {p} {body} hp hb = record {
    at = λ m s e. Post-bind p (hp m s e) (λ olds s1 o.
        (kept_bind (or_fail-Keeps NamesAre NamesAre-IsLocal _ hb)
            (λ v. Turns-then (restore_names-Turns olds s1.named_values o.0) (pure-Turns v))).run
          s1 refl);
  }

  mutual
    unfolding gen gen_args gen_optional gen_bindings BindsOnce ArgsBindOnce OptBindsOnce
        NamesBindOnce

    gen-Keeps : (e : Expr Double) → BindsOnce e → Keeps NamesAre (gen tg e)
    gen-Keeps (number v) h = Keeps-pure NamesAre NamesAre-IsLocal (literal v)
    gen-Keeps (variable x) h = gen_variable-Keeps tg NamesAre NamesAre-IsLocal x
    gen-Keeps (unary op e) h = gen_unary-Keeps tg NamesAre NamesAre-IsLocal op (gen-Keeps e h)
    gen-Keeps (binary op l r) (hl, hr) =
        gen_binary-Keeps tg NamesAre NamesAre-IsLocal op l (gen-Keeps l hl) (gen-Keeps r hr)
    gen-Keeps (call name args) h =
        gen_call-Keeps tg NamesAre NamesAre-IsLocal name (args_size args) (gen_args-Keeps args h)
    gen-Keeps (if_expr c t e) (hc, ht, he) =
        gen_if-Keeps (gen-Keeps c hc) (gen-Keeps t ht) (gen-Keeps e he)
    gen-Keeps (for_expr x start end step body) (hs, he, ht, hb) =
        gen_for-Keeps x (gen-Keeps start hs) (gen-Keeps end he)
          (gen_optional-Keeps one_double _ step ht) (gen-Keeps body hb)
    gen-Keeps (var_expr names body) (hn, hb) =
        gen_var-Keeps names (gen_bindings-Post names hn) (gen-Keeps body hb)

    gen_args-Keeps : (args : Args Double) → ArgsBindOnce args → Keeps NamesAre (gen_args tg args)
    gen_args-Keeps no_args h = Keeps-pure NamesAre NamesAre-IsLocal []
    gen_args-Keeps (arg e rest) (he, hr) =
        gen_args_step-Keeps tg NamesAre NamesAre-IsLocal (gen-Keeps e he) (gen_args-Keeps rest hr)

    gen_optional-Keeps :
        (v : Double) (msg : String) (o : OptExpr Double)
        → OptBindsOnce o
        → Keeps NamesAre (gen_optional tg v msg o)
    gen_optional-Keeps v msg absent h = Keeps-pure NamesAre NamesAre-IsLocal (literal v)
    gen_optional-Keeps v msg (present e) h =
        or_fail-Keeps NamesAre NamesAre-IsLocal msg (gen-Keeps e h)

    gen_bindings-Post :
        (names : Bindings Double)
        → NamesBindOnce names
        → (m : Bytes → Option ℕ) (s : Gen Double) → s.named_values ≡ m
        → Post (Olds m names) (gen_bindings tg names s)
    gen_bindings-Post no_bindings h m s e = value (Olds-none m s e)
    gen_bindings-Post (binding x init rest) (once, hi, hr) m s e =
        gen_binding-Post x init rest once (gen_optional-Keeps zero_double _ init hi)
          (gen_bindings-Post rest hr) m s e

  -- A method codegen that returns a value leaves NamedValues as it was, when no var/in of the expression
  -- binds a name twice.
  pub gen-named_values :
      (e : Expr Double) (s t : Gen Double) (v : Operand Double)
      → BindsOnce e
      → gen tg e s ≡ returned (some v) t
      → t.named_values ≡ s.named_values
  gen-named_values e s t v once h =
      Post-returned v t ((gen-Keeps e once).at s.named_values s refl) h
