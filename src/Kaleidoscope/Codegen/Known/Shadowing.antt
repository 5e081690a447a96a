-- ===== src/Kaleidoscope/Codegen/Known/Shadowing.antt =====
-- The names of a var/in of kaleidoscope/src/ast.cpp: they are bound, and what they hid comes back.
use llvm17_learning_repo.Common.{ℕ, ◌≡◌, Bool, true, Option, some, List, [], ◌∷◌}
use llvm17_learning_repo.Kaleidoscope.Chars.{Bytes}
use llvm17_learning_repo.Kaleidoscope.Syntax.{OptExpr, Bindings, no_bindings, binding}
use llvm17_learning_repo.Kaleidoscope.Codegen.Builder.{
  Operand, store, Gen, Make, set_name, pure, ◌>>◌, named_value, bind_name, emit,
  create_entry_block_alloca,
}
use llvm17_learning_repo.Kaleidoscope.Codegen.Expressions.{
  Target, gen_binding, restore_names, gen_var,
}
use llvm17_learning_repo.Kaleidoscope.Codegen.Known.{
  is_some, scope_of, IsReady, Ready-less, set_name-more,
}
use llvm17_learning_repo.Kaleidoscope.Codegen.Known.Steps.{
  IsSymbolTable, Yields, value, Yields-bind, Gives, bind-Gives, then-Gives, pure-Gives,
  or_fail-Gives, emit-Gives, alloca-Gives, bind_name-Gives, back-Gives,
}

module _ (tg : Target) (tables : IsSymbolTable tg) (arity : Bytes → Option ℕ) where
  open tg use {Double, zero_double, one_double, fold}

  -- The bindings that are saved are of the scope, when their names are.
  pub AreSaved : (Bytes → Bool) → List (Bytes × Option ℕ) → Type 0
  AreSaved scope [] = Unit {0}
  AreSaved scope ((x, old) ∷ olds) = (scope x ≡ true → is_some old ≡ true) × AreSaved scope olds

  pub AreSaved-less :
      (scope less : Bytes → Bool) (olds : List (Bytes × Option ℕ))
      → ((x : Bytes) → less x ≡ true → scope x ≡ true)
      → AreSaved scope olds
      → AreSaved less olds
  unfolding AreSaved
  AreSaved-less scope less [] h k = k
  AreSaved-less scope less ((x, old) ∷ olds) h (k, ks) =
      (λ e. k (h x e), AreSaved-less scope less olds h ks)

  pub restored-Gives :
      (scope : Bytes → Bool) (olds : List (Bytes × Option ℕ))
      → AreSaved scope olds
      → Gives arity scope scope (restore_names tg olds)
  unfolding restore_names AreSaved
  restored-Gives scope [] k = pure-Gives tt
  restored-Gives scope ((x, old) ∷ olds) (k, ks) =
      then-Gives (back-Gives x old scope k (λ y h. h)) (restored-Gives scope olds ks)

  pub scope_of-more :
      (scope : Bytes → Bool) (names : Bindings Double) (x : Bytes)
      → scope x ≡ true
      → scope_of arity scope names x ≡ true
  unfolding scope_of
  scope_of-more scope no_bindings x h = h
  scope_of-more scope (binding y init rest) x h =
      scope_of-more (set_name y true scope) rest x (set_name-more y scope x h)

  -- Names are bound one behind the other.
  abbrev pub Binds :
      (Bytes → Bool) → Bindings Double → Make Double (List (Bytes × Option ℕ)) → Type 0
  Binds scope names p =
      (s : Gen Double)
      → IsReady arity scope s
      → Yields (λ olds t. IsReady arity (scope_of arity scope names) t × AreSaved scope olds) (p s)

  named_value-Yields :
      (scope : Bytes → Bool) (x : Bytes) (s : Gen Double)
      → IsReady arity scope s
      → Yields
          (λ old t. (scope x ≡ true → is_some old ≡ true) × IsReady arity scope t)
          (named_value x s)
  unfolding named_value
  named_value-Yields scope x s r = value (r.in_scope x, r)

  pub more-Binds :
      (scope : Bytes → Bool) (x : Bytes) (o : OptExpr Double) (rest : Bindings Double)
      {init : Make Double (Operand Double)} {p : Make Double (List (Bytes × Option ℕ))}
      → Gives arity scope scope init
      → Binds (set_name x true scope) rest p
      → Binds scope (binding x o rest) (gen_binding tg x init p)
  unfolding gen_binding ◌>>◌ scope_of AreSaved
  more-Binds scope x o rest {init} {p} hi hp s r = Yields-bind init (hi.run s r) (λ v s1 r1.
      Yields-bind create_entry_block_alloca (alloca-Gives.run s1 r1) (λ slot s2 r2.
        Yields-bind (emit (store v slot)) ((emit-Gives (store v slot)).run s2 r2) (λ a s3 r3.
          Yields-bind (named_value x) (named_value-Yields scope x s3 r3) (λ old s4 (k, r4).
            Yields-bind (bind_name x (some slot)) ((bind_name-Gives x slot).run s4 r4) (λ b s5 r5.
              Yields-bind p (hp s5 r5) (λ olds s6 (r6, ks). value (
                r6,
                (k, AreSaved-less (set_name x true scope) scope olds (set_name-more x scope) ks),
              )))))))

  pub less-Gives :
      (scope : Bytes → Bool) (names : Bindings Double) (olds : List (Bytes × Option ℕ))
      → AreSaved scope olds
      → Gives arity (scope_of arity scope names) scope (restore_names tg olds)
  less-Gives scope names olds k = record {
    run = λ s r. (restored-Gives scope olds k).run s (Ready-less (scope_of-more scope names) r);
  }

  pub var-Gives :
      (scope : Bytes → Bool) (names : Bindings Double) {p : Make Double (List (Bytes × Option ℕ))}
      {body : Make Double (Operand Double)}
      → Binds scope names p
      → Gives arity (scope_of arity scope names) (scope_of arity scope names) body
      → Gives arity scope scope (gen_var tg p body)
  unfolding gen_var
  var-Gives scope names {p} {body} hp hb = record {
    run = λ s r. Yields-bind p (hp s r) (λ olds s1 (r1, k).
        (bind-Gives (or_fail-Gives _ hb)
            (λ v. then-Gives (less-Gives scope names olds k) (pure-Gives v))).run
          s1 r1);
  }

  pub none-Binds : (scope : Bytes → Bool) → Binds scope no_bindings (pure [])
  unfolding scope_of AreSaved
  none-Binds scope s r = value (r, tt)
