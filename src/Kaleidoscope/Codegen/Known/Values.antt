-- ===== src/Kaleidoscope/Codegen/Known/Values.antt =====
-- The methods codegen of kaleidoscope/src/ast.cpp return a value for an expression whose variables are
-- in scope and whose functions are known.
use llvm17_learning_repo.Common.{ℕ, ◌≡◌, refl, Bool, true, ◌&&◌, Option, some, List, [], ◌∷◌}
use Prim.Native.String.{String}
use llvm17_learning_repo.Kaleidoscope.Chars.{Bytes}
use llvm17_learning_repo.Kaleidoscope.Syntax.{
  Expr, number, variable, unary, binary, call, if_expr, for_expr, var_expr, Args, no_args, arg,
  OptExpr, absent, present, Bindings, no_bindings, binding,
}
use llvm17_learning_repo.Kaleidoscope.Codegen.Builder.{
  Operand, literal, Gen, Result, returned, Make, set_name, pure, ◌>>=◌,
}
use llvm17_learning_repo.Kaleidoscope.Codegen.Expressions.{
  Target, args_size, gen, gen_args, gen_optional, gen_bindings,
}
use llvm17_learning_repo.Kaleidoscope.Codegen.Known.{
  is_arity, scope_of, is_known, args_known, optional_known, names_known,
}
use llvm17_learning_repo.Kaleidoscope.Codegen.Known.Steps.{
  IsSymbolTable, Yields, value, Gives, bind-Gives, pure-Gives, or_fail-Gives,
}
use llvm17_learning_repo.Kaleidoscope.Codegen.Known.Expressions.{
  both, binary-Gives, call-Gives, for-Gives, if-Gives, unary-Gives, variable-Gives, is_arity_exact,
}
use llvm17_learning_repo.Kaleidoscope.Codegen.Known.Shadowing.{
  Binds, more-Binds, none-Binds, var-Gives,
}

module _ (tg : Target) (tables : IsSymbolTable tg) (arity : Bytes → Option ℕ) where
  open tg use {Double, zero_double, one_double, fold}

  args_step-Gives :
      {scope : Bytes → Bool} {p : Make Double (Operand Double)}
      {q : Make Double (List (Operand Double))}
      → Gives arity scope scope p
      → Gives arity scope scope q
      → Gives arity scope scope (p >>= λ v. q >>= λ vs. pure (v ∷ vs))
  args_step-Gives hp hq = bind-Gives hp (λ v. bind-Gives hq (λ vs. pure-Gives (v ∷ vs)))

  mutual
    unfolding gen gen_args gen_optional gen_bindings is_known args_known optional_known names_known

    pub gen-Gives :
        (scope : Bytes → Bool) (e : Expr Double)
        → is_known arity scope e ≡ true
        → Gives arity scope scope (gen tg e)
    gen-Gives scope (number v) h = pure-Gives (literal v)
    gen-Gives scope (variable x) h = variable-Gives tg tables arity x h
    gen-Gives scope (unary op e) h =
        let (he, ha) = both (is_known arity scope e) _ h in
        unary-Gives tg tables arity op (gen-Gives scope e he) (is_arity_exact _ 1 ha)
    gen-Gives scope (binary op l r) h =
        binary-Gives tg tables arity op l (is_known arity scope l) (is_known arity scope r)
          (gen-Gives scope l) (gen-Gives scope r) h
    gen-Gives scope (call name args) h =
        let (ha, hs) = both (is_arity (arity name) (args_size args)) _ h in
        call-Gives tg tables arity name (args_size args) (is_arity_exact _ (args_size args) ha)
          (gen_args-Gives scope args hs)
    gen-Gives scope (if_expr c t e) h =
        let (hct, he) = both (is_known arity scope c && is_known arity scope t) _ h in
        let (hc, ht) = both (is_known arity scope c) _ hct in
        if-Gives tg tables arity (gen-Gives scope c hc) (gen-Gives scope t ht)
          (gen-Gives scope e he)
    gen-Gives scope (for_expr x start end step body) h =
        let (hset, hb) =
          both
            (is_known arity scope start
              && is_known arity (set_name x true scope) end
              && optional_known arity (set_name x true scope) step)
            _ h in
        let (hse, ht) =
          both (is_known arity scope start && is_known arity (set_name x true scope) end) _ hset in
        let (hs, he) = both (is_known arity scope start) _ hse in
        for-Gives tg tables arity x (gen-Gives scope start hs)
          (gen-Gives (set_name x true scope) end he)
          (gen_optional-Gives (set_name x true scope) one_double _ step ht)
          (gen-Gives (set_name x true scope) body hb)
    gen-Gives scope (var_expr names body) h =
        let (hn, hb) = both (names_known arity scope names) _ h in
        var-Gives tg tables arity scope names (gen_bindings-Binds scope names hn)
          (gen-Gives (scope_of arity scope names) body hb)

    gen_args-Gives :
        (scope : Bytes → Bool) (args : Args Double)
        → args_known arity scope args ≡ true
        → Gives arity scope scope (gen_args tg args)
    gen_args-Gives scope no_args h = pure-Gives []
    gen_args-Gives scope (arg e rest) h =
        let (he, hr) = both (is_known arity scope e) _ h in
        args_step-Gives (gen-Gives scope e he) (gen_args-Gives scope rest hr)

    gen_optional-Gives :
        (scope : Bytes → Bool) (v : Double) (msg : String) (o : OptExpr Double)
        → optional_known arity scope o ≡ true
        → Gives arity scope scope (gen_optional tg v msg o)
    gen_optional-Gives scope v msg absent h = pure-Gives (literal v)
    gen_optional-Gives scope v msg (present e) h = or_fail-Gives msg (gen-Gives scope e h)

    gen_bindings-Binds :
        (scope : Bytes → Bool) (names : Bindings Double)
        → names_known arity scope names ≡ true
        → Binds tg tables arity scope names (gen_bindings tg names)
    gen_bindings-Binds scope no_bindings h s r = none-Binds tg tables arity scope s r
    gen_bindings-Binds scope (binding x init rest) h s r =
        let (hi, hr) = both (optional_known arity scope init) _ h in
        more-Binds tg tables arity scope x init rest
          (gen_optional-Gives scope zero_double _ init hi)
          (gen_bindings-Binds (set_name x true scope) rest hr) s r

  pub returned_value :
      {P : Operand Double → Gen Double → Type 0} {r : Result Double (Operand Double)}
      → Yields P r
      → (v : Operand Double) × (t : Gen Double) × (r ≡ returned (some v) t)
  returned_value (value {a = v} {t} p) = (v, t, refl)
