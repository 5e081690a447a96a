-- ===== src/Kaleidoscope/Codegen/Known.antt =====
-- Expressions whose variables are in scope and whose functions are known with the number of their
-- arguments, and what that says of the globals of kaleidoscope/src/ast.cpp.
use llvm17_learning_repo.Common.{
  ℕ, ◌≡◌, refl, sym, ap, subst, ◌∙◌, Bool, true, false, ◌&&◌, ◌||◌, Option, none, some, List, [],
  ◌∷◌, ◌++◌, length, ◌==◌, if◌then◌else◌, if_intro, arith,
}
use llvm17_learning_repo.Kaleidoscope.Chars.{Bytes, bytes_eq, codes}
use llvm17_learning_repo.Kaleidoscope.Syntax.{
  Expr, number, variable, unary, binary, call, if_expr, for_expr, var_expr, Args, no_args, arg,
  OptExpr, absent, present, Bindings, no_bindings, binding, Prototype,
}
use llvm17_learning_repo.Kaleidoscope.Codegen.Builder.{Gen, set_name}
use llvm17_learning_repo.Kaleidoscope.Codegen.Expressions.{args_size}
use llvm17_learning_repo.Kaleidoscope.Codegen.Names.{bytes_eq_sound}
pub mod Steps
pub mod Expressions
pub mod Shadowing
pub mod Values
pub mod Functions

unfoldable pub is_some : Option ℕ → Bool
is_some none = false
is_some (some a) = true

unfoldable pub is_arity : Option ℕ → ℕ → Bool
is_arity none n = false
is_arity (some m) n = m == n

-- The operators of the switch in BinaryExprAST::codegen.
unfoldable pub is_builtin : ℕ → Bool
is_builtin op = op == b'+' || op == b'-' || op == b'*' || op == b'<'

-- A function in TheModule, or else in FunctionProtos under its name.
pub data IsCallable (f : Bytes) (n : ℕ) : Option (List Bytes) → Option Prototype → Type 0 where
  declared :
      {names : List Bytes} {o : Option Prototype} → length names ≡ n → IsCallable f n (some names) o
  kept : {p : Prototype} → p.name ≡ f → length p.args ≡ n → IsCallable f n none (some p)

module _ (arity : Bytes → Option ℕ) where
  -- The left side of an assignment is a variable in scope.
  unfoldable pub assigns : {D : Type 0} → (Bytes → Bool) → Expr D → Bool
  assigns scope (variable x) = scope x
  assigns scope e = false

  unfoldable pub scope_of : {D : Type 0} → (Bytes → Bool) → Bindings D → Bytes → Bool
  scope_of scope no_bindings = scope
  scope_of scope (binding x init rest) = scope_of (set_name x true scope) rest

  unfoldable mutual
    unfolding is_arity is_builtin assigns scope_of

    -- Every variable is in scope, every function is known with as many arguments, and what is assigned to
    -- is a variable.
    pub is_known : {D : Type 0} → (Bytes → Bool) → Expr D → Bool
    is_known scope (number v) = true
    is_known scope (variable x) = scope x
    is_known scope (unary op e) = is_known scope e && is_arity (arity (codes "unary" ++ op ∷ [])) 1
    is_known scope (binary op l r) =
        let left = is_known scope l in
        let right = is_known scope r in
        if op == b'='
        then assigns scope l && right
        else left && right && (is_builtin op || is_arity (arity (codes "binary" ++ op ∷ [])) 2)
    is_known scope (call name args) =
        is_arity (arity name) (args_size args) && args_known scope args
    is_known scope (if_expr c t e) = is_known scope c && is_known scope t && is_known scope e
    is_known scope (for_expr x start end step body) =
        is_known scope start
        && is_known (set_name x true scope) end
        && optional_known (set_name x true scope) step
        && is_known (set_name x true scope) body
    is_known scope (var_expr names body) =
        names_known scope names && is_known (scope_of scope names) body

    pub args_known : {D : Type 0} → (Bytes → Bool) → Args D → Bool
    args_known scope no_args = true
    args_known scope (arg e rest) = is_known scope e && args_known scope rest

    pub optional_known : {D : Type 0} → (Bytes → Bool) → OptExpr D → Bool
    optional_known scope absent = true
    optional_known scope (present e) = is_known scope e

    pub names_known : {D : Type 0} → (Bytes → Bool) → Bindings D → Bool
    names_known scope no_bindings = true
    names_known scope (binding x init rest) =
        optional_known scope init && names_known (set_name x true scope) rest

  pub record Ready (scope : Bytes → Bool) (named_values : Bytes → Option ℕ)
      (functions : Bytes → Option (List Bytes)) (function_protos : Bytes → Option Prototype)
      : Type 0 where
    pub in_scope : (x : Bytes) → scope x ≡ true → is_some (named_values x) ≡ true
    pub callable :
        (f : Bytes) (n : ℕ) → arity f ≡ some n → IsCallable f n (functions f) (function_protos f)

  -- The names of the scope have a slot, and the functions are known.
  abbrev pub IsReady : {D : Type 0} → (Bytes → Bool) → Gen D → Type 0
  IsReady scope s = Ready scope s.named_values s.functions s.function_protos

shadow_less : (c b : Bool) → b ≡ true → (if c then true else b) ≡ true
shadow_less true b h = refl
shadow_less false b h = h

pub set_name-more :
    (x : Bytes) (scope : Bytes → Bool) (y : Bytes) → scope y ≡ true → set_name x true scope y ≡ true
set_name-more x scope y h = shadow_less (bytes_eq y x) (scope y) h

slot_bound :
    (c b : Bool) (slot : ℕ) (old : Option ℕ)
    → (b ≡ true → is_some old ≡ true)
    → (if c then true else b) ≡ true
    → is_some (if c then some slot else old) ≡ true
unfolding is_some
slot_bound true b slot old h e = refl
slot_bound false b slot old h e = h e

module _ {arity : Bytes → Option ℕ} {scope : Bytes → Bool} {named_values : Bytes → Option ℕ}
    {functions : Bytes → Option (List Bytes)} {function_protos : Bytes → Option Prototype} where
  pub Ready-less :
      {less : Bytes → Bool}
      → ((x : Bytes) → less x ≡ true → scope x ≡ true)
      → Ready arity scope named_values functions function_protos
      → Ready arity less named_values functions function_protos
  Ready-less h r = record { in_scope = λ x e. r.in_scope x (h x e); callable = r.callable }

  pub Ready-bind :
      (x : Bytes) (slot : ℕ)
      → Ready arity scope named_values functions function_protos
      → Ready arity
          (set_name x true scope)
          (set_name x (some slot) named_values)
          functions
          function_protos
  Ready-bind x slot r = record {
    in_scope = λ y e. slot_bound (bytes_eq y x) (scope y) slot (named_values y) (r.in_scope y) e;
    callable = r.callable;
  }

  pub Ready-back :
      (x : Bytes) (old : Option ℕ) (less : Bytes → Bool)
      → (less x ≡ true → is_some old ≡ true)
      → ((y : Bytes) → less y ≡ true → scope y ≡ true)
      → Ready arity scope named_values functions function_protos
      → Ready arity less (set_name x old named_values) functions function_protos
  Ready-back x old less hold h r = record {
    in_scope = λ y e.
        if_intro (λ o. is_some o ≡ true) (bytes_eq y x)
          (λ q. hold (subst (λ z. less z ≡ true) (bytes_eq_sound y x q) e))
          (λ q. r.in_scope y (h y e));
    callable = r.callable;
  }
