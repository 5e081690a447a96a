-- ===== src/Kaleidoscope/Codegen/Known/Steps.antt =====
-- Steps of the methods codegen of kaleidoscope/src/ast.cpp that return a value.
use llvm17_learning_repo.Common.{
  ℕ, ◌≡◌, refl, sym, ap, ◌∙◌, Bool, true, false, Option, none, some, List, length, if◌then◌else◌,
  arith,
}
use Prim.Native.String.{String}
use llvm17_learning_repo.Kaleidoscope.Chars.{Bytes, bytes_eq}
use llvm17_learning_repo.Kaleidoscope.Syntax.{Prototype}
use llvm17_learning_repo.Kaleidoscope.Codegen.Builder.{
  Operand, Operation, Instruction, compute, load, call_function, phi, Gen, Result, returned, Make,
  pure, report, or_fail, attempted, attempt, from_option, resume, ◌>>=◌, ◌>>◌, bind_name, set_name,
  new_number, emit, create_entry_block_alloca, create_block_in_function, insert_at_end,
  set_insert_point, get_insert_block, create_load, create_call, create_phi, create,
}
use llvm17_learning_repo.Kaleidoscope.Codegen.Expressions.{
  Target, gen_prototype, declare_again, get_declared, get_function,
}
use llvm17_learning_repo.Kaleidoscope.Codegen.Names.{bytes_eq_sound}
use llvm17_learning_repo.Kaleidoscope.Codegen.Known.{
  is_some, IsCallable, declared, kept, IsReady, Ready-bind, Ready-back,
}

-- The documented behaviour of the symbol tables: an argument keeps its place, a free name is taken.
pub record IsSymbolTable (tg : Target) : Type 0 where
  pub arguments_length : (xs : List Bytes) → length (tg.argument_names xs) ≡ length xs
  pub free_name :
      (x : Bytes) (fs : Bytes → Option (List Bytes)) → fs x ≡ none → tg.function_name x fs ≡ x

module _ {D : Type 0} where
  -- A value is returned, with the predicate.
  pub data Yields {A : Type 0} (P : A → Gen D → Type 0) : Result D A → Type 0 where
    value : {a : A} {t : Gen D} → P a t → Yields P (returned (some a) t)

  Yields-resume :
      {A B : Type 0} {P : A → Gen D → Type 0} {Q : B → Gen D → Type 0} {r : Result D A}
      {f : A → Make D B}
      → Yields P r
      → ((a : A) (t : Gen D) → P a t → Yields Q (f a t))
      → Yields Q (resume r f)
  unfolding resume
  Yields-resume (value p) h = h _ _ p

  pub Yields-bind :
      {A B : Type 0} {P : A → Gen D → Type 0} {Q : B → Gen D → Type 0} (p : Make D A)
      {f : A → Make D B} {s : Gen D}
      → Yields P (p s)
      → ((a : A) (t : Gen D) → P a t → Yields Q (f a t))
      → Yields Q ((p >>= f) s)
  unfolding ◌>>=◌
  Yields-bind p hp hf = Yields-resume hp hf

  pub Yields-value :
      {A : Type 0} {P : A → Gen D → Type 0} {a : A} {t : Gen D}
      → Yields P (returned (some a) t)
      → P a t
  Yields-value (value p) = p

  pub Yields-mono :
      {A : Type 0} {P Q : A → Gen D → Type 0} {r : Result D A}
      → Yields P r
      → ((a : A) (t : Gen D) → P a t → Q a t)
      → Yields Q r
  Yields-mono (value p) h = value (h _ _ p)

  Yields-report :
      {A : Type 0} {P : A → Gen D → Type 0} (msg : String) {r : Result D A}
      → Yields P r
      → Yields P (report msg r)
  unfolding report
  Yields-report msg (value p) = value p

  pub Yields-or_fail :
      {A : Type 0} {P : A → Gen D → Type 0} (msg : String) (p : Make D A) {s : Gen D}
      → Yields P (p s)
      → Yields P (or_fail msg p s)
  unfolding or_fail
  Yields-or_fail msg p h = Yields-report msg h

  attempted-Yields :
      {A B : Type 0} {P : A → Gen D → Type 0} {Q : B → Gen D → Type 0} {r : Result D A}
      (f : Option A → Make D B)
      → Yields P r
      → ((a : A) (t : Gen D) → P a t → Yields Q (f (some a) t))
      → Yields Q (resume (attempted r) f)
  unfolding attempted resume
  attempted-Yields f (value p) h = h _ _ p

  pub Yields-attempt :
      {A B : Type 0} {P : A → Gen D → Type 0} {Q : B → Gen D → Type 0} (p : Make D A)
      (f : Option A → Make D B) {s : Gen D}
      → Yields P (p s)
      → ((a : A) (t : Gen D) → P a t → Yields Q (f (some a) t))
      → Yields Q ((attempt p >>= f) s)
  unfolding attempt ◌>>=◌
  Yields-attempt p f hp hf = attempted-Yields f hp hf

-- A step that returns a value in one scope, and leaves the globals in another.
pub record Gives (arity : Bytes → Option ℕ) {D A : Type 0} (from to : Bytes → Bool) (p : Make D A)
    : Type 0 where
  pub run : (s : Gen D) → IsReady arity from s → Yields (λ a t. IsReady arity to t) (p s)

module _ {arity : Bytes → Option ℕ} {D A B : Type 0} {from mid to : Bytes → Bool} where
  pub bind-Gives :
      {p : Make D A} {f : A → Make D B}
      → Gives arity from mid p
      → ((a : A) → Gives arity mid to (f a))
      → Gives arity from to (p >>= f)
  bind-Gives {p} hp hf = record {
    run = λ s r. Yields-bind p (hp.run s r) (λ a t q. (hf a).run t q);
  }

  pub then-Gives :
      {p : Make D A} {q : Make D B}
      → Gives arity from mid p
      → Gives arity mid to q
      → Gives arity from to (p >> q)
  unfolding ◌>>◌
  then-Gives hp hq = bind-Gives hp (λ a. hq)

module _ {arity : Bytes → Option ℕ} {D : Type 0} {scope : Bytes → Bool} where
  pub pure-Gives : {A : Type 0} (a : A) → Gives arity {D = D} scope scope (pure a)
  pure-Gives a = record { run = λ s r. value r }

  pub or_fail-Gives :
      {A : Type 0} {to : Bytes → Bool} (msg : String) {p : Make D A}
      → Gives arity scope to p
      → Gives arity scope to (or_fail msg p)
  or_fail-Gives msg {p} h = record { run = λ s r. Yields-or_fail msg p (h.run s r) }

  pub emit-Gives : (i : Instruction D) → Gives arity scope scope (emit i)
  unfolding emit
  emit-Gives i = record { run = λ s r. value r }

  pub number-Gives : Gives arity {D = D} scope scope new_number
  unfolding new_number
  number-Gives = record { run = λ s r. value r }

  pub alloca-Gives : Gives arity {D = D} scope scope create_entry_block_alloca
  unfolding create_entry_block_alloca
  alloca-Gives = record { run = λ s r. value r }

  pub block-Gives : Gives arity {D = D} scope scope create_block_in_function
  unfolding create_block_in_function
  block-Gives = record { run = λ s r. value r }

  pub insert-Gives : (l : ℕ) → Gives arity {D = D} scope scope (insert_at_end l)
  unfolding insert_at_end
  insert-Gives l = record { run = λ s r. value r }

  pub enter-Gives : (l : ℕ) → Gives arity {D = D} scope scope (set_insert_point l)
  unfolding set_insert_point
  enter-Gives l = record { run = λ s r. value r }

  pub current-Gives : Gives arity {D = D} scope scope get_insert_block
  unfolding get_insert_block
  current-Gives = record { run = λ s r. value r }

  pub load-Gives : (slot : ℕ) → Gives arity {D = D} scope scope (create_load slot)
  unfolding create_load
  load-Gives slot =
      bind-Gives number-Gives
        (λ r. then-Gives (emit-Gives (load r slot)) (pure-Gives (Operand.register r)))

  pub create_call-Gives :
      (name : Bytes) (vs : List (Operand D)) → Gives arity scope scope (create_call name vs)
  unfolding create_call
  create_call-Gives name vs =
      bind-Gives number-Gives
        (λ r. then-Gives (emit-Gives (call_function r name vs)) (pure-Gives (Operand.register r)))

  pub phi-Gives :
      (v : Operand D) (a : ℕ) (w : Operand D) (b : ℕ) → Gives arity scope scope (create_phi v a w b)
  unfolding create_phi
  phi-Gives v a w b =
      bind-Gives number-Gives
        (λ r. then-Gives (emit-Gives (phi r v a w b)) (pure-Gives (Operand.register r)))

  from_option-Gives :
      {A : Type 0} (o : Option A) {p : Make D A}
      → Gives arity scope scope p
      → Gives arity scope scope (from_option o p)
  unfolding from_option
  from_option-Gives (some a) h = pure-Gives a
  from_option-Gives none h = h

  pub create-Gives :
      (fold : Operation → List (Operand D) → Option (Operand D)) (op : Operation)
      (vs : List (Operand D))
      → Gives arity scope scope (create fold op vs)
  unfolding create
  create-Gives fold op vs = from_option-Gives (fold op vs) (
      bind-Gives number-Gives
        (λ r. then-Gives (emit-Gives (compute r op vs)) (pure-Gives (Operand.register r))))

  pub bind_name-Gives :
      (x : Bytes) (slot : ℕ)
      → Gives arity {D = D} scope (set_name x true scope) (bind_name x (some slot))
  unfolding bind_name
  bind_name-Gives x slot = record { run = λ s r. value (Ready-bind x slot r) }

  pub back-Gives :
      (x : Bytes) (old : Option ℕ) (less : Bytes → Bool)
      → (less x ≡ true → is_some old ≡ true)
      → ((y : Bytes) → less y ≡ true → scope y ≡ true)
      → Gives arity {D = D} scope less (bind_name x old)
  unfolding bind_name
  back-Gives x old less hold h = record { run = λ s r. value (Ready-back x old less hold h r) }

declared-IsCallable :
    (g : Bytes) (n m : ℕ) (names : List Bytes) (c : Bool) {o : Option (List Bytes)}
    {q : Option Prototype}
    → (c ≡ true → n ≡ m)
    → length names ≡ n
    → IsCallable g m o q
    → IsCallable g m (if c then some names else o) q
declared-IsCallable g n m names true e l k = declared (l ∙ e refl)
declared-IsCallable g n m names false e l k = k

same_arity :
    (arity : Bytes → Option ℕ) (f g : Bytes) (n m : ℕ)
    → arity f ≡ some n
    → arity g ≡ some m
    → g ≡ f
    → n ≡ m
same_arity arity f g n m a b e =
    let both : (some n ≡ some m) = sym a ∙ ap arity (sym e) ∙ b in ground (arith, both)

module _ (tg : Target) (tables : IsSymbolTable tg) (arity : Bytes → Option ℕ)
    (scope : Bytes → Bool) where
  open tg use {Double, argument_names, function_name}

  -- What a callee is once it is in TheModule.
  abbrev IsDeclared : ℕ → List Bytes → Gen Double → Type 0
  IsDeclared n names t = (length names ≡ n) × IsReady arity scope t

  pub gen_prototype-Yields :
      (f : Bytes) (n : ℕ) (p : Prototype) (s : Gen Double)
      → arity f ≡ some n
      → s.functions f ≡ none
      → p.name ≡ f
      → length p.args ≡ n
      → IsReady arity scope s
      → Yields (IsDeclared n) (gen_prototype tg p s)
  unfolding gen_prototype
  gen_prototype-Yields f n p s a free e l r =
      let there : (function_name p.name s.functions ≡ f) =
        tables.free_name p.name s.functions (ap s.functions e ∙ free) ∙ e in
      let size : (length (argument_names p.args) ≡ n) = tables.arguments_length p.args ∙ l in
      value (
        size,
        record {
          in_scope = r.in_scope;
          callable = λ g m b.
              declared-IsCallable g n m (argument_names p.args)
                (bytes_eq g (function_name p.name s.functions))
                (λ c.
                  same_arity arity f g n m a b
                    (bytes_eq_sound g (function_name p.name s.functions) c ∙ there))
                size (r.callable g m b);
        },
      )

  declare_again-Yields :
      (f : Bytes) (n : ℕ) (q : Option Prototype) (s : Gen Double)
      → arity f ≡ some n
      → s.functions f ≡ none
      → IsCallable f n none q
      → IsReady arity scope s
      → Yields (IsDeclared n) (declare_again tg q s)
  unfolding declare_again
  declare_again-Yields f n _ s a free (kept {p} e l) r = gen_prototype-Yields f n p s a free e l r

  get_declared-Yields :
      (f : Bytes) (n : ℕ) (o : Option (List Bytes)) (s : Gen Double)
      → arity f ≡ some n
      → s.functions f ≡ o
      → IsCallable f n o (s.function_protos f)
      → IsReady arity scope s
      → Yields (IsDeclared n) (get_declared tg f o s)
  unfolding get_declared
  get_declared-Yields f n (some names) s a e (declared l) r = value (l, r)
  get_declared-Yields f n none s a e k r = declare_again-Yields f n (s.function_protos f) s a e k r

  pub get_function-Yields :
      (f : Bytes) (n : ℕ) (s : Gen Double)
      → arity f ≡ some n
      → IsReady arity scope s
      → Yields (IsDeclared n) (get_function tg f s)
  unfolding get_function
  get_function-Yields f n s a r =
      get_declared-Yields f n (s.functions f) s a refl (r.callable f n a) r
