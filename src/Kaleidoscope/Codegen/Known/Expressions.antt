-- ===== src/Kaleidoscope/Codegen/Known/Expressions.antt =====
-- What each method codegen of kaleidoscope/src/ast.cpp needs of its parts to return a value.
use llvm17_learning_repo.Common.{
  ℕ, ◌≡◌, refl, ap, Bool, true, false, ◌&&◌, ◌||◌, Option, none, some, List, [], ◌∷◌, ◌++◌, length,
  ◌==◌, ==_iff, if◌then◌else◌, if_intro, arith,
}
use Prim.Native.String.{String}
use llvm17_learning_repo.Kaleidoscope.Chars.{Bytes, codes}
use llvm17_learning_repo.Kaleidoscope.Syntax.{Expr, variable}
use llvm17_learning_repo.Kaleidoscope.Codegen.Builder.{
  Operand, literal, fadd, fsub, fmul, fcmp_ult, fcmp_one, ui_to_fp, store, branch, branch_if, Make,
  set_name, pure, ◌>>=◌, resume, named_value,
}
use llvm17_learning_repo.Kaleidoscope.Codegen.Expressions.{
  Target, get_function, slot_or_fail, find_slot, gen_variable, gen_unary, assigned_name,
  gen_assignment, both_operands, asserted, gen_operator_call, gen_operation, gen_operands,
  gen_binary, gen_call, gen_if, gen_for,
}
use llvm17_learning_repo.Kaleidoscope.Codegen.Known.{
  is_some, is_arity, is_builtin, assigns, IsReady, set_name-more,
}
use llvm17_learning_repo.Kaleidoscope.Codegen.Known.Steps.{
  IsSymbolTable, Yields, Yields-bind, Yields-mono, Yields-or_fail, Yields-attempt, Gives,
  bind-Gives, then-Gives, pure-Gives, or_fail-Gives, emit-Gives, number-Gives, alloca-Gives,
  block-Gives, insert-Gives, enter-Gives, current-Gives, load-Gives, create_call-Gives, phi-Gives,
  create-Gives, bind_name-Gives, back-Gives, get_function-Yields,
}

pub both : (a b : Bool) → (a && b) ≡ true → (a ≡ true) × (b ≡ true)
both true b h = (refl, h)
both false b h = ground arith

either : (a b : Bool) → (a || b) ≡ true → a ≡ false → b ≡ true
either true b h e = ground arith
either false b h e = h

if_checked :
    {A : Type 0} (P : A → Type 0) (c : Bool) {x y : A} {a b : Bool}
    → (a ≡ true → P x)
    → (b ≡ true → P y)
    → (if c then a else b) ≡ true
    → P (if c then x else y)
if_checked P true hx hy h = hx h
if_checked P false hx hy h = hy h

pub is_arity_exact : (o : Option ℕ) (n : ℕ) → is_arity o n ≡ true → o ≡ some n
unfolding is_arity
is_arity_exact none n h = ground arith
is_arity_exact (some m) n h = ap some ((==_iff m n).0 h)

module _ (tg : Target) (tables : IsSymbolTable tg) (arity : Bytes → Option ℕ) where
  open tg use {Double, zero_double, one_double, fold}

  module _ {scope : Bytes → Bool} where
    pub function-Gives :
        (f : Bytes) (n : ℕ) → arity f ≡ some n → Gives arity scope scope (get_function tg f)
    function-Gives f n a = record {
      run = λ s r.
          Yields-mono (get_function-Yields tg tables arity scope f n s a r) (λ names t h. h.1);
    }

    pub slot_or_fail-Gives :
        (msg : String) (o : Option ℕ)
        → is_some o ≡ true
        → Gives arity scope scope (slot_or_fail tg msg o)
    unfolding slot_or_fail is_some
    slot_or_fail-Gives msg none h = ground arith
    slot_or_fail-Gives msg (some slot) h = pure-Gives slot

    pub find_slot-Gives :
        (msg : String) (x : Bytes) → scope x ≡ true → Gives arity scope scope (find_slot tg msg x)
    unfolding find_slot ◌>>=◌ resume named_value
    find_slot-Gives msg x h = record {
      run = λ s r. (slot_or_fail-Gives msg (s.named_values x) (r.in_scope x h)).run s r;
    }

    pub variable-Gives : (x : Bytes) → scope x ≡ true → Gives arity scope scope (gen_variable tg x)
    unfolding gen_variable
    variable-Gives x h = bind-Gives (find_slot-Gives _ x h) load-Gives

    pub unary-Gives :
        (op : ℕ) {p : Make Double (Operand Double)}
        → Gives arity scope scope p
        → arity (codes "unary" ++ op ∷ []) ≡ some 1
        → Gives arity scope scope (gen_unary tg op p)
    unfolding gen_unary
    unary-Gives op h a = bind-Gives (or_fail-Gives _ h) (λ v.
        bind-Gives (or_fail-Gives _ (function-Gives (codes "unary" ++ op ∷ []) 1 a))
          (λ f. create_call-Gives (codes "unary" ++ op ∷ []) (v ∷ [])))

    pub value-Gives :
        {A B : Type 0} (a : A) (f : A → Make Double B)
        → Gives arity scope scope (f a)
        → Gives arity scope scope (pure a >>= f)
    unfolding ◌>>=◌ resume
    value-Gives a f h = record { run = h.run }

    pub assignment-Gives :
        (lhs : Expr Double) {p : Make Double (Operand Double)}
        → assigns arity scope lhs ≡ true
        → Gives arity scope scope p
        → Gives arity scope scope (gen_assignment tg lhs p)
    unfolding gen_assignment assigned_name assigns
    assignment-Gives (variable x) h hp = bind-Gives (or_fail-Gives _ hp) (λ v. value-Gives x _ (
        bind-Gives (find_slot-Gives _ x h)
          (λ slot. then-Gives (emit-Gives (store v slot)) (pure-Gives v))))
    assignment-Gives _ h hp = ground arith

    pub operator_call-Gives :
        (op : ℕ) (l r : Operand Double)
        → arity (codes "binary" ++ op ∷ []) ≡ some 2
        → Gives arity scope scope (gen_operator_call tg op l r)
    unfolding gen_operator_call asserted
    operator_call-Gives op l r a = record {
      run = λ s q.
          Yields-attempt (get_function tg (codes "binary" ++ op ∷ [])) _
            (get_function-Yields tg tables arity scope (codes "binary" ++ op ∷ []) 2 s a q)
            (λ f t h.
              (value-Gives f _ (create_call-Gives (codes "binary" ++ op ∷ []) (l ∷ r ∷ []))).run t
                h.1);
    }

    pub operation-Gives :
        (op : ℕ) (l r : Operand Double)
        → (is_builtin op || is_arity (arity (codes "binary" ++ op ∷ [])) 2) ≡ true
        → Gives arity scope scope (gen_operation tg op l r)
    unfolding gen_operation is_builtin
    operation-Gives op l r h =
        if_intro (Gives arity scope scope) (op == b'+') (λ _. create-Gives fold fadd (l ∷ r ∷ []))
          (λ n1.
            if_intro (Gives arity scope scope) (op == b'-')
              (λ _. create-Gives fold fsub (l ∷ r ∷ []))
              (λ n2.
                if_intro (Gives arity scope scope) (op == b'*')
                  (λ _. create-Gives fold fmul (l ∷ r ∷ []))
                  (λ n3.
                    if_intro (Gives arity scope scope) (op == b'<')
                      (λ _.
                        bind-Gives (create-Gives fold fcmp_ult (l ∷ r ∷ []))
                          (λ c. create-Gives fold ui_to_fp (c ∷ [])))
                      (λ n4.
                        operator_call-Gives op l r
                          (is_arity_exact _ 2 (ground (arith, h, n1, n2, n3, n4)))))))

    pub operands-Gives :
        (op : ℕ) {p q : Make Double (Operand Double)}
        → Gives arity scope scope p
        → Gives arity scope scope q
        → (is_builtin op || is_arity (arity (codes "binary" ++ op ∷ [])) 2) ≡ true
        → Gives arity scope scope (gen_operands tg op p q)
    unfolding gen_operands both_operands
    operands-Gives op {p} {q} hp hq h = record {
      run = λ s r. Yields-attempt p _ (hp.run s r) (λ v t rt.
          Yields-attempt q _ (hq.run t rt)
            (λ w u ru. (value-Gives (v, w) _ (operation-Gives op v w h)).run u ru));
    }

    pub binary-Gives :
        (op : ℕ) (lhs : Expr Double) {p q : Make Double (Operand Double)} (left right : Bool)
        → (left ≡ true → Gives arity scope scope p)
        → (right ≡ true → Gives arity scope scope q)
        → (if op == b'='
            then assigns arity scope lhs && right
            else left && right && (is_builtin op || is_arity (arity (codes "binary" ++ op ∷ [])) 2))
          ≡ true
        → Gives arity scope scope (gen_binary tg op lhs p q)
    unfolding gen_binary
    binary-Gives op lhs {p} {q} left right hp hq h =
        if_checked (Gives arity scope scope) (op == b'=')
          (λ e. assignment-Gives lhs (both _ _ e).0 (hq (both _ _ e).1))
          (λ e.
            operands-Gives op (hp (both _ _ (both _ _ e).0).0) (hq (both _ _ (both _ _ e).0).1)
              (both _ _ e).1)
          h

    pub call-Gives :
        (name : Bytes) (size : ℕ) {p : Make Double (List (Operand Double))}
        → arity name ≡ some size
        → Gives arity scope scope p
        → Gives arity scope scope (gen_call tg name size p)
    unfolding gen_call
    call-Gives name size {p} a hp = record {
      run = λ s r.
          Yields-bind _
            (Yields-or_fail _ (get_function tg name)
              (get_function-Yields tg tables arity scope name size s a r))
            (λ f t h.
              if_intro
                (λ (m : Make Double (Operand Double)). Yields (λ v u. IsReady arity scope u) (m t))
                (length f == size) (λ _. (bind-Gives hp (create_call-Gives name)).run t h.1)
                (λ n. ground (arith, n, h)));
    }

    pub if-Gives :
        {c t e : Make Double (Operand Double)}
        → Gives arity scope scope c
        → Gives arity scope scope t
        → Gives arity scope scope e
        → Gives arity scope scope (gen_if tg c t e)
    unfolding gen_if
    if-Gives hc ht he = bind-Gives (or_fail-Gives _ hc) (λ v.
        bind-Gives (create-Gives fold fcmp_one (v ∷ literal zero_double ∷ [])) (λ cond.
          bind-Gives block-Gives (λ then_block. bind-Gives number-Gives (λ else_block.
            bind-Gives number-Gives (λ merge_block.
              then-Gives (emit-Gives (branch_if cond then_block else_block)) (
                then-Gives (enter-Gives then_block) (
                  bind-Gives (or_fail-Gives _ ht) (λ tv.
                    then-Gives (emit-Gives (branch merge_block)) (
                      bind-Gives current-Gives (λ then_end. then-Gives (insert-Gives else_block) (
                        then-Gives (enter-Gives else_block) (
                          bind-Gives (or_fail-Gives _ he) (λ ev.
                            then-Gives (emit-Gives (branch merge_block)) (
                              bind-Gives current-Gives (λ else_end.
                                then-Gives (insert-Gives merge_block) (
                                  then-Gives (enter-Gives merge_block)
                                    (phi-Gives tv then_end ev else_end)))))))))))))))))

    -- A binding that is saved is one of the scope, when its name is.
    pub saved-Gives :
        {B : Type 0} {to : Bytes → Bool} (x : Bytes) (f : Option ℕ → Make Double B)
        → ((old : Option ℕ) → (scope x ≡ true → is_some old ≡ true) → Gives arity scope to (f old))
        → Gives arity scope to (named_value x >>= f)
    unfolding named_value ◌>>=◌ resume
    saved-Gives x f h = record { run = λ s r. (h (s.named_values x) (r.in_scope x)).run s r }

    pub for-Gives :
        (x : Bytes) {start end step body : Make Double (Operand Double)}
        → Gives arity scope scope start
        → Gives arity (set_name x true scope) (set_name x true scope) end
        → Gives arity (set_name x true scope) (set_name x true scope) step
        → Gives arity (set_name x true scope) (set_name x true scope) body
        → Gives arity scope scope (gen_for tg x start end step body)
    unfolding gen_for
    for-Gives x hs he ht hb = bind-Gives alloca-Gives (λ slot. bind-Gives (or_fail-Gives _ hs) (λ v.
        then-Gives (emit-Gives (store v slot)) (
          bind-Gives block-Gives (λ loop_block. then-Gives (emit-Gives (branch loop_block)) (
            then-Gives (enter-Gives loop_block) (
              saved-Gives x _ (λ old known. then-Gives (bind_name-Gives x slot) (
                bind-Gives (or_fail-Gives _ hb) (λ b. bind-Gives ht (λ sv.
                  bind-Gives (or_fail-Gives _ he) (λ ev. bind-Gives (load-Gives slot) (λ current.
                    bind-Gives (create-Gives fold fadd (current ∷ sv ∷ [])) (λ next.
                      then-Gives (emit-Gives (store next slot)) (
                        bind-Gives (create-Gives fold fcmp_one (ev ∷ literal zero_double ∷ []))
                          (λ cond. bind-Gives block-Gives (λ after_block.
                            then-Gives (emit-Gives (branch_if cond loop_block after_block)) (
                              then-Gives (enter-Gives after_block) (
                                then-Gives (back-Gives x old scope known (set_name-more x scope))
                                  (pure-Gives (literal zero_double))))))))))))))))))))
