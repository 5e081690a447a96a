-- ===== src/Kaleidoscope/Codegen/Contract.antt =====
-- Predicates on what the methods codegen of kaleidoscope/src/ast.cpp leave in the globals when they
-- return a value, and those that every step within a block keeps.
use Prim.Native.String.{String}
use llvm17_learning_repo.Common.{
  ℕ, ◌≡◌, refl, subst, Bool, true, false, Option, none, some, List, [], ◌∷◌,
}
use llvm17_learning_repo.Kaleidoscope.Chars.{Bytes}
use llvm17_learning_repo.Kaleidoscope.Codegen.Builder.{
  Operand, Operation, Instruction, compute, load, call_function, branch, branch_if, give_back, Gen,
  Result, returned, aborted, Make, pure, fail, abort, report, or_fail, attempted, attempt,
  from_option, resume, ◌>>=◌, ◌>>◌, named_value, new_number, emit, create_entry_block_alloca,
  create_load, create_call, create,
}

-- Whether an instruction ends its block, and the blocks it goes on to.
unfoldable pub ends_block : {D : Type 0} → Instruction D → Bool
ends_block (branch l) = true
ends_block (branch_if v l m) = true
ends_block (give_back v) = true
ends_block i = false

unfoldable pub successors : {D : Type 0} → Instruction D → List ℕ
successors (branch l) = l ∷ []
successors (branch_if v l m) = l ∷ m ∷ []
successors i = []

module _ {D : Type 0} where
  -- A value with its globals has the predicate; nullptr and an abort have any.
  pub data Post {A : Type 0} (P : A → Gen D → Type 0) : Result D A → Type 0 where
    value : {a : A} {t : Gen D} → P a t → Post P (returned (some a) t)
    null : {t : Gen D} → Post P (returned none t)
    stopped : Post P aborted

  pub Post-resume :
      {A B : Type 0} {P : A → Gen D → Type 0} {Q : B → Gen D → Type 0} {r : Result D A}
      {f : A → Make D B}
      → Post P r
      → ((a : A) (t : Gen D) → P a t → Post Q (f a t))
      → Post Q (resume r f)
  unfolding resume
  Post-resume (value p) h = h _ _ p
  Post-resume null h = null
  Post-resume stopped h = stopped

  pub Post-bind :
      {A B : Type 0} {P : A → Gen D → Type 0} {Q : B → Gen D → Type 0} (p : Make D A)
      {f : A → Make D B} {s : Gen D}
      → Post P (p s)
      → ((a : A) (t : Gen D) → P a t → Post Q (f a t))
      → Post Q ((p >>= f) s)
  unfolding ◌>>=◌
  Post-bind p hp hf = Post-resume hp hf

  pub Post-then :
      {A B : Type 0} {P : A → Gen D → Type 0} {Q : B → Gen D → Type 0} (p : Make D A) (q : Make D B)
      {s : Gen D}
      → Post P (p s)
      → ((a : A) (t : Gen D) → P a t → Post Q (q t))
      → Post Q ((p >> q) s)
  unfolding ◌>>◌
  Post-then p q hp hq = Post-bind p hp hq

  pub Post-mono :
      {A : Type 0} {P Q : A → Gen D → Type 0} {r : Result D A}
      → Post P r
      → ((a : A) (t : Gen D) → P a t → Q a t)
      → Post Q r
  Post-mono (value p) h = value (h _ _ p)
  Post-mono null h = null
  Post-mono stopped h = stopped

  report-Post :
      {A : Type 0} {P : A → Gen D → Type 0} (msg : String) {r : Result D A}
      → Post P r
      → Post P (report msg r)
  unfolding report
  report-Post msg (value p) = value p
  report-Post msg null = null
  report-Post msg stopped = stopped

  pub or_fail-Post :
      {A : Type 0} {P : A → Gen D → Type 0} (msg : String) (p : Make D A) {s : Gen D}
      → Post P (p s)
      → Post P (or_fail msg p s)
  unfolding or_fail
  or_fail-Post msg p h = report-Post msg h

  pub fail-Post :
      {A : Type 0} {P : A → Gen D → Type 0} (msg : String) (s : Gen D) → Post P (fail msg s)
  unfolding fail
  fail-Post msg s = null

  pub abort-Post : {A : Type 0} {P : A → Gen D → Type 0} (s : Gen D) → Post P (abort s)
  unfolding abort
  abort-Post s = stopped

  -- Behind a nullptr that is not looked at yet, what follows returns no value.
  attempted-Post :
      {A B : Type 0} {P : A → Gen D → Type 0} {Q : B → Gen D → Type 0} {r : Result D A}
      (f : Option A → Make D B)
      → Post P r
      → ((a : A) (t : Gen D) → P a t → Post Q (f (some a) t))
      → ((t : Gen D) → Post Q (f none t))
      → Post Q (resume (attempted r) f)
  unfolding attempted resume
  attempted-Post f (value p) hs hn = hs _ _ p
  attempted-Post f null hs hn = hn _
  attempted-Post f stopped hs hn = stopped

  pub attempt-Post :
      {A B : Type 0} {P : A → Gen D → Type 0} {Q : B → Gen D → Type 0} (p : Make D A)
      (f : Option A → Make D B) {s : Gen D}
      → Post P (p s)
      → ((a : A) (t : Gen D) → P a t → Post Q (f (some a) t))
      → ((t : Gen D) → Post Q (f none t))
      → Post Q ((attempt p >>= f) s)
  unfolding attempt ◌>>=◌
  attempt-Post p f h hs hn = attempted-Post f h hs hn

  pub Post-any : {A : Type 0} (r : Result D A) → Post (λ a t. Unit {0}) r
  Post-any (returned (some a) t) = value tt
  Post-any (returned none t) = null
  Post-any aborted = stopped

  Post-value :
      {A : Type 0} {P : A → Gen D → Type 0} {a : A} {t : Gen D}
      → Post P (returned (some a) t)
      → P a t
  Post-value (value p) = p

  pub Post-returned :
      {A : Type 0} {P : A → Gen D → Type 0} {r : Result D A} (a : A) (t : Gen D)
      → Post P r
      → r ≡ returned (some a) t
      → P a t
  Post-returned {P = P} a t h e = Post-value (subst (Post P) e h)

  module _ {X : Type 0} (I : X → Gen D → Type 0) where
    -- A step that keeps an invariant, at each of its indices.
    pub record Keeps {A : Type 0} (p : Make D A) : Type 0 where
      pub at : (x : X) (s : Gen D) → I x s → Post (λ a t. I x t) (p s)

    -- An invariant that looks at the function that is built only, and that new numbers, new allocas and
    -- instructions within a block keep.
    pub record IsLocal : Type 0 where
      pub keeps_emit : (i : Instruction D) → ends_block i ≡ false → Keeps (emit i)
      pub keeps_new_number : Keeps new_number
      pub keeps_alloca : Keeps create_entry_block_alloca
      pub keeps_functions :
          (x : X) (s : Gen D) (fs : Bytes → Option (List Bytes))
          → I x s
          → I x (record s { functions = fs })

    module _ (local : IsLocal) where
      open local use {keeps_emit, keeps_new_number, keeps_alloca, keeps_functions}

      pub Keeps-pure : {A : Type 0} (a : A) → Keeps (pure a)
      Keeps-pure a = record { at = λ x s i. value i }

      pub Keeps-bind :
          {A B : Type 0} {p : Make D A} {f : A → Make D B}
          → Keeps p
          → ((a : A) → Keeps (f a))
          → Keeps (p >>= f)
      Keeps-bind {p = p} hp hf = record {
        at = λ x s i. Post-bind p (hp.at x s i) (λ a t j. (hf a).at x t j);
      }

      pub Keeps-then :
          {A B : Type 0} {p : Make D A} {q : Make D B} → Keeps p → Keeps q → Keeps (p >> q)
      unfolding ◌>>◌
      Keeps-then hp hq = Keeps-bind hp (λ a. hq)

      pub or_fail-Keeps :
          {A : Type 0} (msg : String) {p : Make D A} → Keeps p → Keeps (or_fail msg p)
      or_fail-Keeps msg {p} h = record { at = λ x s i. or_fail-Post msg p (h.at x s i) }

      pub fail-Keeps : {A : Type 0} (msg : String) → Keeps {A = A} (fail msg)
      fail-Keeps msg = record { at = λ x s i. fail-Post msg s }

      pub abort-Keeps : {A : Type 0} → Keeps {A = A} abort
      abort-Keeps = record { at = λ x s i. abort-Post s }

      pub named_value-Keeps : (y : Bytes) → Keeps (named_value y)
      unfolding named_value
      named_value-Keeps y = record { at = λ x s i. value i }

      pub create_load-Keeps : (slot : ℕ) → Keeps (create_load slot)
      unfolding create_load ends_block
      create_load-Keeps slot =
          Keeps-bind keeps_new_number
            (λ r. Keeps-then (keeps_emit (load r slot) refl) (Keeps-pure (Operand.register r)))

      pub create_call-Keeps : (name : Bytes) (vs : List (Operand D)) → Keeps (create_call name vs)
      unfolding create_call ends_block
      create_call-Keeps name vs = Keeps-bind keeps_new_number (λ r.
          Keeps-then (keeps_emit (call_function r name vs) refl) (Keeps-pure (Operand.register r)))

      from_option-Keeps :
          {A : Type 0} (o : Option A) {p : Make D A} → Keeps p → Keeps (from_option o p)
      unfolding from_option
      from_option-Keeps (some a) h = Keeps-pure a
      from_option-Keeps none h = h

      pub create-Keeps :
          (fold : Operation → List (Operand D) → Option (Operand D)) (op : Operation)
          (vs : List (Operand D))
          → Keeps (create fold op vs)
      unfolding create ends_block
      create-Keeps fold op vs = from_option-Keeps (fold op vs) (
          Keeps-bind keeps_new_number
            (λ r. Keeps-then (keeps_emit (compute r op vs) refl) (Keeps-pure (Operand.register r))))

-- A step from an index of an invariant to another.
pub record Turns {D : Type 0} {X : Type 0} (I : X → Gen D → Type 0) {A : Type 0} (x y : X)
    (p : Make D A) : Type 0 where
  pub run : (s : Gen D) → I x s → Post (λ a t. I y t) (p s)

module _ {D : Type 0} {X : Type 0} {I : X → Gen D → Type 0} where
  pub Keeps-Turns : {A : Type 0} {x : X} {p : Make D A} → Keeps I p → Turns I x x p
  Keeps-Turns {x = x} h = record { run = h.at x }

  pub Turns-Keeps : {A : Type 0} {p : Make D A} → ((x : X) → Turns I x x p) → Keeps I p
  Turns-Keeps h = record { at = λ x. (h x).run }

  pub Turns-bind :
      {A B : Type 0} {x y z : X} {p : Make D A} {f : A → Make D B}
      → Turns I x z p
      → ((a : A) → Turns I z y (f a))
      → Turns I x y (p >>= f)
  Turns-bind {p = p} hp hf = record {
    run = λ s e. Post-bind p (hp.run s e) (λ a t j. (hf a).run t j);
  }

  pub Turns-then :
      {A B : Type 0} {x y z : X} {p : Make D A} {q : Make D B}
      → Turns I x z p
      → Turns I z y q
      → Turns I x y (p >> q)
  unfolding ◌>>◌
  Turns-then hp hq = Turns-bind hp (λ a. hq)

  pub kept_bind :
      {A B : Type 0} {x y : X} {p : Make D A} {f : A → Make D B}
      → Keeps I p
      → ((a : A) → Turns I x y (f a))
      → Turns I x y (p >>= f)
  kept_bind h hf = Turns-bind (Keeps-Turns h) hf

  pub kept_then :
      {A B : Type 0} {x y : X} {p : Make D A} {q : Make D B}
      → Keeps I p
      → Turns I x y q
      → Turns I x y (p >> q)
  kept_then h hq = Turns-then (Keeps-Turns h) hq

  pub pure-Turns : {A : Type 0} {x : X} (a : A) → Turns I x x (pure a)
  pure-Turns a = record { run = λ s e. value e }
