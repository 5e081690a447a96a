-- ===== src/Kaleidoscope/Codegen/Builder.antt =====
-- The globals that the methods codegen of kaleidoscope/src/ast.cpp work on, and what the calls of
-- LLVM's IRBuilder add to the function that is built.
use Prim.Native.String.{String}
use llvm17_learning_repo.Common.{
  ℕ, suc, ◌==◌, Option, none, some, List, [], ◌∷◌, ◌++◌, if◌then◌else◌,
}
use llvm17_learning_repo.Kaleidoscope.Chars.{Bytes, bytes_eq}
use llvm17_learning_repo.Kaleidoscope.Syntax.{Prototype}

-- A Value: a constant, an instruction by its register, an argument of the function by its position.
pub data Operand (D : Type 0) : Type 0 where
  literal : D → Operand D
  register : ℕ → Operand D
  parameter : ℕ → Operand D

-- CreateFAdd, CreateFSub, CreateFMul, CreateFCmpULT, CreateFCmpONE and CreateUIToFP.
pub data Operation : Type 0 where
  fadd : Operation
  fsub : Operation
  fmul : Operation
  fcmp_ult : Operation
  fcmp_one : Operation
  ui_to_fp : Operation

-- Registers, slots of the stack (AllocaInst*) and blocks are numbers.
pub data Instruction (D : Type 0) : Type 0 where
  compute : ℕ → Operation → List (Operand D) → Instruction D
  load : ℕ → ℕ → Instruction D
  store : Operand D → ℕ → Instruction D
  call_function : ℕ → Bytes → List (Operand D) → Instruction D
  phi : ℕ → Operand D → ℕ → Operand D → ℕ → Instruction D
  branch : ℕ → Instruction D
  branch_if : Operand D → ℕ → ℕ → Instruction D
  give_back : Operand D → Instruction D

-- NamedValues, FunctionProtos, the functions of TheModule by the names of their arguments, and the
-- function that is built: `fresh` is above every number that was given, `slots` are the allocas at the
-- front of the entry block, the latest first, `order` is the function's list of blocks, `code` what
-- stands in a block behind the allocas, and `insert_block` the Builder's insertion point.
pub record Gen (D : Type 0) : Type 0 where
  pub named_values : Bytes → Option ℕ
  pub function_protos : Bytes → Option Prototype
  pub functions : Bytes → Option (List Bytes)
  pub fresh : ℕ
  pub slots : List ℕ
  pub order : List ℕ
  pub code : ℕ → List (Instruction D)
  pub insert_block : ℕ
  pub errors : List String

-- A return, `none` for nullptr. `aborted` is a failed assertion or undefined behaviour.
pub data Result (D : Type 0) (A : Type 0) : Type 0 where
  returned : Option A → Gen D → Result D A
  aborted : Result D A

abbrev pub set_name {ℓ} : {A : Type ℓ} → Bytes → A → (Bytes → A) → Bytes → A
set_name x a m y = if bytes_eq y x then a else m y

abbrev pub set_code {ℓ} : {A : Type ℓ} → ℕ → A → (ℕ → A) → ℕ → A
set_code l a m k = if k == l then a else m k

abbrev pub Make : Type 0 → Type 0 → Type 0
Make D A = Gen D → Result D A

module _ {D A : Type 0} where
  abbrev pub pure : A → Make D A
  pure a s = returned (some a) s

  -- `return LogErrorV(msg)`
  unfoldable pub fail : String → Make D A
  fail msg s = returned none (record s { errors = msg ∷ s.errors })

  unfoldable pub abort : Make D A
  abort s = aborted

  unfoldable pub report : String → Result D A → Result D A
  report msg (returned none t) = returned none (record t { errors = msg ∷ t.errors })
  report msg (returned (some a) t) = returned (some a) t
  report msg aborted = aborted

  -- `V = ...; if (!V) return LogErrorV(msg);`
  unfoldable pub or_fail : String → Make D A → Make D A
  unfolding report
  or_fail msg p s = report msg (p s)

  unfoldable pub attempted : Result D A → Result D (Option A)
  attempted (returned o t) = returned (some o) t
  attempted aborted = aborted

  -- A call whose nullptr is not looked at yet.
  unfoldable pub attempt : Make D A → Make D (Option A)
  unfolding attempted
  attempt p s = attempted (p s)

  unfoldable pub from_option : Option A → Make D A → Make D A
  from_option (some a) p = pure a
  from_option none p = p

module _ {D A B : Type 0} where
  unfoldable pub resume : Result D A → (A → Make D B) → Result D B
  resume (returned none t) f = returned none t
  resume (returned (some a) t) f = f a t
  resume aborted f = aborted

  infixl 5 ◌>>=◌ ◌>>◌
  unfoldable pub ◌>>=◌ : Make D A → (A → Make D B) → Make D B
  unfolding resume
  ◌>>=◌ p f s = resume (p s) f

  unfoldable pub ◌>>◌ : Make D A → Make D B → Make D B
  unfolding ◌>>=◌
  p >> q = p >>= λ _. q

module _ {D : Type 0} where
  -- `NamedValues[x]`, and `NamedValues[x] = slot`; an entry that is nullptr is none, like one erased.
  unfoldable pub named_value : Bytes → Make D (Option ℕ)
  named_value x s = returned (some (s.named_values x)) s

  unfoldable pub bind_name : Bytes → Option ℕ → Make D (Unit {0})
  bind_name x slot s =
      returned (some tt) (record s { named_values = set_name x slot s.named_values })

  -- A number for a register, a slot or a block.
  unfoldable pub new_number : Make D ℕ
  new_number s = returned (some s.fresh) (record s { fresh = suc s.fresh })

  -- At the end of the insertion block.
  unfoldable pub emit : Instruction D → Make D (Unit {0})
  emit i s =
      returned (some tt)
        (record s { code = set_code s.insert_block (s.code s.insert_block ++ i ∷ []) s.code })

  -- `CreateEntryBlockAlloca(TheFunction, x)`
  unfoldable pub create_entry_block_alloca : Make D ℕ
  create_entry_block_alloca s =
      returned (some s.fresh) (record s { fresh = suc s.fresh; slots = s.fresh ∷ s.slots })

  -- `BasicBlock::Create(*TheContext, name, TheFunction)`; without the function it is `new_number`.
  unfoldable pub create_block_in_function : Make D ℕ
  create_block_in_function s =
      returned (some s.fresh) (record s { fresh = suc s.fresh; order = s.order ++ s.fresh ∷ [] })

  -- `TheFunction->insert(TheFunction->end(), block)`
  unfoldable pub insert_at_end : ℕ → Make D (Unit {0})
  insert_at_end l s = returned (some tt) (record s { order = s.order ++ l ∷ [] })

  unfoldable pub set_insert_point : ℕ → Make D (Unit {0})
  set_insert_point l s = returned (some tt) (record s { insert_block = l })

  unfoldable pub get_insert_block : Make D ℕ
  get_insert_block s = returned (some s.insert_block) s

  unfoldable pub create_load : ℕ → Make D (Operand D)
  unfolding ◌>>=◌ ◌>>◌ new_number emit
  create_load slot = do r ← new_number; emit (load r slot); pure (register r)

  unfoldable pub create_call : Bytes → List (Operand D) → Make D (Operand D)
  unfolding ◌>>=◌ ◌>>◌ new_number emit
  create_call name vs = do r ← new_number; emit (call_function r name vs); pure (register r)

  unfoldable pub create_phi : Operand D → ℕ → Operand D → ℕ → Make D (Operand D)
  unfolding ◌>>=◌ ◌>>◌ new_number emit
  create_phi v from w other = do r ← new_number; emit (phi r v from w other); pure (register r)

  -- The IRBuilder folds operations on constants; what it folds to is LLVM's.
  unfoldable pub create :
      (Operation → List (Operand D) → Option (Operand D))
      → Operation
      → List (Operand D)
      → Make D (Operand D)
  unfolding ◌>>=◌ ◌>>◌ new_number emit from_option
  create fold op vs =
      from_option (fold op vs) (do r ← new_number; emit (compute r op vs); pure (register r))
