-- ===== src/Labs/AlgIdentity/Soundness.antt =====
-- What AlgIdentityPass of labs/assignment1/src/assignment1.cpp preserves, and what it does not.
use native.Mathlib.Nat.{mod-eq_of_lt, mod_self}
use llvm17_learning_repo.Common.{
  ℕ, ◌+◌, ◌%◌, ◌^◌, ◌<◌, ◌≡◌, ◌≢◌, inl, inr, refl, sym, ap, ◌∙◌, Bool, true, false, ◌&&◌, some, [],
  ◌∷◌, ◌==◌, ℕ-cases, if_intro, arith,
}
use llvm17_learning_repo.Labs.Ir.{
  Opcode, add, sub, mul, udiv, sdiv, shl, ashr, other_opcode, Value, constant, argument, result,
  Instruction, binary_operator, instruction, Block, replace_in, replace_operand, identities_in,
}
use llvm17_learning_repo.Labs.Ir.Machine.{
  Machine, Laws, Run, event, value, observe, yield_of, run, start,
}
use llvm17_learning_repo.Labs.Ir.Ssa.{IsBound, HasBound, IsSsa}
use llvm17_learning_repo.Labs.Ir.Rewriting.{
  Fits, Rule, AllIn, DoesSame, value-Fits, visit_all-DoesSame,
}
use llvm17_learning_repo.Labs.AlgIdentity.{is_one, identity_operand, alg_identity_pass}
use llvm17_learning_repo.Labs.AlgIdentity.Identities.{
  IsIdentity, zero_left, zero_right, one_left, one_right, add_one_left, add_one_right,
  get_identity_operand-IsIdentity,
}

unfoldable pub is_constant : Value → Bool
is_constant (constant n) = true
is_constant v = false

-- An operator that does not compute with two constants and, if it adds, does not add the constant 1.
abbrev pub IsPlain : Instruction → Type 0
IsPlain (binary_operator x add l r) =
    ((is_constant l && is_constant r) ≡ false) × (is_one l ≡ false) × (is_one r ≡ false)
IsPlain (binary_operator x op l r) = (is_constant l && is_constant r) ≡ false
IsPlain (instruction x tag us) = Unit

and_true : (b : Bool) → (b && true) ≡ false → b ≡ false
and_true true h = h
and_true false h = refl

IsPlain-folded :
    (x : ℕ) (op : Opcode) (l r : Value)
    → IsPlain (binary_operator x op l r)
    → (is_constant l && is_constant r) ≡ false
IsPlain-folded x add l r h = h.0
IsPlain-folded x _ l r h = h

IsIdentity-variable :
    (v : Value) (op : Opcode) (l r : Value)
    → IsIdentity v op l r
    → (is_constant l && is_constant r) ≡ false
    → is_constant v ≡ false
unfolding is_constant
IsIdentity-variable v _ _ _ zero_left h = h
IsIdentity-variable v _ _ _ zero_right h = and_true _ h
IsIdentity-variable v _ _ _ one_left h = h
IsIdentity-variable v _ _ _ one_right h = and_true _ h
IsIdentity-variable v _ _ _ add_one_left h = h
IsIdentity-variable v _ _ _ add_one_right h = and_true _ h

variable-is_one : (v : Value) → is_constant v ≡ false → is_one v ≡ false
unfolding is_constant is_one
variable-is_one (constant n) h = absurd cc
variable-is_one (argument k) h = refl
variable-is_one (result j) h = refl

module _ (x : ℕ) (v : Value) (free : is_constant v ≡ false) where
  is_constant-replace : (u : Value) → is_constant (replace_operand x v u) ≡ is_constant u
  unfolding is_constant replace_operand
  is_constant-replace (constant n) = refl
  is_constant-replace (argument k) = refl
  is_constant-replace (result j) =
      if_intro (λ u. is_constant u ≡ false) (j == x) (λ e. free) λ e. refl

  is_one-replace : (u : Value) → is_one (replace_operand x v u) ≡ is_one u
  unfolding is_one replace_operand
  is_one-replace (constant n) = refl
  is_one-replace (argument k) = refl
  is_one-replace (result j) =
      if_intro (λ u. is_one u ≡ false) (j == x) (λ e. variable-is_one v free) λ e. refl

  folded-replace :
      (l r : Value)
      → (is_constant l && is_constant r) ≡ false
      → (is_constant (replace_operand x v l) && is_constant (replace_operand x v r)) ≡ false
  folded-replace l r h = rw (is_constant-replace l, is_constant-replace r) h

  IsPlain-replace : (k : Instruction) → IsPlain k → IsPlain (replace_in x v k)
  unfolding replace_in
  IsPlain-replace (binary_operator y add l r) h =
      (folded-replace l r h.0, is_one-replace l ∙ h.1, is_one-replace r ∙ h.2)
  IsPlain-replace (binary_operator y sub l r) h = folded-replace l r h
  IsPlain-replace (binary_operator y mul l r) h = folded-replace l r h
  IsPlain-replace (binary_operator y udiv l r) h = folded-replace l r h
  IsPlain-replace (binary_operator y sdiv l r) h = folded-replace l r h
  IsPlain-replace (binary_operator y shl l r) h = folded-replace l r h
  IsPlain-replace (binary_operator y ashr l r) h = folded-replace l r h
  IsPlain-replace (binary_operator y (other_opcode n) l r) h = folded-replace l r h
  IsPlain-replace (instruction y tag us) h = tt

one_refuted : is_one (constant 1) ≡ false → ⊥
unfolding is_one
one_refuted h = cc

module _ (m : Machine) (laws : Laws m) where
  module _ (y : ℕ) (v : Value) (d : ℕ → Bool) (s : Run) (fits : Fits m s) where
    small :
        IsBound m.width d v
        → (n : ℕ) → n ≡ value m s.registers v
        → n % 2 ^ m.width ≡ value m s.registers v
    small h n e = ap (λ a. a % 2 ^ m.width) e ∙ mod-eq_of_lt (value-Fits m laws d s fits v h)

    IsIdentity-yields :
        (op : Opcode) (l r : Value)
        → IsIdentity v op l r
        → IsPlain (binary_operator y op l r)
        → HasBound m.width d (binary_operator y op l r)
        → m.operation op (value m s.registers l) (value m s.registers r) ≡ value m s.registers v
    unfolding value is_one
    IsIdentity-yields _ _ _ zero_left p h = laws.add_lem _ _ ∙ small h.1 _ (omega arith)
    IsIdentity-yields _ _ _ zero_right p h = laws.add_lem _ _ ∙ small h.0 _ (omega arith)
    IsIdentity-yields _ _ _ one_left p h = laws.mul_lem _ _ ∙ small h.1 _ (omega arith)
    IsIdentity-yields _ _ _ one_right p h = laws.mul_lem _ _ ∙ small h.0 _ (omega arith)
    IsIdentity-yields _ _ _ add_one_left p h = absurd (one_refuted p.1)
    IsIdentity-yields _ _ _ add_one_right p h = absurd (one_refuted p.2)

  IsIdentity-IsBound :
      (d : ℕ → Bool) (v : Value) (op : Opcode) (l r : Value)
      → IsIdentity v op l r
      → IsBound m.width d l × IsBound m.width d r
      → IsBound m.width d v
  IsIdentity-IsBound d v _ _ _ zero_left h = h.1
  IsIdentity-IsBound d v _ _ _ zero_right h = h.0
  IsIdentity-IsBound d v _ _ _ one_left h = h.1
  IsIdentity-IsBound d v _ _ _ one_right h = h.0
  IsIdentity-IsBound d v _ _ _ add_one_left h = h.1
  IsIdentity-IsBound d v _ _ _ add_one_right h = h.0

  identity_operand-Rule : Rule m IsPlain identity_operand
  unfolding identity_operand observe yield_of
  identity_operand-Rule = record { quiet = quiet; bound = bound; yields = yields; keeps = keeps }
    where
      quiet :
          (i : Instruction) (v : Value)
          → identity_operand i ≡ some v
          → (s : Run) → observe m i s ≡ s.history
      quiet (binary_operator x op l r) v h s = refl
      quiet (instruction x tag us) v h s = absurd cc

      bound :
          (i : Instruction) (v : Value)
          → identity_operand i ≡ some v
          → (d : ℕ → Bool) → HasBound m.width d i
          → IsBound m.width d v
      bound (binary_operator x op l r) v h d hb =
          IsIdentity-IsBound d v op l r (get_identity_operand-IsIdentity op l r v h) hb
      bound (instruction x tag us) v h d hb = absurd cc

      yields :
          (i : Instruction) (v : Value)
          → identity_operand i ≡ some v
          → IsPlain i
          → (d : ℕ → Bool) → HasBound m.width d i
          → (s : Run) → Fits m s
          → yield_of m i s ≡ value m s.registers v
      yields (binary_operator x op l r) v h p d hb s fits =
          IsIdentity-yields x v d s fits op l r (get_identity_operand-IsIdentity op l r v h) p hb
      yields (instruction x tag us) v h p d hb s fits = absurd cc

      keeps :
          (i : Instruction) (v : Value)
          → identity_operand i ≡ some v
          → IsPlain i
          → (x : ℕ) (k : Instruction) → IsPlain k
          → IsPlain (replace_in x v k)
      keeps (binary_operator y op l r) v h p x k q =
          IsPlain-replace x v
            (IsIdentity-variable v op l r (get_identity_operand-IsIdentity op l r v h)
              (IsPlain-folded y op l r p))
            k q
      keeps (instruction y tag us) v h p x k q = absurd cc

  -- On a function of one block in SSA form, whose operators do not compute with two constants and do
  -- not add the constant 1, AlgIdentityPass leaves one block in SSA form that does exactly what the
  -- first one did.
  pub alg_identity_pass_sound :
      (b : Block)
      → IsSsa m.width (λ j. false) b
      → AllIn IsPlain b
      → DoesSame m IsPlain b (alg_identity_pass (b ∷ []))
  unfolding alg_identity_pass
  alg_identity_pass_sound b ssa plain =
      visit_all-DoesSame m laws IsPlain identity_operand identity_operand-Rule
        (identities_in (b ∷ [])) b (b ∷ [])
        (record { block = b; whole = refl; ssa = ssa; kept = plain; same = refl })

-- `%0 = add %a, 1` and an instruction that uses %0.
abbrev pub increment : Block
increment = binary_operator 0 add (argument 0) (constant 1) ∷ instruction 1 0 (result 0 ∷ []) ∷ []

abbrev pub dropped : Block
dropped = instruction 1 0 (argument 0 ∷ []) ∷ []

suc_mod : (n a : ℕ) → 1 < n → a < n → (a + 1) % n ≢ a
suc_mod n a two lt e = elim (ℕ-cases (a + 1) n) [
  | inl q ↦ absurd (omega (arith, sym e ∙ ap (λ k. k % n) q ∙ mod_self n))
  | inr q ↦ absurd (omega (arith, sym e ∙ mod-eq_of_lt {n = a + 1} {m = n} (omega arith)))
]

event_injective : (a b : ℕ) → (event 0 (a ∷ []) ∷ []) ≡ event 0 (b ∷ []) ∷ [] → a ≡ b
event_injective a b h = cc

-- AlgIdentityPass turns `%0 = add %a, 1; use %0` into `use %a`. On every machine with more than one
-- value that is not what the block did.
pub alg_identity_pass-increment :
    (m : Machine)
    → Laws m
    → 1 < 2 ^ m.width
    → (alg_identity_pass (increment ∷ []) ≡ dropped ∷ [])
      × ((run m increment start).history ≢ (run m dropped start).history)
unfolding alg_identity_pass llvm17_learning_repo.Labs.Ir.retire run
alg_identity_pass-increment m laws two = (
  refl,
  λ h.
      suc_mod (2 ^ m.width) (m.arguments 0) two (laws.arguments-Fits 0)
        (sym (laws.add_lem (m.arguments 0) 1) ∙ event_injective _ _ h),
)
