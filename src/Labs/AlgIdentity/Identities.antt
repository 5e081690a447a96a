-- ===== src/Labs/AlgIdentity/Identities.antt =====
-- What getIdentityOperand of labs/assignment1/src/assignment1.cpp takes for an identity.
use llvm17_learning_repo.Common.{
  ◌≡◌, ◌⊎◌, inl, inr, refl, sym, ap, subst, Bool, true, false, Option, none, some, ==_iff,
  if◌then◌else◌,
}
use llvm17_learning_repo.Labs.Ir.{
  Opcode, add, sub, mul, udiv, sdiv, shl, ashr, other_opcode, Value, constant, argument, result,
}
use llvm17_learning_repo.Labs.AlgIdentity.{
  is_zero, is_one, mul_identity, add_identity, get_identity_operand,
}

-- The operators and operands that the pass takes for identities. The last two are none.
pub data IsIdentity (v : Value) : Opcode → Value → Value → Type 0 where
  zero_left : IsIdentity v add (constant 0) v
  zero_right : IsIdentity v add v (constant 0)
  one_left : IsIdentity v mul (constant 1) v
  one_right : IsIdentity v mul v (constant 1)
  add_one_left : IsIdentity v add (constant 1) v
  add_one_right : IsIdentity v add v (constant 1)

is_zero_constant : (u : Value) → is_zero u ≡ true → u ≡ constant 0
unfolding is_zero
is_zero_constant (constant n) h = ap constant ((==_iff n 0).0 h)
is_zero_constant (argument k) h = absurd cc
is_zero_constant (result j) h = absurd cc

is_one_constant : (u : Value) → is_one u ≡ true → u ≡ constant 1
unfolding is_one
is_one_constant (constant n) h = ap constant ((==_iff n 1).0 h)
is_one_constant (argument k) h = absurd cc
is_one_constant (result j) h = absurd cc

-- A test passed, or the next one is reached.
pub if-some :
    (b : Bool) (u : Value) (o : Option Value) (v : Value)
    → (if b then some u else o) ≡ some v
    → ((b ≡ true) × (u ≡ v)) ⊎ (o ≡ some v)
if-some true u o v h = inl (refl, cc)
if-some false u o v h = inr h

-- The tests that the addition falls through to, for both opcodes.
IsIdentity-mul : (l r v : Value) → mul_identity l r ≡ some v → IsIdentity v mul l r
unfolding mul_identity
IsIdentity-mul l r v h = elim (if-some (is_one l) r _ v h) [
  | inl p ↦
      subst (λ u. IsIdentity v mul u r) (sym (is_one_constant l p.0))
        (subst (IsIdentity v mul (constant 1)) (sym p.1) one_left)
  | inr q ↦ elim (if-some (is_one r) l none v q) [
    | inl p ↦
        subst (IsIdentity v mul l) (sym (is_one_constant r p.0))
          (subst (λ u. IsIdentity v mul u (constant 1)) (sym p.1) one_right)
    | inr e ↦ absurd cc
  ]
]

as_add : {v l r : Value} → IsIdentity v mul l r → IsIdentity v add l r
as_add one_left = add_one_left
as_add one_right = add_one_right

IsIdentity-add : (l r v : Value) → add_identity l r ≡ some v → IsIdentity v add l r
unfolding add_identity
IsIdentity-add l r v h = elim (if-some (is_zero l) r _ v h) [
  | inl p ↦
      subst (λ u. IsIdentity v add u r) (sym (is_zero_constant l p.0))
        (subst (IsIdentity v add (constant 0)) (sym p.1) zero_left)
  | inr q ↦ elim (if-some (is_zero r) l _ v q) [
    | inl p ↦
        subst (IsIdentity v add l) (sym (is_zero_constant r p.0))
          (subst (λ u. IsIdentity v add u (constant 0)) (sym p.1) zero_right)
    | inr e ↦ as_add (IsIdentity-mul l r v e)
  ]
]

-- What getIdentityOperand returns: the other operand of a sum with 0, of a product with 1, and of a
-- sum with 1.
pub get_identity_operand-IsIdentity :
    (op : Opcode) (l r v : Value) → get_identity_operand op l r ≡ some v → IsIdentity v op l r
unfolding get_identity_operand
get_identity_operand-IsIdentity add l r v h = IsIdentity-add l r v h
get_identity_operand-IsIdentity mul l r v h = IsIdentity-mul l r v h
get_identity_operand-IsIdentity sub l r v h = absurd cc
get_identity_operand-IsIdentity udiv l r v h = absurd cc
get_identity_operand-IsIdentity sdiv l r v h = absurd cc
get_identity_operand-IsIdentity shl l r v h = absurd cc
get_identity_operand-IsIdentity ashr l r v h = absurd cc
get_identity_operand-IsIdentity (other_opcode n) l r v h = absurd cc
