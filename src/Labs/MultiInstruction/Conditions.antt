-- ===== src/Labs/MultiInstruction/Conditions.antt =====
-- The condition of MultiInstructionPass, labs/assignment1/src/assignment1.cpp: the two operators cancel.
use native.Mathlib.Nat.{mod-add-mod, mod-eq_of_lt, add-mod_right}
use llvm17_learning_repo.Common.{
  the, ℕ, ◌+◌, ◌-◌, ◌%◌, ◌^◌, ◌<◌, ◌≡◌, ◌⊎◌, inl, inr, ap, ◌∙◌, true, some, arith,
}
use llvm17_learning_repo.Labs.Ir.{Opcode, add, sub}
use llvm17_learning_repo.Labs.Ir.Machine.{Machine, Laws}
use llvm17_learning_repo.Labs.MultiInstruction.{
  Int64, signed, equals_negated, negated, ◌equals◌, get_s_ext_value,
  compute_simplification_condition,
}

-- Bits below 2 ^ w whose integers are opposite add up to 0 or to 2 ^ w; those of one integer are the same.
opposite :
    (w a b : ℕ)
    → a < 2 ^ w
    → b < 2 ^ w
    → equals_negated (signed w a) (negated (signed w b)) ≡ some true
    → (a + b ≡ 0) ⊎ (a + b ≡ 2 ^ w)
unfolding signed negated ◌equals◌ equals_negated
opposite w a b ha hb h = ground arith

equal :
    (w a b : ℕ) → a < 2 ^ w → b < 2 ^ w → some (signed w a equals signed w b) ≡ some true → a ≡ b
unfolding signed ◌equals◌
equal w a b ha hb h = ground arith

read_bits : (w n : ℕ) (a : Int64) → get_s_ext_value w n ≡ some a → signed w n ≡ a
unfolding get_s_ext_value
read_bits w n a h = ground arith

module _ (m : Machine) (laws : Laws m) where
  -- A sum modulo 2 ^ width that comes back to its first term.
  returns :
      (x y z : ℕ)
      → x < 2 ^ m.width
      → ((y + z ≡ 0) ⊎ (y + z ≡ 2 ^ m.width))
      → ((x + y) % 2 ^ m.width + z) % 2 ^ m.width ≡ x
  returns x y z small sum = mod-add-mod (x + y) (2 ^ m.width) z ∙ elim sum [
    | inl e ↦ ap (λ a. a % 2 ^ m.width) (the (x + y + z ≡ x) (omega arith)) ∙ mod-eq_of_lt small
    | inr e ↦
        ap (λ a. a % 2 ^ m.width) (the (x + y + z ≡ x + 2 ^ m.width) (omega arith))
        ∙ add-mod_right x (2 ^ m.width)
        ∙ mod-eq_of_lt small
  ]

  signed-cancels :
      (usee user : Opcode) (c k x : ℕ)
      → c < 2 ^ m.width
      → k < 2 ^ m.width
      → x < 2 ^ m.width
      → compute_simplification_condition usee user (signed m.width c) (signed m.width k) ≡ some true
      → m.operation user (m.operation usee x c) k ≡ x
  unfolding compute_simplification_condition
  signed-cancels add add c k x hc hk hx h =
      laws.add_lem _ _
      ∙ ap (λ a. (a + k) % 2 ^ m.width) (laws.add_lem x c)
      ∙ returns x c k hx (opposite m.width c k hc hk h)
  signed-cancels sub add c k x hc hk hx h =
      laws.add_lem _ _
      ∙ ap (λ a. (a + k) % 2 ^ m.width) (laws.sub_lem x c hc)
      ∙ returns x (2 ^ m.width - c) k hx (let e = equal m.width c k hc hk h in inr (omega arith))
  signed-cancels add sub c k x hc hk hx h =
      laws.sub_lem _ _ hk
      ∙ ap (λ a. (a + (2 ^ m.width - k)) % 2 ^ m.width) (laws.add_lem x c)
      ∙ returns x c (2 ^ m.width - k) hx (let e = equal m.width c k hc hk h in inr (omega arith))
  signed-cancels sub sub c k x hc hk hx h =
      laws.sub_lem _ _ hk
      ∙ ap (λ a. (a + (2 ^ m.width - k)) % 2 ^ m.width) (laws.sub_lem x c hc)
      ∙ elim (opposite m.width c k hc hk h) [
        | inl e ↦
            mod-add-mod (x + (2 ^ m.width - c)) (2 ^ m.width) (2 ^ m.width - k)
            ∙ ap (λ a. a % 2 ^ m.width)
                (the (x + (2 ^ m.width - c) + (2 ^ m.width - k) ≡ x + 2 ^ m.width + 2 ^ m.width)
                  (omega arith))
            ∙ add-mod_right (x + 2 ^ m.width) (2 ^ m.width)
            ∙ add-mod_right x (2 ^ m.width)
            ∙ mod-eq_of_lt hx
        | inr e ↦ returns x (2 ^ m.width - c) (2 ^ m.width - k) hx (inr (omega arith))
      ]
  signed-cancels _ _ c k x hc hk hx h = absurd cc

  -- Where the constants of two operators, on the right, are read and the condition holds of them, the
  -- second operator yields the variable operand of the first.
  pub compute_simplification_condition-cancels :
      (usee user : Opcode) (c k x : ℕ) (a b : Int64)
      → c < 2 ^ m.width
      → k < 2 ^ m.width
      → x < 2 ^ m.width
      → get_s_ext_value m.width c ≡ some a
      → get_s_ext_value m.width k ≡ some b
      → compute_simplification_condition usee user a b ≡ some true
      → m.operation user (m.operation usee x c) k ≡ x
  compute_simplification_condition-cancels usee user c k x a b hc hk hx ec ek h =
      signed-cancels usee user c k x hc hk hx
        (rw (read_bits m.width c a ec, read_bits m.width k b ek) h)
