-- ===== src/Labs/StrengthReduction/Shifts.antt =====
-- The shift and the sums of labs/assignment1/src/assignment1.cpp compute the product they replace.
use native.Mathlib.Nat.{mod-add-mod, mod-eq_of_lt, mul_comm, mul-add, suc-mul, pow-le-pow_right}
use llvm17_learning_repo.Common.{
  ◌∷◌, the, ℕ, zero, suc, ◌+◌, ◌*◌, ◌/◌, ◌%◌, ◌^◌, ◌≤◌, ◌<◌, ◌≡◌, ◌≢◌, inl, inr, refl, sym, ap, ◌∙◌,
  subst, Bool, true, false, ◌||◌, none, some, ltb, leb, ◌==◌, if_intro, ltb→lt, ltb→ge, Bool-cases,
  if◌then◌else◌, arith,
}
use llvm17_learning_repo.Labs.Ir.{
  Block, Opcode, add, mul, shl, Value, constant, result, binary_operator,
}
use llvm17_learning_repo.Labs.Ir.Machine.{Machine, Laws, Run, value, run, step, observe}
use llvm17_learning_repo.Labs.Ir.Replacing.{update_same, value-update}
use llvm17_learning_repo.Labs.StrengthReduction.{
  log2_fuel, int_log2, Shift, get_best_shift_value_and_remainder, chain, shift_and_sums,
}

-- `k` is the logarithm of `n`, rounded down.
abbrev pub IsLog2 : ℕ → ℕ → Type 0
IsLog2 n k = (2 ^ k ≤ n) × (n < 2 ^ suc k)

IsLog2-step : (n k : ℕ) → IsLog2 (n / 2) k → IsLog2 n (suc k)
IsLog2-step n k h = (omega (arith, h.0, h.1), omega (arith, h.0, h.1))

pub log2_fuel-IsLog2 : (f n : ℕ) → 0 < n → n ≤ f → IsLog2 n (log2_fuel f n)
unfolding log2_fuel
log2_fuel-IsLog2 zero n pos h = absurd (omega arith)
log2_fuel-IsLog2 (suc f) n pos h =
    if_intro (IsLog2 n) (ltb n 2) (λ e. let b : n < 2 = ltb→lt n 2 e in (omega arith, omega arith))
      λ e.
        let b : 2 ≤ n = ltb→ge n 2 e in
        IsLog2-step n (log2_fuel f (n / 2)) (log2_fuel-IsLog2 f (n / 2) (omega arith) (omega arith))

if-none : (b : Bool) (q p : Shift) → (if b then none else some q) ≡ some p → (b ≡ false) × (q ≡ p)
if-none true q p h = absurd cc
if-none false q p h = (refl, cc)

positive : (c : ℕ) → (c == 0 || leb (2 ^ 31) c) ≡ false → 0 < c
positive c h = ground arith

-- A constant that is given a shift is at least 1, the shift is its logarithm rounded down, and the
-- remainder is what the power of two leaves of it.
pub get_best_shift-exact :
    (c max : ℕ) (p : Shift)
    → get_best_shift_value_and_remainder c max ≡ some p
    → IsLog2 c p.shift_value
      × (c ≡ 2 ^ p.shift_value + p.remainder)
      × (p.skip ≡ ltb max p.remainder)
unfolding get_best_shift_value_and_remainder int_log2
get_best_shift-exact c max p h =
    let (b, e) = if-none (c == 0 || leb (2 ^ 31) c) _ p h in
    subst
      (λ q.
        IsLog2 c q.shift_value
        × (c ≡ 2 ^ q.shift_value + q.remainder)
        × (q.skip ≡ ltb max q.remainder))
      e
      (let log = log2_fuel-IsLog2 c c (positive c b) (omega arith) in
        (log, omega (arith, log.0), refl))

module _ (m : Machine) (laws : Laws m) where
  -- Running the chain adds the value once for each instruction.
  chain-sum :
      (v : Value) (n r : ℕ) (s : Run) (x : ℕ)
      → ((j : ℕ) → n < j → v ≢ result j)
      → value m s.registers v ≡ x
      → s.registers n < 2 ^ m.width
      → (run m (chain add v n r) s).registers (n + r) ≡ (s.registers n + r * x) % 2 ^ m.width
  unfolding chain run step value
  chain-sum v n zero s x away e small =
      ap s.registers (the (n + 0 ≡ n) (omega arith))
      ∙ sym (mod-eq_of_lt small)
      ∙ ap (λ a. a % 2 ^ m.width) (the (s.registers n ≡ s.registers n + 0 * x) (omega arith))
  chain-sum v n (suc r) s x away e small =
      let i = binary_operator (suc n) add (result n) v in
      let now : (step m i s).registers (suc n) ≡ (s.registers n + x) % 2 ^ m.width =
        update_same s.registers (suc n) _
        ∙ laws.add_lem _ _
        ∙ ap (λ a. (s.registers n + a) % 2 ^ m.width) e in
      ap (run m (chain add v (suc n) r) (step m i s)).registers
        (the (n + suc r ≡ suc n + r) (omega arith))
      ∙ chain-sum v (suc n) r (step m i s) x (λ j h. away j (omega arith))
          (value-update m s.registers (suc n) _ v (away (suc n) (omega arith)) ∙ e)
          (subst (λ a. a < 2 ^ m.width) (sym (update_same s.registers (suc n) _))
            (laws.operation-Fits add _ _))
      ∙ ap (λ a. (a + r * x) % 2 ^ m.width) now
      ∙ mod-add-mod (s.registers n + x) (2 ^ m.width) (r * x)
      ∙ ap (λ a. a % 2 ^ m.width)
          (the (s.registers n + x + r * x ≡ s.registers n + suc r * x) (omega (arith, suc-mul r x)))

  chain-history :
      (op : Opcode) (v : Value) (n r : ℕ) (s : Run) → (run m (chain op v n r) s).history ≡ s.history
  unfolding chain run step observe
  chain-history op v n zero s = refl
  chain-history op v n (suc r) s =
      chain-history op v (suc n) r (step m (binary_operator (suc n) op (result n) v) s)

  -- The last of the shift and the sums yields the product with the power of two plus their number.
  shift_and_sums-product :
      (v : Value) (k r n : ℕ) (s : Run)
      → k < m.width
      → ((j : ℕ) → n ≤ j → v ≢ result j)
      → (run m (binary_operator n shl v (constant k) ∷ chain add v n r) s).registers (n + r)
        ≡ m.operation mul (value m s.registers v) (2 ^ k + r)
  unfolding run step value
  shift_and_sums-product v k r n s small away =
      let x = value m s.registers v in
      let t = step m (binary_operator n shl v (constant k)) s in
      let now : t.registers n ≡ x * 2 ^ k % 2 ^ m.width =
        update_same s.registers n _ ∙ laws.shl_lem x k small in
      chain-sum v n r t x (λ j h. away j (omega arith))
        (value-update m s.registers n _ v (away n (omega arith)))
        (subst (λ a. a < 2 ^ m.width) (sym (update_same s.registers n _))
          (laws.operation-Fits shl _ _))
      ∙ ap (λ a. (a + r * x) % 2 ^ m.width) now
      ∙ mod-add-mod (x * 2 ^ k) (2 ^ m.width) (r * x)
      ∙ ap (λ a. a % 2 ^ m.width)
          (ap (λ a. x * 2 ^ k + a) (mul_comm r x) ∙ sym (mul-add x (2 ^ k) r))
      ∙ sym (laws.mul_lem x (2 ^ k + r))

  log2-width : (c k : ℕ) → IsLog2 c k → c < 2 ^ m.width → k < m.width
  log2-width c k log small = elim (Bool-cases (ltb k m.width)) [
    | inl e ↦ ltb→lt k m.width e
    | inr e ↦
        absurd (omega (arith, log.0, pow-le-pow_right {n = 2} (omega arith) (ltb→ge k m.width e)))
  ]

  -- On integers of 32 bits there are instructions for a product with a constant `c` that is given a shift;
  -- they yield that product, in the integers of the machine, and nothing is observed of them. The
  -- identities from `n` on are new: the other factor is none of them.
  pub shift_and_sums-multiply :
      (c max : ℕ) (p : Shift) (v : Value) (n : ℕ) (s : Run)
      → m.width ≡ 32
      → get_best_shift_value_and_remainder c max ≡ some p
      → c < 2 ^ m.width
      → ((j : ℕ) → n ≤ j → v ≢ result j)
      → (b : Block) × (shift_and_sums m.width v p.shift_value p.remainder true n ≡ some b)
        × ((run m b s).registers (n + p.remainder) ≡ m.operation mul (value m s.registers v) c)
        × ((run m b s).history ≡ s.history)
  unfolding shift_and_sums run step observe
  shift_and_sums-multiply c max p v n s wide h small away =
      let (log, exact, skip) = get_best_shift-exact c max p h in
      (
        binary_operator n shl v (constant p.shift_value) ∷ chain add v n p.remainder,
        rw wide refl,
        shift_and_sums-product v p.shift_value p.remainder n s
              (log2-width c p.shift_value log small) away
            ∙ ap (m.operation mul (value m s.registers v)) (sym exact),
        chain-history add v n p.remainder
            (step m (binary_operator n shl v (constant p.shift_value)) s),
      )
