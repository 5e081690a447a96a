-- ===== src/Labs/LocalOpts/Powers.antt =====
-- isPowerOfTwo of labs/lab2/src/LocalOpts.cpp.
use native.Mathlib.Nat.{pow-le-pow_right}
use llvm17_learning_repo.Common.{
  ℕ, zero, suc, ◌+◌, ◌-◌, ◌*◌, ◌/◌, ◌%◌, ◌^◌, ◌≤◌, ◌<◌, ◌≡◌, inl, inr, refl, ap, ◌∙◌, subst, Bool,
  true, false, not, ◌||◌, ◌&&◌, leb, ◌==◌, leb→gt, leb→le, ==_iff, ==-false, ltb, ltb→lt, ltb→ge,
  Bool-cases, the, ◌↔◌, ℕ-cases, arith,
}
use llvm17_learning_repo.Labs.StrengthReduction.{int_log2, is_negative}
use llvm17_learning_repo.Labs.StrengthReduction.Shifts.{IsLog2, log2_fuel-IsLog2}
use llvm17_learning_repo.Labs.LocalOpts.{bit_and, is_power_of_two}

-- A sum of numbers is 0 with its parts.
no_sum : (a b : ℕ) → a + 2 * b ≡ 0 → (a ≡ 0) × (b ≡ 0)
no_sum a b e = (omega arith, omega arith)

odd_square : (n : ℕ) → (n % 2) * (n % 2) ≡ 0 → n % 2 ≡ 0
odd_square n e = elim (ℕ-cases (n % 2) 0) [
  | inl q ↦ q
  | inr q ↦
      let o : n % 2 ≡ 1 = omega (arith, q) in
      let one : 1 * 1 ≡ 0 = subst (λ a. a * a ≡ 0) o e in absurd (omega (arith, one))
]

pow-pos : (k : ℕ) → 1 ≤ 2 ^ k
pow-pos zero = omega arith
pow-pos (suc k) = omega (arith, pow-pos k)

bit_and-same : (w n : ℕ) → n < 2 ^ w → bit_and w n n ≡ 0 → n ≡ 0
unfolding bit_and
bit_and-same zero n h e = omega (arith, h)
bit_and-same (suc w) n h e =
    let (square, rest) = no_sum ((n % 2) * (n % 2)) (bit_and w (n / 2) (n / 2)) e in
    omega (arith, odd_square n square, bit_and-same w (n / 2) (omega (arith, h)) rest)

-- A number that has no bit in common with the one before is a power of two.
bit_and-power : (w n k : ℕ) → n < 2 ^ w → IsLog2 n k → bit_and w n (n - 1) ≡ 0 → n ≡ 2 ^ k
unfolding bit_and
bit_and-power w n zero h log e = omega (arith, log.0, log.1)
bit_and-power zero n (suc k) h log e = absurd (omega (arith, h, log.0, pow-pos k))
bit_and-power (suc w) n (suc k) h log e =
    let rest : bit_and w (n / 2) ((n - 1) / 2) ≡ 0 = (no_sum ((n % 2) * ((n - 1) % 2)) _ e).1 in
    elim (ℕ-cases (n % 2) 0) [
      | inl even ↦
          let before : (n - 1) / 2 ≡ n / 2 - 1 = omega (arith, even) in
          let half : n / 2 ≡ 2 ^ k =
            bit_and-power w (n / 2) k (omega (arith, h))
              (omega (arith, log.0), omega (arith, log.1))
              (subst (λ a. bit_and w (n / 2) a ≡ 0) before rest) in
          omega (arith, half, even)
      | inr odd ↦
          let before : (n - 1) / 2 ≡ n / 2 = omega (arith, odd) in
          let none : n / 2 ≡ 0 =
            bit_and-same w (n / 2) (omega (arith, h))
              (subst (λ a. bit_and w (n / 2) a ≡ 0) before rest) in
          absurd (omega (arith, none, log.0, pow-pos k))
    ]

bit_and-none : (w a : ℕ) → bit_and w a 0 ≡ 0
unfolding bit_and
bit_and-none zero a = refl
bit_and-none (suc w) a = omega (arith, bit_and-none w (a / 2))

power-bit_and : (w k : ℕ) → bit_and w (2 ^ k) (2 ^ k - 1) ≡ 0
unfolding bit_and
power-bit_and zero k = refl
power-bit_and (suc w) zero = bit_and-none (suc w) 1
power-bit_and (suc w) (suc k) =
    let even : 2 ^ suc k % 2 ≡ 0 = omega arith in
    let half : 2 ^ suc k / 2 ≡ 2 ^ k = omega arith in
    let before : (2 ^ suc k - 1) / 2 ≡ 2 ^ k - 1 = omega (arith, pow-pos k) in
    ap (λ a. a * ((2 ^ suc k - 1) % 2) + 2 * bit_and w (2 ^ suc k / 2) ((2 ^ suc k - 1) / 2)) even
    ∙ the
        (0 * ((2 ^ suc k - 1) % 2) + 2 * bit_and w (2 ^ suc k / 2) ((2 ^ suc k - 1) / 2)
          ≡ 2 * bit_and w (2 ^ suc k / 2) ((2 ^ suc k - 1) / 2))
        (omega arith)
    ∙ ap (λ a. 2 * bit_and w a ((2 ^ suc k - 1) / 2)) half
    ∙ ap (λ a. 2 * bit_and w (2 ^ k) a) before
    ∙ ap (λ a. 2 * a) (power-bit_and w k)

power_smaller : (a b : ℕ) → 2 ^ a < 2 ^ b → a < b
power_smaller a b h = elim (Bool-cases (ltb a b)) [
  | inl e ↦ ltb→lt a b e
  | inr e ↦ absurd (omega (arith, h, pow-le-pow_right (the (0 < 2) (omega arith)) (ltb→ge a b e)))
]

conjunction : (a b c : Bool) → (not (a || b) && c) ≡ true → (a ≡ false) × (b ≡ false) × (c ≡ true)
conjunction true b c h = ground arith
conjunction false true c h = ground arith
conjunction false false c h = (refl, refl, h)

test_parts :
    (width n : ℕ)
    → is_power_of_two width n ≡ true
    → (0 < n) × (n < 2 ^ (width - 1)) × (bit_and 64 n (n - 1) ≡ 0)
unfolding is_power_of_two is_negative
test_parts width n h =
    let (zero_not, negative_not, bits) =
      conjunction (n == 0) (leb (2 ^ (width - 1)) n) (bit_and 64 n (n - 1) == 0) h in
    (
      omega (arith, ==-false n 0 zero_not),
      leb→gt (2 ^ (width - 1)) n negative_not,
      (==_iff (bit_and 64 n (n - 1)) 0).0 bits,
    )

tests_hold :
    (a b c : Bool) → (a ≡ true → ⊥) → (b ≡ true → ⊥) → c ≡ true → (not (a || b) && c) ≡ true
tests_hold true b c ha hb h = absurd (ha refl)
tests_hold false true c ha hb h = absurd (hb refl)
tests_hold false false c ha hb h = h

power-is_power_of_two : (width n k : ℕ) → n ≡ 2 ^ k → k < width - 1 → is_power_of_two width n ≡ true
unfolding is_power_of_two is_negative
power-is_power_of_two width n k e below =
    let larger : 2 ^ suc k ≤ 2 ^ (width - 1) =
      pow-le-pow_right (the (0 < 2) (omega arith)) (the (suc k ≤ width - 1) (omega arith)) in
    tests_hold (n == 0) (leb (2 ^ (width - 1)) n) (bit_and 64 n (n - 1) == 0)
      (λ h. omega (arith, (==_iff n 0).0 h, e, pow-pos k))
      (λ h. omega (arith, leb→le (2 ^ (width - 1)) n h, e, larger, pow-pos k))
      ((==_iff (bit_and 64 n (n - 1)) 0).1 (ap (λ a. bit_and 64 a (a - 1)) e ∙ power-bit_and 64 k))

-- Of an integer of at most 64 bits, isPowerOfTwo says whether it is a positive power of two; its
-- logarithm is then below the sign bit.
pub is_power_of_two-exact :
    (width n : ℕ)
    → width ≤ 64
    → (is_power_of_two width n ≡ true) ↔ ((n ≡ 2 ^ int_log2 n) × (int_log2 n < width - 1))
unfolding int_log2
is_power_of_two-exact width n small = (there, back)
  where
    there : is_power_of_two width n ≡ true → (n ≡ 2 ^ int_log2 n) × (int_log2 n < width - 1)
    there h =
        let (pos, below, bits) = test_parts width n h in
        let log = log2_fuel-IsLog2 n n pos (omega arith) in
        let le : 2 ^ (width - 1) ≤ 2 ^ 64 =
          pow-le-pow_right (the (0 < 2) (omega arith))
            (the (width - 1 ≤ 64) (omega (arith, small))) in
        let e : n ≡ 2 ^ int_log2 n =
          bit_and-power 64 n (int_log2 n) (omega (arith, below, le)) log bits in
        (e, power_smaller (int_log2 n) (width - 1) (subst (λ a. a < 2 ^ (width - 1)) e below))

    back : (n ≡ 2 ^ int_log2 n) × (int_log2 n < width - 1) → is_power_of_two width n ≡ true
    back h = power-is_power_of_two width n (int_log2 n) h.0 h.1
