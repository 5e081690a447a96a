-- ===== src/Kaleidoscope/Codegen/Names.antt =====
-- The map NamedValues of kaleidoscope/src/ast.cpp: what entries that were set and set back leave.
use mathlib.Core.Path.{fun_ext}
use llvm17_learning_repo.Common.{
  ℕ, ◌≡◌, refl, sym, ap, subst, ◌∙◌, Bool, true, false, ◌||◌, List, [], ◌∷◌, Option, if◌then◌else◌,
  arith,
}
use llvm17_learning_repo.Kaleidoscope.Chars.{Bytes, bytes_eq}
use llvm17_learning_repo.Kaleidoscope.Codegen.Builder.{set_name}

pub bytes_eq_sound : (xs ys : Bytes) → bytes_eq xs ys ≡ true → xs ≡ ys
bytes_eq_sound [] [] h = refl
bytes_eq_sound [] (y ∷ ys) h = ground arith
bytes_eq_sound (x ∷ xs) [] h = ground arith
bytes_eq_sound (x ∷ xs) (y ∷ ys) h = ground (arith, bytes_eq_sound xs ys)

pub bytes_eq_refl : (xs : Bytes) → bytes_eq xs xs ≡ true
bytes_eq_refl [] = refl
bytes_eq_refl (x ∷ xs) = ground (arith, bytes_eq_refl xs)

bytes_eq-apart :
    (x y z : Bytes) → bytes_eq x y ≡ false → bytes_eq z x ≡ true → bytes_eq z y ≡ true → ⊥
bytes_eq-apart x y z h p q =
    let e : (x ≡ y) = sym (bytes_eq_sound z x p) ∙ bytes_eq_sound z y q in
    let t : (bytes_eq x y ≡ true) = subst (λ w. bytes_eq x w ≡ true) e (bytes_eq_refl x) in
    ground (arith, h, t)

module _ {A : Type 0} where
  back_at :
      (c : Bool) (old a now : A)
      → (c ≡ true → old ≡ now)
      → (if c then old else if c then a else now) ≡ now
  back_at true old a now h = h refl
  back_at false old a now h = refl

  -- An entry that is set, and set back to what it was.
  pub set_name-back : (x : Bytes) (a : A) (m : Bytes → A) → set_name x (m x) (set_name x a m) ≡ m
  set_name-back x a m =
      fun_ext (λ y. back_at (bytes_eq y x) (m x) a (m y) (λ h. ap m (sym (bytes_eq_sound y x h))))

  swap_at :
      (c d : Bool) (a b old : A)
      → (c ≡ true → d ≡ true → ⊥)
      → (if c then a else if d then b else old) ≡ (if d then b else if c then a else old)
  swap_at true true a b old h = absurd (h refl refl)
  swap_at true false a b old h = refl
  swap_at false d a b old h = refl

  -- Entries of two names are set in any order.
  pub set_name-swap :
      (x y : Bytes) (a b : A) (m : Bytes → A)
      → bytes_eq x y ≡ false
      → set_name x a (set_name y b m) ≡ set_name y b (set_name x a m)
  set_name-swap x y a b m h =
      fun_ext (λ z. swap_at (bytes_eq z x) (bytes_eq z y) a b (m z) (bytes_eq-apart x y z h))

-- The values that a var/in sets back, one behind the other.
unfoldable pub set_back : List (Bytes × Option ℕ) → (Bytes → Option ℕ) → Bytes → Option ℕ
set_back [] m = m
set_back ((x, old) ∷ olds) m = set_back olds (set_name x old m)

unfoldable pub sets_back : Bytes → List (Bytes × Option ℕ) → Bool
sets_back x [] = false
sets_back x ((y, old) ∷ olds) = bytes_eq x y || sets_back x olds

pub set_back-set_name :
    (olds : List (Bytes × Option ℕ)) (x : Bytes) (v : Option ℕ) (m : Bytes → Option ℕ)
    → sets_back x olds ≡ false
    → set_back olds (set_name x v m) ≡ set_name x v (set_back olds m)
unfolding set_back sets_back
set_back-set_name [] x v m h = refl
set_back-set_name ((y, old) ∷ olds) x v m h =
    ap (set_back olds) (sym (set_name-swap x y v old m (ground (arith, h))))
    ∙ set_back-set_name olds x v (set_name y old m) (ground (arith, h))
