-- ===== src/Common/Lists.antt =====
-- Lists measured by native numbers, and predicates on their elements.
use Prim.Native.Nat.{ℕ, suc, ◌+◌}
use mathlib.Core.Path.{◌≡◌, refl, sym, ap, ◌∙◌, subst}
use mathlib.Core.Logic.{◌⊎◌, inl, inr}
use mathlib.Core.Bool.{Bool, true, false}
use llvm17_learning_repo.Common.Tests.{if◌then◌else◌}
use mathlib.Core.List.{List, [], ◌∷◌, ◌++◌}
use native.Mathlib.Omega.{arith}

module _ {ℓ} {A : Type ℓ} where
  abbrev pub length : List A → ℕ
  length [] = 0
  length (x ∷ xs) = suc (length xs)

  pub length-append : (xs ys : List A) → length (xs ++ ys) ≡ length xs + length ys
  length-append [] ys = omega arith
  length-append (x ∷ xs) ys = omega (arith, length-append xs ys)

module _ {A : Type 0} where
  abbrev pub IsIn : A → List A → Type 0
  IsIn x [] = ⊥
  IsIn x (y ∷ ys) = (x ≡ y) ⊎ IsIn x ys

  pub IsIn-append_left : (x : A) (xs ys : List A) → IsIn x xs → IsIn x (xs ++ ys)
  IsIn-append_left x [] ys h = absurd h
  IsIn-append_left x (y ∷ xs) ys (inl e) = inl e
  IsIn-append_left x (y ∷ xs) ys (inr h) = inr (IsIn-append_left x xs ys h)

  pub IsIn-append_right : (x : A) (xs ys : List A) → IsIn x ys → IsIn x (xs ++ ys)
  IsIn-append_right x [] ys h = h
  IsIn-append_right x (y ∷ xs) ys h = inr (IsIn-append_right x xs ys h)

  pub IsIn-append_cases : (x : A) (xs ys : List A) → IsIn x (xs ++ ys) → IsIn x xs ⊎ IsIn x ys
  IsIn-append_cases x [] ys h = inr h
  IsIn-append_cases x (y ∷ xs) ys (inl e) = inl (inl e)
  IsIn-append_cases x (y ∷ xs) ys (inr h) = elim (IsIn-append_cases x xs ys h) [
    | inl p ↦ inl (inr p)
    | inr q ↦ inr q
  ]

  -- Those elements for which a test fails, as std::erase_if leaves them.
  unfoldable pub erase_if : (A → Bool) → List A → List A
  erase_if p [] = []
  erase_if p (x ∷ xs) = if p x then erase_if p xs else x ∷ erase_if p xs

  erase_if-cases :
      (p : A → Bool) (x y : A) (rest : List A) (c : Bool)
      → p y ≡ c
      → IsIn x (if c then rest else y ∷ rest)
      → ((x ≡ y) × (p x ≡ false)) ⊎ IsIn x rest
  erase_if-cases p x y rest true e h = inr h
  erase_if-cases p x y rest false e (inl q) = inl (q, subst (λ k. p k ≡ false) (sym q) e)
  erase_if-cases p x y rest false e (inr h) = inr h

  pub IsIn-erase_if :
      (p : A → Bool) (x : A) (xs : List A) → IsIn x (erase_if p xs) → IsIn x xs × (p x ≡ false)
  unfolding erase_if
  IsIn-erase_if p x [] h = absurd h
  IsIn-erase_if p x (y ∷ xs) h = elim (erase_if-cases p x y (erase_if p xs) (p y) refl h) [
    | inl q ↦ (inl q.0, q.1)
    | inr r ↦ (inr (IsIn-erase_if p x xs r).0, (IsIn-erase_if p x xs r).1)
  ]

  kept-IsIn :
      (x y : A) (rest : List A) (c : Bool) → IsIn x rest → IsIn x (if c then rest else y ∷ rest)
  kept-IsIn x y rest true h = h
  kept-IsIn x y rest false h = inr h

  pub erase_if-IsIn :
      (p : A → Bool) (x : A) (xs : List A) → IsIn x xs → p x ≡ false → IsIn x (erase_if p xs)
  unfolding erase_if
  erase_if-IsIn p x [] h e = absurd h
  erase_if-IsIn p x (y ∷ xs) (inl q) e =
      subst (λ c. IsIn x (if c then erase_if p xs else y ∷ erase_if p xs)) (sym e ∙ ap p q) (inl q)
  erase_if-IsIn p x (y ∷ xs) (inr h) e =
      kept-IsIn x y (erase_if p xs) (p y) (erase_if-IsIn p x xs h e)
