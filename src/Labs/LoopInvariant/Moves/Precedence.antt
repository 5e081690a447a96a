-- ===== src/Labs/LoopInvariant/Moves/Precedence.antt =====
-- Which of two instructions stands first on a list, for the moves of labs/lab-licm/src/lab-loops.cpp.
use llvm17_learning_repo.Common.{
  ℕ, ◌≡◌, subst, Bool, Bool-cases, inl, inr, true, false, List, [], ◌∷◌, ◌++◌, ◌==◌, if◌then◌else◌,
  arith,
}
use llvm17_learning_repo.Labs.LoopInvariant.{is_contained}
use llvm17_learning_repo.Labs.LoopInvariant.Moves.{remove}
use llvm17_learning_repo.Labs.LoopInvariant.Moves.Hoisted.{contained-remove_other}

-- The first of the two on the list is `y`, and `x` is behind it.
unfoldable pub precedes : ℕ → ℕ → List ℕ → Bool
unfolding is_contained
precedes y x [] = false
precedes y x (z ∷ zs) =
    if y == z then is_contained x zs else if x == z then false else precedes y x zs

pub contained-append :
    (x z : ℕ) (l : List ℕ) → is_contained x l ≡ true → is_contained x (l ++ z ∷ []) ≡ true
unfolding is_contained
contained-append x z [] h = absurd cc
contained-append x z (k ∷ l) h = ground (arith, contained-append x z l)

pub precedes-append :
    (y x z : ℕ) (l : List ℕ) → precedes y x l ≡ true → precedes y x (l ++ z ∷ []) ≡ true
unfolding precedes
precedes-append y x z [] h = absurd cc
precedes-append y x z (k ∷ l) h = ground (arith, precedes-append y x z l, contained-append x z l)

pub precedes-remove :
    (y x z : ℕ) (l : List ℕ)
    → (y == z) ≡ false
    → (x == z) ≡ false
    → precedes y x l ≡ true
    → precedes y x (remove z l) ≡ true
unfolding precedes remove
precedes-remove y x z [] n k h = absurd cc
precedes-remove y x z (j ∷ l) n k h =
    ground (arith, precedes-remove y x z l n k, contained-remove_other z x l k)

pub contained-last : (x : ℕ) (l : List ℕ) → is_contained x (l ++ x ∷ []) ≡ true
unfolding is_contained
contained-last x [] = ground arith
contained-last x (k ∷ l) = ground (arith, contained-last x l)

pub precedes-last :
    (y x : ℕ) (l : List ℕ)
    → is_contained y l ≡ true
    → is_contained x l ≡ false
    → precedes y x (l ++ x ∷ []) ≡ true
unfolding precedes is_contained
precedes-last y x [] h n = absurd cc
precedes-last y x (k ∷ l) h n = ground (arith, precedes-last y x l, contained-last x l)

pub precedes-first : (y x : ℕ) (l : List ℕ) → precedes y x l ≡ true → is_contained y l ≡ true
unfolding precedes is_contained
precedes-first y x [] h = absurd cc
precedes-first y x (z ∷ l) h = ground (arith, precedes-first y x l)

pub precedes-second : (y x : ℕ) (l : List ℕ) → precedes y x l ≡ true → is_contained x l ≡ true
unfolding precedes is_contained
precedes-second y x [] h = absurd cc
precedes-second y x (z ∷ l) h = ground (arith, precedes-second y x l)

-- Instructions in and not in a block differ.
pub apart :
    (y z : ℕ) (l : List ℕ) → is_contained y l ≡ false → is_contained z l ≡ true → (y == z) ≡ false
apart y z l n h = elim (Bool-cases (y == z)) [
  | inl e ↦
      let same : z ≡ y = ground arith in
      let there = subst (λ k. is_contained k l ≡ true) same h in absurd cc
  | inr e ↦ e
]
