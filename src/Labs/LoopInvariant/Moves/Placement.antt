-- ===== src/Labs/LoopInvariant/Moves/Placement.antt =====
-- An instruction has one place, before and after the moves of MyLICMPass, labs/lab-licm/src/lab-loops.cpp.
use llvm17_learning_repo.Common.{
  ℕ, suc, ◌≤◌, ◌≡◌, ◌∙◌, sym, subst, refl, Bool-cases, inl, inr, true, false, List, [], ◌∷◌, ◌++◌,
  ◌==◌, if◌then◌else◌, if_intro, arith,
}
use llvm17_learning_repo.Labs.LoopInvariant.{is_contained}
use llvm17_learning_repo.Labs.LoopInvariant.Moves.{
  Bodies, remove, move_before_terminator, move_instruction, move_from_block, move_hoistable,
}
use llvm17_learning_repo.Labs.LoopInvariant.Moves.Hoisted.{contained-remove_same, move_before-other}

-- How often an instruction stands in a block.
unfoldable pub count : ℕ → List ℕ → ℕ
count x [] = 0
count x (y ∷ ys) = if x == y then suc (count x ys) else count x ys

count-remove_same : (x y : ℕ) (l : List ℕ) → (y == x) ≡ true → count y (remove x l) ≡ 0
unfolding count remove
count-remove_same x y [] e = refl
count-remove_same x y (z ∷ zs) e = ground (arith, count-remove_same x y zs e)

count-remove_other : (x y : ℕ) (l : List ℕ) → (y == x) ≡ false → count y (remove x l) ≡ count y l
unfolding count remove
count-remove_other x y [] e = refl
count-remove_other x y (z ∷ zs) e = ground (arith, count-remove_other x y zs e)

count-append_last :
    (x y : ℕ) (l : List ℕ) → count y (l ++ x ∷ []) ≡ (if y == x then suc (count y l) else count y l)
unfolding count
count-append_last x y [] = ground arith
count-append_last x y (z ∷ zs) = ground (arith, count-append_last x y zs)

-- Each instruction stands in one block at most, and there once.
pub record IsPlacement (s : Bodies) : Type 0 where
  pub once : (y b : ℕ) → count y (s b) ≤ 1
  pub one_block : (y b c : ℕ) → is_contained y (s b) ≡ true → is_contained y (s c) ≡ true → b ≡ c

module _ (pre : ℕ) where
  moved-once :
      (x y b : ℕ) (s : Bodies) → count y (s b) ≤ 1 → count y (move_before_terminator pre x s b) ≤ 1
  unfolding move_before_terminator
  moved-once x y b s h = ground (
    arith,
    count-append_last x y (remove x (s b)),
    count-remove_same x y (s b),
    count-remove_other x y (s b),
  )

  moved-only_preheader :
      (x b : ℕ) (s : Bodies) → is_contained x (move_before_terminator pre x s b) ≡ true → b ≡ pre
  unfolding move_before_terminator
  moved-only_preheader x b s h = ground (arith, contained-remove_same x (s b))

  pub move_before-IsPlacement :
      (x : ℕ) (s : Bodies) → IsPlacement s → IsPlacement (move_before_terminator pre x s)
  move_before-IsPlacement x s p = record {
    once = λ y b. moved-once x y b s (p.once y b);
    one_block = λ y b c h k. elim (Bool-cases (y == x)) [
      | inl e ↦
          let same : y ≡ x = ground arith in
          let at : (d : ℕ) → is_contained y (move_before_terminator pre x s d) ≡ true → d ≡ pre =
            λ d m.
              moved-only_preheader x d s
                (subst (λ z. is_contained z (move_before_terminator pre x s d) ≡ true) same m) in
          at b h ∙ sym (at c k)
      | inr e ↦
          p.one_block y b c (sym (move_before-other pre x y b s e) ∙ h)
            (sym (move_before-other pre x y c s e) ∙ k)
    ];
  }

  pub move_from_block-IsPlacement :
      (node : ℕ) (hs : List ℕ) (s : Bodies)
      → IsPlacement s
      → IsPlacement (move_from_block pre node hs s)
  unfolding move_from_block move_instruction
  move_from_block-IsPlacement node [] s p = p
  move_from_block-IsPlacement node (x ∷ hs) s p =
      move_from_block-IsPlacement node hs (move_instruction pre node x s)
        (if_intro IsPlacement (is_contained x (s node)) (λ e. move_before-IsPlacement x s p) λ e. p)

  move_hoistable-IsPlacement :
      (nodes hs : List ℕ) (s : Bodies) → IsPlacement s → IsPlacement (move_hoistable pre nodes hs s)
  unfolding move_hoistable
  move_hoistable-IsPlacement [] hs s p = p
  move_hoistable-IsPlacement (node ∷ nodes) hs s p =
      move_hoistable-IsPlacement nodes hs (move_from_block pre node hs s)
        (move_from_block-IsPlacement node hs s p)
