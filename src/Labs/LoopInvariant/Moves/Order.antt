-- ===== src/Labs/LoopInvariant/Moves/Order.antt =====
-- The order in which MyLICMPass, labs/lab-licm/src/lab-loops.cpp, moves instructions to the preheader.
use llvm17_learning_repo.Common.{
  ℕ, ◌≡◌, ◌∙◌, subst, Bool-cases, inl, inr, true, false, List, [], ◌∷◌, ◌==◌, if_intro, arith,
}
use llvm17_learning_repo.Labs.LoopInvariant.{is_contained}
use llvm17_learning_repo.Labs.LoopInvariant.Moves.{
  Bodies, remove, move_before_terminator, move_instruction, move_from_block, move_hoistable,
}
use llvm17_learning_repo.Labs.LoopInvariant.Moves.Placement.{
  IsPlacement, move_before-IsPlacement, move_from_block-IsPlacement,
}
use llvm17_learning_repo.Labs.LoopInvariant.Moves.Hoisted.{
  contained-remove_same, contained-remove_other, move_instruction-other, move_instruction-stays,
  move_instruction-arrives, move_from_block-unmoved,
}
use llvm17_learning_repo.Labs.LoopInvariant.Moves.Precedence.{
  precedes, precedes-append, precedes-remove, precedes-last, precedes-first, precedes-second, apart,
}

module _ (pre : ℕ) where
  -- An instruction of the preheader is in no other block.
  absent :
      (s : Bodies) (node y b : ℕ)
      → IsPlacement s
      → (node == b) ≡ false
      → is_contained y (s b) ≡ true
      → is_contained y (s node) ≡ false
  absent s node y b p n h = elim (Bool-cases (is_contained y (s node))) [
    | inl e ↦ let same : node ≡ b = p.one_block y node b e h in absurd (ground arith)
    | inr e ↦ e
  ]

  move_instruction-IsPlacement :
      (node x : ℕ) (s : Bodies) → IsPlacement s → IsPlacement (move_instruction pre node x s)
  unfolding move_instruction
  move_instruction-IsPlacement node x s p =
      if_intro IsPlacement (is_contained x (s node)) (λ e. move_before-IsPlacement pre x s p) λ e. p

  module _ (y x : ℕ) where
    -- Two that stand in the preheader in their order stay so.
    move_instruction-ordered :
        (node z : ℕ) (s : Bodies)
        → IsPlacement s
        → (node == pre) ≡ false
        → precedes y x (s pre) ≡ true
        → precedes y x (move_instruction pre node z s pre) ≡ true
    unfolding move_instruction move_before_terminator
    move_instruction-ordered node z s p n h =
        if_intro (λ (t : Bodies). precedes y x (t pre) ≡ true) (is_contained z (s node))
          (λ e.
            let ny =
              apart y z (s node) (absent s node y pre p n (precedes-first y x (s pre) h)) e in
            let nx =
              apart x z (s node) (absent s node x pre p n (precedes-second y x (s pre) h)) e in
            if_intro (λ l. precedes y x l ≡ true) (pre == pre)
              (λ q.
                precedes-append y x z (remove z (s pre)) (precedes-remove y x z (s pre) ny nx h))
              λ q. absurd (ground arith))
          λ e. h

    move_from_block-ordered :
        (node : ℕ) (hs : List ℕ) (s : Bodies)
        → IsPlacement s
        → (node == pre) ≡ false
        → precedes y x (s pre) ≡ true
        → precedes y x (move_from_block pre node hs s pre) ≡ true
    unfolding move_from_block
    move_from_block-ordered node [] s p n h = h
    move_from_block-ordered node (z ∷ hs) s p n h =
        move_from_block-ordered node hs (move_instruction pre node z s)
          (move_instruction-IsPlacement node z s p) n (move_instruction-ordered node z s p n h)

    move_hoistable-ordered :
        (nodes hs : List ℕ) (s : Bodies)
        → IsPlacement s
        → is_contained pre nodes ≡ false
        → precedes y x (s pre) ≡ true
        → precedes y x (move_hoistable pre nodes hs s pre) ≡ true
    unfolding move_hoistable is_contained
    move_hoistable-ordered [] hs s p n h = h
    move_hoistable-ordered (node ∷ nodes) hs s p n h =
        move_hoistable-ordered nodes hs (move_from_block pre node hs s)
          (move_from_block-IsPlacement pre node hs s p) (ground arith)
          (move_from_block-ordered node hs s p (ground arith) h)

    module _ (different : (x == y) ≡ false) where
      -- `x` comes behind `y`, which is in the preheader already.
      move_instruction-behind :
          (node : ℕ) (s : Bodies)
          → IsPlacement s
          → is_contained y (s pre) ≡ true
          → is_contained x (s node) ≡ true
          → precedes y x (move_instruction pre node x s pre) ≡ true
      unfolding move_instruction move_before_terminator
      move_instruction-behind node s p hy hx =
          if_intro (λ (t : Bodies). precedes y x (t pre) ≡ true) (is_contained x (s node))
            (λ e.
              if_intro (λ l. precedes y x l ≡ true) (pre == pre)
                (λ q.
                  precedes-last y x (remove x (s pre))
                    (contained-remove_other x y (s pre) (ground arith) ∙ hy)
                    (contained-remove_same x (s pre)))
                λ q. absurd (ground arith))
            λ e. absurd cc

      move_from_block-behind :
          (node : ℕ) (hs : List ℕ) (s : Bodies)
          → IsPlacement s
          → (node == pre) ≡ false
          → is_contained x hs ≡ true
          → is_contained y (s pre) ≡ true
          → is_contained x (s node) ≡ true
          → precedes y x (move_from_block pre node hs s pre) ≡ true
      unfolding move_from_block is_contained
      move_from_block-behind node [] s p n m hy hx = absurd cc
      move_from_block-behind node (z ∷ hs) s p n m hy hx = elim (Bool-cases (x == z)) [
        | inl e ↦
            let same : x ≡ z = ground arith in
            move_from_block-ordered node hs (move_instruction pre node z s)
              (move_instruction-IsPlacement node z s p) n
              (subst (λ k. precedes y x (move_instruction pre node k s pre) ≡ true) same
                (move_instruction-behind node s p hy hx))
        | inr e ↦
            move_from_block-behind node hs (move_instruction pre node z s)
              (move_instruction-IsPlacement node z s p) n (ground arith)
              (move_instruction-stays pre node z y s hy)
              (move_instruction-other pre node z x node s e ∙ hx)
      ]

      -- Both are in the block that is visited.
      move_from_block-orders :
          (node : ℕ) (hs : List ℕ) (s : Bodies)
          → IsPlacement s
          → (node == pre) ≡ false
          → precedes y x hs ≡ true
          → is_contained y (s node) ≡ true
          → is_contained x (s node) ≡ true
          → precedes y x (move_from_block pre node hs s pre) ≡ true
      unfolding move_from_block precedes
      move_from_block-orders node [] s p n m hy hx = absurd cc
      move_from_block-orders node (z ∷ hs) s p n m hy hx = elim (Bool-cases (y == z)) [
        | inl e ↦
            move_from_block-behind node hs (move_instruction pre node z s)
              (move_instruction-IsPlacement node z s p) n (ground arith)
              (move_instruction-arrives pre node z y s e hy)
              (move_instruction-other pre node z x node s (ground arith) ∙ hx)
        | inr e ↦
            move_from_block-orders node hs (move_instruction pre node z s)
              (move_instruction-IsPlacement node z s p) n (ground arith)
              (move_instruction-other pre node z y node s e ∙ hy)
              (move_instruction-other pre node z x node s (ground arith) ∙ hx)
      ]

      same_block :
          (a : ℕ) (nodes hs : List ℕ) (s : Bodies)
          → IsPlacement s
          → is_contained pre nodes ≡ false
          → is_contained a nodes ≡ true
          → precedes y x hs ≡ true
          → is_contained y (s a) ≡ true
          → is_contained x (s a) ≡ true
          → precedes y x (move_hoistable pre nodes hs s pre) ≡ true
      unfolding move_hoistable is_contained
      same_block a [] hs s p n v m hy hx = absurd cc
      same_block a (node ∷ nodes) hs s p n v m hy hx =
          let q = move_from_block-IsPlacement pre node hs s p in
          elim (Bool-cases (a == node)) [
            | inl e ↦
                let same : a ≡ node = ground arith in
                move_hoistable-ordered nodes hs (move_from_block pre node hs s) q (ground arith) (
                  move_from_block-orders node hs s p (ground arith) m
                    (subst (λ k. is_contained y (s k) ≡ true) same hy)
                    (subst (λ k. is_contained x (s k) ≡ true) same hx))
            | inr e ↦
                same_block a nodes hs (move_from_block pre node hs s) q (ground arith)
                  (ground arith) m
                  (move_from_block-unmoved pre node y a hs s (absent s node y a p (ground arith) hy)
                    ∙ hy)
                  (move_from_block-unmoved pre node x a hs s (absent s node x a p (ground arith) hx)
                    ∙ hx)
          ]
