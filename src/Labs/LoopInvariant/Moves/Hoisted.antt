-- ===== src/Labs/LoopInvariant/Moves/Hoisted.antt =====
-- Where the moves of MyLICMPass, labs/lab-licm/src/lab-loops.cpp, leave each instruction.
use llvm17_learning_repo.Common.{
  ℕ, Bool-cases, ◌≡◌, ◌∙◌, inl, inr, refl, subst, true, false, ◌||◌, List, [], ◌∷◌, ◌++◌, ◌==◌,
  if_intro, arith,
}
use llvm17_learning_repo.Labs.LoopInvariant.{is_contained}
use llvm17_learning_repo.Labs.LoopInvariant.Moves.{
  Bodies, remove, move_before_terminator, move_instruction, move_from_block, move_hoistable,
}

pub contained-remove_same : (x : ℕ) (l : List ℕ) → is_contained x (remove x l) ≡ false
unfolding is_contained remove
contained-remove_same x [] = refl
contained-remove_same x (y ∷ ys) = ground (arith, contained-remove_same x ys)

pub contained-remove_other :
    (x y : ℕ) (l : List ℕ) → (y == x) ≡ false → is_contained y (remove x l) ≡ is_contained y l
unfolding is_contained remove
contained-remove_other x y [] n = refl
contained-remove_other x y (z ∷ zs) n = ground (arith, contained-remove_other x y zs n)

contained-remove_less :
    (x y : ℕ) (l : List ℕ) → is_contained y l ≡ false → is_contained y (remove x l) ≡ false
unfolding is_contained remove
contained-remove_less x y [] n = refl
contained-remove_less x y (z ∷ zs) n = ground (arith, contained-remove_less x y zs)

contained-append :
    (x y : ℕ) (l : List ℕ) → is_contained y (l ++ x ∷ []) ≡ (is_contained y l || y == x)
unfolding is_contained
contained-append x y [] = ground arith
contained-append x y (z ∷ zs) = ground (arith, contained-append x y zs)

module _ (pre : ℕ) where
  pub move_before-other :
      (x y b : ℕ) (s : Bodies)
      → (y == x) ≡ false
      → is_contained y (move_before_terminator pre x s b) ≡ is_contained y (s b)
  unfolding move_before_terminator
  move_before-other x y b s n =
      if_intro (λ l. is_contained y l ≡ is_contained y (s b)) (b == pre)
        (λ e.
          ground (arith, contained-append x y (remove x (s b)), contained-remove_other x y (s b) n))
        λ e. contained-remove_other x y (s b) n

  move_before-gone :
      (x y b : ℕ) (s : Bodies)
      → (b == pre) ≡ false
      → is_contained y (s b) ≡ false
      → is_contained y (move_before_terminator pre x s b) ≡ false
  unfolding move_before_terminator
  move_before-gone x y b s n h = ground (arith, contained-remove_less x y (s b) h)

  move_before-arrived :
      (x y : ℕ) (s : Bodies)
      → (y == x) ≡ true
      → is_contained y (move_before_terminator pre x s pre) ≡ true
  unfolding move_before_terminator
  move_before-arrived x y s e = ground (arith, contained-append x y (remove x (s pre)))

  -- Of an instruction that is not on the list of those to move, each block keeps what it has.
  pub move_instruction-other :
      (node x y b : ℕ) (s : Bodies)
      → (y == x) ≡ false
      → is_contained y (move_instruction pre node x s b) ≡ is_contained y (s b)
  unfolding move_instruction
  move_instruction-other node x y b s n =
      if_intro (λ (t : Bodies). is_contained y (t b) ≡ is_contained y (s b))
        (is_contained x (s node)) (λ e. move_before-other x y b s n) λ e. refl

  move_from_block-other :
      (node y b : ℕ) (hs : List ℕ) (s : Bodies)
      → is_contained y hs ≡ false
      → is_contained y (move_from_block pre node hs s b) ≡ is_contained y (s b)
  unfolding move_from_block is_contained
  move_from_block-other node y b [] s n = refl
  move_from_block-other node y b (x ∷ hs) s n =
      move_from_block-other node y b hs (move_instruction pre node x s) (ground arith)
      ∙ move_instruction-other node x y b s (ground arith)

  pub move_hoistable-other :
      (y b : ℕ) (nodes hs : List ℕ) (s : Bodies)
      → is_contained y hs ≡ false
      → is_contained y (move_hoistable pre nodes hs s b) ≡ is_contained y (s b)
  unfolding move_hoistable
  move_hoistable-other y b [] hs s n = refl
  move_hoistable-other y b (node ∷ nodes) hs s n =
      move_hoistable-other y b nodes hs (move_from_block pre node hs s) n
      ∙ move_from_block-other node y b hs s n

  -- What left a block other than the preheader does not come back.
  move_instruction-gone :
      (node x y b : ℕ) (s : Bodies)
      → (b == pre) ≡ false
      → is_contained y (s b) ≡ false
      → is_contained y (move_instruction pre node x s b) ≡ false
  unfolding move_instruction
  move_instruction-gone node x y b s n h =
      if_intro (λ (t : Bodies). is_contained y (t b) ≡ false) (is_contained x (s node))
        (λ e. move_before-gone x y b s n h) λ e. h

  move_from_block-gone :
      (node y b : ℕ) (hs : List ℕ) (s : Bodies)
      → (b == pre) ≡ false
      → is_contained y (s b) ≡ false
      → is_contained y (move_from_block pre node hs s b) ≡ false
  unfolding move_from_block
  move_from_block-gone node y b [] s n h = h
  move_from_block-gone node y b (x ∷ hs) s n h =
      move_from_block-gone node y b hs (move_instruction pre node x s) n
        (move_instruction-gone node x y b s n h)

  move_hoistable-gone :
      (y b : ℕ) (nodes hs : List ℕ) (s : Bodies)
      → (b == pre) ≡ false
      → is_contained y (s b) ≡ false
      → is_contained y (move_hoistable pre nodes hs s b) ≡ false
  unfolding move_hoistable
  move_hoistable-gone y b [] hs s n h = h
  move_hoistable-gone y b (node ∷ nodes) hs s n h =
      move_hoistable-gone y b nodes hs (move_from_block pre node hs s) n
        (move_from_block-gone node y b hs s n h)

  -- What is in the preheader stays there.
  pub move_instruction-stays :
      (node x y : ℕ) (s : Bodies)
      → is_contained y (s pre) ≡ true
      → is_contained y (move_instruction pre node x s pre) ≡ true
  unfolding move_instruction
  move_instruction-stays node x y s h =
      if_intro (λ (t : Bodies). is_contained y (t pre) ≡ true) (is_contained x (s node))
        (λ e. elim (Bool-cases (y == x)) [
          | inl q ↦ move_before-arrived x y s q
          | inr q ↦ move_before-other x y pre s q ∙ h
        ])
        λ e. h

  pub move_from_block-stays :
      (node y : ℕ) (hs : List ℕ) (s : Bodies)
      → is_contained y (s pre) ≡ true
      → is_contained y (move_from_block pre node hs s pre) ≡ true
  unfolding move_from_block
  move_from_block-stays node y [] s h = h
  move_from_block-stays node y (x ∷ hs) s h =
      move_from_block-stays node y hs (move_instruction pre node x s)
        (move_instruction-stays node x y s h)

  move_hoistable-stays :
      (y : ℕ) (nodes hs : List ℕ) (s : Bodies)
      → is_contained y (s pre) ≡ true
      → is_contained y (move_hoistable pre nodes hs s pre) ≡ true
  unfolding move_hoistable
  move_hoistable-stays y [] hs s h = h
  move_hoistable-stays y (node ∷ nodes) hs s h =
      move_hoistable-stays y nodes hs (move_from_block pre node hs s)
        (move_from_block-stays node y hs s h)

  -- What is found in the block that is visited is in the preheader afterwards.
  pub move_instruction-arrives :
      (node x y : ℕ) (s : Bodies)
      → (y == x) ≡ true
      → is_contained y (s node) ≡ true
      → is_contained y (move_instruction pre node x s pre) ≡ true
  unfolding move_instruction
  move_instruction-arrives node x y s q h =
      if_intro (λ (t : Bodies). is_contained y (t pre) ≡ true) (is_contained x (s node))
        (λ e. move_before-arrived x y s q)
        λ e.
          let same : y ≡ x = ground arith in
          let there = subst (λ k. is_contained k (s node) ≡ true) same h in absurd cc

  pub move_from_block-arrives :
      (node y : ℕ) (hs : List ℕ) (s : Bodies)
      → is_contained y hs ≡ true
      → is_contained y (s node) ≡ true
      → is_contained y (move_from_block pre node hs s pre) ≡ true
  unfolding move_from_block is_contained
  move_from_block-arrives node y [] s m h = absurd cc
  move_from_block-arrives node y (x ∷ hs) s m h = elim (Bool-cases (y == x)) [
    | inl q ↦
        move_from_block-stays node y hs (move_instruction pre node x s)
          (move_instruction-arrives node x y s q h)
    | inr q ↦
        move_from_block-arrives node y hs (move_instruction pre node x s) (ground arith)
          (move_instruction-other node x y node s q ∙ h)
  ]

  -- What is not in the block that is visited stays where it is.
  pub move_instruction-unmoved :
      (node x y b : ℕ) (s : Bodies)
      → is_contained y (s node) ≡ false
      → is_contained y (move_instruction pre node x s b) ≡ is_contained y (s b)
  unfolding move_instruction
  move_instruction-unmoved node x y b s h =
      if_intro (λ (t : Bodies). is_contained y (t b) ≡ is_contained y (s b))
        (is_contained x (s node))
        (λ e. elim (Bool-cases (y == x)) [
          | inl q ↦
              let same : y ≡ x = ground arith in
              let there = subst (λ k. is_contained k (s node) ≡ false) same h in absurd cc
          | inr q ↦ move_before-other x y b s q
        ])
        λ e. refl

  pub move_from_block-unmoved :
      (node y b : ℕ) (hs : List ℕ) (s : Bodies)
      → is_contained y (s node) ≡ false
      → is_contained y (move_from_block pre node hs s b) ≡ is_contained y (s b)
  unfolding move_from_block
  move_from_block-unmoved node y b [] s h = refl
  move_from_block-unmoved node y b (x ∷ hs) s h =
      move_from_block-unmoved node y b hs (move_instruction pre node x s)
        (move_instruction-unmoved node x y node s h ∙ h)
      ∙ move_instruction-unmoved node x y b s h

  move_hoistable-arrives :
      (y b : ℕ) (nodes hs : List ℕ) (s : Bodies)
      → is_contained y hs ≡ true
      → is_contained b nodes ≡ true
      → is_contained y (s b) ≡ true
      → is_contained y (move_hoistable pre nodes hs s pre) ≡ true
  unfolding move_hoistable is_contained
  move_hoistable-arrives y b [] hs s m v h = absurd cc
  move_hoistable-arrives y b (node ∷ nodes) hs s m v h =
      elim (Bool-cases (is_contained y (s node))) [
        | inl now ↦
            move_hoistable-stays y nodes hs (move_from_block pre node hs s)
              (move_from_block-arrives node y hs s m now)
        | inr out ↦ elim (Bool-cases (b == node)) [
          | inl q ↦
              let same : b ≡ node = ground arith in
              let there = subst (λ k. is_contained y (s k) ≡ true) same h in absurd cc
          | inr q ↦
              move_hoistable-arrives y b nodes hs (move_from_block pre node hs s) m (ground arith)
                (move_from_block-unmoved node y b hs s out ∙ h)
        ]
      ]

  -- A block other than the preheader has none of them left once it is visited.
  move_instruction-leaves :
      (node x y : ℕ) (s : Bodies)
      → (node == pre) ≡ false
      → (y == x) ≡ true
      → is_contained y (move_instruction pre node x s node) ≡ false
  unfolding move_instruction move_before_terminator
  move_instruction-leaves node x y s n q =
      let same : x ≡ y = ground arith in
      subst (λ k. is_contained k (move_instruction pre node x s node) ≡ false) same
        (if_intro (λ (t : Bodies). is_contained x (t node) ≡ false) (is_contained x (s node))
          (λ e. ground (arith, contained-remove_same x (s node))) λ e. e)

  move_from_block-leaves :
      (node y : ℕ) (hs : List ℕ) (s : Bodies)
      → (node == pre) ≡ false
      → is_contained y hs ≡ true
      → is_contained y (move_from_block pre node hs s node) ≡ false
  unfolding move_from_block is_contained
  move_from_block-leaves node y [] s n m = absurd cc
  move_from_block-leaves node y (x ∷ hs) s n m = elim (Bool-cases (y == x)) [
    | inl q ↦
        move_from_block-gone node y node hs (move_instruction pre node x s) n
          (move_instruction-leaves node x y s n q)
    | inr q ↦ move_from_block-leaves node y hs (move_instruction pre node x s) n (ground arith)
  ]

  pub move_hoistable-leaves :
      (y b : ℕ) (nodes hs : List ℕ) (s : Bodies)
      → (b == pre) ≡ false
      → is_contained y hs ≡ true
      → is_contained b nodes ≡ true
      → is_contained y (move_hoistable pre nodes hs s b) ≡ false
  unfolding move_hoistable is_contained
  move_hoistable-leaves y b [] hs s n m v = absurd cc
  move_hoistable-leaves y b (node ∷ nodes) hs s n m v = elim (Bool-cases (b == node)) [
    | inl q ↦
        let same : node ≡ b = ground arith in
        move_hoistable-gone y b nodes hs (move_from_block pre node hs s) n (
          subst (λ k. is_contained y (move_from_block pre node hs s k) ≡ false) same
            (move_from_block-leaves node y hs s (ground arith) m))
    | inr q ↦ move_hoistable-leaves y b nodes hs (move_from_block pre node hs s) n m (ground arith)
  ]
