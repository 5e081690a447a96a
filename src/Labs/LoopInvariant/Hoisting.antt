-- ===== src/Labs/LoopInvariant/Hoisting.antt =====
-- findHoistableInstr of labs/lab-licm/src/lab-loops.cpp.
use llvm17_learning_repo.Common.{
  ℕ, ◌≡◌, ◌⊎◌, ◌↔◌, if_intro, inl, inr, refl, sym, subst, Bool, true, false, ◌||◌, List, [], ◌∷◌,
  Bool-cases, if◌then◌else◌, arith,
}
use llvm17_learning_repo.Labs.LoopInvariant.{
  LoopInstruction, dominates_all_exits, found_user_out_of_loop, no_users_out_of_loop,
  find_hoistable_instr,
}
use llvm17_learning_repo.Labs.LoopInvariant.Fixpoint.{IsMember}

abbrev pub IsBlockOf : ℕ → List ℕ → Type 0
IsBlockOf x [] = ⊥
IsBlockOf x (y ∷ ys) = (x ≡ y) ⊎ IsBlockOf x ys

module _ (dominates : ℕ → ℕ → Bool) (exits : List ℕ) where
  -- The block of the instruction dominates every exit of the loop, or none of its users stands where an
  -- exit dominates.
  abbrev pub IsHoistable : LoopInstruction → Type 0
  IsHoistable i =
      ((e : ℕ) → IsBlockOf e exits → dominates i.parent e ≡ true)
      ⊎ ((u e : ℕ) → IsBlockOf u i.users → IsBlockOf e exits → dominates e u ≡ false)

  all-dominated :
      (block : ℕ) (es : List ℕ)
      → dominates_all_exits dominates block es ≡ true
      → (e : ℕ) → IsBlockOf e es
      → dominates block e ≡ true
  unfolding dominates_all_exits
  all-dominated block [] h e m = absurd m
  all-dominated block (x ∷ es) h e (inl q) =
      subst (λ k. dominates block k ≡ true) (sym q) (ground arith)
  all-dominated block (x ∷ es) h e (inr m) = all-dominated block es (ground arith) e m

  none-dominates :
      (block : ℕ) (es : List ℕ)
      → found_user_out_of_loop dominates block es ≡ false
      → (e : ℕ) → IsBlockOf e es
      → dominates e block ≡ false
  unfolding found_user_out_of_loop
  none-dominates block [] h e m = absurd m
  none-dominates block (x ∷ es) h e (inl q) =
      subst (λ k. dominates k block ≡ false) (sym q) (ground arith)
  none-dominates block (x ∷ es) h e (inr m) = none-dominates block es (ground arith) e m

  no_users-inside :
      (us : List ℕ)
      → no_users_out_of_loop dominates us exits ≡ true
      → (u e : ℕ) → IsBlockOf u us
      → IsBlockOf e exits
      → dominates e u ≡ false
  unfolding no_users_out_of_loop
  no_users-inside [] h u e m n = absurd m
  no_users-inside (x ∷ us) h u e (inl q) n =
      subst (λ k. dominates e k ≡ false) (sym q) (none-dominates x exits (ground arith) e n)
  no_users-inside (x ∷ us) h u e (inr m) n = no_users-inside us (ground arith) u e m n

  tests-IsHoistable :
      (i : LoopInstruction)
      → (dominates_all_exits dominates i.parent exits
          || no_users_out_of_loop dominates i.users exits)
        ≡ true
      → IsHoistable i
  tests-IsHoistable i h = elim (Bool-cases (dominates_all_exits dominates i.parent exits)) [
    | inl e ↦ inl (all-dominated i.parent exits e)
    | inr e ↦ inr (no_users-inside i.users (ground arith))
  ]

  dominated-all :
      (block : ℕ) (es : List ℕ)
      → ((e : ℕ) → IsBlockOf e es → dominates block e ≡ true)
      → dominates_all_exits dominates block es ≡ true
  unfolding dominates_all_exits
  dominated-all block [] h = refl
  dominated-all block (x ∷ es) h =
      ground (arith, h x (inl refl), dominated-all block es (λ e m. h e (inr m)))

  dominates-none :
      (block : ℕ) (es : List ℕ)
      → ((e : ℕ) → IsBlockOf e es → dominates e block ≡ false)
      → found_user_out_of_loop dominates block es ≡ false
  unfolding found_user_out_of_loop
  dominates-none block [] h = refl
  dominates-none block (x ∷ es) h =
      ground (arith, h x (inl refl), dominates-none block es (λ e m. h e (inr m)))

  inside-no_users :
      (us : List ℕ)
      → ((u e : ℕ) → IsBlockOf u us → IsBlockOf e exits → dominates e u ≡ false)
      → no_users_out_of_loop dominates us exits ≡ true
  unfolding no_users_out_of_loop
  inside-no_users [] h = refl
  inside-no_users (x ∷ us) h = ground (
    arith,
    dominates-none x exits (λ e n. h x e (inl refl) n),
    inside-no_users us (λ u e m n. h u e (inr m) n),
  )

  IsHoistable-tests :
      (i : LoopInstruction)
      → IsHoistable i
      → (dominates_all_exits dominates i.parent exits
          || no_users_out_of_loop dominates i.users exits)
        ≡ true
  IsHoistable-tests i (inl h) = ground (arith, dominated-all i.parent exits h)
  IsHoistable-tests i (inr h) = ground (arith, inside-no_users i.users h)

  kept :
      (k i : LoopInstruction) (li : List LoopInstruction) (c : Bool)
      → (dominates_all_exits dominates k.parent exits
          || no_users_out_of_loop dominates k.users exits)
        ≡ c
      → (IsMember i (find_hoistable_instr dominates exits li) → IsMember i li × IsHoistable i)
      → IsMember i (
          if c
          then k ∷ find_hoistable_instr dominates exits li
          else find_hoistable_instr dominates exits li)
      → IsMember i (k ∷ li) × IsHoistable i
  kept k i li true e behind (inl q) = (inl q, subst IsHoistable (sym q) (tests-IsHoistable k e))
  kept k i li true e behind (inr n) = (inr (behind n).0, (behind n).1)
  kept k i li false e behind n = (inr (behind n).0, (behind n).1)

  only_hoistable :
      (li : List LoopInstruction) (i : LoopInstruction)
      → IsMember i (find_hoistable_instr dominates exits li)
      → IsMember i li × IsHoistable i
  unfolding find_hoistable_instr
  only_hoistable [] i m = absurd m
  only_hoistable (k ∷ li) i m = kept k i li _ refl (λ n. only_hoistable li i n) m

  every_hoistable :
      (li : List LoopInstruction) (i : LoopInstruction)
      → IsMember i li
      → IsHoistable i
      → IsMember i (find_hoistable_instr dominates exits li)
  unfolding find_hoistable_instr
  every_hoistable [] i m h = absurd m
  every_hoistable (k ∷ li) i (inl e) h =
      if_intro (IsMember i)
        (dominates_all_exits dominates k.parent exits
          || no_users_out_of_loop dominates k.users exits)
        (λ q. inl e) λ q. absurd (both (IsHoistable-tests k (subst IsHoistable e h)) q)
    where
      both : {c : Bool} → c ≡ true → c ≡ false → ⊥
      both a b = cc
  every_hoistable (k ∷ li) i (inr m) h =
      if_intro (IsMember i)
        (dominates_all_exits dominates k.parent exits
          || no_users_out_of_loop dominates k.users exits)
        (λ q. inr (every_hoistable li i m h)) λ q. every_hoistable li i m h

  -- findHoistableInstr returns exactly the instructions of the list that it is given that may be hoisted:
  -- the block dominates every exit of the loop, or no exit dominates the block of a user.
  pub find_hoistable_instr-IsHoistable :
      (li : List LoopInstruction) (i : LoopInstruction)
      → IsMember i (find_hoistable_instr dominates exits li) ↔ (IsMember i li × IsHoistable i)
  find_hoistable_instr-IsHoistable li i = (only_hoistable li i, λ h. every_hoistable li i h.0 h.1)
