-- ===== src/Labs/LoopInvariant/Moves/Loops.antt =====
-- run of MyLICMPass, labs/lab-licm/src/lab-loops.cpp, on the loops of a function.
use llvm17_learning_repo.Common.{
  ℕ, ◌≡◌, ◌∙◌, sym, ap, inl, inr, refl, subst, Bool, Bool-cases, false, not, Option, none, some,
  List, [], ◌∷◌, ◌++◌, ◌==◌, if_intro, arith,
}
use llvm17_learning_repo.Labs.LoopInvariant.{LoopInstruction, is_contained, find_hoistable_instr}
use llvm17_learning_repo.Labs.LoopInvariant.Fixpoint.{Invariant}
use llvm17_learning_repo.Labs.LoopInvariant.Search.{IsExact, IsInnermost, find_li_instr-IsExact}
use llvm17_learning_repo.Labs.LoopInvariant.Moves.{
  Bodies, Loop, with_identity, pointees, identities, move_found, run_on_loop, run,
}
use llvm17_learning_repo.Labs.LoopInvariant.Moves.Hoisted.{move_hoistable-other}

contained-append_either :
    (x : ℕ) (xs ys : List ℕ)
    → is_contained x xs ≡ false
    → is_contained x ys ≡ false
    → is_contained x (xs ++ ys) ≡ false
unfolding is_contained
contained-append_either x [] ys h k = k
contained-append_either x (y ∷ xs) ys h k = ground (arith, contained-append_either x xs ys)

identities-append :
    (xs ys : List LoopInstruction) → identities (xs ++ ys) ≡ identities xs ++ identities ys
unfolding identities
identities-append [] ys = refl
identities-append (x ∷ xs) ys = ap (λ l. x.identity ∷ l) (identities-append xs ys)

-- A list of instructions found by their pointers has no others.
with_identity-only :
    (x y : ℕ) (b : List LoopInstruction)
    → (x == y) ≡ false
    → is_contained x (identities (with_identity y b)) ≡ false
unfolding with_identity identities is_contained
with_identity-only x y [] n = refl
with_identity-only x y (i ∷ b) n = ground (arith, with_identity-only x y b n)

pointees-only :
    (x : ℕ) (li : List ℕ) (b : List LoopInstruction)
    → is_contained x li ≡ false
    → is_contained x (identities (pointees li b)) ≡ false
unfolding pointees is_contained identities
pointees-only x [] b n = refl
pointees-only x (y ∷ li) b n =
    subst (λ l. is_contained x l ≡ false)
      (sym (identities-append (with_identity y b) (pointees li b)))
      (contained-append_either x (identities (with_identity y b)) (identities (pointees li b))
        (with_identity-only x y b (ground arith)) (pointees-only x li b (ground arith)))

-- The instructions that are defined in a block of the loop.
abbrev pub defined_inside : Loop → ℕ → Bool
defined_inside l j = is_contained (l.view.parent_of j) l.blocks

module _ (dominates : ℕ → ℕ → Bool) where
  hoistable-only :
      (x : ℕ) (exits : List ℕ) (li : List LoopInstruction)
      → is_contained x (identities li) ≡ false
      → is_contained x (identities (find_hoistable_instr dominates exits li)) ≡ false
  unfolding find_hoistable_instr identities is_contained
  hoistable-only x exits [] n = refl
  hoistable-only x exits (i ∷ li) n = ground (arith, hoistable-only x exits li)

  module _ (nodes : List ℕ) (x : ℕ) where
    -- A run ends, and leaves the instruction in its block.
    abbrev pub IsLeft : Bodies → Option Bodies → Type 0
    IsLeft s none = ⊥
    IsLeft s (some t) = (b : ℕ) → is_contained x (t b) ≡ is_contained x (s b)

    move_found-IsLeft :
        (l : Loop) (s : Bodies) (inside : ℕ → Bool) (r : Option (List ℕ))
        → IsExact inside l.instructions r
        → (Invariant inside l.instructions x → ⊥)
        → IsLeft s (move_found dominates nodes l s r)
    unfolding move_found
    move_found-IsLeft l s inside none exact n = exact
    move_found-IsLeft l s inside (some li) exact n = λ b. elim (Bool-cases (is_contained x li)) [
      | inl m ↦ absurd (n (exact.0 x m))
      | inr m ↦ move_hoistable-other l.preheader x b nodes _ s (
          hoistable-only x l.exit_blocks (pointees li l.instructions)
            (pointees-only x li l.instructions m))
    ]

    run_on_loop-IsLeft :
        (l : Loop) (s : Bodies)
        → IsInnermost l.view l.blocks
        → (Invariant (defined_inside l) l.instructions x → ⊥)
        → IsLeft s (run_on_loop dominates nodes l s)
    unfolding run_on_loop
    run_on_loop-IsLeft l s h n =
        if_intro (IsLeft s) (not l.is_loop_simplify_form) (λ e b. refl)
          λ e.
            move_found-IsLeft l s (defined_inside l) _
              (find_li_instr-IsExact l.view l.blocks l.instructions h) n

    -- The loops have no loops inside, and in none of them is the instruction loop invariant, whatever moves
    -- come before it.
    abbrev pub IsVariant : List (Bodies → Loop) → Type 0
    IsVariant [] = Unit
    IsVariant (l ∷ ls) =
        ((s : Bodies)
          → IsInnermost (l s).view (l s).blocks
            × (Invariant (defined_inside (l s)) (l s).instructions x → ⊥))
        × IsVariant ls

    next : (s t : Bodies) (r : Option Bodies) → IsLeft s (some t) → IsLeft t r → IsLeft s r
    next s t none h k = k
    next s t (some u) h k = λ b. k b ∙ h b

    after :
        (ls : List (Bodies → Loop)) (s : Bodies) (r : Option Bodies)
        → IsLeft s r
        → ((t : Bodies) → IsLeft t (run dominates nodes ls t))
        → IsLeft s (elim r [ none ↦ none | some t ↦ run dominates nodes ls t ])
    after ls s none h f = h
    after ls s (some t) h f = next s t (run dominates nodes ls t) h (f t)

    -- MyLICMPass returns on loops without inner loops, and an instruction that is loop invariant in none of
    -- them, whatever moves come before it, is left in its block.
    pub run-IsLeft :
        (ls : List (Bodies → Loop)) (s : Bodies)
        → IsVariant ls
        → IsLeft s (run dominates nodes ls s)
    unfolding run
    run-IsLeft [] s v = λ b. refl
    run-IsLeft (l ∷ ls) s v =
        after ls s (run_on_loop dominates nodes (l s) s)
          (run_on_loop-IsLeft (l s) s (v.0 s).0 (v.0 s).1) λ t. run-IsLeft ls t v.1
