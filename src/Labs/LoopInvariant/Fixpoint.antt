-- ===== src/Labs/LoopInvariant/Fixpoint.antt =====
-- findLIInstr of labs/lab-licm/src/lab-loops.cpp computes a least fixpoint.
use llvm17_learning_repo.Common.{
  ℕ, suc, ◌≤◌, ◌<◌, ◌≡◌, ◌⊎◌, inl, inr, refl, sym, subst, Bool, true, false, ◌&&◌, List, [], ◌∷◌,
  ◌++◌, length, if◌then◌else◌, if_intro, arith,
}
use llvm17_learning_repo.Labs.Ir.{Value, constant, argument, result}
use llvm17_learning_repo.Labs.LoopInvariant.{
  LoopInstruction, LoopView, in_loop, is_contained, Scan, has_invariant_argument,
  loop_invariant_arguments, scan_instruction,
}

abbrev pub IsMember : LoopInstruction → List LoopInstruction → Type 0
IsMember i [] = ⊥
IsMember i (k ∷ b) = (i ≡ k) ⊎ IsMember i b

abbrev pub IsOperand : Value → List Value → Type 0
IsOperand v [] = ⊥
IsOperand v (u ∷ us) = (v ≡ u) ⊎ IsOperand v us

contained-append_left :
    (x : ℕ) (xs ys : List ℕ) → is_contained x xs ≡ true → is_contained x (xs ++ ys) ≡ true
unfolding is_contained
contained-append_left x [] ys h = absurd cc
contained-append_left x (y ∷ xs) ys h = ground (arith, contained-append_left x xs ys)

contained-append_last : (x : ℕ) (xs : List ℕ) → is_contained x (xs ++ x ∷ []) ≡ true
unfolding is_contained
contained-append_last x [] = ground arith
contained-append_last x (y ∷ xs) = ground (arith, contained-append_last x xs)

contained-append_cases :
    (x y : ℕ) (xs : List ℕ)
    → is_contained x (xs ++ y ∷ []) ≡ true
    → (is_contained x xs ≡ true) ⊎ (x ≡ y)
unfolding is_contained
contained-append_cases x y [] h = ground arith
contained-append_cases x y (z ∷ xs) h = ground (arith, contained-append_cases x y xs)

-- The instructions of the body that are not marked.
unfoldable pub missing : List LoopInstruction → List ℕ → ℕ
unfolding is_contained
missing [] li = 0
missing (i ∷ b) li = if is_contained i.identity li then missing b li else suc (missing b li)

pub missing_bound : (b : List LoopInstruction) (li : List ℕ) → missing b li ≤ length b
unfolding missing
missing_bound [] li = omega arith
missing_bound (i ∷ b) li = ground (arith, missing_bound b li)

pub missing_mono :
    (b : List LoopInstruction) (li lj : List ℕ)
    → ((x : ℕ) → is_contained x li ≡ true → is_contained x lj ≡ true)
    → missing b lj ≤ missing b li
unfolding missing
missing_mono [] li lj f = omega arith
missing_mono (i ∷ b) li lj f = ground (arith, missing_mono b li lj f, f i.identity)

pub missing_less :
    (b : List LoopInstruction) (li lj : List ℕ) (i : LoopInstruction)
    → ((x : ℕ) → is_contained x li ≡ true → is_contained x lj ≡ true)
    → IsMember i b
    → is_contained i.identity li ≡ false
    → is_contained i.identity lj ≡ true
    → missing b lj < missing b li
unfolding missing
missing_less [] li lj i f h out now = absurd h
missing_less (k ∷ b) li lj i f (inl e) out now =
    let out' = subst (λ j. is_contained j.identity li ≡ false) e out in
    let now' = subst (λ j. is_contained j.identity lj ≡ true) e now in
    ground (arith, missing_mono b li lj f)
missing_less (k ∷ b) li lj i f (inr h) out now =
    ground (arith, missing_less b li lj i f h out now, f k.identity)

-- `inside` says which instructions are defined in the loop.
module _ (inside : ℕ → Bool) (b : List LoopInstruction) where
  -- What is loop invariant: an instruction of the body, no terminator, whose arguments are loop
  -- invariant as far as they are defined in the loop.
  pub data Invariant : ℕ → Type 0 where
    invariant :
        (i : LoopInstruction)
        → IsMember i b
        → i.is_terminator ≡ false
        → ((j : ℕ) → IsOperand (result j) i.operands → inside j ≡ true → Invariant j)
        → Invariant i.identity

  abbrev pub AllInvariant : List ℕ → Type 0
  AllInvariant li = (x : ℕ) → is_contained x li ≡ true → Invariant x

module _ (view : LoopView) where
  -- An argument that is defined in the loop is marked.
  arguments-contained :
      (li : List ℕ) (us : List Value) (j : ℕ)
      → loop_invariant_arguments view li us ≡ true
      → IsOperand (result j) us
      → in_loop view j ≡ true
      → is_contained j li ≡ true
  unfolding loop_invariant_arguments has_invariant_argument
  arguments-contained li [] j h o l = absurd o
  arguments-contained li (u ∷ us) j h (inl e) l =
      let h' =
        subst
          (λ v. (has_invariant_argument view li v && loop_invariant_arguments view li us) ≡ true)
          (sym e) h in
      ground arith
  arguments-contained li (u ∷ us) j h (inr o) l = arguments-contained li us j (ground arith) o l

  pub contained-arguments :
      (li : List ℕ) (us : List Value)
      → ((j : ℕ) → IsOperand (result j) us → in_loop view j ≡ true → is_contained j li ≡ true)
      → loop_invariant_arguments view li us ≡ true
  unfolding loop_invariant_arguments has_invariant_argument
  contained-arguments li [] f = refl
  contained-arguments li (constant n ∷ us) f = contained-arguments li us λ j o. f j (inr o)
  contained-arguments li (argument n ∷ us) f = contained-arguments li us λ j o. f j (inr o)
  contained-arguments li (result k ∷ us) f =
      ground (arith, contained-arguments li us (λ j o. f j (inr o)), f k (inl refl))

  module _ (b : List LoopInstruction) where
    -- There is nothing to mark of this instruction.
    abbrev pub IsSettled : LoopInstruction → List ℕ → Type 0
    IsSettled i li =
        (i.is_terminator ≡ true)
        ⊎ (is_contained i.identity li ≡ true)
        ⊎ (loop_invariant_arguments view li i.operands ≡ false)

    pub record Step (i : LoopInstruction) (s t : Scan) : Type 0 where
      pub keeps : (x : ℕ) → is_contained x s.found ≡ true → is_contained x t.found ≡ true
      pub sound : AllInvariant (in_loop view) b s.found → AllInvariant (in_loop view) b t.found
      pub progress :
          t.changed ≡ true
          → (s.changed ≡ true)
            ⊎ ((is_contained i.identity s.found ≡ false) × (is_contained i.identity t.found ≡ true))
      pub steady : t.changed ≡ false → (t ≡ s) × IsSettled i s.found

    unchanged-Step : (i : LoopInstruction) (s : Scan) → IsSettled i s.found → Step i s s
    unchanged-Step i s c = record {
      keeps = λ x h. h;
      sound = λ h. h;
      progress = inl;
      steady = λ h. (refl, c);
    }

    marked-Step :
        (i : LoopInstruction) (s : Scan)
        → IsMember i b
        → i.is_terminator ≡ false
        → is_contained i.identity s.found ≡ false
        → loop_invariant_arguments view s.found i.operands ≡ true
        → Step i s (record { found = s.found ++ i.identity ∷ []; changed = true })
    marked-Step i s h live out args = record {
      keeps = λ x c. contained-append_left x s.found (i.identity ∷ []) c;
      sound = λ all x c. elim (contained-append_cases x i.identity s.found c) [
        | inl c' ↦ all x c'
        | inr e ↦
            subst (Invariant (in_loop view) b) (sym e) (
              invariant i h live λ j o l. all j (arguments-contained s.found i.operands j args o l))
      ];
      progress = λ e. inr (out, contained-append_last i.identity s.found);
      steady = λ e. absurd cc;
    }

    pub scan_instruction-Step :
        (i : LoopInstruction) (s : Scan) → IsMember i b → Step i s (scan_instruction view i s)
    unfolding scan_instruction
    scan_instruction-Step i s h =
        if_intro (Step i s) i.is_terminator (λ e. unchanged-Step i s (inl e))
          λ live.
            if_intro (Step i s) (is_contained i.identity s.found)
              (λ e. unchanged-Step i s (inr (inl e)))
              λ out.
                if_intro (Step i s) (loop_invariant_arguments view s.found i.operands)
                  (λ args. marked-Step i s h live out args) λ e. unchanged-Step i s (inr (inr e))
