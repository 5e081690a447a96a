-- ===== src/Labs/LoopInvariant/Search.antt =====
-- findLIInstr of labs/lab-licm/src/lab-loops.cpp ends, and what is on its list.
use llvm17_learning_repo.Common.{
  ℕ, zero, suc, ◌<◌, ◌≡◌, ◌⊎◌, inl, inr, refl, sym, ap, ◌∙◌, subst, Bool, true, false, Option, none,
  some, List, [], ◌∷◌, length, if_intro, arith,
}
use llvm17_learning_repo.Labs.LoopInvariant.{
  LoopInstruction, LoopView, is_loop, in_loop, is_contained, Scan, scan_instruction, scan,
  find_fuel, find_li_instr,
}
use llvm17_learning_repo.Labs.LoopInvariant.Fixpoint.{
  IsMember, missing, missing_bound, missing_less, contained-arguments, Invariant, invariant,
  AllInvariant, IsSettled, Step, scan_instruction-Step,
}

both_values : (c : Bool) → c ≡ true → c ≡ false → ⊥
both_values c h e = cc

contraposed : (c e : Bool) → (c ≡ true → e ≡ true) → e ≡ false → c ≡ false
contraposed true e f h = absurd (both_values e (f refl) h)
contraposed false e f h = refl

none_contained : (x : ℕ) → is_contained x [] ≡ true → ⊥
unfolding is_contained
none_contained x h = cc

-- A list was returned, and it holds what is loop invariant and nothing else.
abbrev pub IsExact : (ℕ → Bool) → List LoopInstruction → Option (List ℕ) → Type 0
IsExact inside b none = ⊥
IsExact inside b (some li) =
    AllInvariant inside b li × ((x : ℕ) → Invariant inside b x → is_contained x li ≡ true)

module _ (view : LoopView) (b : List LoopInstruction) where
  -- A pass over a part of the body.
  record Pass (part : List LoopInstruction) (s t : Scan) : Type 0 where
    keeps : (x : ℕ) → is_contained x s.found ≡ true → is_contained x t.found ≡ true
    sound : AllInvariant (in_loop view) b s.found → AllInvariant (in_loop view) b t.found
    progress :
        t.changed ≡ true
        → (s.changed ≡ true)
          ⊎ ((i : LoopInstruction) × IsMember i b
              × (is_contained i.identity s.found ≡ false)
              × (is_contained i.identity t.found ≡ true))
    steady :
        t.changed ≡ false
        → (t ≡ s) × ((i : LoopInstruction) → IsMember i part → IsSettled view b i s.found)

  Pass-next :
      (i : LoopInstruction) (part : List LoopInstruction) (s t u : Scan)
      → IsMember i b
      → Step view b i s t
      → Pass part t u
      → Pass (i ∷ part) s u
  Pass-next i part s t u h one rest = record {
    keeps = λ x c. rest.keeps x (one.keeps x c);
    sound = λ all. rest.sound (one.sound all);
    progress = λ e. elim (rest.progress e) [
      | inl c ↦ elim (one.progress c) [
        | inl e' ↦ inl e'
        | inr n ↦ inr (i, h, n.0, rest.keeps i.identity n.1)
      ]
      | inr n ↦ inr (n.0, n.1, contraposed _ _ (one.keeps n.0.identity) n.2, n.3)
    ];
    steady = λ e.
        let (same, settled) = rest.steady e in
        let (same', first) = one.steady (ap (λ r. r.changed) (sym same) ∙ e) in
        (
          same ∙ same',
          λ k m. elim m [
            | inl q ↦ subst (λ n. IsSettled view b n s.found) (sym q) first
            | inr m' ↦ subst (λ r. IsSettled view b k r.found) same' (settled k m')
          ],
        );
  }

  scan-Pass :
      (part : List LoopInstruction) (s : Scan)
      → ((i : LoopInstruction) → IsMember i part → IsMember i b)
      → Pass part s (scan view part s)
  unfolding scan
  scan-Pass [] s h = record {
    keeps = λ x c. c;
    sound = λ all. all;
    progress = inl;
    steady = λ e. (refl, λ i m. absurd m);
  }
  scan-Pass (i ∷ part) s h =
      let t = scan_instruction view i s in
      Pass-next i part s t (scan view part t) (h i (inl refl))
        (scan_instruction-Step view b i s (h i (inl refl))) (scan-Pass part t λ k m. h k (inr m))

  settled-Invariant :
      (li : List ℕ)
      → ((i : LoopInstruction) → IsMember i b → IsSettled view b i li)
      → (x : ℕ) → Invariant (in_loop view) b x
      → is_contained x li ≡ true
  settled-Invariant li settled _ (invariant i m live f) = elim (settled i m) [
    | inl e ↦ absurd (both_values _ e live)
    | inr (inl e) ↦ e
    | inr (inr e) ↦ absurd (
        both_values _
          (contained-arguments view li i.operands λ j o l. settled-Invariant li settled j (f j o l))
          e)
  ]

  -- A pass that changes something leaves fewer instructions that are not marked.
  Pass-missing :
      (s t : Scan)
      → Pass b s t
      → s.changed ≡ false
      → t.changed ≡ true
      → missing b t.found < missing b s.found
  Pass-missing s t pass was is = elim (pass.progress is) [
    | inl e ↦ absurd (both_values _ e was)
    | inr n ↦ missing_less b s.found t.found n.0 pass.keeps n.1 n.2 n.3
  ]

  find_fuel-IsExact :
      (f : ℕ) (li : List ℕ)
      → missing b li < f
      → AllInvariant (in_loop view) b li
      → IsExact (in_loop view) b (find_fuel view f b li)
  unfolding find_fuel
  find_fuel-IsExact zero li m all = absurd (omega arith)
  find_fuel-IsExact (suc f) li m all =
      let s : Scan = record { found = li; changed = false } in
      let pass = scan-Pass b s (λ i h. h) in
      if_intro (IsExact (in_loop view) b) (scan view b s).changed
        (λ e.
          find_fuel-IsExact f (scan view b s).found (omega (arith, Pass-missing s _ pass refl e))
            (pass.sound all))
        λ e.
          let (same, settled) = pass.steady e in
          (
            pass.sound all,
            subst (λ r. (x : ℕ) → Invariant (in_loop view) b x → is_contained x r.found ≡ true)
                (sym same) (settled-Invariant li settled),
          )

  -- By the test that the code makes of an operand.
  pub find_li_instr-IsTested : IsExact (in_loop view) b (find_li_instr view b)
  unfolding find_li_instr
  find_li_instr-IsTested =
      find_fuel-IsExact (suc (length b)) [] (omega (arith, missing_bound b []))
        λ x h. absurd (none_contained x h)

-- The loop has no loop inside: it is the innermost one of exactly its blocks.
abbrev pub IsInnermost : LoopView → List ℕ → Type 0
IsInnermost view blocks = (k : ℕ) → is_loop view.loop (view.get_loop_for k) ≡ is_contained k blocks

-- On a loop without inner loops, findLIInstr returns, with exactly the loop-invariant instructions: those
-- that are no terminator and whose arguments are loop invariant as far as they are defined in a block
-- of the loop.
pub find_li_instr-IsExact :
    (view : LoopView) (blocks : List ℕ) (b : List LoopInstruction)
    → IsInnermost view blocks
    → IsExact (λ j. is_contained (view.parent_of j) blocks) b (find_li_instr view b)
unfolding in_loop
find_li_instr-IsExact view blocks b h =
    subst (λ inside. IsExact inside b (find_li_instr view b)) same (find_li_instr-IsTested view b)
  where
    same : in_loop view ≡ (λ j. is_contained (view.parent_of j) blocks)
    same i j = h (view.parent_of j) i
