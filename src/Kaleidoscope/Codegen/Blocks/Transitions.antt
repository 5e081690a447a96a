-- ===== src/Kaleidoscope/Codegen/Blocks/Transitions.antt =====
-- What the calls of the IRBuilder in kaleidoscope/src/ast.cpp do to the blocks that are built.
use llvm17_learning_repo.Common.{
  ℕ, suc, ◌≤◌, ◌<◌, ◌≡◌, ◌≢◌, refl, sym, ap, subst, ◌⊎◌, inl, inr, true, false, List, [], ◌∷◌, ◌++◌,
  IsIn, IsIn-append_left, IsIn-append_right, IsIn-append_cases, if_intro, ◌==◌, ==_iff, ==-false,
  arith,
}
use llvm17_learning_repo.Kaleidoscope.Codegen.Builder.{Instruction, set_code}
use llvm17_learning_repo.Kaleidoscope.Codegen.Contract.{ends_block, successors}
use llvm17_learning_repo.Kaleidoscope.Codegen.Blocks.{
  is_open, is_closed, goes_to, is_open-append, is_closed-append, goes_to-append, successors-none,
  Sealed, Built,
}

module _ {D : Type 0} (code : ℕ → List (Instruction D)) (here : ℕ) (i : Instruction D) where
  -- The code behind an instruction at the end of a block.
  abbrev pub emitted : ℕ → List (Instruction D)
  emitted = set_code here (code here ++ i ∷ []) code

  -- Where a block goes on to behind the new instruction.
  emitted-goes_to :
      (l m : ℕ)
      → IsIn m (goes_to (emitted l))
      → IsIn m (goes_to (code here)) ⊎ IsIn m (successors i) ⊎ IsIn m (goes_to (code l))
  emitted-goes_to l m =
      if_intro
        (λ is.
          IsIn m (goes_to is)
          → IsIn m (goes_to (code here)) ⊎ IsIn m (successors i) ⊎ IsIn m (goes_to (code l)))
        (l == here)
        (λ e h. elim (goes_to-append (code here) i m h) [ inl p ↦ inl p | inr q ↦ inr (inl q) ])
        (λ e h. inr (inr h))

still-ends :
    {l here : ℕ} (waiting : List ℕ) {p : Type 0}
    → l ≢ here
    → IsIn l (here ∷ waiting) ⊎ p
    → IsIn l waiting ⊎ p
still-ends waiting n (inl (inl e)) = absurd (n e)
still-ends waiting n (inl (inr h)) = inl h
still-ends waiting n (inr c) = inr c

module _ {D : Type 0} {waiting kept : List ℕ} {fresh : ℕ} {order : List ℕ}
    {code : ℕ → List (Instruction D)} {here : ℕ} where
  here-below : Built waiting kept fresh order code here → here < fresh
  here-below b = (b.sealed.opens here (inl refl)).0

  here-open : Built waiting kept fresh order code here → is_open (code here) ≡ true
  here-open b = (b.sealed.opens here (inl refl)).1

  emitted-above :
      (i : Instruction D)
      → Built waiting kept fresh order code here
      → (l : ℕ) → fresh ≤ l
      → emitted code here i l ≡ []
  emitted-above i b l h =
      if_intro (λ is. is ≡ []) (l == here)
        (λ e. absurd (omega (arith, (==_iff l here).0 e, here-below b, h)))
        (λ e. b.sealed.above l h)

  -- An instruction within the block.
  pub Built-emit :
      (i : Instruction D)
      → ends_block i ≡ false
      → Built waiting kept fresh order code here
      → Built waiting kept fresh order (emitted code here i) here
  Built-emit i e b = record {
    sealed = record {
      ends = λ l h.
          if_intro (λ is. IsIn l (here ∷ waiting) ⊎ (is_closed is ≡ true)) (l == here)
            (λ q. inl (inl ((==_iff l here).0 q))) (λ q. b.sealed.ends l h);
      opens = λ l h. (
        (b.sealed.opens l h).0,
        if_intro (λ is. is_open is ≡ true) (l == here)
            (λ q. is_open-append (code here) i (here-open b) e) (λ q. (b.sealed.opens l h).1),
      );
      above = emitted-above i b;
      jumps = λ l m h. elim (emitted-goes_to code here i l m h) [
        | inl p ↦ b.sealed.jumps here m p
        | inr (inl p) ↦ absurd (successors-none i m e p)
        | inr (inr p) ↦ b.sealed.jumps l m p
      ];
      holds = b.sealed.holds;
    };
    inside = b.inside;
    apart = b.apart;
  }

  waiting-apart : Built waiting kept fresh order code here → (l : ℕ) → IsIn l waiting → l ≢ here
  waiting-apart b l h e = b.apart (subst (λ k. IsIn k waiting) e h)

  -- Here is in the function, so that a jump to it is one within the function.
  jump-inside :
      Built waiting kept fresh order code here
      → (m : ℕ) → IsIn m order ⊎ IsIn m (here ∷ waiting)
      → IsIn m order ⊎ IsIn m waiting
  jump-inside b m (inl h) = inl h
  jump-inside b m (inr (inl e)) = inl (subst (λ k. IsIn k order) (sym e) b.inside)
  jump-inside b m (inr (inr h)) = inr h

  -- A terminator.
  pub Built-end :
      (i : Instruction D)
      → ends_block i ≡ true
      → ((m : ℕ) → IsIn m (successors i) → IsIn m order ⊎ IsIn m waiting)
      → Built waiting kept fresh order code here
      → Sealed waiting kept fresh order (emitted code here i)
  Built-end i e targets b = record {
    ends = λ l h.
        if_intro (λ is. IsIn l waiting ⊎ (is_closed is ≡ true)) (l == here)
          (λ q. inr (is_closed-append (code here) i (here-open b) e))
          (λ q. still-ends waiting (==-false l here q) (b.sealed.ends l h));
    opens = λ l h. (
      (b.sealed.opens l (inr h)).0,
      if_intro (λ is. is_open is ≡ true) (l == here)
          (λ q. absurd (waiting-apart b l h ((==_iff l here).0 q)))
          (λ q. (b.sealed.opens l (inr h)).1),
    );
    above = emitted-above i b;
    jumps = λ l m h. elim (emitted-goes_to code here i l m h) [
      | inl p ↦ jump-inside b m (b.sealed.jumps here m p)
      | inr (inl p) ↦ targets m p
      | inr (inr p) ↦ jump-inside b m (b.sealed.jumps l m p)
    ];
    holds = b.sealed.holds;
  }

inserted-cases : (order : List ℕ) (l x : ℕ) → IsIn x (order ++ l ∷ []) → IsIn x order ⊎ (x ≡ l)
inserted-cases order l x h = elim (IsIn-append_cases x order (l ∷ []) h) [
  | inl p ↦ inl p
  | inr (inl e) ↦ inr e
  | inr (inr q) ↦ absurd q
]

module _ {D : Type 0} {kept : List ℕ} {fresh : ℕ} {order : List ℕ}
    {code : ℕ → List (Instruction D)} where
  new-opens :
      {waiting : List ℕ}
      → Sealed waiting kept fresh order code
      → (l : ℕ) → (l ≡ fresh) ⊎ IsIn l waiting
      → (l < suc fresh) × (is_open (code l) ≡ true)
  unfolding is_open
  new-opens s l (inl e) = (omega (arith, e), ap is_open (s.above l (omega (arith, e))))
  new-opens s l (inr h) = (omega (arith, (s.opens l h).0), (s.opens l h).1)

  -- A new number, of a block that waits or of anything else.
  Sealed-new :
      {old : List ℕ} (new : List ℕ)
      → ((l : ℕ) → IsIn l old → IsIn l new)
      → ((l : ℕ) → IsIn l new → (l ≡ fresh) ⊎ IsIn l old)
      → Sealed old kept fresh order code
      → Sealed new kept (suc fresh) order code
  Sealed-new new to from s = record {
    ends = λ l h. elim (s.ends l h) [ inl p ↦ inl (to l p) | inr q ↦ inr q ];
    opens = λ l h. new-opens s l (from l h);
    above = λ l h. s.above l (omega (arith, h));
    jumps = λ l m h. elim (s.jumps l m h) [ inl p ↦ inl p | inr q ↦ inr (to m q) ];
    holds = s.holds;
  }

  -- The order of the blocks that wait says nothing.
  pub Sealed-same :
      {old : List ℕ} (new : List ℕ)
      → ((l : ℕ) → IsIn l old → IsIn l new)
      → ((l : ℕ) → IsIn l new → IsIn l old)
      → Sealed old kept fresh order code
      → Sealed new kept fresh order code
  Sealed-same new to from s = record {
    ends = λ l h. elim (s.ends l h) [ inl p ↦ inl (to l p) | inr q ↦ inr q ];
    opens = λ l h. s.opens l (from l h);
    above = s.above;
    jumps = λ l m h. elim (s.jumps l m h) [ inl p ↦ inl p | inr q ↦ inr (to m q) ];
    holds = s.holds;
  }

  -- A block that waits is put at the end of the function.
  pub Sealed-insert :
      {waiting : List ℕ} (l : ℕ)
      → IsIn l waiting
      → Sealed waiting kept fresh order code
      → Sealed waiting (l ∷ kept) fresh (order ++ l ∷ []) code
  Sealed-insert {waiting} l w s = record {
    ends = λ x h. elim (inserted-cases order l x h) [
      | inl p ↦ s.ends x p
      | inr e ↦ inl (subst (λ k. IsIn k waiting) (sym e) w)
    ];
    opens = s.opens;
    above = s.above;
    jumps = λ x m h. elim (s.jumps x m h) [
      | inl p ↦ inl (IsIn-append_left m order (l ∷ []) p)
      | inr q ↦ inr q
    ];
    holds = λ x h. elim h [
      | inl e ↦ IsIn-append_right x order (l ∷ []) (inl e)
      | inr q ↦ IsIn-append_left x order (l ∷ []) (s.holds x q)
    ];
  }

  module _ {waiting : List ℕ} {here : ℕ} where
    pub Built-fresh :
        Built waiting kept fresh order code here → (here ≢ fresh) × (IsIn fresh waiting → ⊥)
    Built-fresh b = (
      λ e. omega (arith, e, (b.sealed.opens here (inl refl)).0),
      λ h. omega (arith, (b.sealed.opens fresh (inr h)).0),
    )

    pub Built-number :
        Built waiting kept fresh order code here → Built waiting kept (suc fresh) order code here
    Built-number b = record {
      sealed = Sealed-new (here ∷ waiting) (λ l h. h) (λ l h. inr h) b.sealed;
      inside = b.inside;
      apart = b.apart;
    }

    -- A block that is not in the function yet.
    pub Built-block :
        Built waiting kept fresh order code here
        → Built (fresh ∷ waiting) kept (suc fresh) order code here
    Built-block b = record {
      sealed =
          Sealed-new (here ∷ fresh ∷ waiting)
            (λ l h. elim h [ inl e ↦ inl e | inr q ↦ inr (inr q) ])
            (λ l h. elim h [
              | inl e ↦ inr (inl e)
              | inr (inl e) ↦ inl e
              | inr (inr q) ↦ inr (inr q)
            ])
            b.sealed;
      inside = b.inside;
      apart = λ h. elim h [ inl e ↦ (Built-fresh b).0 e | inr q ↦ b.apart q ];
    }

    pub Built-insert :
        (l : ℕ)
        → IsIn l waiting
        → Built waiting kept fresh order code here
        → Built waiting (l ∷ kept) fresh (order ++ l ∷ []) code here
    Built-insert l w b = record {
      sealed = Sealed-insert l (inr w) b.sealed;
      inside = IsIn-append_left here order (l ∷ []) b.inside;
      apart = b.apart;
    }

    -- The block that is built next is one that waits and is in the function.
    pub Built-enter :
        Sealed (here ∷ waiting) kept fresh order code
        → IsIn here kept
        → (IsIn here waiting → ⊥)
        → Built waiting kept fresh order code here
    Built-enter s k n = record { sealed = s; inside = s.holds here k; apart = n }

    pub Built-forget :
        {less : List ℕ}
        → ((l : ℕ) → IsIn l less → IsIn l kept)
        → Built waiting kept fresh order code here
        → Built waiting less fresh order code here
    Built-forget h b = record {
      sealed = record {
        ends = b.sealed.ends;
        opens = b.sealed.opens;
        above = b.sealed.above;
        jumps = b.sealed.jumps;
        holds = λ l k. b.sealed.holds l (h l k);
      };
      inside = b.inside;
      apart = b.apart;
    }
