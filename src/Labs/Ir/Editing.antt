-- ===== src/Labs/Ir/Editing.antt =====
-- One edit of a pass under labs/: an instruction is replaced by a value of the same run, and removed.
use llvm17_learning_repo.Common.{
  ℕ, ◌≡◌, ◌≢◌, ◌⊎◌, inl, inr, refl, sym, ap, ◌∙◌, subst, Bool, true, false, some, List, [], ◌∷◌,
  map, ◌==◌, Bool-cases, ℕ-cases, if◌then◌else◌, arith,
}
use llvm17_learning_repo.Labs.Ir.{
  Value, constant, argument, result, Instruction, binary_operator, instruction, Block, identity,
  find, replace_operand, replace_in, replace_uses, remove, retire,
}
use llvm17_learning_repo.Labs.Ir.Machine.{Machine, Run, step, reach}
use llvm17_learning_repo.Labs.Ir.Ssa.{
  define, IsBound, AreBound, HasBound, IsSsa, IsClear, define_other, define_same, define-false,
  define-true,
}
use llvm17_learning_repo.Labs.Ir.Replacing.{
  defined_apart, replace_operand_other, replace_operand_same, identity-replace,
}

-- What is defined above an instruction.
unfoldable pub above : ℕ → Block → (ℕ → Bool) → ℕ → Bool
above x [] d = d
above x (i ∷ b) d = if identity i == x then d else above x b (define (identity i) d)

remove_here : (x : ℕ) (i : Instruction) (b : Block) → identity i ≡ x → remove x (i ∷ b) ≡ b
unfolding remove
remove_here x i b h = ground arith

pub retire_here :
    (x : ℕ) (v : Value) (i : Instruction) (b : Block)
    → identity i ≡ x
    → retire x v (i ∷ b) ≡ replace_uses x v b
unfolding retire
retire_here x v i b e =
    remove_here x (replace_in x v i) (replace_uses x v b) (identity-replace x v i ∙ e)

remove_below :
    (x : ℕ) (i : Instruction) (b : Block) → identity i ≢ x → remove x (i ∷ b) ≡ i ∷ remove x b
unfolding remove
remove_below x i b h = ground arith

pub retire_below :
    (x : ℕ) (v : Value) (i : Instruction) (b : Block)
    → identity i ≢ x
    → retire x v (i ∷ b) ≡ replace_in x v i ∷ retire x v b
unfolding retire
retire_below x v i b n =
    remove_below x (replace_in x v i) (replace_uses x v b) λ e. n (sym (identity-replace x v i) ∙ e)

pub above_here :
    (x : ℕ) (i : Instruction) (b : Block) (d : ℕ → Bool) → identity i ≡ x → above x (i ∷ b) d ≡ d
unfolding above
above_here x i b d h = ground arith

pub above_below :
    (x : ℕ) (i : Instruction) (b : Block) (d : ℕ → Bool)
    → identity i ≢ x
    → above x (i ∷ b) d ≡ above x b (define (identity i) d)
unfolding above
above_below x i b d h = ground arith

pub reach_here :
    (m : Machine) (x : ℕ) (i : Instruction) (b : Block) (s : Run)
    → identity i ≡ x
    → reach m x (i ∷ b) s ≡ s
unfolding reach
reach_here m x i b s h = ground arith

pub reach_below :
    (m : Machine) (x : ℕ) (i : Instruction) (b : Block) (s : Run)
    → identity i ≢ x
    → reach m x (i ∷ b) s ≡ reach m x b (step m i s)
unfolding reach
reach_below m x i b s h = ground arith

define_mono :
    (k : ℕ) (e d : ℕ → Bool)
    → ((j : ℕ) → e j ≡ true → d j ≡ true)
    → (j : ℕ) → define k e j ≡ true
    → define k d j ≡ true
define_mono k e d f j b = elim (ℕ-cases j k) [
  | inl q ↦ subst (λ i. define k d i ≡ true) (sym q) (define_same k d)
  | inr q ↦ define_other k d j (f j (define-true k e j b q))
]

-- The instruction that is found is the first, or stands below it.
pub find-cases :
    (x : ℕ) (j : Instruction) (b : Block) (i : Instruction)
    → find x (j ∷ b) ≡ some i
    → ((identity j ≡ x) × (j ≡ i)) ⊎ ((identity j ≢ x) × (find x b ≡ some i))
unfolding find
find-cases x j b i h = ground arith

module _ (w : ℕ) where
  pub IsBound-mono :
      (d e : ℕ → Bool)
      → ((j : ℕ) → d j ≡ true → e j ≡ true)
      → (u : Value) → IsBound w d u
      → IsBound w e u
  IsBound-mono d e f (constant n) h = h
  IsBound-mono d e f (argument k) h = h
  IsBound-mono d e f (result j) h = f j h

  IsBound-apart : (u : Value) (d : ℕ → Bool) (k : ℕ) → IsBound w d u → d k ≡ false → u ≢ result k
  IsBound-apart (constant n) d k h new = λ e. cc
  IsBound-apart (argument n) d k h new = λ e. cc
  IsBound-apart (result j) d k h new = λ e. cc

  pub IsBound-IsClear :
      (v : Value) (d : ℕ → Bool) (b : Block) → IsBound w d v → IsSsa w d b → IsClear v b
  IsBound-IsClear v d [] h ssa = tt
  IsBound-IsClear v d (i ∷ b) h (hb, new, ssa) = (
    IsBound-apart v d (identity i) h new,
    IsBound-IsClear v (define (identity i) d) b (IsBound-mono d _ (define_other (identity i) d) v h)
        ssa,
  )

  pub find-new :
      (x : ℕ) (b : Block) (d : ℕ → Bool) (i : Instruction)
      → IsSsa w d b
      → find x b ≡ some i
      → d x ≡ false
  unfolding find
  find-new x [] d i ssa h = absurd cc
  find-new x (j ∷ b) d i (hb, new, ssa) h = elim (find-cases x j b i h) [
    | inl e ↦ subst (λ k. d k ≡ false) e.0 new
    | inr n ↦ (define-false (identity j) d x (find-new x b (define (identity j) d) i ssa n.1)).1
  ]

  module _ (x : ℕ) (v : Value) where
    replace_operand-bound :
        (d : ℕ → Bool) → d x ≡ false → (u : Value) → IsBound w d u → replace_operand x v u ≡ u
    unfolding replace_operand
    replace_operand-bound d new (constant n) h = refl
    replace_operand-bound d new (argument k) h = refl
    replace_operand-bound d new (result j) h = replace_operand_other x v j λ e. grind arith

    map-replace-bound :
        (d : ℕ → Bool)
        → d x ≡ false
        → (us : List Value) → AreBound w d us
        → map (replace_operand x v) us ≡ us
    map-replace-bound d new [] h = refl
    map-replace-bound d new (u ∷ us) h =
        rw (replace_operand-bound d new u h.0, map-replace-bound d new us h.1) refl

    pub replace_in-bound :
        (d : ℕ → Bool) → d x ≡ false → (i : Instruction) → HasBound w d i → replace_in x v i ≡ i
    unfolding replace_in
    replace_in-bound d new (binary_operator k op l r) h =
        rw (replace_operand-bound d new l h.0, replace_operand-bound d new r h.1) refl
    replace_in-bound d new (instruction k tag us) h = rw (map-replace-bound d new us h) refl

  module _ (x : ℕ) (v : Value) where
    module _ (d e : ℕ → Bool)
        (sub : (j : ℕ) → d j ≡ true → IsBound w e (replace_operand x v (result j))) where
      IsBound-replace : (u : Value) → IsBound w d u → IsBound w e (replace_operand x v u)
      unfolding replace_operand
      IsBound-replace (constant n) h = h
      IsBound-replace (argument k) h = h
      IsBound-replace (result j) h = sub j h

      AreBound-replace :
          (us : List Value) → AreBound w d us → AreBound w e (map (replace_operand x v) us)
      AreBound-replace [] h = tt
      AreBound-replace (u ∷ us) h = (IsBound-replace u h.0, AreBound-replace us h.1)

      HasBound-replace : (i : Instruction) → HasBound w d i → HasBound w e (replace_in x v i)
      unfolding replace_in
      HasBound-replace (binary_operator k op l r) h = (IsBound-replace l h.0, IsBound-replace r h.1)
      HasBound-replace (instruction k tag us) h = AreBound-replace us h

      IsBound-define :
          (k : ℕ)
          → k ≢ x
          → (j : ℕ) → define k d j ≡ true
          → IsBound w (define k e) (replace_operand x v (result j))
      IsBound-define k n j b = elim (ℕ-cases j k) [
        | inl q ↦
            subst (λ i. IsBound w (define k e) (replace_operand x v (result i))) (sym q)
              (subst (IsBound w (define k e)) (sym (replace_operand_other x v k n))
                (define_same k e))
        | inr q ↦
            IsBound-mono e (define k e) (define_other k e) (replace_operand x v (result j))
              (sub j (define-true k d j b q))
      ]

    -- What the tail of a block needs to stay in SSA form under a replacement.
    pub IsSsa-replace :
        (b : Block) (d e : ℕ → Bool)
        → d x ≡ true
        → ((j : ℕ) → d j ≡ true → IsBound w e (replace_operand x v (result j)))
        → ((j : ℕ) → e j ≡ true → d j ≡ true)
        → IsSsa w d b
        → IsSsa w e (replace_uses x v b)
    unfolding replace_uses
    IsSsa-replace [] d e old sub super ssa = tt
    IsSsa-replace (i ∷ b) d e old sub super (h, new, ssa) = (
      HasBound-replace d e sub i h,
      subst (λ k. e k ≡ false) (sym (identity-replace x v i)) (new_too (identity i) new),
      subst (λ k. IsSsa w (define k e) (replace_uses x v b)) (sym (identity-replace x v i))
          (IsSsa-replace b (define (identity i) d) (define (identity i) e)
            (define_other (identity i) d x old)
            (IsBound-define d e sub (identity i) (defined_apart d (identity i) x new old))
            (define_mono (identity i) e d super) ssa),
    )
      where
        new_too : (k : ℕ) → d k ≡ false → e k ≡ false
        new_too k n = elim (Bool-cases (e k)) [
          | inl t ↦ absurd (defined_apart d k k n (super k t) refl)
          | inr f ↦ f
        ]

    IsBound-here :
        (d : ℕ → Bool)
        → IsBound w d v
        → (j : ℕ) → define x d j ≡ true
        → IsBound w d (replace_operand x v (result j))
    IsBound-here d bound j b = elim (ℕ-cases j x) [
      | inl q ↦
          subst (λ i. IsBound w d (replace_operand x v (result i))) (sym q)
            (subst (IsBound w d) (sym (replace_operand_same x v)) bound)
      | inr q ↦ subst (IsBound w d) (sym (replace_operand_other x v j q)) (define-true x d j b q)
    ]

    pub IsSsa-retire :
        (b : Block) (d : ℕ → Bool) (i : Instruction)
        → find x b ≡ some i
        → IsBound w (above x b d) v
        → IsSsa w d b
        → IsSsa w d (retire x v b)
    unfolding find
    IsSsa-retire [] d i h bound ssa = absurd cc
    IsSsa-retire (j ∷ b) d i h bound (hb, new, ssa) = elim (find-cases x j b i h) [
      | inl q ↦ subst (IsSsa w d) (sym (retire_here x v j b q.0)) (
          IsSsa-replace b (define x d) d (define_same x d)
            (IsBound-here d (subst (λ e. IsBound w e v) (above_here x j b d q.0) bound))
            (define_other x d) (subst (λ k. IsSsa w (define k d) b) q.0 ssa))
      | inr q ↦
          subst (IsSsa w d)
            (sym (
              retire_below x v j b q.0
              ∙ ap (λ k. k ∷ retire x v b)
                  (replace_in-bound x v d
                    (define-false (identity j) d x
                      (find-new x b (define (identity j) d) i ssa q.1)).1
                    j hb)))
            (
              hb,
              new,
              IsSsa-retire b (define (identity j) d) i q.1
                  (subst (λ e. IsBound w e v) (above_below x j b d q.0) bound) ssa,
            )
    ]
