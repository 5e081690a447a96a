-- ===== src/Labs/Ir/Rewriting.antt =====
-- A pass under labs/ that visits the instructions of a function and replaces some by a value.
use llvm17_learning_repo.Common.{
  ℕ, ◌^◌, ◌<◌, ◌≡◌, inl, inr, refl, sym, ◌∙◌, subst, Bool, false, Option, none, some, List, [], ◌∷◌,
  ◌==◌, if_intro, arith,
}
use llvm17_learning_repo.Labs.Ir.{
  Value, constant, argument, result, Instruction, binary_operator, instruction, Block, IrFunction,
  identity, find, find_in, or_else, replace_in, replace_uses, remove, retire, retire_in,
}
use llvm17_learning_repo.Labs.Ir.Machine.{
  Machine, Laws, Run, value, observe, yield_of, update, step, run, reach, start,
}
use llvm17_learning_repo.Labs.Ir.Ssa.{IsBound, HasBound, IsSsa, define}
use llvm17_learning_repo.Labs.Ir.Retiring.{run-retire}
use llvm17_learning_repo.Labs.Ir.Editing.{find-cases, above, above_here, above_below, IsSsa-retire}

abbrev pub retire_if : ℕ → Option Value → IrFunction → IrFunction
retire_if x none f = f
retire_if x (some v) f = retire_in x v f

module _ (rule : Instruction → Option Value) where
  abbrev pub apply_rule : Option Instruction → Option Value
  apply_rule none = none
  apply_rule (some i) = rule i

  -- The visit of an instruction.
  unfoldable pub visit : ℕ → IrFunction → IrFunction
  unfolding find_in
  visit x f = retire_if x (apply_rule (find_in x f)) f

  -- The loop over the instructions that stand there at its start: it inserts none, and the one that
  -- it removes is the visited one.
  unfoldable pub visit_all : List ℕ → IrFunction → IrFunction
  unfolding visit
  visit_all [] f = f
  visit_all (x ∷ xs) f = visit_all xs (visit x f)

-- Every value of a run has the machine's width.
abbrev pub Fits : Machine → Run → Type 0
Fits m s = (j : ℕ) → s.registers j < 2 ^ m.width

-- What makes a rule right where `Q` holds of the instructions: a value takes the place of an operator
-- that yields it, is one of those the operator may use, and keeps `Q`.
pub record Rule (m : Machine) (Q : Instruction → Type 0) (rule : Instruction → Option Value)
    : Type 0 where
  pub quiet :
      (i : Instruction) (v : Value) → rule i ≡ some v → (s : Run) → observe m i s ≡ s.history
  pub bound :
      (i : Instruction) (v : Value)
      → rule i ≡ some v
      → (d : ℕ → Bool) → HasBound m.width d i
      → IsBound m.width d v
  pub yields :
      (i : Instruction) (v : Value)
      → rule i ≡ some v
      → Q i
      → (d : ℕ → Bool) → HasBound m.width d i
      → (s : Run) → Fits m s
      → yield_of m i s ≡ value m s.registers v
  pub keeps :
      (i : Instruction) (v : Value)
      → rule i ≡ some v
      → Q i
      → (x : ℕ) (k : Instruction) → Q k
      → Q (replace_in x v k)

abbrev pub AllIn : (Instruction → Type 0) → Block → Type 0
AllIn Q [] = Unit
AllIn Q (i ∷ b) = Q i × AllIn Q b

-- A function of one block that does what the block does.
pub record DoesSame (m : Machine) (Q : Instruction → Type 0) (b : Block) (f : IrFunction)
    : Type 0 where
  pub block : Block
  pub whole : f ≡ block ∷ []
  pub ssa : IsSsa m.width (λ j. false) block
  pub kept : AllIn Q block
  pub same : (run m b start).history ≡ (run m block start).history

find-AllIn :
    (Q : Instruction → Type 0) (x : ℕ) (b : Block) (i : Instruction)
    → find x b ≡ some i
    → AllIn Q b
    → Q i
unfolding find
find-AllIn Q x [] i h a = absurd cc
find-AllIn Q x (j ∷ b) i h a = elim (find-cases x j b i h) [
  | inl q ↦ subst Q q.1 a.0
  | inr q ↦ find-AllIn Q x b i q.1 a.1
]

find-HasBound :
    (w : ℕ) (x : ℕ) (b : Block) (d : ℕ → Bool) (i : Instruction)
    → find x b ≡ some i
    → IsSsa w d b
    → HasBound w (above x b d) i
unfolding find
find-HasBound w x [] d i h ssa = absurd cc
find-HasBound w x (j ∷ b) d i h (hb, new, ssa) = elim (find-cases x j b i h) [
  | inl q ↦ subst (λ e. HasBound w e i) (sym (above_here x j b d q.0)) (subst (HasBound w d) q.1 hb)
  | inr q ↦
      subst (λ e. HasBound w e i) (sym (above_below x j b d q.0))
        (find-HasBound w x b (define (identity j) d) i q.1 ssa)
]

AllIn-replace :
    (Q : Instruction → Type 0) (x : ℕ) (v : Value)
    → ((k : Instruction) → Q k → Q (replace_in x v k))
    → (b : Block) → AllIn Q b
    → AllIn Q (replace_uses x v b)
unfolding replace_uses
AllIn-replace Q x v keep [] a = tt
AllIn-replace Q x v keep (i ∷ b) a = (keep i a.0, AllIn-replace Q x v keep b a.1)

AllIn-remove : (Q : Instruction → Type 0) (x : ℕ) (b : Block) → AllIn Q b → AllIn Q (remove x b)
unfolding remove
AllIn-remove Q x [] a = tt
AllIn-remove Q x (i ∷ b) a =
    if_intro (AllIn Q) (identity i == x) (λ e. a.1) λ e. (a.0, AllIn-remove Q x b a.1)

module _ (m : Machine) (laws : Laws m) where
  open laws use {operation-Fits, respond-Fits, arguments-Fits}

  pub value-Fits :
      (d : ℕ → Bool) (s : Run)
      → Fits m s
      → (u : Value) → IsBound m.width d u
      → value m s.registers u < 2 ^ m.width
  unfolding value
  value-Fits d s fits (constant n) h = h
  value-Fits d s fits (argument k) h = arguments-Fits k
  value-Fits d s fits (result j) h = fits j

  yield_of-Fits : (i : Instruction) (s : Run) → yield_of m i s < 2 ^ m.width
  unfolding yield_of
  yield_of-Fits (binary_operator x op l r) s = operation-Fits op _ _
  yield_of-Fits (instruction x tag us) s = respond-Fits _

  step-Fits : (i : Instruction) (s : Run) → Fits m s → Fits m (step m i s)
  unfolding step update
  step-Fits i s fits =
      λ j. if_intro (λ n. n < 2 ^ m.width) (j == identity i) (λ e. yield_of-Fits i s) (λ e. fits j)

  reach-Fits : (x : ℕ) (b : Block) (s : Run) → Fits m s → Fits m (reach m x b s)
  unfolding reach
  reach-Fits x [] s fits = fits
  reach-Fits x (i ∷ b) s fits =
      if_intro (Fits m) (identity i == x) (λ e. fits)
        λ e. reach-Fits x b (step m i s) (step-Fits i s fits)

  start-Fits : Fits m start
  start-Fits j = omega (arith, arguments-Fits 0)

  module _ (Q : Instruction → Type 0) (rule : Instruction → Option Value)
      (right : Rule m Q rule) where
    retire-DoesSame :
        (x : ℕ) (c : Block) (i : Instruction) (v : Value)
        → find x c ≡ some i
        → rule i ≡ some v
        → IsSsa m.width (λ j. false) c
        → AllIn Q c
        → (b : Block) → (run m b start).history ≡ (run m c start).history
        → DoesSame m Q b (retire x v c ∷ [])
    unfolding retire
    retire-DoesSame x c i v found hit ssa kept b same =
        let hb = find-HasBound m.width x c (λ j. false) i found ssa in
        let bound = right.bound i v hit (above x c (λ j. false)) hb in
        let q = find-AllIn Q x c i found kept in
        record {
          block = retire x v c;
          whole = refl;
          ssa = IsSsa-retire m.width x v c (λ j. false) i found bound ssa;
          kept =
              AllIn-remove Q x (replace_uses x v c)
                (AllIn-replace Q x v (right.keeps i v hit q x) c kept);
          same =
              same
              ∙ run-retire m x v c (λ j. false) start i found bound ssa
                  (right.quiet i v hit (reach m x c start))
                  (right.yields i v hit q (above x c (λ j. false)) hb (reach m x c start)
                    (reach-Fits x c start start-Fits));
        }

    -- `o` is what was found, and `r` what the rule says of it.
    module _ (x : ℕ) (c b : Block) (ssa : IsSsa m.width (λ j. false) c) (kept : AllIn Q c)
        (same : (run m b start).history ≡ (run m c start).history) where
      retire_if-DoesSame :
          (i : Instruction) (r : Option Value)
          → find x c ≡ some i
          → rule i ≡ r
          → DoesSame m Q b (retire_if x r (c ∷ []))
      retire_if-DoesSame i none found hit = record {
        block = c;
        whole = refl;
        ssa = ssa;
        kept = kept;
        same = same;
      }
      retire_if-DoesSame i (some v) found hit = retire-DoesSame x c i v found hit ssa kept b same

      found-DoesSame :
          (o : Option Instruction)
          → find x c ≡ o
          → DoesSame m Q b (retire_if x (apply_rule rule (or_else o none)) (c ∷ []))
      found-DoesSame none e = record {
        block = c;
        whole = refl;
        ssa = ssa;
        kept = kept;
        same = same;
      }
      found-DoesSame (some i) e = retire_if-DoesSame i (rule i) e refl

    visit-DoesSame :
        (x : ℕ) (b : Block) (f : IrFunction) → DoesSame m Q b f → DoesSame m Q b (visit rule x f)
    unfolding visit
    visit-DoesSame x b f h =
        subst (λ g. DoesSame m Q b (visit rule x g)) (sym h.whole)
          (found-DoesSame x h.block b h.ssa h.kept h.same (find x h.block) refl)

    -- The whole pass.
    pub visit_all-DoesSame :
        (xs : List ℕ) (b : Block) (f : IrFunction)
        → DoesSame m Q b f
        → DoesSame m Q b (visit_all rule xs f)
    unfolding visit_all
    visit_all-DoesSame [] b f h = h
    visit_all-DoesSame (x ∷ xs) b f h =
        visit_all-DoesSame xs b (visit rule x f) (visit-DoesSame x b f h)
