-- ===== src/Labs/Fusion/Safety.antt =====
-- The pairs that MyFusionPass of labs/lab-fusion/src/lab-fusion.cpp goes on with.
use llvm17_learning_repo.Common.{
  ℕ, ◌≡◌, inl, inr, refl, sym, ap, subst, Bool, true, false, not, ◌||◌, Option, none, some, List,
  [], ◌∷◌, ◌++◌, ◌==◌, ==_iff, IsIn, IsIn-append_cases, IsIn-erase_if, if◌then◌else◌, arith,
}
use llvm17_learning_repo.Labs.Fusion.{
  MemoryInstruction, FusionLoop, Analyses, LoopPair, same_block, is_null, candidates_of,
  candidate_fusible_loops, counts_differ, is_negative_dependence, any_destination, any_source,
  check_loop_dependencies, trip_counts_differ, not_control_flow_equivalent,
  has_negative_dependencies, fusible_loops,
}

-- The only exit of the first loop is the preheader of the second, and both are in normal form.
pub record IsAdjacent (l1 l2 : FusionLoop) : Type 0 where
  pub first_normal : l1.is_loop_simplify_form ≡ true
  pub second_normal : l2.is_loop_simplify_form ≡ true
  pub exit : ℕ
  pub leaves : l1.exit_block ≡ some exit
  pub enters : l2.preheader ≡ some exit

same_block-some :
    (a b : Option ℕ)
    → same_block a b ≡ true
    → is_null b ≡ false
    → (e : ℕ) × (b ≡ some e) × (a ≡ some e)
unfolding same_block is_null
same_block-some none none h n = absurd cc
same_block-some none (some b) h n = absurd cc
same_block-some (some a) none h n = absurd cc
same_block-some (some a) (some b) h n = (b, refl, ap some ((==_iff a b).0 h))

not-false : (b : Bool) → not b ≡ false → b ≡ true
not-false true h = refl
not-false false h = absurd cc

abbrev pub IsCandidate : FusionLoop → List FusionLoop → LoopPair → Type 0
IsCandidate l1 loops p = (p.0 ≡ l1) × IsIn p.1 loops × IsAdjacent p.0 p.1

IsCandidate-first :
    (l1 l2 : FusionLoop) (loops : List FusionLoop) (p : LoopPair)
    → l1.is_loop_simplify_form ≡ true
    → is_null l1.exit_block ≡ false
    → not l2.is_loop_simplify_form ≡ false
    → same_block l2.preheader l1.exit_block ≡ true
    → p ≡ (l1, l2)
    → IsCandidate l1 (l2 ∷ loops) p
IsCandidate-first l1 l2 loops p n x e q r =
    let b = same_block-some l2.preheader l1.exit_block q x in
    subst (IsCandidate l1 (l2 ∷ loops)) (sym r) (
      refl,
      inl refl,
      record {
        first_normal = n;
        second_normal = not-false _ e;
        exit = b.0;
        leaves = b.1;
        enters = b.2;
      },
    )

-- A round of the inner loop, by its two tests.
candidates-round :
    (l1 l2 : FusionLoop) (loops : List FusionLoop) (p : LoopPair) (rest : List LoopPair)
    → l1.is_loop_simplify_form ≡ true
    → is_null l1.exit_block ≡ false
    → (IsIn p rest → IsCandidate l1 loops p)
    → (c : Bool) → not l2.is_loop_simplify_form ≡ c
    → (d : Bool) → same_block l2.preheader l1.exit_block ≡ d
    → IsIn p (if c then rest else if d then (l1, l2) ∷ rest else rest)
    → IsCandidate l1 (l2 ∷ loops) p
candidates-round l1 l2 loops p rest n x behind true e d q h =
    (let b = behind h in (b.0, inr b.1, b.2))
candidates-round l1 l2 loops p rest n x behind false e false q h =
    (let b = behind h in (b.0, inr b.1, b.2))
candidates-round l1 l2 loops p rest n x behind false e true q (inr h) =
    (let b = behind h in (b.0, inr b.1, b.2))
candidates-round l1 l2 loops p rest n x behind false e true q (inl r) =
    IsCandidate-first l1 l2 loops p n x e q r

candidates_of-IsCandidate :
    (l1 : FusionLoop) (loops : List FusionLoop) (p : LoopPair)
    → l1.is_loop_simplify_form ≡ true
    → is_null l1.exit_block ≡ false
    → IsIn p (candidates_of l1 loops)
    → IsCandidate l1 loops p
unfolding candidates_of
candidates_of-IsCandidate l1 [] p n x h = absurd h
candidates_of-IsCandidate l1 (l2 ∷ loops) p n x h =
    candidates-round l1 l2 loops p (candidates_of l1 loops) n x
      (candidates_of-IsCandidate l1 loops p n x) _ refl _ refl h

-- A pair of loops of the function that are adjacent.
abbrev pub IsPair : List FusionLoop → List FusionLoop → LoopPair → Type 0
IsPair all loops p = IsIn p.0 loops × IsIn p.1 all × IsAdjacent p.0 p.1

outer-round :
    (all loops : List FusionLoop) (l1 : FusionLoop) (p : LoopPair) (rest : List LoopPair)
    → (IsIn p rest → IsPair all loops p)
    → (c : Bool) → not l1.is_loop_simplify_form ≡ c
    → (d : Bool) → is_null l1.exit_block ≡ d
    → IsIn p (if c then rest else if d then rest else candidates_of l1 all ++ rest)
    → IsPair all (l1 ∷ loops) p
outer-round all loops l1 p rest behind true e d q h = (let b = behind h in (inr b.0, b.1, b.2))
outer-round all loops l1 p rest behind false e true q h = (let b = behind h in (inr b.0, b.1, b.2))
outer-round all loops l1 p rest behind false e false q h =
    elim (IsIn-append_cases p (candidates_of l1 all) rest h) [
      | inl k ↦
          (let b = candidates_of-IsCandidate l1 all p (not-false _ e) q k in (inl b.0, b.1, b.2))
      | inr k ↦ (let b = behind k in (inr b.0, b.1, b.2))
    ]

candidate_fusible_loops-IsPair :
    (all loops : List FusionLoop) (p : LoopPair)
    → IsIn p (candidate_fusible_loops all loops)
    → IsPair all loops p
unfolding candidate_fusible_loops
candidate_fusible_loops-IsPair all [] p h = absurd h
candidate_fusible_loops-IsPair all (l1 ∷ loops) p h =
    outer-round all loops l1 p (candidate_fusible_loops all loops)
      (candidate_fusible_loops-IsPair all loops p) _ refl _ refl h

module _ (an : Analyses) where
  open an use {dominates, post_dominates, backedge_count, is_direction_negative}

  any_destination-negative :
      (src : MemoryInstruction) (ms : List MemoryInstruction)
      → any_destination an src ms ≡ false
      → (dst : MemoryInstruction) → IsIn dst ms
      → is_negative_dependence an src dst ≡ false
  unfolding any_destination
  any_destination-negative src [] h dst m = absurd m
  any_destination-negative src (d ∷ ms) h dst (inl e) =
      subst (λ k. is_negative_dependence an src k ≡ false) (sym e) (ground arith)
  any_destination-negative src (d ∷ ms) h dst (inr m) =
      any_destination-negative src ms (ground arith) dst m

  any_source-negative :
      (all ms : List MemoryInstruction)
      → any_source an all ms ≡ false
      → (src dst : MemoryInstruction) → IsIn src ms
      → IsIn dst all
      → is_negative_dependence an src dst ≡ false
  unfolding any_source
  any_source-negative all [] h src dst m n = absurd m
  any_source-negative all (s ∷ ms) h src dst (inl e) n =
      subst (λ k. is_negative_dependence an k dst ≡ false) (sym e)
        (any_destination-negative s all (ground arith) dst n)
  any_source-negative all (s ∷ ms) h src dst (inr m) n =
      any_source-negative all ms (ground arith) src dst m n

  -- What the pass has found out of a pair.
  pub record IsFusible (loops : List FusionLoop) (l1 l2 : FusionLoop) : Type 0 where
    pub first_in : IsIn l1 loops
    pub second_in : IsIn l2 loops
    pub adjacent : IsAdjacent l1 l2
    pub trip_count : ℕ
    pub first_count : backedge_count l1 ≡ some trip_count
    pub second_count : backedge_count l2 ≡ some trip_count
    pub after_first : dominates l1.header l2.header ≡ true
    pub before_second : post_dominates l2.header l1.header ≡ true
    pub no_negative :
        (src dst : MemoryInstruction)
        → IsIn src (l1.memory_instructions ++ l2.memory_instructions)
        → IsIn dst (l1.memory_instructions ++ l2.memory_instructions)
        → is_negative_dependence an src dst ≡ false

  counts_differ-some :
      (a b : Option ℕ) → counts_differ a b ≡ false → (n : ℕ) × (a ≡ some n) × (b ≡ some n)
  unfolding counts_differ
  counts_differ-some none b h = absurd cc
  counts_differ-some (some a) none h = absurd cc
  counts_differ-some (some a) (some b) h =
      (a, refl, ap some (sym ((==_iff a b).0 (not-false (a == b) h))))

  equivalent : (a b : Bool) → (not a || not b) ≡ false → (a ≡ true) × (b ≡ true)
  equivalent true true h = (refl, refl)
  equivalent true false h = absurd cc
  equivalent false b h = absurd cc

  -- A pair that MyFusionPass goes on with: both loops are in normal form and stand one behind the other,
  -- their trip counts are known and the same, each runs when the other does, and no dependence among
  -- their memory instructions is negative, an instruction on itself counting only if it is a store.
  pub fusible_loops-IsFusible :
      (loops : List FusionLoop) (l1 l2 : FusionLoop)
      → IsIn (l1, l2) (fusible_loops an loops)
      → IsFusible loops l1 l2
  unfolding fusible_loops trip_counts_differ not_control_flow_equivalent has_negative_dependencies
      check_loop_dependencies
  fusible_loops-IsFusible loops l1 l2 h =
      let (h₁, free) = IsIn-erase_if (has_negative_dependencies an) (l1, l2) _ h in
      let (h₂, flow) = IsIn-erase_if (not_control_flow_equivalent an) (l1, l2) _ h₁ in
      let (h₃, trips) = IsIn-erase_if (trip_counts_differ an) (l1, l2) _ h₂ in
      let pair = candidate_fusible_loops-IsPair loops loops (l1, l2) h₃ in
      let counts = counts_differ-some (backedge_count l1) (backedge_count l2) trips in
      record {
        first_in = pair.0;
        second_in = pair.1;
        adjacent = pair.2;
        trip_count = counts.0;
        first_count = counts.1;
        second_count = counts.2;
        after_first = (equivalent _ _ flow).0;
        before_second = (equivalent _ _ flow).1;
        no_negative = any_source-negative (l1.memory_instructions ++ l2.memory_instructions) _ free;
      }
