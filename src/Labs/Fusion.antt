-- ===== src/Labs/Fusion.antt =====
-- The search of the pass MyFusionPass, labs/lab-fusion/src/lab-fusion.cpp, for pairs of loops that can
-- be fused. What LLVM's analyses say is a parameter, the record Analyses.
use llvm17_learning_repo.Common.{
  ℕ, Bool, true, false, not, ◌&&◌, ◌||◌, Option, none, some, List, [], ◌∷◌, ◌++◌, ◌==◌,
  if◌then◌else◌, erase_if,
}
pub mod Safety
pub mod Fusing

-- An instruction that may read or write memory.
pub record MemoryInstruction : Type 0 where
  pub identity : ℕ
  pub is_store : Bool

-- A loop with the blocks that LLVM names, `none` for nullptr, and its memory instructions in order.
pub record FusionLoop : Type 0 where
  pub header : ℕ
  pub preheader : Option ℕ
  pub exit_block : Option ℕ
  pub is_loop_simplify_form : Bool
  pub memory_instructions : List MemoryInstruction

-- `backedge_count` is the SCEV, `none` for SCEVCouldNotCompute; `is_direction_negative` is
-- `DI.depends(Src, Dst, true)`, if there is a dependence, and its isDirectionNegative().
pub record Analyses : Type 0 where
  pub dominates : ℕ → ℕ → Bool
  pub post_dominates : ℕ → ℕ → Bool
  pub backedge_count : FusionLoop → Option ℕ
  pub is_direction_negative : MemoryInstruction → MemoryInstruction → Bool

abbrev pub LoopPair : Type 0
LoopPair = FusionLoop × FusionLoop

-- `a == b` on BasicBlock*.
unfoldable pub same_block : Option ℕ → Option ℕ → Bool
same_block none none = true
same_block (some a) (some b) = a == b
same_block a b = false

unfoldable pub is_null : Option ℕ → Bool
is_null none = true
is_null (some a) = false

-- The inner loop over L2.
unfoldable pub candidates_of : FusionLoop → List FusionLoop → List LoopPair
unfolding same_block
candidates_of l1 [] = []
candidates_of l1 (l2 ∷ loops) =
    if not l2.is_loop_simplify_form
    then candidates_of l1 loops
    else if same_block l2.preheader l1.exit_block
    then (l1, l2) ∷ candidates_of l1 loops
    else candidates_of l1 loops

-- The outer loop over L1; `all` is LI.getLoopsInPreorder().
unfoldable pub candidate_fusible_loops : List FusionLoop → List FusionLoop → List LoopPair
unfolding candidates_of is_null
candidate_fusible_loops all [] = []
candidate_fusible_loops all (l1 ∷ loops) =
    if not l1.is_loop_simplify_form
    then candidate_fusible_loops all loops
    else if is_null l1.exit_block
    then candidate_fusible_loops all loops
    else candidates_of l1 all ++ candidate_fusible_loops all loops

unfoldable pub counts_differ : Option ℕ → Option ℕ → Bool
counts_differ (some a) (some b) = not (a == b)
counts_differ a b = true

module _ (an : Analyses) where
  open an use {dominates, post_dominates, backedge_count, is_direction_negative}

  -- The body of the loops over i and j.
  unfoldable pub is_negative_dependence : MemoryInstruction → MemoryInstruction → Bool
  is_negative_dependence src dst =
      if src.identity == dst.identity && not src.is_store
      then false
      else is_direction_negative src dst

  unfoldable pub any_destination : MemoryInstruction → List MemoryInstruction → Bool
  unfolding is_negative_dependence
  any_destination src [] = false
  any_destination src (dst ∷ ms) =
      if is_negative_dependence src dst then true else any_destination src ms

  unfoldable pub any_source : List MemoryInstruction → List MemoryInstruction → Bool
  unfolding any_destination
  any_source all [] = false
  any_source all (src ∷ ms) = if any_destination src all then true else any_source all ms

  unfoldable pub check_loop_dependencies : FusionLoop → FusionLoop → Bool
  unfolding any_source
  check_loop_dependencies l1 l2 =
      let all = l1.memory_instructions ++ l2.memory_instructions in any_source all all

  -- The conditions of the three calls of llvm::erase_if.
  unfoldable pub trip_counts_differ : LoopPair → Bool
  unfolding counts_differ
  trip_counts_differ (l1, l2) = counts_differ (backedge_count l1) (backedge_count l2)

  unfoldable pub not_control_flow_equivalent : LoopPair → Bool
  not_control_flow_equivalent (l1, l2) =
      not (dominates l1.header l2.header) || not (post_dominates l2.header l1.header)

  unfoldable pub has_negative_dependencies : LoopPair → Bool
  unfolding check_loop_dependencies
  has_negative_dependencies (l1, l2) = check_loop_dependencies l1 l2

  -- CandidateFusibleLoops behind the four steps.
  unfoldable pub fusible_loops : List FusionLoop → List LoopPair
  unfolding candidate_fusible_loops trip_counts_differ not_control_flow_equivalent
      has_negative_dependencies erase_if
  fusible_loops loops = erase_if has_negative_dependencies (
      erase_if not_control_flow_equivalent
        (erase_if trip_counts_differ (candidate_fusible_loops loops loops)))
