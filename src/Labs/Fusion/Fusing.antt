-- ===== src/Labs/Fusion/Fusing.antt =====
-- How the pass MyFusionPass, labs/lab-fusion/src/lab-fusion.cpp, fuses the pairs of loops that it found:
-- the induction variable and the successors. LoopInfo is LLVM's.
use llvm17_learning_repo.Common.{
  ℕ, Bool, true, false, ◌||◌, Option, none, some, List, [], ◌∷◌, map, ◌==◌, if◌then◌else◌,
}
use llvm17_learning_repo.Labs.Ir.{Value, constant, argument, result}
use llvm17_learning_repo.Labs.Fusion.{FusionLoop, LoopPair, Analyses, fusible_loops}
pub mod Edges
pub mod Uses
pub mod Pairs

-- `incoming` are the values of a phi with the blocks from which they come; `type_number` names
-- its type.
pub record PhiNode : Type 0 where
  pub identity : ℕ
  pub type_number : ℕ
  pub incoming : List (Value × ℕ)

-- `operands` are those of the instructions that are no phis.
pub record BasicBlock : Type 0 where
  pub identity : ℕ
  pub phis : List PhiNode
  pub operands : List Value
  pub successors : List ℕ

-- A loop with the answers of getLoopLatch and getExitBlock on the blocks as they are, `none` for nullptr.
pub record LoopBlocks : Type 0 where
  pub header : ℕ
  pub latch : List BasicBlock → Option ℕ
  pub exit_block : List BasicBlock → Option ℕ

-- `PHI.getBasicBlockIndex(Latch) != -1`
unfoldable pub has_incoming_block : ℕ → List (Value × ℕ) → Bool
has_incoming_block latch [] = false
has_incoming_block latch ((v, b) ∷ incoming) = b == latch || has_incoming_block latch incoming

-- The loop over `Header->phis()`.
unfoldable pub induction_variable : ℕ → List PhiNode → Option PhiNode
unfolding has_incoming_block
induction_variable latch [] = none
induction_variable latch (phi ∷ phis) =
    if has_incoming_block latch phi.incoming then some phi else induction_variable latch phis

unfoldable pub phis_of : ℕ → List BasicBlock → List PhiNode
phis_of b [] = []
phis_of b (block ∷ f) = if b == block.identity then block.phis else phis_of b f

-- `From->replaceAllUsesWith(To)`
unfoldable pub replace_use : ℕ → ℕ → Value → Value
replace_use from to (result j) = if j == from then result to else result j
replace_use from to v = v

unfoldable pub replace_incoming : ℕ → ℕ → List (Value × ℕ) → List (Value × ℕ)
unfolding replace_use
replace_incoming from to [] = []
replace_incoming from to ((v, b) ∷ incoming) =
    (replace_use from to v, b) ∷ replace_incoming from to incoming

unfoldable pub replace_in_phis : ℕ → ℕ → List PhiNode → List PhiNode
unfolding replace_incoming
replace_in_phis from to [] = []
replace_in_phis from to (phi ∷ phis) =
    record {
      identity = phi.identity;
      type_number = phi.type_number;
      incoming = replace_incoming from to phi.incoming;
    }
    ∷ replace_in_phis from to phis

unfoldable pub replace_all_uses_with : ℕ → ℕ → List BasicBlock → List BasicBlock
unfolding replace_in_phis replace_use
replace_all_uses_with from to [] = []
replace_all_uses_with from to (block ∷ f) =
    record {
      identity = block.identity;
      phis = replace_in_phis from to block.phis;
      operands = map (replace_use from to) block.operands;
      successors = block.successors;
    }
    ∷ replace_all_uses_with from to f

-- `replaceSuccessorWith` of the terminator of the block `b`.
unfoldable pub replace_successor : ℕ → ℕ → List ℕ → List ℕ
replace_successor from to [] = []
replace_successor from to (s ∷ successors) =
    (if s == from then to else s) ∷ replace_successor from to successors

unfoldable pub replace_successor_with : ℕ → ℕ → ℕ → List BasicBlock → List BasicBlock
unfolding replace_successor
replace_successor_with b from to [] = []
replace_successor_with b from to (block ∷ f) =
    record {
      identity = block.identity;
      phis = block.phis;
      operands = block.operands;
      successors =
          if b == block.identity
          then replace_successor from to block.successors
          else block.successors;
    }
    ∷ replace_successor_with b from to f

-- The three changes of the CFG.
unfoldable pub change_cfg : (h1 t1 e1 b1 t2 e2 b2 : ℕ) → List BasicBlock → List BasicBlock
unfolding replace_successor_with
change_cfg h1 t1 e1 b1 t2 e2 b2 f =
    replace_successor_with h1 e1 e2
      (replace_successor_with b2 t2 t1 (replace_successor_with b1 t1 b2 f))

-- With the blocks of both loops found; `none` is the assertion of replaceAllUsesWith that the types are
-- the same.
unfoldable pub fuse_blocks :
    (h1 t1 e1 b1 h2 t2 e2 b2 : ℕ) → List BasicBlock → Option (List BasicBlock)
unfolding induction_variable phis_of replace_all_uses_with change_cfg
fuse_blocks h1 t1 e1 b1 h2 t2 e2 b2 f = elim (induction_variable t1 (phis_of h1 f)) [
  | none ↦ some f
  | some iv1 ↦ elim (induction_variable t2 (phis_of h2 f)) [
    | none ↦ some f
    | some iv2 ↦
        if iv1.type_number == iv2.type_number
        then some
            (change_cfg h1 t1 e1 b1 t2 e2 b2 (replace_all_uses_with iv2.identity iv1.identity f))
        else none
  ]
]

-- The test of the blocks that may be nullptr.
unfoldable pub fuse_found :
    (h1 t1 h2 t2 : ℕ) (b1 b2 e1 e2 : Option ℕ) → List BasicBlock → Option (List BasicBlock)
unfolding fuse_blocks
fuse_found h1 t1 h2 t2 (some b1) (some b2) (some e1) (some e2) f =
    fuse_blocks h1 t1 e1 b1 h2 t2 e2 b2 f
fuse_found h1 t1 h2 t2 b1 b2 e1 e2 f = some f

-- `single_predecessor` is getSinglePredecessor.
module _ (single_predecessor : List BasicBlock → ℕ → Option ℕ) where
  -- The body of the loop over the pairs; `none` is also the member call on a latch that is nullptr.
  unfoldable pub fuse_pair : LoopBlocks × LoopBlocks → List BasicBlock → Option (List BasicBlock)
  unfolding fuse_found
  fuse_pair (l1, l2) f = elim (l1.latch f) [
    | none ↦ none
    | some t1 ↦ elim (l2.latch f) [
      | none ↦ none
      | some t2 ↦
          fuse_found l1.header t1 l2.header t2 (single_predecessor f t1) (single_predecessor f t2)
            (l1.exit_block f) (l2.exit_block f) f
    ]
  ]

  unfoldable pub fuse_pairs :
      List (LoopBlocks × LoopBlocks) → List BasicBlock → Option (List BasicBlock)
  unfolding fuse_pair
  fuse_pairs [] f = some f
  fuse_pairs (pair ∷ pairs) f = elim (fuse_pair pair f) [
    | none ↦ none
    | some g ↦ fuse_pairs pairs g
  ]

  -- The whole run; `blocks_of` is what LoopInfo answers for a loop.
  unfoldable pub run :
      (FusionLoop → LoopBlocks)
      → Analyses
      → List FusionLoop
      → List BasicBlock
      → Option (List BasicBlock)
  unfolding fuse_pairs fusible_loops
  run blocks_of an loops f =
      fuse_pairs
        (map (λ (pair : LoopPair). (blocks_of pair.0, blocks_of pair.1)) (fusible_loops an loops)) f
