-- ===== src/Labs/FusionTests.antt =====
-- Runs of the fusion of loops, labs/lab-fusion/src/lab-fusion.cpp, and the theorem at two loops.
use llvm17_learning_repo.Common.{
  leb, ℕ, ◌≡◌, refl, true, false, Option, none, some, List, [], ◌∷◌, ◌==◌, if◌then◌else◌, arith,
}
use llvm17_learning_repo.Labs.Ir.{Value, constant, argument, result}
use llvm17_learning_repo.Labs.Fusion.{FusionLoop, Analyses}
use llvm17_learning_repo.Labs.Fusion.Fusing.{
  run, PhiNode, BasicBlock, LoopBlocks, fuse_pair, fuse_pairs, induction_variable, phis_of,
}
use llvm17_learning_repo.Labs.Fusion.Fusing.Edges.{has_edge, IsCircuit}
use llvm17_learning_repo.Labs.Fusion.Fusing.Uses.{is_used}
use llvm17_learning_repo.Labs.Fusion.Fusing.Pairs.{fuse_pair-IsFused}

-- A block without phis.
abbrev plain : ℕ → List Value → List ℕ → BasicBlock
plain b vs ss = record { identity = b; phis = []; operands = vs; successors = ss }

-- The phi counts from 0, and `next` is the value from the latch.
abbrev counter : (phi entry latch next : ℕ) → PhiNode
counter phi entry latch next = record {
  identity = phi;
  type_number = 32;
  incoming = (constant 0, entry) ∷ (result next, latch) ∷ [];
}

abbrev header : (b : ℕ) → PhiNode → (body exit : ℕ) → BasicBlock
header b phi body exit = record {
  identity = b;
  phis = phi ∷ [];
  operands = result phi.identity ∷ argument 0 ∷ [];
  successors = body ∷ exit ∷ [];
}

-- The loops have the headers 1 and 5, the bodies 2 and 6, and the latches 3 and 7; block 4 is between them.
abbrev two_loops : List BasicBlock
two_loops =
    plain 0 [] (1 ∷ [])
    ∷ header 1 (counter 10 0 3 11) 2 4
    ∷ plain 2 (result 10 ∷ []) (3 ∷ [])
    ∷ plain 3 (result 10 ∷ constant 1 ∷ []) (1 ∷ [])
    ∷ plain 4 [] (5 ∷ [])
    ∷ header 5 (counter 20 4 7 21) 6 8
    ∷ plain 6 (result 20 ∷ []) (7 ∷ [])
    ∷ plain 7 (result 20 ∷ constant 1 ∷ []) (5 ∷ [])
    ∷ plain 8 [] []
    ∷ []

abbrev body_of : List BasicBlock → ℕ → Option ℕ
body_of f b = if b == 3 then some 2 else if b == 7 then some 6 else none

abbrev loop_1 : LoopBlocks
loop_1 = record { header = 1; latch = λ f. some 3; exit_block = λ f. some 4 }

abbrev loop_5 : LoopBlocks
loop_5 = record { header = 5; latch = λ f. some 7; exit_block = λ f. some 8 }

abbrev edges : Option (List BasicBlock) → List (List ℕ)
edges none = []
edges (some []) = []
edges (some (block ∷ f)) = block.successors ∷ edges (some f)

fused_edges :
    edges (fuse_pairs body_of ((loop_1, loop_5) ∷ []) two_loops)
    ≡ (1 ∷ [])
      ∷ (2 ∷ 8 ∷ [])
      ∷ (6 ∷ [])
      ∷ (1 ∷ [])
      ∷ (5 ∷ [])
      ∷ (6 ∷ 8 ∷ [])
      ∷ (3 ∷ [])
      ∷ (5 ∷ [])
      ∷ []
      ∷ []
unfolding fuse_pairs
fused_edges = refl

-- The whole run, on what LLVM says of these loops.
abbrev found : ℕ → ℕ → ℕ → FusionLoop
found h p e = record {
  header = h;
  preheader = some p;
  exit_block = some e;
  is_loop_simplify_form = true;
  memory_instructions = [];
}

abbrev straight_line : Analyses
straight_line = record {
  dominates = leb;
  post_dominates = λ a b. leb b a;
  backedge_count = λ l. some 10;
  is_direction_negative = λ src dst. false;
}

whole_run :
    edges (
      run body_of
        (λ l. if l.header == 1 then loop_1 else loop_5)
        straight_line
        (found 1 0 4 ∷ found 5 4 8 ∷ [])
        two_loops)
    ≡ edges (fuse_pairs body_of ((loop_1, loop_5) ∷ []) two_loops)
unfolding run
whole_run = refl

-- The phis of the two loops are of 32 and of 64 bits.
other_type :
    fuse_pair body_of
      (loop_1, loop_5)
      (header 1 (counter 10 0 3 11) 2 4
        ∷ header 5
            (record {
              identity = 20;
              type_number = 64;
              incoming = (constant 0, 4) ∷ (result 21, 7) ∷ [];
            })
            6
            8
        ∷ [])
    ≡ none
unfolding fuse_pair
other_type = refl

-- A call on a latch that is nullptr.
no_latch :
    fuse_pair body_of
      (record { header = 1; latch = λ f. none; exit_block = λ f. some 4 }, loop_5)
      two_loops
    ≡ none
unfolding fuse_pair
no_latch = refl

fuse_pair-IsFused_example :
    (g : List BasicBlock) × (fuse_pair body_of (loop_1, loop_5) two_loops ≡ some g)
    × IsCircuit 1 3 4 2 7 8 6 g
    × (is_used 20 g ≡ false)
    × (has_edge 3 1 g ≡ has_edge 3 1 two_loops)
unfolding has_edge induction_variable phis_of
fuse_pair-IsFused_example =
    fuse_pair-IsFused body_of loop_1 loop_5 two_loops 3 7 2 6 4 8 (counter 10 0 3 11)
      (counter 20 4 7 21) refl refl refl refl refl refl refl refl refl (ground arith) (ground arith)
      (ground arith) (ground arith) (ground arith) (ground arith) (ground arith) refl refl refl 3 1
      (ground arith) (ground arith) (ground arith)

-- The second body is the blocks 6 and 9, and 6 leads to 9: nothing leads to 6 but the header that is left.
abbrev longer_body : List BasicBlock
longer_body =
    plain 0 [] (1 ∷ [])
    ∷ header 1 (counter 10 0 3 11) 2 4
    ∷ plain 2 (result 10 ∷ []) (3 ∷ [])
    ∷ plain 3 (result 10 ∷ constant 1 ∷ []) (1 ∷ [])
    ∷ plain 4 [] (5 ∷ [])
    ∷ header 5 (counter 20 4 7 21) 6 8
    ∷ plain 6 (result 20 ∷ []) (9 ∷ [])
    ∷ plain 9 (result 20 ∷ []) (7 ∷ [])
    ∷ plain 7 (result 20 ∷ constant 1 ∷ []) (5 ∷ [])
    ∷ plain 8 [] []
    ∷ []

body_skipped :
    edges (
      fuse_pairs
        (λ f b. if b == 3 then some 2 else if b == 7 then some 9 else none)
        ((loop_1, loop_5) ∷ [])
        longer_body)
    ≡ (1 ∷ [])
      ∷ (2 ∷ 8 ∷ [])
      ∷ (9 ∷ [])
      ∷ (1 ∷ [])
      ∷ (5 ∷ [])
      ∷ (6 ∷ 8 ∷ [])
      ∷ (9 ∷ [])
      ∷ (3 ∷ [])
      ∷ (5 ∷ [])
      ∷ []
      ∷ []
unfolding fuse_pairs
body_skipped = refl
