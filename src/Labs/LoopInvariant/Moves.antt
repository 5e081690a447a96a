-- ===== src/Labs/LoopInvariant/Moves.antt =====
-- The moves of run of MyLICMPass, labs/lab-licm/src/lab-loops.cpp, and the run on the loops. Loops and
-- dominators are LLVM's.
use llvm17_learning_repo.Common.{
  ℕ, Bool, not, Option, none, some, List, [], ◌∷◌, ◌++◌, ◌==◌, if◌then◌else◌,
}
use llvm17_learning_repo.Labs.LoopInvariant.{
  LoopInstruction, LoopView, is_contained, find_li_instr, find_hoistable_instr,
}
pub mod Hoisted
pub mod Loops
pub mod Placement
pub mod Precedence
pub mod Order

-- What each block holds before its terminator, by identities.
abbrev pub Bodies : Type 0
Bodies = ℕ → List ℕ

-- `removeFromParent`
unfoldable pub remove : ℕ → List ℕ → List ℕ
remove x [] = []
remove x (y ∷ ys) = if x == y then remove x ys else y ∷ remove x ys

module _ (preheader : ℕ) where
  -- `moveBefore(PreHeader->getTerminator())`
  unfoldable pub move_before_terminator : ℕ → Bodies → Bodies
  unfolding remove
  move_before_terminator x s b = if b == preheader then remove x (s b) ++ x ∷ [] else remove x (s b)

  -- The body of the loop over HoistableInstructions: the parent of `x` is the block that holds it.
  unfoldable pub move_instruction : ℕ → ℕ → Bodies → Bodies
  unfolding move_before_terminator is_contained
  move_instruction node x s = if is_contained x (s node) then move_before_terminator x s else s

  unfoldable pub move_from_block : ℕ → List ℕ → Bodies → Bodies
  unfolding move_instruction
  move_from_block node [] s = s
  move_from_block node (x ∷ hoistable) s =
      move_from_block node hoistable (move_instruction node x s)

  -- `nodes` is the depth-first order of the dominator tree.
  unfoldable pub move_hoistable : List ℕ → List ℕ → Bodies → Bodies
  unfolding move_from_block
  move_hoistable [] hoistable s = s
  move_hoistable (node ∷ nodes) hoistable s =
      move_hoistable nodes hoistable (move_from_block node hoistable s)

-- A loop as LoopInfo and the blocks show it.
pub record Loop : Type 0 where
  pub is_loop_simplify_form : Bool
  pub preheader : ℕ
  pub exit_blocks : List ℕ
  pub instructions : List LoopInstruction
  pub view : LoopView
  pub blocks : List ℕ

-- The instructions that a list of pointers points to.
unfoldable pub with_identity : ℕ → List LoopInstruction → List LoopInstruction
with_identity x [] = []
with_identity x (i ∷ b) = if x == i.identity then i ∷ [] else with_identity x b

unfoldable pub pointees : List ℕ → List LoopInstruction → List LoopInstruction
unfolding with_identity
pointees [] b = []
pointees (x ∷ li) b = with_identity x b ++ pointees li b

unfoldable pub identities : List LoopInstruction → List ℕ
identities [] = []
identities (i ∷ b) = i.identity ∷ identities b

module _ (dominates : ℕ → ℕ → Bool) (nodes : List ℕ) where
  unfoldable pub move_found : Loop → Bodies → Option (List ℕ) → Option Bodies
  unfolding move_hoistable pointees identities find_hoistable_instr
  move_found l s none = none
  move_found l s (some li) =
      let hoistable = find_hoistable_instr dominates l.exit_blocks (pointees li l.instructions) in
      some (move_hoistable l.preheader nodes (identities hoistable) s)

  -- The body of the loop over LoopInfo.
  unfoldable pub run_on_loop : Loop → Bodies → Option Bodies
  unfolding move_found find_li_instr
  run_on_loop l s =
      if not l.is_loop_simplify_form
      then some s
      else move_found l s (find_li_instr l.view l.instructions)

  -- Each loop is read from what the moves before it left.
  unfoldable pub run : List (Bodies → Loop) → Bodies → Option Bodies
  unfolding run_on_loop
  run [] s = some s
  run (l ∷ ls) s = elim (run_on_loop (l s) s) [ none ↦ none | some t ↦ run ls t ]
