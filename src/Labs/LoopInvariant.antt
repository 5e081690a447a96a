-- ===== src/Labs/LoopInvariant.antt =====
-- The search of the pass MyLICMPass, labs/lab-licm/src/lab-loops.cpp, for instructions that are loop
-- invariant and those of them that may be hoisted. LoopInfo and the DominatorTree are LLVM's.
use llvm17_learning_repo.Common.{
  ℕ, zero, suc, Bool, true, false, not, ◌&&◌, ◌||◌, Option, none, some, List, [], ◌∷◌, ◌++◌, length,
  ◌==◌, if◌then◌else◌,
}
use llvm17_learning_repo.Labs.Ir.{Value, constant, argument, result}
pub mod Fixpoint
pub mod Search
pub mod Hoisting
pub mod Moves

-- `users` are the blocks in which its users stand.
pub record LoopInstruction : Type 0 where
  pub identity : ℕ
  pub parent : ℕ
  pub is_terminator : Bool
  pub operands : List Value
  pub users : List ℕ

-- `llvm::is_contained`
unfoldable pub is_contained : ℕ → List ℕ → Bool
is_contained x [] = false
is_contained x (y ∷ ys) = x == y || is_contained x ys

-- LIInstructions and `changed`.
pub record Scan : Type 0 where
  pub found : List ℕ
  pub changed : Bool

-- What findLIInstr(LI, L) asks: `loop` is L, `get_loop_for` the innermost loop of a block, and
-- `parent_of` the block of an instruction.
pub record LoopView : Type 0 where
  pub loop : ℕ
  pub get_loop_for : ℕ → Option ℕ
  pub parent_of : ℕ → ℕ

unfoldable pub is_loop : ℕ → Option ℕ → Bool
is_loop loop none = false
is_loop loop (some k) = loop == k

-- `LoopOfOperand && L == LoopOfOperand`, for the operand j.
unfoldable pub in_loop : LoopView → ℕ → Bool
unfolding is_loop
in_loop view j = is_loop view.loop (view.get_loop_for (view.parent_of j))

module _ (view : LoopView) where
  -- The body of the loop over the operands.
  unfoldable pub has_invariant_argument : List ℕ → Value → Bool
  unfolding is_contained in_loop
  has_invariant_argument li (result j) = if in_loop view j then is_contained j li else true
  has_invariant_argument li v = true

  unfoldable pub loop_invariant_arguments : List ℕ → List Value → Bool
  unfolding has_invariant_argument
  loop_invariant_arguments li [] = true
  loop_invariant_arguments li (v ∷ vs) =
      has_invariant_argument li v && loop_invariant_arguments li vs

  -- The body of the loop over the instructions.
  unfoldable pub scan_instruction : LoopInstruction → Scan → Scan
  unfolding loop_invariant_arguments is_contained
  scan_instruction i s =
      if i.is_terminator
      then s
      else if is_contained i.identity s.found
      then s
      else if loop_invariant_arguments s.found i.operands
      then record { found = s.found ++ i.identity ∷ []; changed = true }
      else s

  unfoldable pub scan : List LoopInstruction → Scan → Scan
  unfolding scan_instruction
  scan [] s = s
  scan (i ∷ b) s = scan b (scan_instruction i s)

  -- `while (changed)`; `none` is out of fuel.
  unfoldable pub find_fuel : ℕ → List LoopInstruction → List ℕ → Option (List ℕ)
  unfolding scan
  find_fuel zero b li = none
  find_fuel (suc f) b li =
      let s = scan b (record { found = li; changed = false }) in
      let rest = find_fuel f b s.found in if s.changed then rest else some s.found

  -- On the instructions of the blocks of L.
  unfoldable pub find_li_instr : List LoopInstruction → Option (List ℕ)
  unfolding find_fuel
  find_li_instr b = find_fuel (suc (length b)) b []

-- `llvm::all_of` and `llvm::any_of` over the exit blocks.
module _ (dominates : ℕ → ℕ → Bool) where
  unfoldable pub dominates_all_exits : ℕ → List ℕ → Bool
  dominates_all_exits block [] = true
  dominates_all_exits block (exit ∷ exits) = dominates block exit && dominates_all_exits block exits

  unfoldable pub found_user_out_of_loop : ℕ → List ℕ → Bool
  found_user_out_of_loop block [] = false
  found_user_out_of_loop block (exit ∷ exits) =
      dominates exit block || found_user_out_of_loop block exits

  unfoldable pub no_users_out_of_loop : List ℕ → List ℕ → Bool
  unfolding found_user_out_of_loop
  no_users_out_of_loop [] exits = true
  no_users_out_of_loop (user ∷ users) exits =
      if found_user_out_of_loop user exits then false else no_users_out_of_loop users exits

  -- `li` is LIInstructions.
  unfoldable pub find_hoistable_instr : List ℕ → List LoopInstruction → List LoopInstruction
  unfolding dominates_all_exits no_users_out_of_loop
  find_hoistable_instr exits [] = []
  find_hoistable_instr exits (i ∷ li) =
      if dominates_all_exits i.parent exits || no_users_out_of_loop i.users exits
      then i ∷ find_hoistable_instr exits li
      else find_hoistable_instr exits li
