-- ===== src/Labs/LoopTests.antt =====
-- Runs of the loop passes and of the counting of calls of labs/, and the theorems at inputs.
use llvm17_learning_repo.Common.{
  ◌↔◌, arith, none, ◌==◌, ◌||◌, ◌&&◌, Option, if◌then◌else◌, List, Bool, inl, leb, IsIn, ℕ, ◌≡◌,
  refl, true, false, some, ltb, [], ◌∷◌,
}
use llvm17_learning_repo.Labs.Ir.{constant, argument, result}
use llvm17_learning_repo.Labs.LoopInvariant.{LoopInstruction, find_li_instr, find_hoistable_instr}
use llvm17_learning_repo.Labs.LoopInvariant.Fixpoint.{IsMember}
use llvm17_learning_repo.Labs.LoopInvariant.Search.{IsInnermost, IsExact, find_li_instr-IsExact}
use llvm17_learning_repo.Labs.LoopInvariant.Hoisting.{IsHoistable, find_hoistable_instr-IsHoistable}
use llvm17_learning_repo.Labs.LoopInvariant.{is_contained, LoopView, is_loop}
use llvm17_learning_repo.Labs.LoopInvariant.Fixpoint.{Invariant}
use llvm17_learning_repo.Labs.LoopInvariant.Moves.{Bodies, Loop, run}
use llvm17_learning_repo.Labs.LoopInvariant.Moves.Loops.{defined_inside, IsLeft, run-IsLeft}
use llvm17_learning_repo.Labs.CallCount.{CallSite, no_call, call, count_blocks}
use llvm17_learning_repo.Labs.CallCount.Totals.{IsCount, all_sites, count_blocks-IsCount}
use llvm17_learning_repo.Labs.Fusion.{FusionLoop, Analyses, fusible_loops}
use llvm17_learning_repo.Labs.Fusion.Safety.{IsFusible, fusible_loops-IsFusible}

-- A loop of block 1: %0 is its phi, %1 = add %0, %2; %2 = mul %3, %a; %3 = add %a, 1, and a branch.
abbrev body : List LoopInstruction
body =
    record {
      identity = 0;
      parent = 1;
      is_terminator = false;
      operands = constant 0 ∷ result 1 ∷ [];
      users = 1 ∷ [];
    }
    ∷ record {
      identity = 1;
      parent = 1;
      is_terminator = false;
      operands = result 0 ∷ result 2 ∷ [];
      users = 1 ∷ [];
    }
    ∷ record {
      identity = 2;
      parent = 1;
      is_terminator = false;
      operands = result 3 ∷ argument 0 ∷ [];
      users = 1 ∷ [];
    }
    ∷ invariant_sum
    ∷ record { identity = 4; parent = 1; is_terminator = true; operands = []; users = [] }
    ∷ []
  where
    invariant_sum : LoopInstruction
    invariant_sum = record {
      identity = 3;
      parent = 1;
      is_terminator = false;
      operands = argument 0 ∷ constant 1 ∷ [];
      users = 1 ∷ [];
    }

-- Block 1 is all of the loop 0, and all instructions are in it.
abbrev body_view : LoopView
body_view = record {
  loop = 0;
  get_loop_for = λ b. if b == 1 then some 0 else none;
  parent_of = λ j. 1;
}

body_run : find_li_instr body_view body ≡ some (3 ∷ 2 ∷ [])
unfolding find_li_instr
body_run = refl

body_view-IsInnermost : IsInnermost body_view (1 ∷ [])
unfolding is_loop is_contained
body_view-IsInnermost k = ground arith

find_li_instr-IsExact_example :
    IsExact (λ j. is_contained (body_view.parent_of j) (1 ∷ [])) body (find_li_instr body_view body)
find_li_instr-IsExact_example = find_li_instr-IsExact body_view (1 ∷ []) body body_view-IsInnermost

-- %3 = add %5, 1, where %5 is defined in block 2, in a loop inside: the code takes %5 for one from
-- outside.
nested_run :
    find_li_instr
      (record body_view {
        get_loop_for = λ b. if b == 1 then some 0 else if b == 2 then some 1 else none;
        parent_of = λ j. if j == 5 then 2 else 1;
      })
      (record {
        identity = 3;
        parent = 1;
        is_terminator = false;
        operands = result 5 ∷ constant 1 ∷ [];
        users = 1 ∷ [];
      }
        ∷ [])
    ≡ some (3 ∷ [])
unfolding find_li_instr
nested_run = refl

-- Block 1 dominates the exit 2.
abbrev first_dominates : ℕ → ℕ → Bool
first_dominates a b = ltb a b

abbrev candidate : LoopInstruction
candidate = record {
  identity = 3;
  parent = 1;
  is_terminator = false;
  operands = argument 0 ∷ [];
  users = 1 ∷ [];
}

find_hoistable_instr-IsHoistable_example :
    IsMember candidate (find_hoistable_instr first_dominates (2 ∷ []) (candidate ∷ []))
    ↔ (IsMember candidate (candidate ∷ []) × IsHoistable first_dominates (2 ∷ []) candidate)
find_hoistable_instr-IsHoistable_example =
    find_hoistable_instr-IsHoistable first_dominates (2 ∷ []) (candidate ∷ []) candidate

-- The loop is block 1, with the preheader 0 and the exit 2.
abbrev placement : Bodies
placement b = if b == 1 then 0 ∷ 1 ∷ 2 ∷ 3 ∷ [] else if b == 0 then 9 ∷ [] else []

abbrev the_loop : Loop
the_loop = record {
  is_loop_simplify_form = true;
  preheader = 0;
  exit_blocks = 2 ∷ [];
  instructions = body;
  view = body_view;
  blocks = 1 ∷ [];
}

abbrev bodies_0_1 : Option Bodies → List (List ℕ)
bodies_0_1 none = []
bodies_0_1 (some s) = s 0 ∷ s 1 ∷ []

the_loop_run :
    bodies_0_1 (run first_dominates (0 ∷ 1 ∷ 2 ∷ []) ((λ s. the_loop) ∷ []) placement)
    ≡ (9 ∷ 3 ∷ 2 ∷ []) ∷ (0 ∷ 1 ∷ []) ∷ []
unfolding run
the_loop_run = refl

phi_not-Invariant : Invariant (defined_inside the_loop) body 0 → ⊥
unfolding find_li_instr is_contained
phi_not-Invariant v =
    let marked : is_contained 0 (3 ∷ 2 ∷ []) ≡ true =
      (find_li_instr-IsExact body_view (1 ∷ []) body body_view-IsInnermost).1 0 v in
    absurd cc

run-IsLeft_example :
    IsLeft first_dominates
      (0 ∷ 1 ∷ 2 ∷ [])
      0
      placement
      (run first_dominates (0 ∷ 1 ∷ 2 ∷ []) ((λ s. the_loop) ∷ []) placement)
run-IsLeft_example =
    run-IsLeft first_dominates (0 ∷ 1 ∷ 2 ∷ []) 0 ((λ s. the_loop) ∷ []) placement
      ((λ s. (body_view-IsInnermost, phi_not-Invariant)), tt)

-- Each instruction of the placement stands in the block of its number.
abbrev block_of : ℕ → ℕ
block_of y = if y == 9 then 0 else 1

-- In block 1 of the loop, %0 is used in the exit 2 and by %1. Block 1 dominates 2 but not the exit 3, so
-- %0 stays, and %1, which no exit's block uses, is moved before it.
abbrev used_outside : LoopInstruction
used_outside = record {
  identity = 0;
  parent = 1;
  is_terminator = false;
  operands = argument 0 ∷ [];
  users = 1 ∷ 2 ∷ [];
}

abbrev user_inside : LoopInstruction
user_inside = record {
  identity = 1;
  parent = 1;
  is_terminator = false;
  operands = result 0 ∷ [];
  users = 1 ∷ [];
}

abbrev dominates_first_exit : ℕ → ℕ → Bool
dominates_first_exit a b = a == b || a == 0 || (a == 1 && b == 2)

moved_before_operand :
    bodies_0_1 (
      run dominates_first_exit
        (0 ∷ 1 ∷ 2 ∷ 3 ∷ [])
        ((λ s. record {
          is_loop_simplify_form = true;
          preheader = 0;
          exit_blocks = 2 ∷ 3 ∷ [];
          instructions = used_outside ∷ user_inside ∷ [];
          view = body_view;
          blocks = 1 ∷ [];
        })
          ∷ [])
        (λ b. if b == 1 then 0 ∷ 1 ∷ [] else []))
    ≡ (1 ∷ []) ∷ (0 ∷ []) ∷ []
unfolding run
moved_before_operand = refl

-- Two loops, with headers 1 and 3, and block 2 between them; each stores once.
abbrev before : FusionLoop
before = record {
  header = 1;
  preheader = some 0;
  exit_block = some 2;
  is_loop_simplify_form = true;
  memory_instructions = record { identity = 5; is_store = true } ∷ [];
}

abbrev behind : FusionLoop
behind = record {
  header = 3;
  preheader = some 2;
  exit_block = some 4;
  is_loop_simplify_form = true;
  memory_instructions = record { identity = 6; is_store = true } ∷ [];
}

abbrev straight : Analyses
straight = record {
  dominates = λ a b. leb a b;
  post_dominates = λ a b. leb b a;
  backedge_count = λ l. some 10;
  is_direction_negative = λ src dst. false;
}

fusible_run : fusible_loops straight (before ∷ behind ∷ []) ≡ (before, behind) ∷ []
unfolding fusible_loops
fusible_run = refl

pair_found : IsIn (before, behind) (fusible_loops straight (before ∷ behind ∷ []))
unfolding fusible_loops
pair_found = inl refl

fusible_loops-IsFusible_example : IsFusible straight (before ∷ behind ∷ []) before behind
fusible_loops-IsFusible_example =
    fusible_loops-IsFusible straight (before ∷ behind ∷ []) before behind pair_found

-- Calls of the function 0, a declaration, and of 1 and 2.
abbrev calls : List (List CallSite)
calls = (call (some 0) ∷ no_call ∷ call (some 1) ∷ []) ∷ (call (some 2) ∷ []) ∷ []

calls_run : count_blocks (λ f. f == 0) calls 0 ≡ some 2
unfolding count_blocks
calls_run = refl

indirect_run : count_blocks (λ f. f == 0) ((call (some 1) ∷ call none ∷ []) ∷ []) 0 ≡ none
unfolding count_blocks
indirect_run = refl

count_blocks-IsCount_example :
    IsCount (λ f. f == 0) (all_sites calls) 0 (count_blocks (λ f. f == 0) calls 0)
count_blocks-IsCount_example = count_blocks-IsCount (λ f. f == 0) calls
