-- ===== src/Labs/CallCount.antt =====
-- The pass TestPass, labs/lab1/TestPass.cpp: what it reports of each function of a module.
use llvm17_learning_repo.Common.{
  ◌^◌, ◌-◌, leb, ℕ, suc, ◌+◌, Bool, true, false, Option, none, some, List, [], ◌∷◌, ◌++◌, length,
  if◌then◌else◌,
}
pub mod Totals

-- What the pass asks of an instruction: whether it is a CallInst, and its getCalledFunction(), `none`
-- for nullptr.
pub data CallSite : Type 0 where
  no_call : CallSite
  call : Option ℕ → CallSite

-- A function with its blocks; one without blocks is a declaration.
pub record CalledFunction : Type 0 where
  pub arg_size : ℕ
  pub is_var_arg : Bool
  pub blocks : List (List CallSite)

-- The numbers that are printed for a function.
pub record Report : Type 0 where
  pub arguments : ℕ
  pub variadic : Bool
  pub basic_blocks : ℕ
  pub instructions : ℕ
  pub call_count : ℕ

unfoldable pub instruction_count : List (List CallSite) → ℕ
instruction_count [] = 0
instruction_count (b ∷ bs) = length b + instruction_count bs

module _ (is_declaration : ℕ → Bool) where
  -- The body of the loop over the instructions, on the int callCount; `none` where nullptr is dereferenced
  -- or the int overflows.
  unfoldable pub count_instruction : CallSite → ℕ → Option ℕ
  count_instruction no_call n = some n
  count_instruction (call none) n = none
  count_instruction (call (some f)) n =
      if is_declaration f then some n else if leb (2 ^ 31 - 1) n then none else some (suc n)

  abbrev pub count_on : (ℕ → Option ℕ) → Option ℕ → Option ℕ
  count_on rest none = none
  count_on rest (some n) = rest n

  unfoldable pub count_block : List CallSite → ℕ → Option ℕ
  unfolding count_instruction
  count_block [] n = some n
  count_block (i ∷ b) n = count_on (count_block b) (count_instruction i n)

  unfoldable pub count_blocks : List (List CallSite) → ℕ → Option ℕ
  unfolding count_block
  count_blocks [] n = some n
  count_blocks (b ∷ bs) n = count_on (count_blocks bs) (count_block b n)

  abbrev pub report_of : CalledFunction → Option ℕ → Option Report
  report_of f none = none
  report_of f (some n) = some (record {
    arguments = f.arg_size;
    variadic = f.is_var_arg;
    basic_blocks = length f.blocks;
    instructions = instruction_count f.blocks;
    call_count = n;
  })

  -- `run(Function &F, ...)`, and the body of the loop of `run(Module &M, ...)`.
  unfoldable pub run_function : CalledFunction → Option Report
  unfolding count_blocks instruction_count
  run_function f = report_of f (count_blocks f.blocks 0)

  abbrev pub report_next : Option Report → Option (List Report) → Option (List Report)
  report_next none rs = none
  report_next (some r) none = none
  report_next (some r) (some rs) = some (r ∷ rs)

  -- `run(Module &M, ...)`
  unfoldable pub run_module : List CalledFunction → Option (List Report)
  unfolding run_function
  run_module [] = some []
  run_module (f ∷ fs) = report_next (run_function f) (run_module fs)
