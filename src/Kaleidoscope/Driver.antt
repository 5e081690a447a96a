-- ===== src/Kaleidoscope/Driver.antt =====
-- The loop of kaleidoscope/src/main.cpp and the handlers it calls, and the table of precedences of
-- FunctionAST::codegen in kaleidoscope/src/ast.cpp.
use llvm17_learning_repo.Common.{
  ℕ, zero, suc, ◌==◌, Bool, true, false, Option, none, some, List, [], ◌∷◌, if◌then◌else◌,
}
use llvm17_learning_repo.Kaleidoscope.Chars.{Bytes}
use llvm17_learning_repo.Kaleidoscope.Floating.{Floating}
use llvm17_learning_repo.Kaleidoscope.Lexer.{Token, tok_eof, tok_def, tok_extern, tok_char}
use llvm17_learning_repo.Kaleidoscope.Syntax.{Prototype, Function, is_binary_op}
use llvm17_learning_repo.Kaleidoscope.Parser.State.{State, Outcome, done, out_of_fuel, advance}
use llvm17_learning_repo.Kaleidoscope.Parser.Toplevel.{
  parse_definition, parse_extern, parse_top_level_expr,
}
pub mod Termination
pub mod Precedences

-- How FunctionAST::codegen returns: without a Function to fill, without a body, or with both.
pub data Generated : Type 0 where
  no_function : Generated
  no_body : Generated
  with_body : Generated

-- What the generator of code and the JIT keep and do, all of it but BinopPrecedence. The evaluation of
-- a top-level expression is a part of `generate`. `none` is a call that does not return: a failed
-- assertion, undefined behaviour, the exit of ExitOnErr, or an evaluation without end.
pub record Backend (D : Type 0) : Type 1 where
  pub Memory : Type 0
  pub generate : Function D → Memory → Option (Generated × Memory)
  pub declare : Prototype → Memory → Option Memory

-- `Name[Name.size() - 1]`
unfoldable pub get_operator_name : Bytes → ℕ
get_operator_name [] = 0
get_operator_name (c ∷ []) = c
get_operator_name (c ∷ d ∷ s) = get_operator_name (d ∷ s)

-- `BinopPrecedence[c] = prec`, and `BinopPrecedence.erase(c)` with 0.
unfoldable pub set_precedence : ℕ → ℕ → (ℕ → ℕ) → ℕ → ℕ
set_precedence c prec table k = if k == c then prec else table k

-- What FunctionAST::codegen does to BinopPrecedence.
unfoldable pub install_operator : Prototype → Generated → (ℕ → ℕ) → ℕ → ℕ
unfolding set_precedence get_operator_name is_binary_op
install_operator p no_function table = table
install_operator p no_body table =
    if is_binary_op p then set_precedence (get_operator_name p.name) 0 table else table
install_operator p with_body table =
    if is_binary_op p then set_precedence (get_operator_name p.name) p.precedence table else table

module _ (fl : Floating) (backend : Backend fl.Double) where
  open fl use {Double}
  open backend use {Memory, generate, declare}

  -- The globals of the front end and of the generator.
  pub record Session : Type 0 where
    pub state : State Double
    pub memory : Memory

  -- How a round of the loop comes out: with the globals, within a call of the backend that does not
  -- return, or without fuel.
  pub data Round : Type 0 where
    running : Session → Round
    stopped_function : Function Double → Memory → Round
    stopped_extern : Prototype → Memory → Round
    no_fuel : Round

  -- `FnAST->codegen()`, and what is done with its result.
  unfoldable pub install_generated :
      Function Double → State Double → Memory → Option (Generated × Memory) → Round
  unfolding install_operator
  install_generated fn u m none = stopped_function fn m
  install_generated fn u m (some (g, after)) = running (record {
    state = record u { binop_precedence = install_operator fn.proto g u.binop_precedence };
    memory = after;
  })

  unfoldable pub generate_function : Function Double → State Double → Memory → Round
  unfolding install_generated
  generate_function fn u m = install_generated fn u m (generate fn m)

  unfoldable pub install_extern : Prototype → State Double → Memory → Option Memory → Round
  install_extern p u m none = stopped_extern p m
  install_extern p u m (some after) = running (record { state = u; memory = after })

  unfoldable pub generate_extern : Prototype → State Double → Memory → Round
  unfolding install_extern
  generate_extern p u m = install_extern p u m (declare p m)

  -- A handler: a node is generated, and behind nullptr a token is skipped.
  unfoldable pub handle :
      {A : Type 0} → (A → State Double → Memory → Round) → Memory → Outcome Double A → Round
  unfolding advance
  handle generated m (done (some a) u) = generated a u m
  handle generated m (done none u) = running (record { state = advance fl u; memory = m })
  handle generated m out_of_fuel = no_fuel

  unfoldable pub handle_definition : ℕ → Session → Round
  unfolding handle generate_function parse_definition
  handle_definition f s = handle generate_function s.memory (parse_definition fl f s.state)

  unfoldable pub handle_extern : ℕ → Session → Round
  unfolding handle generate_extern parse_extern
  handle_extern f s = handle generate_extern s.memory (parse_extern fl f s.state)

  unfoldable pub handle_top_level_expression : ℕ → Session → Round
  unfolding handle generate_function parse_top_level_expr
  handle_top_level_expression f s =
      handle generate_function s.memory (parse_top_level_expr fl f s.state)

  -- A round of the loop on CurTok, other than tok_eof.
  unfoldable pub handle_token : ℕ → Token → Session → Round
  unfolding handle_definition handle_extern handle_top_level_expression advance
  handle_token f tok_def s = handle_definition f s
  handle_token f tok_extern s = handle_extern f s
  handle_token f (tok_char c) s =
      if c == b';'
      then running (record s { state = advance fl s.state })
      else handle_top_level_expression f s
  handle_token f t s = handle_top_level_expression f s

  abbrev pub next_round : (Session → Round) → Round → Round
  next_round loop (running s) = loop s
  next_round loop r = r

  -- `switch (CurTok)`
  abbrev pub main_switch : (Session → Round) → ℕ → Token → Session → Round
  main_switch loop f tok_eof s = running s
  main_switch loop f t s = next_round loop (handle_token f t s)

  -- `while (true)`
  unfoldable pub main_loop : ℕ → Session → Round
  unfolding handle_token
  main_loop zero s = no_fuel
  main_loop (suc f) s = main_switch (main_loop f) (suc f) s.state.cur_tok s
