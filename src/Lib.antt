-- ===== src/Lib.antt =====
-- LLVM17_learning_repo: a model of the programs of the repository, a front end for the Kaleidoscope
-- language and passes over LLVM IR, and theorems about them.
--
-- Kaleidoscope/ is the front end under kaleidoscope/.
-- - Chars: the C locale's isspace, isdigit, isalpha, isalnum and isascii on bytes. Floating: the type
--   double, strtod, the comparisons with 1 and 100 and the conversions, as parameters.
-- - Lexer: gettok of src/lexer.cpp. Its static LastChar, the rest of the file and the globals
--   IdentifierStr and NumVal are the record Lexer. The call of itself behind a comment is on fuel, one
--   unit for each byte that is left and one more, see Lexer/Unfold. Lexer/Progress measures what a token
--   takes, Lexer/Spelling says what a text is read as, one token at a time, and Lexer/Stream reads a whole
--   file, as the loop of test/lexer_test.cpp does.
-- - Syntax: the classes of include/ast.h. Parser/State: CurTok, BinopPrecedence and the messages of
--   LogError; a parser returns a node or nullptr with the state as it leaves it. Parser/Expressions and
--   Parser/Toplevel: one function for each parser of src/parser.cpp. The recursion is on fuel, and the
--   theorems ask for more of it than there are tokens and bytes left. Parser/Grammar is what a tree
--   spells, with the levels of the precedences; Contract and Rules say what a parser does to the state,
--   and the other modules of Parser prove it of each; Successes and Acceptance are about the
--   tokens that are accepted.
-- - Codegen: the methods codegen of src/ast.cpp. Codegen/Builder has the globals NamedValues,
--   FunctionProtos, TheModule and Builder, as the record Gen, and what the calls of the IRBuilder do to
--   the function that is built: registers, slots of the stack and blocks are numbers. A method returns a
--   value or nullptr with the globals, or aborts, on a failed assertion or undefined behaviour.
--   Codegen/Expressions and Codegen/Functions have one function for each method; constant folding and
--   the symbol tables of LLVM are parameters. Contract and Steps carry invariants through the methods,
--   Scope is about NamedValues, Blocks about the basic blocks, Known about the expressions that always
--   get a value.
-- - Driver: MainLoop and the handlers of src/main.cpp. The generator of code and the JIT are a parameter,
--   the record Backend, whose calls may not return; what FunctionAST::codegen of src/ast.cpp does to BinopPrecedence is written out.
--
-- Labs/ is the passes under labs/, on functions in LLVM IR.
-- - Ir: instructions with their identities and operands, and the edits replaceAllUsesWith,
--   removeFromParent, eraseFromParent and insertAfter. Ir/Machine: what running a block does. LLVM's
--   operations on integers and what other instructions yield are parameters, with what the language
--   reference says of them as laws. What a block does is the sequence of its instructions that are no
--   BinaryOperator, with the values of their operands. Ir/Ssa: blocks in SSA form. Replacing, Editing,
--   Retiring and Rewriting: an instruction is replaced by a value and removed.
-- - AlgIdentity, StrengthReduction and MultiInstruction: the passes of assignment1/src/assignment1.cpp.
--   Loops over the instructions of a block are over the instructions that stand there at the start.
--   Undefined behaviour and failed assertions are `none`. Flags like nsw are left out.
-- - LocalOpts: run of lab2/src/LocalOpts.cpp, where a failed assertion is `none`. Its child modules are
--   about isPowerOfTwo and about the edit, an instruction inserted behind another whose uses it takes.
-- - LoopInvariant: findLIInstr, findHoistableInstr and run of lab-licm/src/lab-loops.cpp, with LoopInfo and
--   the DominatorTree as parameters. The fixpoint is on fuel, one unit more than there are instructions: a
--   round that changes something marks one. Moves has the moves into the preheader, of the instructions
--   that each block holds before its terminator; what a loop consists of is read from what the moves before
--   it left.
-- - Fusion: the search of lab-fusion/src/lab-fusion.cpp for pairs of loops, with what LLVM's analyses say
--   of loops, blocks and memory instructions as a parameter. Fusing has the changes of the phis and of the
--   CFG, on blocks with their phis, operands and successors.
-- - CallCount: the numbers that TestPass of lab1/TestPass.cpp prints of a function.
--
-- Not modelled: the text of printed messages other than what LogError reports, verifyFunction and the
-- passes that run on a generated function, the JIT, the passes of lab3 that only print, run2 of lab2, the
-- registration of the passes with LLVM, the MLIR experiments under mlir_stuff/ and the Toy tutorial under
-- toy-external/.
pub mod Common
pub mod Kaleidoscope
pub mod Labs
