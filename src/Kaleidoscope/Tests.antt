-- ===== src/Kaleidoscope/Tests.antt =====
-- Runs of the Kaleidoscope front end, and the theorems at inputs.
use llvm17_learning_repo.Common.{
  Bool, false, ◌==◌, if◌then◌else◌, ◌≡◌, refl, ltb, Option, none, some, List, [], ◌∷◌, arith,
  length, map,
}
use llvm17_learning_repo.Kaleidoscope.Chars.{Bytes, codes}
use llvm17_learning_repo.Kaleidoscope.Floating.{Floating}
use llvm17_learning_repo.Kaleidoscope.Lexer.{
  Token, tok_def, tok_extern, tok_identifier, tok_char, Lexer, gettok, open_file,
}
use llvm17_learning_repo.Kaleidoscope.Lexer.Stream.{Lexeme, lexeme, tokens, plain, identifier}
use llvm17_learning_repo.Kaleidoscope.Lexer.Stream
use llvm17_learning_repo.Kaleidoscope.Syntax.{Prototype, Expr, variable, binary, unary}
use llvm17_learning_repo.Kaleidoscope.Syntax
use llvm17_learning_repo.Kaleidoscope.Parser.State.{
  advance, expect, expect_identifier, fail, ◌>>=◌, ◌>>◌, or_log, ◌is◌, current, get_next_token,
  identifier_str, num_val, get_tok_precedence, State, Outcome, done, builtin_precedence,
}
use llvm17_learning_repo.Kaleidoscope.Parser.Expressions.{parse_expression}
use llvm17_learning_repo.Kaleidoscope.Lexer.Progress.{Progress, gettok-Progress}
use llvm17_learning_repo.Kaleidoscope.Lexer.Spelling.{All, at, gettok-comment, in_line}
use llvm17_learning_repo.Kaleidoscope.Lexer.Stream.{
  Piece, word, numeral, mark, text, reading, tokens_unfold, tokens-text, emit, ArePieces,
}
use llvm17_learning_repo.Kaleidoscope.Parser.Successes.{IsInFront, behind}
use llvm17_learning_repo.Kaleidoscope.Parser.Acceptance.{
  parse_extern-accepts, parse_definition-accepts,
}
use llvm17_learning_repo.Kaleidoscope.Parser.Contract.{Returns}
use llvm17_learning_repo.Kaleidoscope.Parser.Prototypes.{DerivesPrototype, function, parameters}
use llvm17_learning_repo.Kaleidoscope.Parser.Soundness.{
  ExpressionRead, parse_expression_sound, parse_prototype_sound,
}
use llvm17_learning_repo.Kaleidoscope.Chars.{is_space, is_alpha, is_alnum}
use llvm17_learning_repo.Kaleidoscope.Lexer.{is_numeral}
use llvm17_learning_repo.Kaleidoscope.Parser.Toplevel.{
  parse_prototype, parse_definition, parse_extern,
}
use llvm17_learning_repo.Kaleidoscope.Driver.{
  Backend, Session, main_loop, with_body, Round, running, stopped_function,
}
use llvm17_learning_repo.Kaleidoscope.Driver.Termination.{AtEnd, main_loop_ends}
use llvm17_learning_repo.Kaleidoscope.Syntax.{Function, Prototype}

-- Numerals kept as their text.
abbrev textual : Floating
textual = record {
  Double = Bytes;
  zero_double = [];
  one_double = codes "1";
  strtod = λ s. s;
  below_one = λ s. ltb (length s) 1;
  above_hundred = λ s. ltb 100 (length s);
  to_unsigned = λ s. length s;
  to_string = λ s. s;
}

lexed :
    tokens textual (open_file textual (codes "def f(x) # doc\n x*2.5"))
    ≡ plain tok_def
      ∷ identifier (codes "f")
      ∷ plain (tok_char b'(')
      ∷ identifier (codes "x")
      ∷ plain (tok_char b')')
      ∷ identifier (codes "x")
      ∷ plain (tok_char b'*')
      ∷ Stream.number (codes "2.5")
      ∷ []
unfolding tokens gettok Stream.emit
lexed = refl

abbrev at_name : Bytes → State Bytes
at_name text = record {
  lexer = record { input = text; last_char = some b' '; identifier_str = codes "x"; num_val = [] };
  cur_tok = tok_identifier;
  binop_precedence = builtin_precedence;
  errors = [];
}

abbrev node_of : {A : Type 0} → Outcome Bytes A → Option A
node_of (done r s) = r
node_of Outcome.out_of_fuel = none

precedence_run :
    node_of (parse_expression textual 30 (at_name (codes "+ y*2 - z")))
    ≡ some (
        binary b'-'
          (binary b'+'
            (variable (codes "x"))
            (binary b'*' (variable (codes "y")) (Syntax.number (codes "2"))))
          (variable (codes "z")))
unfolding parse_expression gettok ◌>>=◌ ◌>>◌ or_log ◌is◌ current get_next_token identifier_str
    num_val get_tok_precedence
precedence_run = refl

abbrev source : Lexer Bytes
source = open_file textual (codes "def f(x) x*2")

gettok-Progress_example : Progress textual 2 (gettok textual (at textual source b'x' (b';' ∷ [])))
gettok-Progress_example = gettok-Progress textual (at textual source b'x' (b';' ∷ []))

doc-in_line : All in_line (codes "doc")
unfolding in_line
doc-in_line = (refl, (refl, (refl, tt)))

gettok-comment_example :
    gettok textual (at textual source b'#' (codes "doc\nx"))
    ≡ gettok textual (at textual source b'\n' (codes "x"))
gettok-comment_example = gettok-comment textual source (codes "doc") (codes "x") doc-in_line

-- `f ( 2.5 `
abbrev pieces : List Piece
pieces = word b'f' (codes "1") ∷ mark b'(' ∷ numeral b'2' (codes ".5") ∷ []

pieces-ArePieces : ArePieces pieces
unfolding is_alpha is_alnum is_numeral is_space
pieces-ArePieces = (
  (refl, (refl, tt)),
  (
    record { nonspace = refl; nonalpha = refl; nonnumeral = refl; noncomment = refl },
    ((refl, (refl, (refl, tt))), tt),
  ),
)

tokens-text_example :
    tokens textual (at textual source 32 (text pieces)) ≡ map (reading textual) pieces
tokens-text_example = tokens-text textual source pieces pieces-ArePieces

parse_expression_sound_example :
    Returns textual
      (ExpressionRead textual (at_name (codes "+ y*2")))
      (at_name (codes "+ y*2"))
      (parse_expression textual 10 (at_name (codes "+ y*2")))
parse_expression_sound_example =
    parse_expression_sound textual 10 (at_name (codes "+ y*2")) (omega arith)

parse_prototype_sound_example :
    Returns textual
      (λ proto ts u. DerivesPrototype textual proto ts)
      (at_name (codes "(a b) 1"))
      (parse_prototype textual 10 (at_name (codes "(a b) 1")))
parse_prototype_sound_example =
    parse_prototype_sound textual 10 (at_name (codes "(a b) 1")) (omega arith)

-- A state whose CurTok is a keyword.
abbrev at_keyword : Token → Bytes → State Bytes
at_keyword t text = record (at_name text) { cur_tok = t }

-- `f(a)`
abbrev f_of_a : Prototype
f_of_a = record { name = codes "f"; args = codes "a" ∷ []; is_operator = false; precedence = 30 }

abbrev f_tokens : List (Lexeme Bytes)
f_tokens = identifier (codes "f") ∷ parameters (codes "a" ∷ [])

f_derived : DerivesPrototype textual f_of_a f_tokens
f_derived = function

extern-IsInFront :
    IsInFront textual (plain tok_extern ∷ f_tokens) (at_keyword tok_extern (codes "f(a);"))
unfolding gettok advance lexeme
extern-IsInFront = (refl, (refl, (refl, (refl, (refl, tt)))))

parse_extern-accepts_example :
    parse_extern textual 20 (at_keyword tok_extern (codes "f(a);"))
    ≡ done
        (some f_of_a)
        (behind textual (plain tok_extern ∷ f_tokens) (at_keyword tok_extern (codes "f(a);")))
parse_extern-accepts_example =
    parse_extern-accepts textual 20 f_of_a f_tokens (at_keyword tok_extern (codes "f(a);"))
      (omega arith) f_derived extern-IsInFront

definition-IsInFront :
    IsInFront textual (plain tok_def ∷ f_tokens) (at_keyword tok_def (codes "f(a) a;"))
unfolding gettok advance lexeme
definition-IsInFront = (refl, (refl, (refl, (refl, (refl, tt)))))

abbrev at_body : State Bytes
at_body = behind textual (plain tok_def ∷ f_tokens) (at_keyword tok_def (codes "f(a) a;"))

body_read :
    parse_expression textual 20 at_body
    ≡ done (some (variable (codes "a"))) (advance textual at_body)
unfolding gettok advance ◌>>=◌ ◌>>◌ or_log ◌is◌ current get_next_token identifier_str num_val
    get_tok_precedence expect expect_identifier fail parse_expression
body_read = refl

parse_definition-accepts_example :
    parse_definition textual 20 (at_keyword tok_def (codes "f(a) a;"))
    ≡ done (some (record { proto = f_of_a; body = variable (codes "a") })) (advance textual at_body)
parse_definition-accepts_example =
    parse_definition-accepts textual 20 f_of_a f_tokens (variable (codes "a"))
      (at_keyword tok_def (codes "f(a) a;")) (advance textual at_body) (omega arith) f_derived
      definition-IsInFront body_read

-- `x = y` as the body: FunctionAST::codegen has undefined behaviour on some assignments.
abbrev assigns : Expr Bytes → Bool
assigns (binary op l r) = op == b'='
assigns e = false

-- A generator that keeps the names of what it generated, the latest first, and does not come back from
-- an assignment.
abbrev recorder : Backend Bytes
recorder = record {
  Memory = List Bytes;
  generate = λ fn names. if assigns fn.body then none else some (with_body, fn.proto.name ∷ names);
  declare = λ p names. some (p.name ∷ names);
}

abbrev session_of : Bytes → Session textual recorder
session_of text = record {
  state = record {
    lexer = record { input = text; last_char = some b' '; identifier_str = []; num_val = [] };
    cur_tok = tok_char b';';
    binop_precedence = builtin_precedence;
    errors = [];
  };
  memory = [];
}

abbrev memory_of : Round textual recorder → List Bytes
memory_of (running s) = s.memory
memory_of (stopped_function fn names) = codes "stopped" ∷ names
memory_of r = []

-- A new operator is parsed with its precedence behind its definition.
session_run :
    memory_of
      (main_loop textual recorder 60 (session_of (codes "extern g(x) def binary| 5 (a b) b 1|2 )")))
    ≡ codes "__anon_expr" ∷ codes "binary|" ∷ codes "g" ∷ []
unfolding main_loop gettok ◌>>=◌ ◌>>◌ or_log ◌is◌ current get_next_token identifier_str num_val
    get_tok_precedence expect expect_identifier fail parse_expression parse_prototype
session_run = refl

-- The file is not read on behind a call that does not return.
stopped_run :
    memory_of (main_loop textual recorder 60 (session_of (codes "extern g(x) 1=2 g(3)")))
    ≡ codes "stopped" ∷ codes "g" ∷ []
unfolding main_loop gettok ◌>>=◌ ◌>>◌ or_log ◌is◌ current get_next_token identifier_str num_val
    get_tok_precedence expect expect_identifier fail parse_expression parse_prototype
stopped_run = refl

main_loop_ends_example :
    AtEnd textual recorder (main_loop textual recorder 60 (session_of (codes "def f(x) x*2 f(3)")))
main_loop_ends_example =
    main_loop_ends textual recorder 60 (session_of (codes "def f(x) x*2 f(3)")) (omega arith)
