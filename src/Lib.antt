-- ===== src/Lib.antt =====
-- pipetest: a command line tool that compiles a small language of HTTP requests and flows, runs the
-- flows and reports on them. A source file goes through the lexer and the parser
-- (internal/lexer, internal/parser) to a syntax tree (internal/ast); the compiler
-- (internal/compiler) checks a graph of such modules and builds a plan; the runtime
-- (internal/runtime) runs the plan; the report (internal/report) turns the plan and the
-- diagnostics of the run into suites of testcases. All diagnostics are sorted and deduplicated by
-- internal/diagnostics before they are shown.
--
-- Which file models which part:
--   Ast             internal/ast/ast.go: a record for each struct, a data type for each interface.
--   Diagnostics     internal/diagnostics/diagnostics.go: Diagnostic, relatedSortKey, dedupeKey,
--                   SortAndDedupe. Its children hold the proofs on order, keys and output.
--   Compiler        internal/compiler/compiler.go, a child for each pass: Imports (passImports),
--                   Symbols (passSymbols), Inherit (passRequestInheritance) with Merge
--                   (mergeRequestLines), Requests (passRequests), Flows (passFlows), Plan (buildPlan,
--                   run, Compile); Scan has the two regular expressions, Idents and Vars what the
--                   passes collect from expressions, State the compiler's fields.
--   Lexer           internal/lexer: Token (token.go: kinds and tokens), State (the fields, advance,
--                   peek), Scan (scanToken and the scanners below it; Kinds has their tables),
--                   Layout (indentation, line breaks, comments, the end), Next (Next and Lex).
--                   Moves, Scanned, Levels, Progress and Stream hold the proofs.
--   Parser          internal/parser/parser.go: State (cur, peek, errs and the helpers on them),
--                   Spans, Expr (parseExpr and below), Lines (lets, directives, hooks, assertions),
--                   Decls (requests, flows, ParseProgram).
--   Runtime         internal/runtime/runtime.go: Value (values and the library's functions on them),
--                   Eval (evalExpr), Path (jsonPathLookup), Steps (names, diagnostics and URLs of
--                   steps, formatExpr, the log of assertions). Their children hold the proofs.
--   Report          internal/report/report.go: Build, the summaries, the JUnit elements.
--   Command         cmd/pipetest/main.go: compileProgram on loaded modules, printCommandResult, the
--                   command eval. Exits has the proof on its exit code.
--   Base            lists, texts, maps, sorting, outcomes and cleaned file paths, for all of these.
--   Tests           a small program, and every result at a concrete input.
--
-- How the code is modelled. A text is the list of its bytes. A map is an association list in
-- the order of first insertion; where Go ranges over a map in no fixed order and collects
-- diagnostics, the model goes in that order, and the sorting in SortAndDedupe follows. A pass takes
-- the compiler's record and gives the new one. A read of a missing module's statements, which is a
-- nil dereference, is the outcome panic. The recursive closures dfs and resolve have one unit of
-- fuel for each level of the stack, one more than there are modules or requests; that this is
-- enough is part of the results on them. The parser has fuel for nesting and for the rounds of its
-- loops, given by its caller; for an expression two more than the tokens is enough. The loops of
-- the lexer have fuel for each byte that is left and one more, Lex two for each byte and two more,
-- and jsonPathLookup one for each byte of the path; where it does not suffice the outcome is one of
-- its own, so that a result that code ends with a value says that the fuel is enough. strconv.Unquote, strconv.Quote and the tables of unicode are parameters; of the last the
-- results use what unicode documents on ASCII. An evaluation takes the maps that it reads by value,
-- and float64, fmt.Sprint, json.Marshal, regexp, the environment and the clock as parameters.
-- Numbers are naturals: no line, column or count is negative, and none comes near the bound of a
-- machine word.
--
-- Not modelled: in the runtime, assignments, which change maps that several names may share, hooks,
-- templates and the sending of requests; in the command line, the reading of files and the commands
-- run and request; the encoding and writing of files, which are I/O; the join of lexer and parser in
-- Parse.
pub mod Base
pub mod Ast
pub mod Diagnostics
pub mod Compiler
pub mod Lexer
pub mod Parser
pub mod Runtime
pub mod Report
pub mod Command
pub mod Tests
