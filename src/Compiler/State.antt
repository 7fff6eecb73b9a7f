-- ===== src/Compiler/State.antt =====
-- The plan, the state of the compiler and its diagnostics. A map is an association list in the
-- order of first insertion; where Go ranges over one in no fixed order, the model goes in that order.
use pipetest.Ast.{Program, Stmt, Span, HttpLine, ReqLine, ReqDecl, LetStmt, FlowDecl, Expr}
use pipetest.Base.Assoc.{lookup}
use pipetest.Base.FilePath.{clean}
use pipetest.Base.Outcome.{Outcome, ok, panic}
use pipetest.Base.Text.{Text, text}
use pipetest.Base.{List, [], Option, none, some}
use pipetest.Diagnostics.{Diagnostic}

pub record Module : Type 0 where
  pub path : Text
  pub program : Program

pub record PlanRequest : Type 0 where
  pub name : Text
  pub parent : Option Text
  pub http : Option HttpLine
  pub lines : List ReqLine
  pub decl : ReqDecl

pub record PlanStep : Type 0 where
  pub request : Text
  pub binding : Text

pub record PlanFlow : Type 0 where
  pub name : Text
  pub steps : List PlanStep
  pub lets : List Text
  pub check : List Expr
  pub span : Span
  pub decl : FlowDecl

pub record Plan : Type 0 where
  pub entry_path : Text
  pub requests : List PlanRequest
  pub flows : List PlanFlow
  pub base : Option Text
  pub timeout : Option Text
  pub globals : List LetStmt

pub record ReqInfo : Type 0 where
  pub decl : ReqDecl
  pub file : Text

pub record Compiler : Type 0 where
  pub entry_path : Text
  pub modules : List (Text × Program)
  pub ordered : List Text
  pub diags : List Diagnostic
  pub plan : Option Plan
  pub reqs : List (Text × ReqInfo)
  pub eff_reqs : List (Text × List ReqLine)
  pub globals : List Text

-- `filepath.ToSlash` changes nothing where the separator is `/`.
unfoldable pub normalize_path : Text → Text
unfolding clean
normalize_path path = clean path

-- The value that `addDiagAt` appends.
unfoldable pub diag_at : Text → Text → Text → Span → Text → Diagnostic
unfolding text
diag_at code msg file span hint = record {
  severity = text "error";
  code = code;
  message = msg;
  file = file;
  line = span.start.line;
  column = span.start.column;
  hint = hint;
  related = none;
  flow = none;
  request = none;
}

-- The value that `addRelatedDiag` appends.
unfoldable pub related_diag : Text → Text → Text → Span → Text → Span → Text → Diagnostic
unfolding text
related_diag code msg file span related_file related hint = record {
  severity = text "error";
  code = code;
  message = msg;
  file = file;
  line = span.start.line;
  column = span.start.column;
  hint = hint;
  related = some (record {
    file = related_file;
    line = related.start.line;
    column = related.start.column;
    message = text "first declaration";
  });
  flow = none;
  request = none;
}

-- `m[k]` for a map to slices: nil, the empty slice, where the key is missing.
unfoldable pub lines_of : Text → List (Text × List ReqLine) → List ReqLine
unfolding lookup
lines_of k m = elim (lookup k m) [ none ↦ [] | some lines ↦ lines ]

-- `c.modules[path].Stmts`, which panics on a missing key.
unfoldable pub stmts_at : List (Text × Program) → Text → Outcome (List Stmt)
unfolding lookup
stmts_at modules path = elim (lookup path modules) [ none ↦ panic | some prog ↦ ok prog.stmts ]
