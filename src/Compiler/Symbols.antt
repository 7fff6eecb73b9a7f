-- ===== src/Compiler/Symbols.antt =====
-- `passSymbols`: requests, flow names and globals of the modules, in the order of their paths.
pub mod Names
use pipetest.Ast.{
  Program, Stmt, Span, import_stmt, setting_stmt, let_stmt, req_decl, flow_decl, ReqDecl, FlowDecl,
}
use pipetest.Base.Assoc.{lookup, insert, add}
use pipetest.Base.Outcome.{Outcome, ok, ◌>>=◌}
use pipetest.Base.Text.{Text, text, text_eq}
use pipetest.Base.{List, [], ◌∷◌, ◌++◌, Option, none, some, if◌then◌else◌}
use pipetest.Compiler.State.{Compiler, ReqInfo, diag_at, related_diag, stmts_at}
use pipetest.Diagnostics.{Diagnostic}

pub record SymbolTable : Type 0 where
  pub reqs : List (Text × ReqInfo)
  pub flow_names : List (Text × Span)
  pub globals : List Text
  pub diags : List Diagnostic

-- `if path != c.entryPath`
unfoldable pub imported_flow : Text → Text → FlowDecl → List Diagnostic
unfolding diag_at text text_eq
imported_flow entry path s =
    if text_eq path entry
    then []
    else diag_at (text "E_IMPORT_FLOW_IN_IMPORTED_FILE")
        (text "flows are not allowed in imported files") path s.span
        (text "move flow declarations to the entry file")
      ∷ []

unfoldable pub duplicate_flow : Text → Text → FlowDecl → Span → Diagnostic
unfolding related_diag text
duplicate_flow entry path s prev =
    related_diag (text "E_SEM_DUPLICATE_FLOW_NAME") (text "duplicate flow name") path s.span entry
      prev (text "rename one of the flow declarations")

unfoldable pub duplicate_req : Text → ReqDecl → ReqInfo → Diagnostic
unfolding related_diag text
duplicate_req path s prev =
    related_diag (text "E_SEM_DUPLICATE_REQ_NAME") (text "duplicate request name") path s.span
      prev.file prev.decl.span (text "rename one of the request declarations")

-- The body of the loop over a module's statements.
unfoldable pub symbol_stmt : Text → Text → Stmt → SymbolTable → SymbolTable
unfolding imported_flow duplicate_flow duplicate_req lookup insert add
symbol_stmt entry path (flow_decl s) t =
    let diags = t.diags ++ imported_flow entry path s in
    elim (lookup s.name.value t.flow_names) [
      | some prev ↦ record t { diags = diags ++ duplicate_flow entry path s prev ∷ [] }
      | none ↦ record t { diags = diags; flow_names = insert s.name.value s.span t.flow_names }
    ]
symbol_stmt entry path (req_decl s) t = elim (lookup s.name t.reqs) [
  | some prev ↦ record t { diags = t.diags ++ duplicate_req path s prev ∷ [] }
  | none ↦ record t { reqs = insert s.name (record { decl = s; file = path }) t.reqs }
]
symbol_stmt entry path (let_stmt s) t = record t { globals = add s.name t.globals }
symbol_stmt entry path (import_stmt _) t = t
symbol_stmt entry path (setting_stmt _) t = t

unfoldable pub symbol_stmts : Text → Text → List Stmt → SymbolTable → SymbolTable
unfolding symbol_stmt
symbol_stmts entry path [] t = t
symbol_stmts entry path (s ∷ ss) t = symbol_stmts entry path ss (symbol_stmt entry path s t)

unfoldable pub symbol_modules :
    Text → List (Text × Program) → List Text → SymbolTable → Outcome SymbolTable
unfolding symbol_stmts stmts_at
symbol_modules entry modules [] t = ok t
symbol_modules entry modules (path ∷ paths) t = stmts_at modules path >>= λ stmts.
    symbol_modules entry modules paths (symbol_stmts entry path stmts t)

unfoldable pub unknown_parent : ReqInfo → Diagnostic
unfolding diag_at text
unknown_parent req =
    diag_at (text "E_SEM_UNKNOWN_PARENT_REQ") (text "unknown parent request") req.file req.decl.span
      (text "reference an existing request as parent")

unfoldable pub check_parent : List (Text × ReqInfo) → ReqInfo → Option Text → List Diagnostic
unfolding unknown_parent lookup
check_parent reqs req none = []
check_parent reqs req (some p) = elim (lookup p reqs) [
  | none ↦ unknown_parent req ∷ []
  | some _ ↦ []
]

unfoldable pub check_parents : List (Text × ReqInfo) → List (Text × ReqInfo) → List Diagnostic
unfolding check_parent
check_parents reqs [] = []
check_parents reqs ((_, req) ∷ rest) =
    check_parent reqs req req.decl.parent ++ check_parents reqs rest

unfoldable pub pass_symbols : Compiler → Outcome Compiler
unfolding symbol_modules check_parents
pass_symbols c =
    symbol_modules c.entry_path c.modules c.ordered
      (record { reqs = []; flow_names = []; globals = []; diags = c.diags })
    >>= λ t. ok (record c {
      reqs = t.reqs;
      globals = t.globals;
      diags = t.diags ++ check_parents t.reqs t.reqs;
    })
