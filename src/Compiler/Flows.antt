-- ===== src/Compiler/Flows.antt =====
-- `passFlows`: chains, bindings, variables and assertions of the entry module's flows.
pub mod Chain
use pipetest.Ast.{Stmt, FlowDecl, FlowStep, AssertStmt, LetStmt, ReqLine, let_line, flow_decl}
use pipetest.Base.Assoc.{lookup, add, member}
use pipetest.Base.Outcome.{Outcome, ok, ◌>>=◌}
use pipetest.Base.Text.{Text, text}
use pipetest.Base.{◌||◌, List, [], ◌∷◌, ◌++◌, Option, none, some, if◌then◌else◌}
use pipetest.Compiler.Idents.{collect_expr_idents}
use pipetest.Compiler.State.{Compiler, ReqInfo, diag_at, lines_of, stmts_at}
use pipetest.Compiler.Vars.{required_vars, req_uses_path_param}
use pipetest.Diagnostics.{Diagnostic}

-- `binding := step.ReqName; if step.Alias != nil { binding = *step.Alias }`
abbrev pub alias_or : Option Text → Text → Text
alias_or none name = name
alias_or (some a) name = a

abbrev pub binding_of : FlowStep → Text
binding_of step = alias_or step.alias step.req_name

-- The local maps of the loop over a flow, and the diagnostics so far.
pub record FlowScope : Type 0 where
  pub bindings : List Text
  pub defined : List Text
  pub diags : List Diagnostic

abbrev pub report : Diagnostic → FlowScope → FlowScope
report d s = record s { diags = s.diags ++ d ∷ [] }

unfoldable pub unknown_request : Compiler → FlowStep → Diagnostic
unfolding diag_at text
unknown_request c step =
    diag_at (text "E_SEM_UNKNOWN_REQ_IN_FLOW") (text "unknown request in flow: " ++ step.req_name)
      c.entry_path step.span (text "reference an existing request")

unfoldable pub duplicate_binding : Compiler → FlowStep → Diagnostic
unfolding diag_at text
duplicate_binding c step =
    diag_at (text "E_SEM_DUPLICATE_FLOW_BINDING")
      (text "duplicate flow binding: " ++ binding_of step) c.entry_path step.span
      (text "use unique aliases in the chain")

unfoldable pub undefined_variable : ReqInfo → List ReqLine → Text → Diagnostic
unfolding diag_at text req_uses_path_param
undefined_variable req lines name =
    diag_at
      (if req_uses_path_param lines name
        then text "E_SEM_MISSING_PATH_PARAM_VAR"
        else text "E_SEM_UNDEFINED_VARIABLE")
      (text "undefined variable: " ++ name) req.file req.decl.span
      (text "define variable globally, in flow prelude, or in prior request lets")

unfoldable pub bind_step : Compiler → FlowStep → FlowScope → FlowScope
unfolding member duplicate_binding
bind_step c step s =
    if member (binding_of step) s.bindings
    then report (duplicate_binding c step) s
    else record s { bindings = s.bindings ++ binding_of step ∷ [] }

unfoldable pub check_required : ReqInfo → List ReqLine → List Text → FlowScope → FlowScope
unfolding undefined_variable member
check_required req lines [] s = s
check_required req lines (name ∷ names) s =
    check_required req lines names
      (if member name s.defined then s else report (undefined_variable req lines name) s)

unfoldable pub define_lets : List ReqLine → List Text → List Text
unfolding add
define_lets [] defined = defined
define_lets (let_line l ∷ ls) defined = define_lets ls (add l.name defined)
define_lets (_ ∷ ls) defined = define_lets ls defined

-- The body of the loop over the chain.
unfoldable pub check_step : Compiler → FlowStep → FlowScope → FlowScope
unfolding lookup lines_of unknown_request bind_step check_required define_lets required_vars
check_step c step s = elim (lookup step.req_name c.reqs) [
  | none ↦ report (unknown_request c step) s
  | some req ↦
      let lines = lines_of step.req_name c.eff_reqs in
      let s' = check_required req lines (required_vars lines) (bind_step c step s) in
      record s' { defined = define_lets lines s'.defined }
]

unfoldable pub check_chain : Compiler → List FlowStep → FlowScope → FlowScope
unfolding check_step
check_chain c [] s = s
check_chain c (step ∷ steps) s = check_chain c steps (check_step c step s)

unfoldable pub unknown_binding : Compiler → AssertStmt → Text → Diagnostic
unfolding diag_at text
unknown_binding c as' ident =
    diag_at (text "E_SEM_UNKNOWN_FLOW_BINDING") (text "unknown flow binding or variable: " ++ ident)
      c.entry_path as'.span (text "use a binding from the chain or a defined variable")

unfoldable pub check_idents : Compiler → AssertStmt → List Text → FlowScope → FlowScope
unfolding member unknown_binding
check_idents c as' [] s = s
check_idents c as' (ident ∷ idents) s = check_idents c as' idents (
    if member ident s.defined || member ident s.bindings
    then s
    else report (unknown_binding c as' ident) s)

unfoldable pub check_asserts : Compiler → List AssertStmt → FlowScope → FlowScope
unfolding check_idents collect_expr_idents
check_asserts c [] s = s
check_asserts c (as' ∷ rest) s =
    check_asserts c rest (check_idents c as' (collect_expr_idents as'.expr) s)

unfoldable pub define_prelude : List LetStmt → List Text → List Text
unfolding add
define_prelude [] defined = defined
define_prelude (l ∷ ls) defined = define_prelude ls (add l.name defined)

unfoldable pub missing_chain : Compiler → FlowDecl → Diagnostic
unfolding diag_at text
missing_chain c flow =
    diag_at (text "E_SEM_FLOW_MISSING_CHAIN") (text "flow must contain a chain") c.entry_path
      flow.span (text "add a chain line using ->")

-- What the body of the loop over the flows appends, by the flow's chain.
unfoldable pub chain_diags : Compiler → FlowDecl → List FlowStep → List Diagnostic
unfolding missing_chain check_chain check_asserts define_prelude
chain_diags c flow [] = missing_chain c flow ∷ []
chain_diags c flow (step ∷ steps) =
    (check_asserts c flow.asserts (
      check_chain c (step ∷ steps) (record {
        bindings = [];
        defined = define_prelude flow.prelude c.globals;
        diags = [];
      }))).diags

unfoldable pub flows_diags : Compiler → List Stmt → List Diagnostic
unfolding chain_diags
flows_diags c [] = []
flows_diags c (flow_decl flow ∷ stmts) = chain_diags c flow flow.chain ++ flows_diags c stmts
flows_diags c (_ ∷ stmts) = flows_diags c stmts

-- An entry module that is missing is a nil program, whose statements cannot be read.
unfoldable pub pass_flows : Compiler → Outcome Compiler
unfolding stmts_at flows_diags
pass_flows c = stmts_at c.modules c.entry_path >>= λ stmts.
    ok (record c { diags = c.diags ++ flows_diags c stmts })
