-- ===== src/Compiler/Plan.antt =====
-- `buildPlan`, `run` and `Compile`.
pub mod Total
pub mod Built
pub mod Checks
pub mod Sound
use pipetest.Ast.{
  Stmt, SettingKind, setting_base, setting_timeout, FlowDecl, FlowStep, HttpLine, ReqLine,
  http_line, Expr, string_lit, duration_lit, flow_decl, setting_stmt, let_stmt, Program,
}
use pipetest.Base.Assoc.{insert}
use pipetest.Base.Order.{sort_by}
use pipetest.Base.Outcome.{Outcome, ok, ◌>>=◌}
use pipetest.Base.Text.{Text, text_lt}
use pipetest.Base.{Bool, List, [], ◌∷◌, ◌++◌, map, Option, none, some}
use pipetest.Compiler.Flows.{binding_of, pass_flows}
use pipetest.Compiler.Imports.{pass_imports}
use pipetest.Compiler.Inherit.{pass_request_inheritance}
use pipetest.Compiler.Requests.{pass_requests}
use pipetest.Compiler.State.{
  Compiler, Module, Plan, PlanRequest, PlanFlow, PlanStep, ReqInfo, lines_of, stmts_at,
  normalize_path,
}
use pipetest.Compiler.Symbols.{pass_symbols}
use pipetest.Diagnostics.{Diagnostic, sort_and_dedupe}

abbrev set_setting : SettingKind → Expr → Plan → Plan
set_setting setting_base (string_lit _ value _) p = record p { base = some value }
set_setting setting_timeout (duration_lit raw _) p = record p { timeout = some raw }
set_setting _ _ p = p

-- The first loop of `buildPlan`.
unfoldable pub plan_settings : List Stmt → Plan → Plan
plan_settings [] p = p
plan_settings (setting_stmt s ∷ ss) p = plan_settings ss (set_setting s.kind s.value p)
plan_settings (let_stmt s ∷ ss) p = plan_settings ss (record p { globals = p.globals ++ s ∷ [] })
plan_settings (_ ∷ ss) p = plan_settings ss p

unfoldable pub first_http : List ReqLine → Option HttpLine
first_http [] = none
first_http (http_line l ∷ ls) = some l
first_http (_ ∷ ls) = first_http ls

unfoldable pub plan_request : List (Text × List ReqLine) → Text × ReqInfo → PlanRequest
unfolding lines_of first_http
plan_request eff_reqs (name, req) = record {
  name = name;
  parent = req.decl.parent;
  http = first_http (lines_of name eff_reqs);
  lines = lines_of name eff_reqs;
  decl = req.decl;
}

abbrev pub plan_step : FlowStep → PlanStep
plan_step step = record { request = step.req_name; binding = binding_of step }

unfoldable pub plan_flow : FlowDecl → PlanFlow
plan_flow flow = record {
  name = flow.name.value;
  steps = map plan_step flow.chain;
  lets = map (λ l. l.name) flow.prelude;
  check = map (λ a. a.expr) flow.asserts;
  span = flow.span;
  decl = flow;
}

unfoldable pub plan_flows : List Stmt → List PlanFlow
unfolding plan_flow
plan_flows [] = []
plan_flows (flow_decl flow ∷ ss) = plan_flow flow ∷ plan_flows ss
plan_flows (_ ∷ ss) = plan_flows ss

abbrev pub request_less : PlanRequest → PlanRequest → Bool
request_less a b = text_lt a.name b.name

abbrev pub flow_less : PlanFlow → PlanFlow → Bool
flow_less a b = text_lt a.name b.name

unfoldable pub build_plan : Compiler → Outcome Plan
unfolding stmts_at plan_settings plan_request plan_flows sort_by
build_plan c = stmts_at c.modules c.entry_path >>= λ stmts. ok (
    plan_settings stmts (record {
      entry_path = c.entry_path;
      requests = sort_by request_less (map (plan_request c.eff_reqs) c.reqs);
      flows = sort_by flow_less (plan_flows stmts);
      base = none;
      timeout = none;
      globals = [];
    }))

-- The five passes of `run`.
unfoldable pub passes : Compiler → Outcome Compiler
unfolding pass_imports pass_symbols pass_request_inheritance pass_requests pass_flows
passes c = pass_imports c >>= λ c₁.
    pass_symbols c₁ >>= λ c₂. pass_request_inheritance c₂ >>= λ c₃. pass_flows (pass_requests c₃)

-- `if len(c.diags) > 0 { return }; c.buildPlan()`
unfoldable pub finish : Compiler → List Diagnostic → Outcome Compiler
unfolding build_plan
finish c [] = build_plan c >>= λ p. ok (record c { plan = some p })
finish c (d ∷ ds) = ok c

unfoldable pub run : Compiler → Outcome Compiler
unfolding passes finish
run c = passes c >>= λ c'. finish c' c'.diags

unfoldable pub add_modules : List Module → List (Text × Program) → List (Text × Program)
unfolding insert normalize_path
add_modules [] m = m
add_modules (x ∷ xs) m = add_modules xs (insert (normalize_path x.path) x.program m)

unfoldable pub new_compiler : Text → List Module → Compiler
unfolding normalize_path add_modules
new_compiler entry_path modules = record {
  entry_path = normalize_path entry_path;
  modules = add_modules modules [];
  ordered = [];
  diags = [];
  plan = none;
  reqs = [];
  eff_reqs = [];
  globals = [];
}

-- `return nil, SortAndDedupe(c.diags)` or `return c.plan, nil`
unfoldable pub answer : Compiler → List Diagnostic → Option Plan × List Diagnostic
unfolding sort_and_dedupe
answer c [] = (c.plan, [])
answer c (d ∷ ds) = (none, sort_and_dedupe (d ∷ ds))

unfoldable pub compile : Text → List Module → Outcome (Option Plan × List Diagnostic)
unfolding run answer new_compiler
compile entry_path modules = run (new_compiler entry_path modules) >>= λ c. ok (answer c c.diags)
