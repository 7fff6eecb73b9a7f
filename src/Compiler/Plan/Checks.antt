-- ===== src/Compiler/Plan/Checks.antt =====
-- What the passes have checked when no diagnostic was added.
use mathlib.Core.Path.{subst}
use pipetest.Ast.{Program, Stmt, FlowDecl, flow_decl}
use pipetest.Base.Assoc.{lookup, lookup-In}
use pipetest.Base.Outcome.{ok, Returns, returns}
use pipetest.Base.Text.{Text}
use pipetest.Base.{
  ◌≡◌, refl, sym, ◌∙◌, ap, true, List, [], ◌++◌, some, is_some, Option-cases, inl, inr, arith,
  length, length-append, In,
}
use pipetest.Compiler.Flows.Chain.{FlowFits, flows_diags-fits}
use pipetest.Compiler.Flows.{flows_diags, pass_flows}
use pipetest.Compiler.Imports.Fuel.{IsLoaded}
use pipetest.Compiler.Plan.Built.{first_http-some}
use pipetest.Compiler.Plan.{first_http}
use pipetest.Compiler.Requests.Missing.{requests_diags-http}
use pipetest.Compiler.Requests.{requests_diags, pass_requests}
use pipetest.Compiler.State.{Compiler, ReqInfo, stmts_at, lines_of}
use pipetest.Compiler.Symbols.Names.{Named}
use pipetest.Diagnostics.{Diagnostic}

-- What every pass leaves alone.
pub record SameInput (c c' : Compiler) : Type 0 where
  pub same_entry : c'.entry_path ≡ c.entry_path
  pub same_modules : c'.modules ≡ c.modules

pub stmts_at-loaded :
    (modules : List (Text × Program)) (path : Text)
    → IsLoaded modules path
    → (prog : Program) × (stmts_at modules path ≡ ok prog.stmts)
unfolding stmts_at
stmts_at-loaded modules path l = elim (Option-cases (lookup path modules)) [
  | inl e ↦ absurd (cc)
  | inr (prog, e) ↦ (prog, rw (e, stmts_at) refl)
]

-- Without diagnostics, every request has an HTTP line and every flow of the entry module fits.
pub record Checked (c : Compiler) : Type 0 where
  pub http :
      c.diags ≡ []
      → (k : Text) (req : ReqInfo) → lookup k c.reqs ≡ some req
      → is_some (first_http (lines_of k c.eff_reqs)) ≡ true
  pub flows :
      c.diags ≡ []
      → (stmts : List Stmt) → stmts_at c.modules c.entry_path ≡ ok stmts
      → (flow : FlowDecl) → In (flow_decl flow) stmts
      → FlowFits c.reqs flow

ok-inj : {A : Type 0} {a b : A} → ok a ≡ ok b → a ≡ b
ok-inj e = cc

checked_requests :
    (c : Compiler) (more : List Diagnostic)
    → Named c.reqs
    → (c.diags ++ requests_diags c.eff_reqs c.reqs) ++ more ≡ []
    → (k : Text) (req : ReqInfo) → lookup k c.reqs ≡ some req
    → is_some (first_http (lines_of k c.eff_reqs)) ≡ true
checked_requests c more n e k req l =
    let ds = requests_diags c.eff_reqs c.reqs in
    let none_added : length ds ≡ 0 =
      omega (
        arith,
        ap length e,
        length-append {0} (c.diags ++ ds) more,
        length-append {0} c.diags ds,
      ) in
    first_http-some (lines_of k c.eff_reqs) (
      rw (← n k req l)
        (requests_diags-http c.eff_reqs c.reqs none_added k req (lookup-In k c.reqs l)))

-- `passRequests` and `passFlows` on a loaded entry module.
pub pass_flows-Returns :
    (c : Compiler)
    → Named c.reqs
    → IsLoaded c.modules c.entry_path
    → Returns (λ c'. SameInput (pass_requests c) c' × Checked c') (pass_flows (pass_requests c))
unfolding pass_flows pass_requests
pass_flows-Returns c n l =
    let (prog, e) = stmts_at-loaded c.modules c.entry_path l in
    let before = c.diags ++ requests_diags c.eff_reqs c.reqs in
    let more = flows_diags (pass_requests c) prog.stmts in
    rw e (
      returns {a = record (pass_requests c) { diags = before ++ more }} (
        record { same_entry = refl; same_modules = refl },
        record {
          http = λ q k req f. checked_requests c more n q k req f;
          flows = λ q stmts at flow m.
              flows_diags-fits (pass_requests c) prog.stmts
                (omega (arith, ap length q, length-append {0} before more)) flow
                (subst (λ ss. In (flow_decl flow) ss) (sym (ok-inj (sym e ∙ at))) m);
        },
      ))
