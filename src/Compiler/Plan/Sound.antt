-- ===== src/Compiler/Plan/Sound.antt =====
-- The plan that `Compile` gives can be run.
use mathlib.Core.Path.{subst}
use pipetest.Ast.{FlowDecl, FlowStep}
use pipetest.Base.Assoc.{lookup, lookup-In}
use pipetest.Base.Order.{sort_by, In-sort_by, sort_by-In}
use pipetest.Base.Outcome.{Returns, returns, Returns-bind}
use pipetest.Base.Text.{Text}
use pipetest.Base.{
  ◌≡◌, ◌≢◌, refl, true, List, [], ◌∷◌, map, Option, none, some, is_some, Option-cases, inl, inr,
  All, All-map, All-map_of, Pairwise-map_of, Pairwise, In, In-map,
}
use pipetest.Compiler.Flows.Chain.{FlowFits}
use pipetest.Compiler.Imports.Fuel.{IsLoaded}
use pipetest.Compiler.Plan.Built.{plan_settings-keeps, plan_flows-In}
use pipetest.Compiler.Plan.Checks.{Checked, stmts_at-loaded}
use pipetest.Compiler.Plan.Total.{passes-Returns, IsLoaded-SameInput}
use pipetest.Compiler.Plan.{
  plan_request, plan_step, plan_flow, plan_flows, request_less, flow_less, build_plan, finish, run,
  new_compiler, answer, compile, add_modules,
}
use pipetest.Compiler.State.{
  Compiler, Module, Plan, PlanRequest, PlanFlow, PlanStep, normalize_path,
}
use pipetest.Diagnostics.{Diagnostic}

-- The step has its request in the plan, with an HTTP line.
pub record HasRequest (requests : List PlanRequest) (s : PlanStep) : Type 0 where
  pub request : PlanRequest
  pub planned : In request requests
  pub named : request.name ≡ s.request
  pub has_http : is_some request.http ≡ true

pub record IsRunnable (requests : List PlanRequest) (f : PlanFlow) : Type 0 where
  pub not_empty : f.steps ≢ []
  pub has_requests : All (HasRequest requests) f.steps
  pub distinct : Pairwise (λ a b. a.binding ≢ b.binding) f.steps

-- Every flow of the plan, if there is one, can be run.
abbrev pub IsSound : Option Plan × List Diagnostic → Type 0
IsSound (none, ds) = Unit
IsSound (some p, ds) = (f : PlanFlow) → In f p.flows → IsRunnable p.requests f

abbrev planned_requests : Compiler → List PlanRequest
planned_requests c = sort_by request_less (map (plan_request c.eff_reqs) c.reqs)

known-HasRequest :
    (c : Compiler)
    → Checked c
    → c.diags ≡ []
    → (st : FlowStep) → is_some (lookup st.req_name c.reqs) ≡ true
    → HasRequest (planned_requests c) (plan_step st)
unfolding plan_request
known-HasRequest c k q st h = elim (Option-cases (lookup st.req_name c.reqs)) [
  | inl e ↦ absurd (cc)
  | inr (req, e) ↦ record {
    request = plan_request c.eff_reqs (st.req_name, req);
    planned =
        In-sort_by request_less _
          (In-map (plan_request c.eff_reqs) (lookup-In st.req_name c.reqs e));
    named = refl;
    has_http = k.http q st.req_name req e;
  }
]

steps_not_nil : (steps : List FlowStep) → steps ≢ [] → map plan_step steps ≢ []
steps_not_nil [] h = absurd (h refl)
steps_not_nil (st ∷ steps) h = λ e. absurd (cc)

plan_flow-IsRunnable :
    (c : Compiler) (flow : FlowDecl)
    → Checked c
    → c.diags ≡ []
    → FlowFits c.reqs flow
    → IsRunnable (planned_requests c) (plan_flow flow)
unfolding plan_flow
plan_flow-IsRunnable c flow k q f = record {
  not_empty = steps_not_nil flow.chain f.not_empty;
  has_requests =
      All-map_of plan_step (HasRequest (planned_requests c)) flow.chain
        (All-map flow.chain (known-HasRequest c k q) f.known);
  distinct = Pairwise-map_of plan_step (λ a b. a.binding ≢ b.binding) flow.chain f.distinct;
}

build_plan-IsSound :
    (c : Compiler)
    → IsLoaded c.modules c.entry_path
    → Checked c
    → c.diags ≡ []
    → Returns (λ p. IsSound (some p, [])) (build_plan c)
unfolding build_plan
build_plan-IsSound c l k q =
    let (prog, e) = stmts_at-loaded c.modules c.entry_path l in
    let (same_requests, same_flows) = plan_settings-keeps prog.stmts (record {
      entry_path = c.entry_path;
      requests = planned_requests c;
      flows = sort_by flow_less (plan_flows prog.stmts);
      base = none;
      timeout = none;
      globals = [];
    }) in
    rw e (
      returns λ f m.
        let (flow, n, at) =
          plan_flows-In prog.stmts f
            (sort_by-In flow_less (plan_flows prog.stmts) (subst (λ fs. In f fs) same_flows m)) in
        rw (same_requests, at) (plan_flow-IsRunnable c flow k q (k.flows q prog.stmts e flow n)))

finish-IsSound :
    (c : Compiler) (ds : List Diagnostic)
    → c.diags ≡ ds
    → IsLoaded c.modules c.entry_path
    → Checked c
    → Returns (λ c'. c'.diags ≡ [] → IsSound (c'.plan, [])) (finish c ds)
unfolding finish
finish-IsSound c [] q l k = Returns-bind _ (build_plan-IsSound c l k q) λ p s. returns (λ _. s)
finish-IsSound c (d ∷ ds) q l k = returns (λ n. absurd (cc))

answer-IsSound :
    (c : Compiler) (ds : List Diagnostic) → (ds ≡ [] → IsSound (c.plan, [])) → IsSound (answer c ds)
unfolding answer
answer-IsSound c [] h = h refl
answer-IsSound c (d ∷ ds) h = _

-- Where the entry module is among the modules, `Compile` returns, and if it gives a plan, every
-- flow of the plan has a step, every step names a request of the plan that has an HTTP line, and
-- no two steps of a flow have one binding.
pub compile-IsSound :
    (entry : Text) (modules : List Module)
    → is_some (lookup (normalize_path entry) (add_modules modules [])) ≡ true
    → Returns IsSound (compile entry modules)
unfolding compile run new_compiler
compile-IsSound entry modules l =
    Returns-bind _
      (Returns-bind _ (passes-Returns (new_compiler entry modules) refl l) λ c s.
        finish-IsSound c c.diags refl (IsLoaded-SameInput (new_compiler entry modules) c s.0 l) s.1)
      λ c f. returns (answer-IsSound c c.diags f)
