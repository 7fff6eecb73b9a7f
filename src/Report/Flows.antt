-- ===== src/Report/Flows.antt =====
-- Which testcases of a flow are reported as passed.
use mathlib.Core.List.{append-nil, append_assoc}
use pipetest.Ast.{FlowStep}
use pipetest.Base.Assoc.{lookup, insert, lookup-insert}
use pipetest.Base.Text.{Text, text, text_eq, text_eq_iff, has_prefix}
use pipetest.Base.{
  ◌≡◌, refl, sym, ◌∙◌, ap, ℕ, suc, Bool, true, false, ◌&&◌, List, [], ◌∷◌, ◌++◌, map, not,
  if◌then◌else◌, filter, take, take-append, length, arith, Bool-cases, inl, inr,
}
use pipetest.Compiler.State.{PlanFlow}
use pipetest.Diagnostics.{Diagnostic}
use pipetest.Report.{
  Testcase, flow_key, diags_of, group_by_flow, names_request, first_diag_for, with_diag, canonical,
  status_for_code, step_case, step_cases, suite_of,
}

abbrev of_flow : Text → Diagnostic → Bool
of_flow flow d = text_eq (flow_key d.flow) flow

diags_of-insert :
    (k j : Text) (ds : List Diagnostic) (m : List (Text × List Diagnostic))
    → diags_of j (insert k ds m) ≡ (if text_eq k j then ds else diags_of j m)
unfolding diags_of
diags_of-insert k j ds m = ground (arith, lookup-insert k j ds m)

-- What the first loop of `Build` has for a flow: the flow's diagnostics, in their order.
group_by_flow-diags_of :
    (ds : List Diagnostic) (m : List (Text × List Diagnostic)) (flow : Text)
    → diags_of flow (group_by_flow ds m) ≡ diags_of flow m ++ filter (of_flow flow) ds
unfolding group_by_flow
group_by_flow-diags_of [] m flow = sym (append-nil (diags_of flow m))
group_by_flow-diags_of (d ∷ ds) m flow =
    let k = flow_key d.flow in
    let grown = diags_of k m ++ d ∷ [] in
    group_by_flow-diags_of ds (insert k grown m) flow
    ∙ (rw (diags_of-insert k flow grown m) (elim (Bool-cases (text_eq k flow)) [
      | inl e ↦ rw e (
          append_assoc (diags_of k m) (d ∷ []) (filter (of_flow flow) ds)
          ∙ ap (λ f. diags_of f m ++ d ∷ filter (of_flow flow) ds) ((text_eq_iff k flow).0 e))
      | inr e ↦ rw e refl
    ]))

-- Whether a diagnostic is about a step of a flow.
abbrev pub concerns : Text → FlowStep → Diagnostic → Bool
concerns flow step d = of_flow flow d && names_request (canonical step) d.request

abbrev pub any : (Diagnostic → Bool) → List Diagnostic → Bool
any p [] = false
any p (d ∷ ds) = if p d then true else any p ds

abbrev pub is_passed : Testcase → Bool
is_passed tc = text_eq tc.status (text "passed")

first_diag_for_passed :
    (ds : List Diagnostic) (flow : Text) (index : ℕ) (step : FlowStep)
    → is_passed (step_case ds flow index step)
      ≡ not (any (λ d. names_request (canonical step) d.request) ds)
unfolding step_case first_diag_for with_diag status_for_code text text_eq
first_diag_for_passed [] flow index step = refl
first_diag_for_passed (d ∷ ds) flow index step =
    elim (Bool-cases (names_request (canonical step) d.request)) [
      | inl e ↦
          rw (e, first_diag_for, any)
            (elim (Bool-cases (has_prefix (text "E_ASSERT_") d.code)) [
              | inl a ↦ rw (a, status_for_code) refl
              | inr a ↦ rw (a, status_for_code) refl
            ])
      | inr e ↦ rw (e, first_diag_for, any) (first_diag_for_passed ds flow index step)
    ]

any-filter :
    (p q : Diagnostic → Bool) (ds : List Diagnostic)
    → any q (filter p ds) ≡ any (λ d. p d && q d) ds
any-filter p q [] = refl
any-filter p q (d ∷ ds) = ground (arith, any-filter p q ds)

step_cases_passed :
    (ds : List Diagnostic) (flow : Text) (index : ℕ) (steps : List FlowStep)
    → (length (step_cases ds flow index steps) ≡ length steps)
      × (map is_passed (step_cases ds flow index steps)
          ≡ map (λ step. not (any (λ d. names_request (canonical step) d.request) ds)) steps)
unfolding step_cases
step_cases_passed ds flow index [] = (refl, refl)
step_cases_passed ds flow index (step ∷ steps) =
    let (n, e) = step_cases_passed ds flow (suc index) steps in
    (omega (arith, n), rw (first_diag_for_passed ds flow (suc index) step, e) refl)

no_diags : (flow : Text) → diags_of flow [] ≡ []
unfolding diags_of lookup
no_diags flow = refl

any-of_flow :
    (diags : List Diagnostic) (flow : Text) (q : Diagnostic → Bool)
    → any q (diags_of flow (group_by_flow diags [])) ≡ any (λ d. of_flow flow d && q d) diags
any-of_flow diags flow q =
    ap (any q) (
      group_by_flow-diags_of diags [] flow
      ∙ ap (λ ds. ds ++ filter (of_flow flow) diags) (no_diags flow))
    ∙ any-filter (of_flow flow) q diags

steps_of_flow :
    (diags : List Diagnostic) (flow : Text) (steps : List FlowStep)
    → map
        (λ step. not (
          any
            (λ d. names_request (canonical step) d.request)
            (diags_of flow (group_by_flow diags []))))
        steps
      ≡ map (λ step. not (any (concerns flow step) diags)) steps
steps_of_flow diags flow [] = refl
steps_of_flow diags flow (step ∷ steps) =
    rw
      (
        any-of_flow diags flow (λ d. names_request (canonical step) d.request),
        steps_of_flow diags flow steps,
      )
      refl

-- In the suite of a flow the testcases begin with one for each step of the chain, in order, and
-- such a testcase is passed exactly if no diagnostic of the run has the flow's name and names the
-- step by its request and alias.
pub suite_of_passed :
    (diags : List Diagnostic) (flow : PlanFlow)
    → map is_passed
        (take (length flow.decl.chain) (suite_of (group_by_flow diags []) flow).testcases)
      ≡ map (λ step. not (any (concerns flow.name step) diags)) flow.decl.chain
unfolding suite_of
suite_of_passed diags flow =
    let by_flow = group_by_flow diags [] in
    let ds = diags_of flow.name by_flow in
    let (n, e) = step_cases_passed ds flow.name 0 flow.decl.chain in
    ap (map is_passed) (rw (← n) (take-append (step_cases ds flow.name 0 flow.decl.chain) _))
    ∙ e
    ∙ steps_of_flow diags flow.name flow.decl.chain
