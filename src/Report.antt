-- ===== src/Report.antt =====
-- internal/report/report.go: the report on a run, and the elements of its JUnit file. The encoding
-- of either as JSON or XML and the writing of the files are not modelled.
pub mod Flows
pub mod Totals
use pipetest.Ast.{FlowStep}
use pipetest.Base.Assoc.{lookup, insert}
use pipetest.Base.Text.{Text, text, text_eq, has_prefix}
use pipetest.Base.{
  ℕ, suc, ◌+◌, Bool, true, false, List, [], ◌∷◌, ◌++◌, map, Option, none, some, if◌then◌else◌,
  length,
}
use pipetest.Compiler.State.{Plan, PlanFlow}
use pipetest.Diagnostics.{Diagnostic, itoa}

pub record Summary : Type 0 where
  pub tests : ℕ
  pub failures : ℕ
  pub errors : ℕ

pub record Testcase : Type 0 where
  pub name : Text
  pub flow : Text
  pub request : Text
  pub status : Text
  pub message : Text

pub record Suite : Type 0 where
  pub name : Text
  pub testcases : List Testcase
  pub summary : Summary

pub record Model : Type 0 where
  pub suites : List Suite
  pub summary : Summary

abbrev pub no_tests : Summary
no_tests = record { tests = 0; failures = 0; errors = 0 }

-- `flow`, as the first loop of `Build` sets it.
unfoldable pub flow_key : Option Text → Text
unfolding text
flow_key none = text "global"
flow_key (some []) = text "global"
flow_key (some (x ∷ xs)) = x ∷ xs

-- `byFlow[flow]`, nil where the key is missing.
unfoldable pub diags_of : Text → List (Text × List Diagnostic) → List Diagnostic
unfolding lookup
diags_of flow by_flow = elim (lookup flow by_flow) [ none ↦ [] | some ds ↦ ds ]

-- The first loop of `Build`.
unfoldable pub group_by_flow :
    List Diagnostic → List (Text × List Diagnostic) → List (Text × List Diagnostic)
unfolding flow_key diags_of insert
group_by_flow [] by_flow = by_flow
group_by_flow (d ∷ ds) by_flow =
    group_by_flow ds
      (insert (flow_key d.flow) (diags_of (flow_key d.flow) by_flow ++ d ∷ []) by_flow)

abbrev pub names_request : Text → Option Text → Bool
names_request request none = false
names_request request (some r) = text_eq r request

unfoldable pub first_diag_for : List Diagnostic → Text → Option Diagnostic
unfolding text_eq
first_diag_for [] request = none
first_diag_for (d ∷ ds) request =
    if names_request request d.request then some d else first_diag_for ds request

unfoldable pub status_for_code : Text → Text
unfolding has_prefix text
status_for_code code = if has_prefix (text "E_ASSERT_") code then text "failure" else text "error"

unfoldable pub diag_message : Diagnostic → Text
unfolding itoa text
diag_message d =
    d.message ++ (text " @ " ++ (d.file ++ b':' ∷ (itoa d.line ++ b':' ∷ itoa d.column)))

-- `display`, which `canonical` always equals.
abbrev pub with_alias : Text → Option Text → Text
with_alias name none = name
with_alias name (some a) = name ++ b':' ∷ a

abbrev pub canonical : FlowStep → Text
canonical step = with_alias step.req_name step.alias

unfoldable pub with_diag : Option Diagnostic → Testcase → Testcase
unfolding status_for_code diag_message
with_diag none tc = tc
with_diag (some d) tc = record tc { status = status_for_code d.code; message = diag_message d }

unfoldable pub step_case : List Diagnostic → Text → ℕ → FlowStep → Testcase
unfolding with_diag first_diag_for itoa text
step_case ds flow index step = with_diag (first_diag_for ds (canonical step)) (record {
  name = itoa index ++ b' ' ∷ canonical step;
  flow = flow;
  request = canonical step;
  status = text "passed";
  message = [];
})

-- The loop over the chain, from the index of the step before.
unfoldable pub step_cases : List Diagnostic → Text → ℕ → List FlowStep → List Testcase
unfolding step_case
step_cases ds flow index [] = []
step_cases ds flow index (step ∷ steps) =
    step_case ds flow (suc index) step ∷ step_cases ds flow (suc index) steps

unfoldable pub flow_case : Text → ℕ → Diagnostic → Testcase
unfolding status_for_code diag_message itoa text
flow_case flow index d = record {
  name = text "flow :: assert " ++ itoa index;
  flow = flow;
  request = [];
  status = status_for_code d.code;
  message = diag_message d;
}

abbrev is_none : Option Text → Bool
is_none none = true
is_none (some r) = false

-- The loop over the flow's own diagnostics, from the index of the one before.
unfoldable pub flow_cases : Text → ℕ → List Diagnostic → List Testcase
unfolding flow_case
flow_cases flow index [] = []
flow_cases flow index (d ∷ ds) =
    if is_none d.request
    then flow_case flow (suc index) d ∷ flow_cases flow (suc index) ds
    else flow_cases flow index ds

unfoldable pub count_status : Text → Summary → Summary
unfolding text text_eq
count_status status s =
    if text_eq status (text "failure")
    then record s { failures = suc s.failures }
    else if text_eq status (text "error")
    then record s { errors = suc s.errors }
    else s

unfoldable pub summarize_from : List Testcase → Summary → Summary
unfolding count_status
summarize_from [] s = s
summarize_from (tc ∷ cases) s = summarize_from cases (count_status tc.status s)

unfoldable pub summarize : List Testcase → Summary
unfolding summarize_from
summarize cases = summarize_from cases (record { tests = length cases; failures = 0; errors = 0 })

unfoldable pub add_suites : List Suite → Summary → Summary
add_suites [] s = s
add_suites (suite ∷ suites) s = add_suites suites (record {
  tests = s.tests + suite.summary.tests;
  failures = s.failures + suite.summary.failures;
  errors = s.errors + suite.summary.errors;
})

unfoldable pub summarize_suites : List Suite → Summary
unfolding add_suites
summarize_suites suites = add_suites suites no_tests

-- The body of the loop over the flows.
unfoldable pub suite_of : List (Text × List Diagnostic) → PlanFlow → Suite
unfolding diags_of step_cases flow_cases summarize
suite_of by_flow flow =
    let ds = diags_of flow.name by_flow in
    let cases = step_cases ds flow.name 0 flow.decl.chain ++ flow_cases flow.name 0 ds in
    record { name = flow.name; testcases = cases; summary = summarize cases }

-- `Build`, from the diagnostics of the run.
unfoldable pub build : Option Plan → List Diagnostic → Model
unfolding group_by_flow suite_of summarize_suites
build none diags = record { suites = []; summary = no_tests }
build (some plan) diags =
    let suites = map (suite_of (group_by_flow diags [])) plan.flows in
    record { suites = suites; summary = summarize_suites suites }

pub record JunitCase : Type 0 where
  pub name : Text
  pub failure : Option Text
  pub error : Option Text

pub record JunitSuite : Type 0 where
  pub name : Text
  pub tests : ℕ
  pub failures : ℕ
  pub errors : ℕ
  pub cases : List JunitCase

-- `tc.Message` where the status is the given one, and nil otherwise.
abbrev when_status : Text → Testcase → Option Text
when_status status tc = if text_eq tc.status status then some tc.message else none

unfoldable pub junit_case : Testcase → JunitCase
unfolding text_eq text
junit_case tc = record {
  name = tc.name;
  failure = when_status (text "failure") tc;
  error = when_status (text "error") tc;
}

unfoldable pub junit_suite : Suite → JunitSuite
unfolding junit_case
junit_suite s = record {
  name = s.name;
  tests = s.summary.tests;
  failures = s.summary.failures;
  errors = s.summary.errors;
  cases = map junit_case s.testcases;
}
