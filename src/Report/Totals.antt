-- ===== src/Report/Totals.antt =====
-- What the summaries count.
use pipetest.Base.Text.{Text, text, text_eq, text_eq_iff}
use pipetest.Base.{
  ◌≡◌, refl, ◌+◌, Bool, true, false, List, [], ◌∷◌, ◌++◌, map, some, is_some, length, count,
  count-append, length-append, arith,
}
use pipetest.Compiler.State.{Plan, PlanFlow}
use pipetest.Diagnostics.{Diagnostic}
use pipetest.Report.{
  Summary, Testcase, Suite, group_by_flow, suite_of, count_status, summarize_from, summarize,
  add_suites, summarize_suites, build, no_tests, JunitSuite, junit_case, junit_suite,
}

abbrev has_failed : Testcase → Bool
has_failed tc = text_eq tc.status (text "failure")

abbrev has_error : Testcase → Bool
has_error tc = text_eq tc.status (text "error")

-- The testcases of all suites.
abbrev pub all_cases : List Suite → List Testcase
all_cases [] = []
all_cases (s ∷ ss) = s.testcases ++ all_cases ss

failure_not_error :
    (s : Text) → text_eq s (text "failure") ≡ true → text_eq s (text "error") ≡ false
unfolding text text_eq
failure_not_error s h = rw ((text_eq_iff s (text "failure")).0 h) refl

summarize_from_counts :
    (cases : List Testcase) (s : Summary)
    → ((summarize_from cases s).tests ≡ s.tests)
      × ((summarize_from cases s).failures ≡ s.failures + count has_failed cases)
      × ((summarize_from cases s).errors ≡ s.errors + count has_error cases)
unfolding summarize_from count_status
summarize_from_counts [] s = (refl, omega arith, omega arith)
summarize_from_counts (tc ∷ cases) s =
    ground
      (arith, failure_not_error tc.status, summarize_from_counts cases (count_status tc.status s))

-- A summary that counts the testcases.
pub record Counts (s : Summary) (cases : List Testcase) : Type 0 where
  pub all_tests : s.tests ≡ length cases
  pub all_failures : s.failures ≡ count has_failed cases
  pub all_errors : s.errors ≡ count has_error cases

summarize-Counts : (cases : List Testcase) → Counts (summarize cases) cases
unfolding summarize
summarize-Counts cases =
    let (t, f, e) =
      summarize_from_counts cases (record { tests = length cases; failures = 0; errors = 0 }) in
    record { all_tests = t; all_failures = omega (arith, f); all_errors = omega (arith, e) }

suite_of-Counts :
    (by_flow : List (Text × List Diagnostic)) (flow : PlanFlow)
    → Counts (suite_of by_flow flow).summary (suite_of by_flow flow).testcases
unfolding suite_of
suite_of-Counts by_flow flow = summarize-Counts (suite_of by_flow flow).testcases

add_suites_counts :
    (by_flow : List (Text × List Diagnostic)) (flows : List PlanFlow) (s : Summary)
    → let suites = map (suite_of by_flow) flows in
      ((add_suites suites s).tests ≡ s.tests + length (all_cases suites))
      × ((add_suites suites s).failures ≡ s.failures + count has_failed (all_cases suites))
      × ((add_suites suites s).errors ≡ s.errors + count has_error (all_cases suites))
unfolding add_suites
add_suites_counts by_flow [] s = (omega arith, omega arith, omega arith)
add_suites_counts by_flow (f ∷ fs) s =
    let suite = suite_of by_flow f in
    let c = suite_of-Counts by_flow f in
    let rest = all_cases (map (suite_of by_flow) fs) in
    let (t, x, e) = add_suites_counts by_flow fs (record {
      tests = s.tests + suite.summary.tests;
      failures = s.failures + suite.summary.failures;
      errors = s.errors + suite.summary.errors;
    }) in
    (
      omega (arith, t, c.all_tests, length-append {0} suite.testcases rest),
      omega (arith, x, c.all_failures, count-append {0} has_failed suite.testcases rest),
      omega (arith, e, c.all_errors, count-append {0} has_error suite.testcases rest),
    )

-- The summary of a report counts the testcases of all its suites: their number, those with the
-- status failure, and those with the status error.
pub build_totals :
    (plan : Plan) (diags : List Diagnostic)
    → Counts (build (some plan) diags).summary (all_cases (build (some plan) diags).suites)
unfolding build summarize_suites
build_totals plan diags =
    let (t, f, e) = add_suites_counts (group_by_flow diags []) plan.flows no_tests in
    record {
      all_tests = omega (arith, t);
      all_failures = omega (arith, f);
      all_errors = omega (arith, e);
    }

-- The attributes of a JUnit suite count its elements.
pub record JunitCounts (s : JunitSuite) : Type 0 where
  pub all_cases : s.tests ≡ length s.cases
  pub failure_elements : s.failures ≡ count (λ c. is_some c.failure) s.cases
  pub error_elements : s.errors ≡ count (λ c. is_some c.error) s.cases

junit_cases_counts :
    (cases : List Testcase)
    → (length (map junit_case cases) ≡ length cases)
      × (count (λ c. is_some c.failure) (map junit_case cases) ≡ count has_failed cases)
      × (count (λ c. is_some c.error) (map junit_case cases) ≡ count has_error cases)
unfolding junit_case
junit_cases_counts [] = (refl, refl, refl)
junit_cases_counts (tc ∷ cases) = ground (arith, junit_cases_counts cases)

-- In the JUnit suite of a flow, the attribute tests is the number of testcase elements, failures
-- that of the failure elements and errors that of the error elements.
pub junit_suite_counts :
    (by_flow : List (Text × List Diagnostic)) (flow : PlanFlow)
    → JunitCounts (junit_suite (suite_of by_flow flow))
unfolding junit_suite
junit_suite_counts by_flow flow =
    let suite = suite_of by_flow flow in
    let c = suite_of-Counts by_flow flow in
    let (n, f, e) = junit_cases_counts suite.testcases in
    record {
      all_cases = omega (arith, n, c.all_tests);
      failure_elements = omega (arith, f, c.all_failures);
      error_elements = omega (arith, e, c.all_errors);
    }
