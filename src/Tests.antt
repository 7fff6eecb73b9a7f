-- ===== src/Tests.antt =====
-- Concrete runs, and the theorems at concrete inputs.
mod Samples
mod Commands
mod Lexing
mod Running
use pipetest.Ast.{Expr, ident_expr, binary_expr, binary_eq, binary_add, binary_mul}
use pipetest.Base.Assoc.{lookup, member}
use pipetest.Base.Order.{sort_by}
use pipetest.Base.Outcome.{Outcome, ok, panic, Returns}
use pipetest.Base.Text.{Text, text, text_eq, text_lt}
use pipetest.Base.Visits.{vis_of, unmet}
use pipetest.Base.{
  ◌≡◌, refl, ◌+◌, ◌<◌, ◌≤◌, Bool, true, false, List, [], ◌∷◌, ◌++◌, map, Option, none, some,
  is_some, not, length, take, In, here, Pairwise, option_list, arith,
}
use pipetest.Compiler.Idents.Reserved.{refs_res_in_hook_never}
use pipetest.Compiler.Idents.{refs_expr_in_hook, is_res_ref}
use pipetest.Compiler.Imports.Fuel.{WalkFrom, import_dfs-Returns}
use pipetest.Compiler.Imports.{ImportWalk, import_dfs}
use pipetest.Compiler.Inherit.Pass.{Inherited, pass_request_inheritance_resolves}
use pipetest.Compiler.Inherit.{pass_request_inheritance}
use pipetest.Compiler.Merge.Asserts.{asserts_or, merge_request_lines_asserts}
use pipetest.Compiler.Merge.KeyedLines.{
  KeyedOnce, header_name, query_name, let_name, merge_request_lines_keyed,
}
use pipetest.Compiler.Merge.Select.{
  select, as_http, as_auth, as_json, as_pre, as_post, as_header, as_query, as_let, as_assert,
}
use pipetest.Compiler.Merge.Singles.{effective, merge_request_lines_singles}
use pipetest.Compiler.Merge.{merge_request_lines}
use pipetest.Compiler.Plan.Sound.{IsSound, compile-IsSound}
use pipetest.Compiler.Plan.Total.{IsAnswer, compile_answers, compile_panics}
use pipetest.Compiler.Plan.{compile, add_modules}
use pipetest.Compiler.Requests.Counts.Effective.{pass_requests_no_multiples}
use pipetest.Compiler.Requests.Counts.{multiples, count_lines_counts}
use pipetest.Compiler.Requests.{count_lines, no_counts, requests_diags}
use pipetest.Compiler.State.{Compiler, Plan, normalize_path}
use pipetest.Diagnostics.Keys.{Kept}
use pipetest.Diagnostics.Output.{
  sort_and_dedupe_strict, sort_and_dedupe_covers, sort_and_dedupe_idem, sort_and_dedupe_one_flow,
}
use pipetest.Diagnostics.{Diagnostic, diagnostic_less, dedupe_key, sort_and_dedupe}
use pipetest.Lexer.Token.{Kind, kind_id, Token, tok_ident, tok_eof, op_plus, op_mul, op_eq}
use pipetest.Parser.Expr.Fuel.{parse_expr-Returns}
use pipetest.Parser.Expr.Steps.{Steps}
use pipetest.Parser.Expr.{parse_expr}
use pipetest.Parser.State.{Parser}
use pipetest.Report.Flows.{is_passed, any, concerns, suite_of_passed}
use pipetest.Report.Totals.{Counts, all_cases, build_totals, JunitCounts, junit_suite_counts}
use pipetest.Report.{group_by_flow, suite_of, build, junit_suite}
use pipetest.Tests.Samples.{
  login_name, orders_name, login_lines, orders_lines, modules, with_reqs, res_stmt, failed,
  run_diags, shop_plan, shop_plan_flow,
}

sample_loaded : is_some (lookup (normalize_path (text "./shop.pt")) (add_modules modules [])) ≡ true
unfolding lookup normalize_path add_modules text
sample_loaded = refl

compile_answers_example : Returns IsAnswer (compile (text "./shop.pt") modules)
compile_answers_example = compile_answers (text "./shop.pt") modules sample_loaded

compile-IsSound_example : Returns IsSound (compile (text "./shop.pt") modules)
compile-IsSound_example = compile-IsSound (text "./shop.pt") modules sample_loaded

abbrev gives_plan : Outcome (Option Plan × List Diagnostic) → Bool
gives_plan (ok (some p, [])) = true
gives_plan _ = false

sample_gives_plan : gives_plan (compile (text "./shop.pt") modules) ≡ true
unfolding compile text text_eq text_lt
sample_gives_plan = refl

other_missing : lookup (normalize_path (text "other.pt")) (add_modules modules []) ≡ none
unfolding lookup normalize_path add_modules text
other_missing = refl

compile_panics_example : compile (text "other.pt") modules ≡ panic
compile_panics_example = compile_panics (text "other.pt") modules other_missing

pass_request_inheritance_resolves_example :
    Returns (Inherited with_reqs) (pass_request_inheritance with_reqs)
pass_request_inheritance_resolves_example = pass_request_inheritance_resolves with_reqs

merge_request_lines_singles_example :
    let merged = merge_request_lines login_lines orders_lines in
    (select as_http merged ≡ option_list (effective as_http login_lines orders_lines))
    × (select as_auth merged ≡ option_list (effective as_auth login_lines orders_lines))
    × (select as_json merged ≡ option_list (effective as_json login_lines orders_lines))
    × (select as_pre merged ≡ option_list (effective as_pre login_lines orders_lines))
    × (select as_post merged ≡ option_list (effective as_post login_lines orders_lines))
merge_request_lines_singles_example = merge_request_lines_singles login_lines orders_lines

merge_request_lines_keyed_example :
    KeyedOnce as_header header_name (text "X-Token") login_lines orders_lines
    × KeyedOnce as_query query_name (text "X-Token") login_lines orders_lines
    × KeyedOnce as_let let_name (text "X-Token") login_lines orders_lines
merge_request_lines_keyed_example =
    merge_request_lines_keyed login_lines orders_lines (text "X-Token")

merge_request_lines_asserts_example :
    select as_assert (merge_request_lines login_lines orders_lines)
    ≡ asserts_or (select as_assert orders_lines) (select as_assert login_lines)
merge_request_lines_asserts_example = merge_request_lines_asserts login_lines orders_lines

abbrev start : ImportWalk
start = record { vis = []; ordered = []; diags = [] }

start_unmet : unmet start.vis with_reqs.modules < 2
unfolding unmet vis_of lookup
start_unmet = omega arith

start_small : (k : Text) → vis_of k start.vis ≤ 2
unfolding vis_of lookup
start_small k = omega arith

start_loaded : is_some (lookup (text "shop.pt") with_reqs.modules) ≡ true
unfolding lookup text text_eq
start_loaded = refl

import_dfs-Returns_example :
    Returns
      (WalkFrom with_reqs.modules start)
      (import_dfs with_reqs.modules 2 (text "shop.pt") start)
import_dfs-Returns_example =
    import_dfs-Returns with_reqs.modules 2 (text "shop.pt") start start_unmet (start_small, _)
      start_loaded

count_lines_counts_example :
    let n = count_lines (text "shop.pt") orders_lines no_counts in
    (n.http_count ≡ 0 + length (select as_http orders_lines))
    × (n.json_count ≡ 0 + length (select as_json orders_lines))
    × (n.pre_hook ≡ 0 + length (select as_pre orders_lines))
    × (n.post_hook ≡ 0 + length (select as_post orders_lines))
count_lines_counts_example = count_lines_counts (text "shop.pt") orders_lines no_counts

-- The compiler after the inheritance pass.
abbrev inherited : Compiler
inherited = record with_reqs {
  eff_reqs =
      (login_name, login_lines) ∷ (orders_name, merge_request_lines login_lines orders_lines) ∷ [];
}

with_reqs-inherited : pass_request_inheritance with_reqs ≡ ok inherited
unfolding pass_request_inheritance text merge_request_lines text_lt text_eq
with_reqs-inherited = refl

pass_requests_no_multiples_example :
    multiples (requests_diags inherited.eff_reqs inherited.reqs) ≡ 0
pass_requests_no_multiples_example =
    pass_requests_no_multiples with_reqs inherited with_reqs-inherited

refs_res_in_hook_never_example : refs_expr_in_hook is_res_ref (res_stmt ∷ []) ≡ false
refs_res_in_hook_never_example = refs_res_in_hook_never (res_stmt ∷ [])

sort_and_dedupe_strict_example :
    Pairwise (λ a b. diagnostic_less a b ≡ true) (sort_and_dedupe run_diags)
    × Pairwise (λ a b. ¬ (dedupe_key a ≡ dedupe_key b)) (sort_and_dedupe run_diags)
sort_and_dedupe_strict_example = sort_and_dedupe_strict run_diags

abbrev refund_failed : Diagnostic
refund_failed = failed (some (text "refund")) (some orders_name)

sort_and_dedupe_covers_example :
    (In refund_failed run_diags → Kept refund_failed (sort_and_dedupe run_diags))
    × (In refund_failed (sort_and_dedupe run_diags) → In refund_failed run_diags)
sort_and_dedupe_covers_example = sort_and_dedupe_covers run_diags refund_failed

sort_and_dedupe_idem_example :
    sort_and_dedupe (sort_and_dedupe run_diags) ≡ sort_and_dedupe run_diags
sort_and_dedupe_idem_example = sort_and_dedupe_idem run_diags

abbrev shop_failed : Diagnostic
shop_failed = failed (some (text "shop")) (some orders_name)

-- Of the failures in two flows, the output has the first only.
one_kept : sort_and_dedupe run_diags ≡ shop_failed ∷ []
unfolding sort_and_dedupe diagnostic_less dedupe_key text sort_by text_eq member
one_kept = refl

shop_kept : In shop_failed (sort_and_dedupe run_diags)
shop_kept = rw one_kept (here refl)

sort_and_dedupe_one_flow_example :
    record shop_failed { flow = some (text "shop"); request = some orders_name } ≡ shop_failed
sort_and_dedupe_one_flow_example =
    sort_and_dedupe_one_flow run_diags shop_failed (some (text "shop")) (some orders_name) shop_kept
      shop_kept

suite_of_passed_example :
    map is_passed (take 2 (suite_of (group_by_flow run_diags []) shop_plan_flow).testcases)
    ≡ map (λ step. not (any (concerns (text "shop") step) run_diags)) shop_plan_flow.decl.chain
suite_of_passed_example = suite_of_passed run_diags shop_plan_flow

build_totals_example :
    Counts
      (build (some shop_plan) run_diags).summary
      (all_cases (build (some shop_plan) run_diags).suites)
build_totals_example = build_totals shop_plan run_diags

junit_suite_counts_example :
    JunitCounts (junit_suite (suite_of (group_by_flow run_diags []) shop_plan_flow))
junit_suite_counts_example = junit_suite_counts (group_by_flow run_diags []) shop_plan_flow

abbrev token_of : Kind → Text → Token
token_of kind lit = record {
  kind = kind;
  lit = lit;
  span = record {
    start = record { offset = 1; line = 1; column = 2 };
    end = record { offset = 2; line = 1; column = 3 };
  };
}

-- `a + b * c == d`
abbrev sum_tokens : Parser
sum_tokens = record {
  tokens =
      token_of tok_ident (text "a")
      ∷ token_of op_plus (text "+")
      ∷ token_of tok_ident (text "b")
      ∷ token_of op_mul (text "*")
      ∷ token_of tok_ident (text "c")
      ∷ token_of op_eq (text "==")
      ∷ token_of tok_ident (text "d")
      ∷ [];
  eof = token_of tok_eof [];
  file = text "shop.pt";
  errs = [];
}

-- The names and operators of an expression, in prefix order.
abbrev outline : Expr → List Text
outline (ident_expr name _) = name ∷ []
outline (binary_expr binary_eq l r _) = text "==" ∷ outline l ++ outline r
outline (binary_expr binary_add l r _) = text "+" ∷ outline l ++ outline r
outline (binary_expr binary_mul l r _) = text "*" ∷ outline l ++ outline r
outline _ = []

abbrev outcome_outline : Outcome (Expr × Parser) → List Text
outcome_outline (ok (e, p)) = outline e
outcome_outline _ = []

sum_parsed :
    outcome_outline (parse_expr (λ t. none) 9 0 sum_tokens)
    ≡ text "==" ∷ text "+" ∷ text "a" ∷ text "*" ∷ text "b" ∷ text "c" ∷ text "d" ∷ []
unfolding parse_expr text kind_id
sum_parsed = refl

parse_expr-Returns_example :
    Returns (λ r. Steps sum_tokens r.1) (parse_expr (λ t. none) 9 0 sum_tokens)
parse_expr-Returns_example = parse_expr-Returns (λ t. none) 9 0 sum_tokens refl (omega arith)
