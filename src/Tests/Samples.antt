-- ===== src/Tests/Samples.antt =====
-- A small program: a login request, a request that inherits from it, and a flow over both.
use pipetest.Ast.{
  Span, HookStmt, ReqLine, ReqDecl, FlowStep, FlowDecl, Program, method_get, method_post, hook_pre,
  key_ident, ident_expr, null_lit, hash_expr, expr_stmt, http_line, header_directive, hook_block,
  assert_stmt, let_line, req_decl, flow_decl,
}
use pipetest.Base.Text.{Text, text}
use pipetest.Base.{List, [], ◌∷◌, Option, none, some}
use pipetest.Compiler.State.{Compiler, Module, Plan, PlanFlow, ReqInfo}
use pipetest.Diagnostics.{Diagnostic}

abbrev pub line_span : Span
line_span = record {
  start = record { offset = 9; line = 2; column = 3 };
  end = record { offset = 20; line = 2; column = 14 };
}

abbrev pub login_name : Text
login_name = text "login"

abbrev pub orders_name : Text
orders_name = text "orders"

abbrev pub post_line : ReqLine
post_line = http_line (record { method = method_post; path = text "/login"; span = line_span })

abbrev pub get_line : ReqLine
get_line = http_line (record { method = method_get; path = text "/orders"; span = line_span })

abbrev pub status_assert : ReqLine
status_assert =
    assert_stmt (record { expr = ident_expr (text "status") line_span; span = line_span })

abbrev pub token_header : ReqLine
token_header = header_directive (record {
  key = record { kind = key_ident; name = text "X-Token"; raw = []; span = line_span };
  value = ident_expr (text "token") line_span;
  span = line_span;
})

abbrev pub token_let : ReqLine
token_let = let_line (record { name = text "token"; value = hash_expr line_span; span = line_span })

-- A pre hook that reads the response.
abbrev pub res_stmt : HookStmt
res_stmt = expr_stmt (record { expr = ident_expr (text "res") line_span; span = line_span })

abbrev pub pre_hook_line : ReqLine
pre_hook_line = hook_block (record { kind = hook_pre; stmts = res_stmt ∷ []; span = line_span })

abbrev pub login_lines : List ReqLine
login_lines = post_line ∷ token_header ∷ status_assert ∷ []

abbrev pub orders_lines : List ReqLine
orders_lines = get_line ∷ get_line ∷ pre_hook_line ∷ []

abbrev pub login_decl : ReqDecl
login_decl = record { name = login_name; parent = none; lines = login_lines; span = line_span }

abbrev pub orders_decl : ReqDecl
orders_decl = record {
  name = orders_name;
  parent = some login_name;
  lines = orders_lines;
  span = line_span;
}

abbrev pub login_step : FlowStep
login_step = record { req_name = login_name; alias = none; span = line_span }

abbrev pub orders_step : FlowStep
orders_step = record { req_name = orders_name; alias = some (text "first"); span = line_span }

abbrev pub shop_flow : FlowDecl
shop_flow = record {
  name = record { raw = text "shop"; value = text "shop"; span = line_span };
  prelude = record { name = text "token"; value = null_lit line_span; span = line_span } ∷ [];
  chain = login_step ∷ orders_step ∷ [];
  asserts = [];
  span = line_span;
}

abbrev pub entry_program : Program
entry_program = record {
  stmts = req_decl login_decl ∷ req_decl orders_decl ∷ flow_decl shop_flow ∷ [];
  span = line_span;
}

abbrev pub modules : List Module
modules = record { path = text "shop.pt"; program = entry_program } ∷ []

abbrev pub reqs : List (Text × ReqInfo)
reqs =
    (login_name, record { decl = login_decl; file = text "shop.pt" })
    ∷ (orders_name, record { decl = orders_decl; file = text "shop.pt" })
    ∷ []

-- The compiler after `passSymbols`.
abbrev pub with_reqs : Compiler
with_reqs = record {
  entry_path = text "shop.pt";
  modules = (text "shop.pt", entry_program) ∷ [];
  ordered = text "shop.pt" ∷ [];
  diags = [];
  plan = none;
  reqs = reqs;
  eff_reqs = [];
  globals = [];
}

abbrev pub failed : Option Text → Option Text → Diagnostic
failed flow request = record {
  severity = text "error";
  code = text "E_ASSERT_EXPECTED_TRUE";
  message = text "assertion failed";
  file = text "shop.pt";
  line = 2;
  column = 3;
  hint = [];
  related = none;
  flow = flow;
  request = request;
}

abbrev pub run_diags : List Diagnostic
run_diags =
    failed (some (text "shop")) (some orders_name)
    ∷ failed (some (text "refund")) (some orders_name)
    ∷ failed (some (text "shop")) none
    ∷ []

abbrev pub shop_plan_flow : PlanFlow
shop_plan_flow = record {
  name = text "shop";
  steps = [];
  lets = [];
  check = [];
  span = line_span;
  decl = shop_flow;
}

abbrev pub shop_plan : Plan
shop_plan = record {
  entry_path = text "shop.pt";
  requests = [];
  flows = shop_plan_flow ∷ [];
  base = none;
  timeout = none;
  globals = [];
}
