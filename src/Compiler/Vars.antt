-- ===== src/Compiler/Vars.antt =====
-- `requiredVars` and `reqUsesPathParam`: the variables that the lines of a request need.
use pipetest.Ast.{
  Expr, object_lit, ReqLine, http_line, json_directive, header_directive, query_directive,
  auth_directive, hook_block, assert_stmt, let_line, HookStmt, HookKind, hook_pre, hook_post,
  assign_stmt, expr_stmt, let_hook, print_stmt,
}
use pipetest.Base.Assoc.{add, member}
use pipetest.Base.Order.{sort_by}
use pipetest.Base.Text.{Text, text, text_lt}
use pipetest.Base.{Bool, false, ◌&&◌, ◌||◌, List, [], ◌∷◌, if◌then◌else◌}
use pipetest.Compiler.Idents.{collect_expr_idents, collect_template_vars_in_expr}
use pipetest.Compiler.Scan.{path_params, collect_template_vars_in_string, add_all}

unfoldable pub request_template_symbols : List Text
unfolding text
request_template_symbols = text "req" ∷ text "res" ∷ text "status" ∷ []

unfoldable pub pre_hook_template_symbols : List Text
unfolding text
pre_hook_template_symbols = text "req" ∷ []

unfoldable pub post_hook_template_symbols : List Text
unfolding text
post_hook_template_symbols = text "req" ∷ text "res" ∷ text "status" ∷ []

unfoldable pub add_template_vars : List Text → List Text → List Text → List Text
unfolding request_template_symbols member add
add_template_vars [] allowed out = out
add_template_vars (name ∷ names) allowed out =
    add_template_vars names allowed
      (if member name request_template_symbols && member name allowed then out else add name out)

-- Template variables and then identifiers of an expression, as every case but the first takes them.
unfoldable pub add_expr : List Text → Expr → List Text → List Text
unfolding add_template_vars add_all collect_expr_idents collect_template_vars_in_expr
add_expr allowed e out =
    add_all (collect_expr_idents e)
      (add_template_vars (collect_template_vars_in_expr e) allowed out)

unfoldable pub add_exprs : List Text → List Expr → List Text → List Text
unfolding add_expr
add_exprs allowed [] out = out
add_exprs allowed (e ∷ es) out = add_exprs allowed es (add_expr allowed e out)

unfoldable pub add_hook_stmts : List Text → List HookStmt → List Text → List Text
unfolding add_expr add_exprs
add_hook_stmts allowed [] out = out
add_hook_stmts allowed (assign_stmt s ∷ ss) out =
    add_hook_stmts allowed ss (add_expr allowed s.value out)
add_hook_stmts allowed (expr_stmt s ∷ ss) out =
    add_hook_stmts allowed ss (add_expr allowed s.expr out)
add_hook_stmts allowed (print_stmt s ∷ ss) out =
    add_hook_stmts allowed ss (add_exprs allowed s.args out)
add_hook_stmts allowed (let_hook s ∷ ss) out = add_hook_stmts allowed ss out

abbrev allowed_in : HookKind → List Text
unfolding pre_hook_template_symbols post_hook_template_symbols
allowed_in hook_pre = pre_hook_template_symbols
allowed_in hook_post = post_hook_template_symbols

unfoldable pub add_line_vars : ReqLine → List Text → List Text
unfolding add_all path_params add_template_vars collect_template_vars_in_string add_expr
    add_hook_stmts post_hook_template_symbols pre_hook_template_symbols
add_line_vars (http_line l) out =
    add_template_vars (collect_template_vars_in_string l.path) [] (add_all (path_params l.path) out)
add_line_vars (header_directive l) out = add_expr [] l.value out
add_line_vars (query_directive l) out = add_expr [] l.value out
add_line_vars (auth_directive l) out = add_expr [] l.value out
add_line_vars (json_directive l) out = add_expr [] (object_lit l.value.pairs l.value.span) out
add_line_vars (assert_stmt l) out = add_expr post_hook_template_symbols l.expr out
add_line_vars (let_line l) out = add_expr post_hook_template_symbols l.value out
add_line_vars (hook_block l) out = add_hook_stmts (allowed_in l.kind) l.stmts out

unfoldable pub add_lines_vars : List ReqLine → List Text → List Text
unfolding add_line_vars
add_lines_vars [] out = out
add_lines_vars (l ∷ ls) out = add_lines_vars ls (add_line_vars l out)

unfoldable pub required_vars : List ReqLine → List Text
unfolding add_lines_vars sort_by
required_vars lines = sort_by text_lt (add_lines_vars lines [])

unfoldable pub req_uses_path_param : List ReqLine → Text → Bool
unfolding path_params member
req_uses_path_param [] name = false
req_uses_path_param (http_line l ∷ ls) name =
    member name (path_params l.path) || req_uses_path_param ls name
req_uses_path_param (_ ∷ ls) name = req_uses_path_param ls name
