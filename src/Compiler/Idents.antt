-- ===== src/Compiler/Idents.antt =====
-- The collectors that walk expressions: identifiers, template variables, references to `#`.
pub mod Reserved
use pipetest.Ast.{
  Expr, Exprs, Pairs, ident_expr, string_lit, array_lit, object_lit, unary_expr, binary_expr,
  call_expr, field_expr, index_expr, paren_expr, hash_expr, no_exprs, expr_cons, no_pairs,
  pair_cons, HookStmt, let_hook, assign_stmt, expr_stmt, print_stmt,
}
use pipetest.Base.{Bool, true, false, ◌||◌, List, [], ◌∷◌, if◌then◌else◌}
use pipetest.Base.Assoc.{add, member}
use pipetest.Base.Order.{sort_by}
use pipetest.Base.Text.{Text, text, text_lt}
use pipetest.Compiler.Scan.{add_all, collect_template_vars_in_string}

unfoldable pub builtins : List Text
unfolding text
builtins =
    text "env"
    ∷ text "uuid"
    ∷ text "len"
    ∷ text "jsonpath"
    ∷ text "regex"
    ∷ text "now"
    ∷ text "urlencode"
    ∷ []

unfoldable pub reserved_names : List Text
unfolding text
reserved_names = text "req" ∷ text "res" ∷ text "status" ∷ text "header" ∷ text "$" ∷ text "#" ∷ []

-- `case *ast.IdentExpr`
unfoldable pub add_ident : Text → List Text → List Text
unfolding builtins reserved_names member add
add_ident name out =
    if member name builtins then out else if member name reserved_names then out else add name out

-- `walk` of `collectExprIdents`, on the names found so far.
unfoldable mutual
  unfolding add_ident

  pub walk_idents : Expr → List Text → List Text
  walk_idents (ident_expr name _) out = add_ident name out
  walk_idents (unary_expr _ x _) out = walk_idents x out
  walk_idents (binary_expr _ l r _) out = walk_idents r (walk_idents l out)
  walk_idents (call_expr f args _) out = walk_idents_list args (walk_idents f out)
  walk_idents (field_expr x _ _) out = walk_idents x out
  walk_idents (index_expr x i _) out = walk_idents i (walk_idents x out)
  walk_idents (paren_expr x _) out = walk_idents x out
  walk_idents (array_lit es _) out = walk_idents_list es out
  walk_idents (object_lit ps _) out = walk_idents_pairs ps out
  walk_idents _ out = out

  pub walk_idents_list : Exprs → List Text → List Text
  walk_idents_list no_exprs out = out
  walk_idents_list (expr_cons e es) out = walk_idents_list es (walk_idents e out)

  pub walk_idents_pairs : Pairs → List Text → List Text
  walk_idents_pairs no_pairs out = out
  walk_idents_pairs (pair_cons _ e _ ps) out = walk_idents_pairs ps (walk_idents e out)

unfoldable pub collect_expr_idents : Expr → List Text
unfolding walk_idents sort_by
collect_expr_idents e = sort_by text_lt (walk_idents e [])

-- `walk` of `collectTemplateVarsInExpr`
unfoldable mutual
  unfolding add_all collect_template_vars_in_string

  pub walk_templates : Expr → List Text → List Text
  walk_templates (string_lit _ value _) out = add_all (collect_template_vars_in_string value) out
  walk_templates (unary_expr _ x _) out = walk_templates x out
  walk_templates (binary_expr _ l r _) out = walk_templates r (walk_templates l out)
  walk_templates (call_expr f args _) out = walk_templates_list args (walk_templates f out)
  walk_templates (field_expr x _ _) out = walk_templates x out
  walk_templates (index_expr x i _) out = walk_templates i (walk_templates x out)
  walk_templates (paren_expr x _) out = walk_templates x out
  walk_templates (array_lit es _) out = walk_templates_list es out
  walk_templates (object_lit ps _) out = walk_templates_pairs ps out
  walk_templates _ out = out

  pub walk_templates_list : Exprs → List Text → List Text
  walk_templates_list no_exprs out = out
  walk_templates_list (expr_cons e es) out = walk_templates_list es (walk_templates e out)

  pub walk_templates_pairs : Pairs → List Text → List Text
  walk_templates_pairs no_pairs out = out
  walk_templates_pairs (pair_cons _ e _ ps) out = walk_templates_pairs ps (walk_templates e out)

unfoldable pub collect_template_vars_in_expr : Expr → List Text
unfolding walk_templates sort_by
collect_template_vars_in_expr e = sort_by text_lt (walk_templates e [])

unfoldable pub is_res_ref : Expr → Bool
unfolding collect_expr_idents member text
is_res_ref e = member (text "res") (collect_expr_idents e)

unfoldable mutual
  pub is_hash_ref : Expr → Bool
  is_hash_ref (hash_expr _) = true
  is_hash_ref (unary_expr _ x _) = is_hash_ref x
  is_hash_ref (binary_expr _ l r _) = is_hash_ref l || is_hash_ref r
  is_hash_ref (call_expr f args _) = is_hash_ref f || is_hash_ref_list args
  is_hash_ref (field_expr x _ _) = is_hash_ref x
  is_hash_ref (index_expr x i _) = is_hash_ref x || is_hash_ref i
  is_hash_ref (paren_expr x _) = is_hash_ref x
  is_hash_ref (array_lit es _) = is_hash_ref_list es
  is_hash_ref (object_lit ps _) = is_hash_ref_pairs ps
  is_hash_ref _ = false

  pub is_hash_ref_list : Exprs → Bool
  is_hash_ref_list no_exprs = false
  is_hash_ref_list (expr_cons e es) = is_hash_ref e || is_hash_ref_list es

  pub is_hash_ref_pairs : Pairs → Bool
  is_hash_ref_pairs no_pairs = false
  is_hash_ref_pairs (pair_cons _ e _ ps) = is_hash_ref e || is_hash_ref_pairs ps

unfoldable pub any_expr : (Expr → Bool) → List Expr → Bool
any_expr fn [] = false
any_expr fn (e ∷ es) = fn e || any_expr fn es

unfoldable pub refs_expr_in_hook : (Expr → Bool) → List HookStmt → Bool
unfolding any_expr
refs_expr_in_hook fn [] = false
refs_expr_in_hook fn (assign_stmt s ∷ rest) = fn s.value || refs_expr_in_hook fn rest
refs_expr_in_hook fn (expr_stmt s ∷ rest) = fn s.expr || refs_expr_in_hook fn rest
refs_expr_in_hook fn (print_stmt s ∷ rest) = any_expr fn s.args || refs_expr_in_hook fn rest
refs_expr_in_hook fn (let_hook s ∷ rest) = refs_expr_in_hook fn rest
