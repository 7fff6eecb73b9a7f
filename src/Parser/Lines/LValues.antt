-- ===== src/Parser/Lines/LValues.antt =====
-- `exprToLValue`: the expressions that can be assigned to.
use pipetest.Ast.{
  Span, LValueRootKind, Expr, LValuePostfix, LValue, lvalue_ident, lvalue_req, lvalue_res,
  lvalue_field, lvalue_index, ident_expr, dollar_expr, hash_expr, field_expr, index_expr,
}
use pipetest.Base.Text.{Text, text, text_eq}
use pipetest.Base.{[], ◌∷◌, ◌++◌, Option, none, some, if◌then◌else◌}
use pipetest.Parser.Spans.{join_span}

unfoldable pub root_kind : Text → LValueRootKind
unfolding text text_eq
root_kind name =
    if text_eq name (text "res")
    then lvalue_res
    else if text_eq name (text "req")
    then lvalue_req
    else lvalue_ident

abbrev pub root_lvalue : LValueRootKind → Text → Span → LValue
root_lvalue kind name span = record {
  root = record { kind = kind; name = name; span = span };
  postfix = [];
  span = span;
}

abbrev pub add_postfix : LValuePostfix → LValue → LValue
add_postfix post base = record base {
  postfix = base.postfix ++ post ∷ [];
  span = join_span base.span post.span;
}

abbrev pub add_field : Text → Span → Option LValue → Option LValue
add_field name span none = none
add_field name span (some base) = some (
    add_postfix
      (record {
        kind = lvalue_field;
        name = name;
        index = none;
        span = record { start = base.span.end; end = span.end };
      })
      base)

abbrev pub add_index : Expr → Span → Option LValue → Option LValue
add_index index span none = none
add_index index span (some base) = some (
    add_postfix
      (record {
        kind = lvalue_index;
        name = [];
        index = some index;
        span = record { start = base.span.end; end = span.end };
      })
      base)

unfoldable pub expr_to_lvalue : Expr → Option LValue
unfolding root_kind join_span text
expr_to_lvalue (ident_expr name span) = some (root_lvalue (root_kind name) name span)
expr_to_lvalue (dollar_expr span) = some (root_lvalue lvalue_req (text "$") span)
expr_to_lvalue (hash_expr span) = some (root_lvalue lvalue_res (text "#") span)
expr_to_lvalue (field_expr x name span) = add_field name span (expr_to_lvalue x)
expr_to_lvalue (index_expr x index span) = add_index index span (expr_to_lvalue x)
expr_to_lvalue _ = none
