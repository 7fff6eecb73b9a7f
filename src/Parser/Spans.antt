-- ===== src/Parser/Spans.antt =====
-- The spans of nodes and how they are joined.
use pipetest.Ast.{
  Position, Span, Expr, ident_expr, string_lit, number_lit, duration_lit, bool_lit, null_lit,
  dollar_expr, hash_expr, array_lit, object_lit, unary_expr, binary_expr, call_expr, field_expr,
  index_expr, paren_expr, bad_expr, Stmt, setting_stmt, import_stmt, let_stmt, req_decl, flow_decl,
}
use pipetest.Base.{Bool, ◌&&◌, ◌==◌, if◌then◌else◌}
use pipetest.Lexer.Token.{LexSpan}

unfoldable pub to_ast_span : LexSpan → Span
to_ast_span span = record {
  start = record { offset = span.start.offset; line = span.start.line; column = span.start.column };
  end = record { offset = span.end.offset; line = span.end.line; column = span.end.column };
}

unfoldable pub to_lex_span : Span → LexSpan
to_lex_span span = record {
  start = record { offset = span.start.offset; line = span.start.line; column = span.start.column };
  end = record { offset = span.end.offset; line = span.end.line; column = span.end.column };
}

abbrev pub is_zero_position : Position → Bool
is_zero_position p = p.offset == 0 && (p.line == 0 && p.column == 0)

unfoldable pub is_zero_span : Span → Bool
is_zero_span span = is_zero_position span.start && is_zero_position span.end

unfoldable pub join_span : Span → Span → Span
unfolding is_zero_span
join_span a b =
    if is_zero_span a
    then b
    else if is_zero_span b
    then a
    else record { start = a.start; end = b.end }

unfoldable pub expr_span : Expr → Span
expr_span (ident_expr _ s) = s
expr_span (string_lit _ _ s) = s
expr_span (number_lit _ s) = s
expr_span (duration_lit _ s) = s
expr_span (bool_lit _ s) = s
expr_span (null_lit s) = s
expr_span (dollar_expr s) = s
expr_span (hash_expr s) = s
expr_span (array_lit _ s) = s
expr_span (object_lit _ s) = s
expr_span (unary_expr _ _ s) = s
expr_span (binary_expr _ _ _ s) = s
expr_span (call_expr _ _ s) = s
expr_span (field_expr _ _ s) = s
expr_span (index_expr _ _ s) = s
expr_span (paren_expr _ s) = s
expr_span (bad_expr s) = s

unfoldable pub stmt_span : Stmt → Span
stmt_span (setting_stmt s) = s.span
stmt_span (import_stmt s) = s.span
stmt_span (let_stmt s) = s.span
stmt_span (req_decl s) = s.span
stmt_span (flow_decl s) = s.span

unfoldable pub merge_program_span : Span → Stmt → Span
unfolding is_zero_span stmt_span join_span
merge_program_span span stmt =
    if is_zero_span span then stmt_span stmt else join_span span (stmt_span stmt)
