-- ===== src/Parser/Lines.antt =====
-- Request lines, hooks, assertions and lets. `fuel` bounds the nesting of expressions and the
-- rounds of each loop. The error branches of `parseHttpLine`, `parseDirective`, `parseHookBlock` and
-- `parsePrintStmt` for a first token that their callers never have are left out.
pub mod LValues
use pipetest.Ast.{
  Span, PrintKind, HttpMethod, HookKind, Key, Expr, LetStmt, HttpLine, LValue, HookStmt, HookBlock,
  AssertStmt, ReqLine, print, println, printf, method_get, method_post, method_put, method_patch,
  method_delete, method_head, method_options, auth_bearer, hook_pre, hook_post, key_ident, key_bare,
  key_string, let_hook, assign_stmt, expr_stmt, print_stmt, json_directive, header_directive,
  query_directive, auth_directive,
}
use pipetest.Base.Outcome.{ok, out_of_fuel}
use pipetest.Base.Text.{Text, text}
use pipetest.Base.{ℕ, zero, suc, Bool, List, [], ◌∷◌, Option, none, some, if◌then◌else◌, ◌||◌}
use pipetest.Lexer.Token.{
  tok_eof, tok_nl, tok_dedent, tok_ident, tok_bare_key, tok_string, tok_path, kw_let, kw_json,
  kw_header, kw_query, kw_auth, kw_bearer, kw_post, kw_hook, kw_print, kw_println, kw_printf,
  kw_post_m, kw_put, kw_patch, kw_delete, kw_head, kw_options, tok_question, tok_comma, tok_assign,
  tok_semicolon, tok_lbrace, tok_rbrace, Kind, kind_eq, LexSpan, Token,
}
use pipetest.Parser.Expr.Operators.{prec_lowest}
use pipetest.Parser.Expr.{parse_expr, parse_object_lit, string_lit_of}
use pipetest.Parser.Lines.LValues.{expr_to_lvalue}
use pipetest.Parser.Spans.{to_ast_span, to_lex_span, join_span, expr_span}
use pipetest.Parser.State.{
  Parse, ◌>>=◌, ◌>>◌, pure, cur, advance, match_kind, add_error, expect, err_expected_token,
  err_invalid_line,
}

unfoldable pub http_method : Kind → HttpMethod
http_method kw_post_m = method_post
http_method kw_put = method_put
http_method kw_patch = method_patch
http_method kw_delete = method_delete
http_method kw_head = method_head
http_method kw_options = method_options
http_method _ = method_get

unfoldable pub parse_http_line : Parse HttpLine
unfolding advance expect http_method to_ast_span join_span text
parse_http_line = do
  start_tok ← advance
  path_tok ←
      expect tok_path (text "expected path or URL after method")
        (text "provide a path like /orders")
  pure (record {
    method = http_method start_tok.kind;
    path = path_tok.lit;
    span = join_span (to_ast_span start_tok.span) (to_ast_span path_tok.span);
  })

unfoldable print_kind : Kind → PrintKind
print_kind kw_println = println
print_kind kw_printf = printf
print_kind _ = print

-- `syncLine`: to the end of the line, and past it.
unfoldable pub skip_to_line_end : List Token → List Token
skip_to_line_end [] = []
skip_to_line_end (t ∷ ts) =
    let rest = skip_to_line_end ts in
    if kind_eq t.kind tok_nl
    then ts
    else if kind_eq t.kind tok_dedent || kind_eq t.kind tok_eof
    then t ∷ ts
    else rest

unfoldable pub sync_line : Parse (Unit {0})
unfolding skip_to_line_end
sync_line p = ok (_, record p { tokens = skip_to_line_end p.tokens })

module _ (unquote : Text → Option Text) where
  abbrev key_of : Kind → Token → Parse Key
  key_of tok_ident tok =
      pure (record { kind = key_ident; name = tok.lit; raw = []; span = to_ast_span tok.span })
  key_of tok_bare_key tok =
      pure (record { kind = key_bare; name = tok.lit; raw = []; span = to_ast_span tok.span })
  key_of tok_string tok =
      let lit = string_lit_of unquote tok in
      pure (record { kind = key_string; name = lit.value; raw = lit.raw; span = lit.span })
  key_of _ tok =
      add_error err_expected_token (text "expected key") (text "use an identifier or string")
        tok.span
      >> pure (record { kind = key_ident; name = []; raw = []; span = to_ast_span tok.span })

  unfoldable pub parse_key : Parse Key
  unfolding advance add_error string_lit_of to_ast_span text
  parse_key = do tok ← advance; key_of tok.kind tok

  module _ (fuel : ℕ) where
    abbrev pub expr : Parse Expr
    expr = parse_expr unquote fuel prec_lowest

    unfoldable pub parse_let : Parse LetStmt
    unfolding expect expr_span join_span to_ast_span text
    parse_let = do
      start_tok ← expect kw_let (text "expected let") (text "use let name = expr")
      name_tok ←
          expect tok_ident (text "expected identifier after let") (text "provide a variable name")
      expect tok_assign (text "expected '=' in let statement")
          (text "assign a value to the variable")
      val ← expr
      pure (record {
        name = name_tok.lit;
        value = val;
        span = join_span (to_ast_span start_tok.span) (expr_span val);
      })

    unfoldable pub parse_assert_line : Parse AssertStmt
    unfolding expect expr_span join_span to_ast_span text
    parse_assert_line = do
      start_tok ← expect tok_question (text "expected '?'") (text "start assertion with '?'")
      val ← expr
      pure (record { expr = val; span = join_span (to_ast_span start_tok.span) (expr_span val) })

    unfoldable pub parse_json : Parse ReqLine
    unfolding expect parse_object_lit join_span to_ast_span text
    parse_json = do
      start_tok ← expect kw_json (text "expected json") (text "use json { ... }")
      obj ← parse_object_lit unquote (parse_expr unquote fuel) fuel
      pure (
          json_directive
            (record { value = obj; span = join_span (to_ast_span start_tok.span) obj.span }))

    unfoldable pub parse_header : Parse ReqLine
    unfolding expect parse_key expr_span join_span to_ast_span text
    parse_header = do
      start_tok ← expect kw_header (text "expected header") (text "use header Key = expr")
      key ← parse_key
      expect tok_assign (text "expected '=' after header key") (text "assign a header value")
      val ← expr
      pure (
          header_directive (record {
            key = key;
            value = val;
            span = join_span (to_ast_span start_tok.span) (expr_span val);
          }))

    unfoldable pub parse_query : Parse ReqLine
    unfolding expect parse_key expr_span join_span to_ast_span text
    parse_query = do
      start_tok ← expect kw_query (text "expected query") (text "use query Key = expr")
      key ← parse_key
      expect tok_assign (text "expected '=' after query key") (text "assign a query value")
      val ← expr
      pure (
          query_directive (record {
            key = key;
            value = val;
            span = join_span (to_ast_span start_tok.span) (expr_span val);
          }))

    unfoldable pub parse_auth : Parse ReqLine
    unfolding expect expr_span join_span to_ast_span text
    parse_auth = do
      start_tok ← expect kw_auth (text "expected auth") (text "use auth bearer expr")
      expect kw_bearer (text "expected bearer auth") (text "use bearer auth")
      val ← expr
      pure (
          auth_directive (record {
            scheme = auth_bearer;
            value = val;
            span = join_span (to_ast_span start_tok.span) (expr_span val);
          }))

    -- The rest of `parsePrintArgs`, after its first test.
    unfoldable pub parse_comma_exprs : ℕ → Parse (List Expr)
    unfolding match_kind
    parse_comma_exprs zero = λ p. out_of_fuel
    parse_comma_exprs (suc k) = do
      e ← expr
      comma ← match_kind tok_comma
      if comma then (parse_comma_exprs k >>= λ es. pure (e ∷ es)) else pure (e ∷ [])

    unfoldable pub parse_print_args : Parse (List Expr)
    unfolding cur parse_comma_exprs
    parse_print_args = do
      tok ← cur
      if kind_eq tok.kind tok_nl
            || (kind_eq tok.kind tok_semicolon
                || (kind_eq tok.kind tok_rbrace || kind_eq tok.kind tok_eof))
          then pure []
          else parse_comma_exprs fuel

    -- The span of the last argument, or of the first token where there is none.
    abbrev last_span : Span → List Expr → Span
    last_span s [] = s
    last_span s (e ∷ es) = last_span (expr_span e) es

    abbrev missing_args : Kind → List Expr → LexSpan → Parse (Unit {0})
    missing_args kw_println args span = pure _
    missing_args _ [] span =
        add_error err_expected_token (text "expected print argument")
          (text "provide at least one expression") span
    missing_args _ (_ ∷ _) span = pure _

    unfoldable pub parse_print_stmt : Parse HookStmt
    unfolding advance parse_print_args add_error print_kind expr_span join_span to_ast_span text
    parse_print_stmt = do
      start_tok ← advance
      args ← parse_print_args
      missing_args start_tok.kind args start_tok.span
      pure (
          print_stmt (record {
            kind = print_kind start_tok.kind;
            args = args;
            span =
                join_span (to_ast_span start_tok.span)
                  (last_span (to_ast_span start_tok.span) args);
          }))

    abbrev assigned : Expr → Expr → Option LValue → Parse HookStmt
    assigned left val none =
        add_error err_invalid_line (text "invalid assignment target")
          (text "assign to req, res, $ or an identifier path") (to_lex_span (expr_span left))
        >> pure (expr_stmt (record { expr = val; span = expr_span val }))
    assigned left val (some lv) = pure (
        assign_stmt (record { target = lv; value = val; span = join_span lv.span (expr_span val) }))

    unfoldable pub parse_expr_stmt : Parse HookStmt
    unfolding match_kind add_error expr_to_lvalue expr_span join_span to_lex_span text
    parse_expr_stmt = do
      left ← expr
      assign ← match_kind tok_assign
      if assign
          then (expr >>= λ val. assigned left val (expr_to_lvalue left))
          else pure (expr_stmt (record { expr = left; span = expr_span left }))

    -- `parseHookStmt`, by the kind of `cur`.
    unfoldable pub parse_hook_stmt : Kind → Parse HookStmt
    unfolding parse_let parse_print_stmt parse_expr_stmt
    parse_hook_stmt kw_let = parse_let >>= λ l. pure (let_hook l)
    parse_hook_stmt kw_print = parse_print_stmt
    parse_hook_stmt kw_println = parse_print_stmt
    parse_hook_stmt kw_printf = parse_print_stmt
    parse_hook_stmt _ = parse_expr_stmt

    abbrev is_separator : Kind → Bool
    is_separator kind = kind_eq kind tok_nl || kind_eq kind tok_semicolon

    -- `if p.cur.Kind == NL || p.cur.Kind == SEMICOLON { p.advance() }`
    unfoldable pub skip_separator : Parse (Unit {0})
    unfolding cur advance
    skip_separator = do tok ← cur; if is_separator tok.kind then (advance >> pure _) else pure _

    -- The loop of `parseHookBlock`.
    unfoldable pub parse_hook_stmts : ℕ → Parse (List HookStmt)
    unfolding cur advance parse_hook_stmt skip_separator
    parse_hook_stmts zero = λ p. out_of_fuel
    parse_hook_stmts (suc k) = do
      tok ← cur
      if kind_eq tok.kind tok_rbrace || kind_eq tok.kind tok_eof
          then pure []
          else if is_separator tok.kind
          then (advance >> parse_hook_stmts k)
          else (do
            stmt ← parse_hook_stmt tok.kind
            skip_separator
            stmts ← parse_hook_stmts k
            pure (stmt ∷ stmts))

    abbrev hook_kind : Kind → HookKind
    hook_kind kw_post = hook_post
    hook_kind _ = hook_pre

    unfoldable pub parse_hook_block : Parse HookBlock
    unfolding advance expect parse_hook_stmts match_kind join_span to_ast_span text
    parse_hook_block = do
      start_tok ← advance
      expect kw_hook (text "expected 'hook'") (text "use pre hook { ... }")
      expect tok_lbrace (text "expected '{' to start hook") (text "open the hook block")
      stmts ← parse_hook_stmts fuel
      end_tok ← expect tok_rbrace (text "expected '}' to end hook") (text "close the hook block")
      match_kind tok_nl
      pure (record {
        kind = hook_kind start_tok.kind;
        stmts = stmts;
        span = join_span (to_ast_span start_tok.span) (to_ast_span end_tok.span);
      })
