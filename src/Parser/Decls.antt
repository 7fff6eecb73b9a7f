-- ===== src/Parser/Decls.antt =====
-- Declarations and `ParseProgram`. A loop has one unit of fuel for each round.
pub mod Flow
use pipetest.Ast.{
  SettingStmt, ImportStmt, ReqLine, ReqDecl, Stmt, Program, setting_base, setting_timeout,
  duration_lit, http_line, hook_block, assert_stmt, let_line, setting_stmt, import_stmt, let_stmt,
  req_decl, flow_decl, zero_span,
}
use pipetest.Base.Outcome.{ok, out_of_fuel}
use pipetest.Base.Text.{Text, text}
use pipetest.Base.{
  ℕ, zero, suc, Bool, true, false, List, [], ◌∷◌, ◌++◌, Option, none, some, if◌then◌else◌, ◌||◌,
}
use pipetest.Lexer.Token.{
  tok_eof, tok_nl, tok_indent, tok_dedent, tok_ident, tok_string, tok_duration, kw_req, kw_flow,
  kw_import, kw_let, kw_base, kw_timeout, kw_json, kw_header, kw_query, kw_auth, kw_pre, kw_post,
  kw_get, kw_post_m, kw_put, kw_patch, kw_delete, kw_head, kw_options, tok_question, tok_colon,
  tok_lparen, tok_rparen, Kind, kind_eq, Token,
}
use pipetest.Parser.Decls.Flow.{parse_flow_decl}
use pipetest.Parser.Expr.{string_lit_of, string_expr}
use pipetest.Parser.Lines.{
  parse_http_line, parse_let, parse_json, parse_header, parse_query, parse_auth, parse_hook_block,
  parse_assert_line, sync_line,
}
use pipetest.Parser.Spans.{to_ast_span, join_span, merge_program_span}
use pipetest.Parser.State.{
  Parse, Parser, ◌>>=◌, ◌>>◌, pure, cur, advance, match_kind, add_error, expect, err_invalid_line,
  err_unexpected_token,
}

-- `syncTop`: to the end of the line, and past it.
unfoldable pub skip_to_newline : List Token → List Token
skip_to_newline [] = []
skip_to_newline (t ∷ ts) =
    let rest = skip_to_newline ts in
    if kind_eq t.kind tok_nl then ts else if kind_eq t.kind tok_eof then t ∷ ts else rest

unfoldable pub sync_top : Parse (Unit {0})
unfolding skip_to_newline
sync_top p = ok (_, record p { tokens = skip_to_newline p.tokens })

-- `x` and the newline that must follow it.
abbrev with_newline : {A : Type 0} → Text → Text → Parse A → Parse A
with_newline msg hint m = m >>= λ a. expect tok_nl msg hint >> pure a

module _ (unquote : Text → Option Text) where
  unfoldable pub parse_base : Parse SettingStmt
  unfolding advance expect string_lit_of join_span to_ast_span text
  parse_base = do
    start_tok ← advance
    val_tok ←
        expect tok_string (text "expected string literal after base")
          (text "provide a base URL string")
    let lit = string_lit_of unquote val_tok
    pure (record {
      kind = setting_base;
      value = string_expr unquote lit;
      span = join_span (to_ast_span start_tok.span) lit.span;
    })

  unfoldable pub parse_timeout : Parse SettingStmt
  unfolding expect join_span to_ast_span text
  parse_timeout = do
    start_tok ← expect kw_timeout (text "expected timeout") (text "use timeout <duration>")
    val_tok ←
        expect tok_duration (text "expected duration literal after timeout")
          (text "provide a duration like 5s")
    pure (record {
      kind = setting_timeout;
      value = duration_lit val_tok.lit (to_ast_span val_tok.span);
      span = join_span (to_ast_span start_tok.span) (to_ast_span val_tok.span);
    })

  unfoldable pub parse_import : Parse ImportStmt
  unfolding expect string_lit_of join_span to_ast_span text
  parse_import = do
    start_tok ← expect kw_import (text "expected import") (text "use import \"file.pt\"")
    val_tok ←
        expect tok_string (text "expected string literal after import")
          (text "provide a path string")
    let lit = string_lit_of unquote val_tok
    pure (record { path = lit; span = join_span (to_ast_span start_tok.span) lit.span })

  module _ (fuel : ℕ) where
    abbrev directive : Parse ReqLine → Parse (Option ReqLine)
    directive m =
        with_newline (text "expected newline after directive")
          (text "add a newline after the directive") (m >>= λ l. pure (some l))

    abbrev http : Parse (Option ReqLine)
    http =
        with_newline (text "expected newline after http line")
          (text "add a newline after the HTTP line")
          (parse_http_line >>= λ l. pure (some (http_line l)))

    abbrev hook : Parse (Option ReqLine)
    hook = parse_hook_block unquote fuel >>= λ h. pure (some (hook_block h))

    -- One round of the loop of `parseReqDecl`, by the kind of `cur`.
    unfoldable pub parse_req_line : Kind → Parse (Option ReqLine)
    unfolding advance expect add_error parse_http_line parse_json parse_header parse_query
        parse_auth parse_hook_block parse_assert_line parse_let sync_line cur text
    parse_req_line tok_nl = advance >> pure none
    parse_req_line kw_get = http
    parse_req_line kw_post_m = http
    parse_req_line kw_put = http
    parse_req_line kw_patch = http
    parse_req_line kw_delete = http
    parse_req_line kw_head = http
    parse_req_line kw_options = http
    parse_req_line kw_json = directive (parse_json unquote fuel)
    parse_req_line kw_header = directive (parse_header unquote fuel)
    parse_req_line kw_query = directive (parse_query unquote fuel)
    parse_req_line kw_auth = directive (parse_auth unquote fuel)
    parse_req_line kw_pre = hook
    parse_req_line kw_post = hook
    parse_req_line tok_question =
        with_newline (text "expected newline after assertion")
          (text "add a newline after the assertion")
          (parse_assert_line unquote fuel >>= λ a. pure (some (assert_stmt a)))
    parse_req_line kw_let =
        with_newline (text "expected newline after let") (text "add a newline after the let")
          (parse_let unquote fuel >>= λ l. pure (some (let_line l)))
    parse_req_line _ = do
      tok ← cur
      add_error err_invalid_line (text "invalid request line")
          (text "use an http line, directive, hook, assertion, or let") tok.span
      sync_line
      pure none

    abbrev cons_option : {A : Type 0} → Option A → List A → List A
    cons_option none xs = xs
    cons_option (some x) xs = x ∷ xs

    unfoldable pub parse_req_lines : ℕ → Parse (List ReqLine)
    unfolding cur parse_req_line
    parse_req_lines zero = λ p. out_of_fuel
    parse_req_lines (suc k) = do
      tok ← cur
      if kind_eq tok.kind tok_dedent || kind_eq tok.kind tok_eof then pure [] else (do
        line ← parse_req_line tok.kind
        lines ← parse_req_lines k
        pure (cons_option line lines))

    abbrev req_parent : Bool → Parse (Option Text)
    req_parent false = pure none
    req_parent true = do
      par_tok ←
          expect tok_ident (text "expected parent request name")
            (text "provide a parent request name")
      expect tok_rparen (text "expected ')' after parent name") (text "close the parent list")
      pure (some par_tok.lit)

    unfoldable pub parse_req_decl : Parse ReqDecl
    unfolding expect match_kind parse_req_lines join_span to_ast_span text
    parse_req_decl = do
      start_tok ← expect kw_req (text "expected req") (text "use req <name>:")
      name_tok ← expect tok_ident (text "expected request name") (text "provide a request name")
      open_paren ← match_kind tok_lparen
      parent ← req_parent open_paren
      expect tok_colon (text "expected ':' after req header")
          (text "add ':' to start the request block")
      expect tok_nl (text "expected newline after req header")
          (text "add a newline after the header")
      expect tok_indent (text "expected indented req block") (text "indent request lines")
      lines ← parse_req_lines fuel
      end_tok ←
          expect tok_dedent (text "expected end of req block")
            (text "dedent to close the req block")
      pure (record {
        name = name_tok.lit;
        parent = parent;
        lines = lines;
        span = join_span (to_ast_span start_tok.span) (to_ast_span end_tok.span);
      })

    -- `parseTopStmt`, by the kind of `cur`; none is nil.
    unfoldable pub parse_top_stmt : Kind → Parse (Option Stmt)
    unfolding expect parse_base parse_timeout parse_import parse_let parse_req_decl parse_flow_decl
        add_error cur text
    parse_top_stmt kw_base =
        with_newline (text "expected newline after setting")
          (text "add a newline after the setting")
          (parse_base >>= λ s. pure (some (setting_stmt s)))
    parse_top_stmt kw_timeout =
        with_newline (text "expected newline after setting")
          (text "add a newline after the setting")
          (parse_timeout >>= λ s. pure (some (setting_stmt s)))
    parse_top_stmt kw_import =
        with_newline (text "expected newline after import") (text "add a newline after the import")
          (parse_import >>= λ s. pure (some (import_stmt s)))
    parse_top_stmt kw_let =
        with_newline (text "expected newline after let") (text "add a newline after the let")
          (parse_let unquote fuel >>= λ s. pure (some (let_stmt s)))
    parse_top_stmt kw_req = parse_req_decl >>= λ s. pure (some (req_decl s))
    parse_top_stmt kw_flow = parse_flow_decl unquote fuel >>= λ s. pure (some (flow_decl s))
    parse_top_stmt _ = do
      tok ← cur
      add_error err_unexpected_token (text "unexpected token at top level")
          (text "start with a declaration") tok.span
      pure none

    abbrev after_stmt : Option Stmt → Program → Parse Program
    after_stmt none program = sync_top >> pure program
    after_stmt (some stmt) program =
        pure (record {
          stmts = program.stmts ++ stmt ∷ [];
          span = merge_program_span program.span stmt;
        })

    -- The loop of `ParseProgram`, with what it has so far.
    unfoldable pub parse_stmts : ℕ → Program → Parse Program
    unfolding cur advance parse_top_stmt sync_top merge_program_span
    parse_stmts zero program = λ p. out_of_fuel
    parse_stmts (suc k) program = do
      tok ← cur
      if kind_eq tok.kind tok_eof
          then pure program
          else if kind_eq tok.kind tok_nl
          then (advance >> parse_stmts k program)
          else (do
            stmt ← parse_top_stmt tok.kind
            program' ← after_stmt stmt program
            parse_stmts k program')

  -- `ParseProgram`
  unfoldable pub parse_program : ℕ → Parse Program
  unfolding parse_stmts
  parse_program fuel = parse_stmts fuel fuel (record { stmts = []; span = zero_span })
