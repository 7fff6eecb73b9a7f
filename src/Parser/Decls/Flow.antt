-- ===== src/Parser/Decls/Flow.antt =====
-- Flow declarations.
use pipetest.Ast.{LetStmt, AssertStmt, FlowStep, FlowDecl}
use pipetest.Base.Outcome.{out_of_fuel}
use pipetest.Base.Text.{Text, text}
use pipetest.Base.{
  ℕ, zero, suc, Bool, true, false, List, [], ◌∷◌, Option, none, some, if◌then◌else◌, ◌||◌,
}
use pipetest.Lexer.Token.{
  tok_eof, tok_nl, tok_indent, tok_dedent, tok_ident, tok_string, kw_flow, kw_let, tok_arrow,
  tok_question, tok_colon, kind_eq, Token,
}
use pipetest.Parser.Expr.{string_lit_of}
use pipetest.Parser.Lines.{parse_let, parse_assert_line, sync_line}
use pipetest.Parser.Spans.{to_ast_span, join_span}
use pipetest.Parser.State.{
  Parse, ◌>>=◌, ◌>>◌, pure, cur, advance, match_kind, add_error, expect, err_invalid_flow,
}

abbrev step_of : Token → Bool → Parse FlowStep
step_of name_tok false =
    pure (record { req_name = name_tok.lit; alias = none; span = to_ast_span name_tok.span })
step_of name_tok true = do
  alias_tok ← expect tok_ident (text "expected alias after ':'") (text "provide an alias name")
  pure (record {
    req_name = name_tok.lit;
    alias = some alias_tok.lit;
    span = join_span (to_ast_span name_tok.span) (to_ast_span alias_tok.span);
  })

unfoldable pub parse_flow_step_ref : Parse FlowStep
unfolding expect match_kind to_ast_span join_span text
parse_flow_step_ref = do
  name_tok ← expect tok_ident (text "expected request name in flow") (text "provide a request name")
  colon ← match_kind tok_colon
  step_of name_tok colon

unfoldable pub parse_flow_chain_line : ℕ → Parse (List FlowStep)
unfolding parse_flow_step_ref match_kind
parse_flow_chain_line zero = λ p. out_of_fuel
parse_flow_chain_line (suc k) = do
  step ← parse_flow_step_ref
  arrow ← match_kind tok_arrow
  if arrow then (parse_flow_chain_line k >>= λ steps. pure (step ∷ steps)) else pure (step ∷ [])

module _ (unquote : Text → Option Text) (fuel : ℕ) where
  unfoldable pub parse_prelude : ℕ → Parse (List LetStmt)
  unfolding cur advance parse_let expect text
  parse_prelude zero = λ p. out_of_fuel
  parse_prelude (suc k) = do
    tok ← cur
    if kind_eq tok.kind tok_nl
        then (advance >> parse_prelude k)
        else if kind_eq tok.kind kw_let
        then (do
          l ← parse_let unquote fuel
          expect tok_nl (text "expected newline after let") (text "add a newline after the let")
          ls ← parse_prelude k
          pure (l ∷ ls))
        else pure []

  abbrev missing_chain_line : Token → Parse (List FlowStep)
  missing_chain_line tok = do
    add_error err_invalid_flow (text "flow missing chain line") (text "add a chain line with '->'")
        tok.span
    if kind_eq tok.kind tok_dedent || kind_eq tok.kind tok_eof then pure _ else sync_line
    pure []

  unfoldable pub parse_chain : Parse (List FlowStep)
  unfolding cur parse_flow_chain_line expect add_error sync_line text
  parse_chain = do
    tok ← cur
    if kind_eq tok.kind tok_ident
        then (do
          steps ← parse_flow_chain_line fuel
          expect tok_nl (text "expected newline after chain line")
              (text "add a newline after the chain line")
          pure steps)
        else missing_chain_line tok

  unfoldable pub parse_flow_asserts : ℕ → Parse (List AssertStmt)
  unfolding cur advance add_error sync_line parse_assert_line expect text
  parse_flow_asserts zero = λ p. out_of_fuel
  parse_flow_asserts (suc k) = do
    tok ← cur
    if kind_eq tok.kind tok_dedent || kind_eq tok.kind tok_eof
        then pure []
        else if kind_eq tok.kind tok_nl
        then (advance >> parse_flow_asserts k)
        else if kind_eq tok.kind tok_question
        then (do
          a ← parse_assert_line unquote fuel
          expect tok_nl (text "expected newline after assertion")
              (text "add a newline after the assertion")
          rest ← parse_flow_asserts k
          pure (a ∷ rest))
        else (do
          add_error err_invalid_flow (text "only assertions allowed after flow chain")
              (text "move non-assert lines before the chain") tok.span
          sync_line
          parse_flow_asserts k)

  unfoldable pub parse_flow_decl : Parse FlowDecl
  unfolding expect string_lit_of parse_prelude parse_chain parse_flow_asserts join_span to_ast_span
      text
  parse_flow_decl = do
    start_tok ← expect kw_flow (text "expected flow") (text "use flow \"name\":")
    name_tok ← expect tok_string (text "expected flow name string") (text "provide a flow name")
    expect tok_colon (text "expected ':' after flow name") (text "add ':' to start the flow block")
    expect tok_nl (text "expected newline after flow header")
        (text "add a newline after the header")
    expect tok_indent (text "expected indented flow block") (text "indent flow lines")
    prelude ← parse_prelude fuel
    chain ← parse_chain
    asserts ← parse_flow_asserts fuel
    end_tok ←
        expect tok_dedent (text "expected end of flow block")
          (text "dedent to close the flow block")
    pure (record {
      name = string_lit_of unquote name_tok;
      prelude = prelude;
      chain = chain;
      asserts = asserts;
      span = join_span (to_ast_span start_tok.span) (to_ast_span end_tok.span);
    })
