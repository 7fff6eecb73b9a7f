-- ===== src/Parser/Expr.antt =====
-- Expressions. `rec` is the recursive call of `parseExpr`, and a loop has one unit of fuel for each
-- round. `unquote` is `strconv.Unquote`: none where it gives an error.
pub mod Operators
pub mod Steps
pub mod Fuel
use pipetest.Ast.{
  Expr, Exprs, Pairs, ident_expr, string_lit, number_lit, bool_lit, null_lit, dollar_expr,
  hash_expr, array_lit, object_lit, unary_expr, binary_expr, call_expr, field_expr, index_expr,
  paren_expr, bad_expr, no_exprs, expr_cons, no_pairs, pair_cons, ObjectKey, object_key_ident,
  object_key_string, ObjectLit, StringLit,
}
use pipetest.Base.Outcome.{out_of_fuel}
use pipetest.Base.Text.{Text, text}
use pipetest.Base.{ℕ, zero, suc, true, false, Option, none, some, [], if◌then◌else◌, ◌||◌, ltb}
use pipetest.Lexer.Token.{
  tok_illegal, tok_ident, tok_string, tok_number, kw_req, kw_header, kw_query, kw_true, kw_false,
  kw_null, tok_dollar, tok_hash, tok_colon, tok_comma, tok_dot, tok_lparen, tok_rparen, tok_lbrace,
  tok_rbrace, tok_lbrack, tok_rbrack, op_not, op_plus, op_minus, Kind, kind_eq, Token,
}
use pipetest.Parser.Expr.Operators.{
  Prec, prec_lowest, prec_prefix, infix_prec, to_unary_op, to_binary_op,
}
use pipetest.Parser.Spans.{to_ast_span, join_span, expr_span}
use pipetest.Parser.State.{
  Parse, ◌>>=◌, ◌>>◌, pure, cur, advance, match_kind, add_error, expect, err_expected_token,
  err_invalid_expr,
}

unfoldable pub expect_field_name : Parse Token
unfolding advance add_error text
expect_field_name = do
  tok ← advance
  if kind_eq tok.kind tok_ident
        || (kind_eq tok.kind kw_req || (kind_eq tok.kind kw_header || kind_eq tok.kind kw_query))
      then pure tok
      else (add_error err_expected_token (text "expected field name") (text "provide a field name")
            tok.span
          >> pure (record { kind = tok_illegal; lit = tok.lit; span = tok.span }))

module _ (unquote : Text → Option Text) where
  unquoted : Text → Option Text → Text
  unquoted raw none = raw
  unquoted raw (some v) = v

  unfoldable pub string_lit_of : Token → StringLit
  unfolding to_ast_span unquoted
  string_lit_of tok = record {
    raw = tok.lit;
    value = unquoted tok.lit (unquote tok.lit);
    span = to_ast_span tok.span;
  }

  abbrev pub string_expr : StringLit → Expr
  string_expr lit = string_lit lit.raw lit.value lit.span

  abbrev object_key_of : Kind → Token → Parse (Option ObjectKey)
  object_key_of tok_ident tok = pure (
      some
        (record { kind = object_key_ident; name = tok.lit; raw = []; span = to_ast_span tok.span }))
  object_key_of tok_string tok = pure (
      some (record {
        kind = object_key_string;
        name = (string_lit_of tok).value;
        raw = tok.lit;
        span = to_ast_span tok.span;
      }))
  object_key_of _ tok =
      add_error err_expected_token (text "expected object key")
        (text "use an identifier or string literal") tok.span
      >> pure none

  -- The second result `false` is `none`: the caller then drops the pair.
  unfoldable pub parse_object_key : Parse (Option ObjectKey)
  unfolding advance add_error string_lit_of to_ast_span text
  parse_object_key = do tok ← advance; object_key_of tok.kind tok

  module _ (rec : Prec → Parse Expr) where
    -- The comma-separated list up to the token `close`, which may follow a comma.
    unfoldable pub parse_elements : ℕ → Kind → Parse Exprs
    unfolding match_kind cur
    parse_elements zero close = λ p. out_of_fuel
    parse_elements (suc k) close = do
      e ← rec prec_lowest
      comma ← match_kind tok_comma
      tok ← cur
      if comma
          then (if kind_eq tok.kind close
              then pure (expr_cons e no_exprs)
              else (parse_elements k close >>= λ es. pure (expr_cons e es)))
          else pure (expr_cons e no_exprs)

    unfoldable pub parse_list : ℕ → Kind → Parse Exprs
    unfolding cur parse_elements
    parse_list k close = do
      tok ← cur
      if kind_eq tok.kind close then pure no_exprs else parse_elements k close

    unfoldable pub parse_call : ℕ → Expr → Parse Expr
    unfolding expect parse_list expr_span join_span to_ast_span text
    parse_call k callee = do
      expect tok_lparen (text "expected '('") (text "start argument list")
      args ← parse_list k tok_rparen
      end_tok ← expect tok_rparen (text "expected ')' after call") (text "close the call")
      pure (call_expr callee args (join_span (expr_span callee) (to_ast_span end_tok.span)))

    unfoldable pub parse_field : Expr → Parse Expr
    unfolding expect expect_field_name expr_span join_span to_ast_span text
    parse_field left = do
      expect tok_dot (text "expected '.'") (text "use .field to access a field")
      name_tok ← expect_field_name
      pure (field_expr left name_tok.lit (join_span (expr_span left) (to_ast_span name_tok.span)))

    unfoldable pub parse_index : Expr → Parse Expr
    unfolding expect expr_span join_span to_ast_span text
    parse_index left = do
      expect tok_lbrack (text "expected '['") (text "start index expression")
      idx ← rec prec_lowest
      end_tok ← expect tok_rbrack (text "expected ']'") (text "close index expression")
      pure (index_expr left idx (join_span (expr_span left) (to_ast_span end_tok.span)))

    unfoldable pub parse_array_lit : ℕ → Parse Expr
    unfolding expect parse_list join_span to_ast_span text
    parse_array_lit k = do
      start_tok ← expect tok_lbrack (text "expected '['") (text "start array literal")
      elems ← parse_list k tok_rbrack
      end_tok ← expect tok_rbrack (text "expected ']'") (text "close array literal")
      pure (array_lit elems (join_span (to_ast_span start_tok.span) (to_ast_span end_tok.span)))

    abbrev with_pair : Option ObjectKey → Expr → Pairs → Pairs
    with_pair none val rest = rest
    with_pair (some key) val rest = pair_cons key val (join_span key.span (expr_span val)) rest

    unfoldable pub parse_pairs : ℕ → Parse Pairs
    unfolding parse_object_key expect match_kind cur join_span expr_span text
    parse_pairs zero = λ p. out_of_fuel
    parse_pairs (suc k) = do
      key ← parse_object_key
      expect tok_colon (text "expected ':' after object key")
          (text "separate key and value with ':'")
      val ← rec prec_lowest
      comma ← match_kind tok_comma
      tok ← cur
      if comma
          then (if kind_eq tok.kind tok_rbrace
              then pure (with_pair key val no_pairs)
              else (parse_pairs k >>= λ rest. pure (with_pair key val rest)))
          else pure (with_pair key val no_pairs)

    unfoldable pub parse_object_lit : ℕ → Parse ObjectLit
    unfolding expect cur parse_pairs join_span to_ast_span text
    parse_object_lit k = do
      start_tok ← expect tok_lbrace (text "expected '{'") (text "start object literal")
      tok ← cur
      pairs ← if kind_eq tok.kind tok_rbrace then pure no_pairs else parse_pairs k
      end_tok ← expect tok_rbrace (text "expected '}'") (text "close object literal")
      pure (record {
        pairs = pairs;
        span = join_span (to_ast_span start_tok.span) (to_ast_span end_tok.span);
      })

    unfoldable pub parse_paren : Parse Expr
    unfolding advance expect join_span to_ast_span text
    parse_paren = do
      start_tok ← advance
      e ← rec prec_lowest
      end_tok ← expect tok_rparen (text "expected ')'") (text "close the expression")
      pure (paren_expr e (join_span (to_ast_span start_tok.span) (to_ast_span end_tok.span)))

    abbrev leaf : (Token → Expr) → Parse Expr
    leaf f = advance >>= λ tok. pure (f tok)

    -- `parsePrimary`, by the kind of `cur`.
    unfoldable pub parse_primary : ℕ → Kind → Parse Expr
    unfolding advance add_error string_lit_of parse_paren parse_array_lit parse_object_lit
        to_ast_span text
    parse_primary k tok_ident = leaf (λ tok. ident_expr tok.lit (to_ast_span tok.span))
    parse_primary k kw_req = leaf (λ tok. ident_expr tok.lit (to_ast_span tok.span))
    parse_primary k kw_header = leaf (λ tok. ident_expr tok.lit (to_ast_span tok.span))
    parse_primary k kw_query = leaf (λ tok. ident_expr tok.lit (to_ast_span tok.span))
    parse_primary k tok_string = leaf (λ tok. string_expr (string_lit_of tok))
    parse_primary k tok_number = leaf (λ tok. number_lit tok.lit (to_ast_span tok.span))
    parse_primary k kw_true = leaf (λ tok. bool_lit true (to_ast_span tok.span))
    parse_primary k kw_false = leaf (λ tok. bool_lit false (to_ast_span tok.span))
    parse_primary k kw_null = leaf (λ tok. null_lit (to_ast_span tok.span))
    parse_primary k tok_dollar = leaf (λ tok. dollar_expr (to_ast_span tok.span))
    parse_primary k tok_hash = leaf (λ tok. hash_expr (to_ast_span tok.span))
    parse_primary k tok_lparen = parse_paren
    parse_primary k tok_lbrack = parse_array_lit k
    parse_primary k tok_lbrace = parse_object_lit k >>= λ obj. pure (object_lit obj.pairs obj.span)
    parse_primary k _ = do
      tok ← advance
      add_error err_invalid_expr (text "unexpected token in expression")
          (text "provide a valid expression") tok.span
      pure (bad_expr (to_ast_span tok.span))

    unfoldable pub parse_unary : Parse Expr
    unfolding advance to_unary_op join_span to_ast_span expr_span
    parse_unary = do
      op_tok ← advance
      val ← rec prec_prefix
      pure (
          unary_expr (to_unary_op op_tok.kind) val
            (join_span (to_ast_span op_tok.span) (expr_span val)))

    -- `parsePrefix`, by the kind of `cur`.
    unfoldable pub parse_prefix : ℕ → Kind → Parse Expr
    unfolding parse_unary parse_primary
    parse_prefix k op_not = parse_unary
    parse_prefix k op_plus = parse_unary
    parse_prefix k op_minus = parse_unary
    parse_prefix k kind = parse_primary k kind

    -- The body of the loop of `parsePostfix`, by the kind of `cur`; `again` is the rest of the loop.
    unfoldable pub postfix_round : (Expr → Parse Expr) → ℕ → Kind → Expr → Parse Expr
    unfolding parse_call parse_field parse_index
    postfix_round again k tok_lparen left = parse_call k left >>= again
    postfix_round again k tok_dot left = parse_field left >>= again
    postfix_round again k tok_lbrack left = parse_index left >>= again
    postfix_round again k _ left = pure left

    unfoldable pub parse_postfix : ℕ → Expr → Parse Expr
    unfolding cur postfix_round
    parse_postfix zero left = λ p. out_of_fuel
    parse_postfix (suc k) left = do tok ← cur; postfix_round (parse_postfix k) k tok.kind left

    -- The body of the loop of `parseExpr`, by the precedence of `cur`.
    unfoldable pub infix_round : (Expr → Parse Expr) → ℕ → Prec → Expr → Option Prec → Parse Expr
    unfolding advance to_binary_op parse_postfix join_span expr_span
    infix_round again k min left none = pure left
    infix_round again k min left (some prec) = if ltb prec min then pure left else do
      op_tok ← advance
      right ← rec (suc prec)
      left' ← parse_postfix k (
          binary_expr (to_binary_op op_tok.kind) left right
            (join_span (expr_span left) (expr_span right)))
      again left'

    unfoldable pub parse_infix : ℕ → Prec → Expr → Parse Expr
    unfolding cur infix_prec infix_round
    parse_infix zero min left = λ p. out_of_fuel
    parse_infix (suc k) min left = do
      tok ← cur
      infix_round (parse_infix k min) k min left (infix_prec tok.kind)

  -- `parseExpr(min)`, with one unit of fuel for each level of nesting.
  unfoldable pub parse_expr : ℕ → Prec → Parse Expr
  unfolding cur parse_prefix parse_postfix parse_infix
  parse_expr zero min = λ p. out_of_fuel
  parse_expr (suc k) min = do
    tok ← cur
    left ← parse_prefix (parse_expr k) k tok.kind
    left' ← parse_postfix (parse_expr k) k left
    parse_infix (parse_expr k) k min left'
