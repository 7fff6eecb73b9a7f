-- ===== src/Parser/State.antt =====
-- The parser's state: the tokens that `cur`, `peek` and the lexer still hold, and the errors.
-- `peek` is only ever moved to `cur`, so that the tokens are one list; at its end `cur` stays the
-- token of kind EOF.
use pipetest.Ast.{Span}
use pipetest.Base.Outcome.{Outcome, ok, panic, out_of_fuel}
use pipetest.Base.Text.{Text, text}
use pipetest.Base.{Bool, true, false, List, [], ◌∷◌, ◌++◌, if◌then◌else◌}
use pipetest.Lexer.Token.{Kind, kind_eq, Token, LexSpan, tok_illegal}
use pipetest.Parser.Spans.{to_ast_span}

pub record ParseError : Type 0 where
  pub code : Text
  pub message : Text
  pub hint : Text
  pub file : Text
  pub span : Span

pub record Parser : Type 0 where
  pub tokens : List Token
  pub eof : Token
  pub file : Text
  pub errs : List ParseError

abbrev pub err_expected_token : Text
err_expected_token = text "E_PARSE_EXPECTED_TOKEN"

abbrev pub err_unexpected_token : Text
err_unexpected_token = text "E_PARSE_UNEXPECTED_TOKEN"

abbrev pub err_invalid_line : Text
err_invalid_line = text "E_PARSE_INVALID_LINE"

abbrev pub err_invalid_expr : Text
err_invalid_expr = text "E_PARSE_INVALID_EXPR"

abbrev pub err_invalid_flow : Text
err_invalid_flow = text "E_PARSE_FLOW_SHAPE"

-- A method of the parser that gives a value.
abbrev pub Parse : Type 0 → Type 0
Parse A = Parser → Outcome (A × Parser)

abbrev pub continue : {A B : Type 0} → Outcome (A × Parser) → (A → Parse B) → Outcome (B × Parser)
continue (ok (a, p)) f = f a p
continue panic f = panic
continue out_of_fuel f = out_of_fuel

infixl 5 ◌>>=◌ ◌>>◌
abbrev pub ◌>>=◌ : {A B : Type 0} → Parse A → (A → Parse B) → Parse B
◌>>=◌ m f p = continue (m p) f

abbrev pub ◌>>◌ : {A B : Type 0} → Parse A → Parse B → Parse B
m >> k = m >>= λ _. k

abbrev pub pure : {A : Type 0} → A → Parse A
pure a p = ok (a, p)

abbrev pub first_token : List Token → Token → Token
first_token [] eof = eof
first_token (t ∷ ts) eof = t

abbrev pub rest_tokens : List Token → List Token
rest_tokens [] = []
rest_tokens (t ∷ ts) = ts

unfoldable pub cur : Parse Token
cur p = ok (first_token p.tokens p.eof, p)

-- The token that was `cur`.
unfoldable pub advance : Parse Token
advance p = ok (first_token p.tokens p.eof, record p { tokens = rest_tokens p.tokens })

unfoldable pub match_kind : Kind → Parse Bool
unfolding cur advance
match_kind kind = do tok ← cur; if kind_eq tok.kind kind then (advance >> pure true) else pure false

unfoldable pub add_error : Text → Text → Text → LexSpan → Parse (Unit {0})
unfolding to_ast_span
add_error code message hint span p = ok (
  _,
  record p {
    errs =
        p.errs
        ++ record {
          code = code;
          message = message;
          hint = hint;
          file = p.file;
          span = to_ast_span span;
        }
          ∷ [];
  },
)

unfoldable pub expect : Kind → Text → Text → Parse Token
unfolding cur advance add_error text
expect kind msg hint = do
  tok ← advance
  if kind_eq tok.kind kind
      then pure tok
      else (add_error err_expected_token msg hint tok.span
          >> pure (record { kind = tok_illegal; lit = tok.lit; span = tok.span }))
