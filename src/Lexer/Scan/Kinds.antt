-- ===== src/Lexer/Scan/Kinds.antt =====
-- internal/lexer/lexer.go: the kinds of operators and keywords, and what a kind makes the lexer expect.
use pipetest.Base.Assoc.{lookup}
use pipetest.Base.Text.{Text, text, text_eq, has_prefix}
use pipetest.Base.{ℕ, Bool, true, false, Option, none, some, List, [], ◌∷◌, if◌then◌else◌, ◌==◌}
use pipetest.Lexer.Token.{
  tok_eof, tok_nl, tok_indent, tok_dedent, tok_ident, kw_req, kw_flow, kw_import, kw_let, kw_base,
  kw_timeout, kw_json, kw_header, kw_query, kw_auth, kw_bearer, kw_pre, kw_post, kw_hook, kw_print,
  kw_println, kw_printf, kw_true, kw_false, kw_null, kw_get, kw_post_m, kw_put, kw_patch, kw_delete,
  kw_head, kw_options, tok_arrow, tok_question, tok_dollar, tok_hash, tok_colon, tok_comma, tok_dot,
  tok_assign, tok_semicolon, tok_lparen, tok_rparen, tok_lbrace, tok_rbrace, tok_lbrack, tok_rbrack,
  op_or, op_and, op_not, op_eq, op_ne, op_lt, op_lte, op_gt, op_gte, op_in, op_contains, op_tilde,
  op_plus, op_minus, op_mul, op_div, op_mod, Kind, kind_eq,
}

unfoldable pub is_method : Kind → Bool
is_method kw_get = true
is_method kw_post_m = true
is_method kw_put = true
is_method kw_patch = true
is_method kw_delete = true
is_method kw_head = true
is_method kw_options = true
is_method _ = false

unfoldable pub is_key_directive : Kind → Bool
is_key_directive kw_header = true
is_key_directive kw_query = true
is_key_directive _ = false

unfoldable pub is_layout : Kind → Bool
is_layout tok_nl = true
is_layout tok_indent = true
is_layout tok_dedent = true
is_layout _ = false

-- `hookCandidate` after a token of a kind, and before it
unfoldable pub hook_after : Kind → Kind → Kind
hook_after kw_pre c = kw_pre
hook_after kw_post c = kw_post
hook_after tok_nl c = c
hook_after tok_indent c = c
hook_after tok_dedent c = c
hook_after _ c = tok_eof

-- `pendingHookBrace` after a token of a kind, from the candidate and the flag before it
unfoldable pub pending_after : Kind → Kind → Bool → Bool
pending_after kw_pre c pending = pending
pending_after kw_post c pending = pending
pending_after kw_hook c pending = if kind_eq c tok_eof then pending else true
pending_after tok_nl c pending = pending
pending_after tok_indent c pending = pending
pending_after tok_dedent c pending = pending
pending_after tok_lbrace c pending = pending
pending_after _ c pending = false

-- The operators of two characters.
abbrev pub operators : List (Text × Kind)
operators =
    (b'-' ∷ b'>' ∷ [], tok_arrow)
    ∷ (b'<' ∷ b'=' ∷ [], op_lte)
    ∷ (b'>' ∷ b'=' ∷ [], op_gte)
    ∷ (b'=' ∷ b'=' ∷ [], op_eq)
    ∷ (b'!' ∷ b'=' ∷ [], op_ne)
    ∷ []

unfoldable pub find_prefix : List (Text × Kind) → Text → Option (Kind × Text)
unfolding has_prefix
find_prefix [] rest = none
find_prefix ((p, kind) ∷ ps) rest =
    if has_prefix p rest then some (kind, p) else find_prefix ps rest

unfoldable pub two_char : Text → Option (Kind × Text)
unfolding find_prefix
two_char rest = find_prefix operators rest

abbrev pub punct : List (ℕ × Kind)
punct =
    (b'<', op_lt)
    ∷ (b'>', op_gt)
    ∷ (b'=', tok_assign)
    ∷ (b':', tok_colon)
    ∷ (b'?', tok_question)
    ∷ (b'$', tok_dollar)
    ∷ (b'#', tok_hash)
    ∷ (b',', tok_comma)
    ∷ (b'.', tok_dot)
    ∷ (b';', tok_semicolon)
    ∷ (b'(', tok_lparen)
    ∷ (b')', tok_rparen)
    ∷ (b'[', tok_lbrack)
    ∷ (b']', tok_rbrack)
    ∷ (b'{', tok_lbrace)
    ∷ (b'}', tok_rbrace)
    ∷ (b'+', op_plus)
    ∷ (b'-', op_minus)
    ∷ (b'*', op_mul)
    ∷ (b'/', op_div)
    ∷ (b'%', op_mod)
    ∷ (b'~', op_tilde)
    ∷ []

unfoldable pub find_char : List (ℕ × Kind) → ℕ → Option Kind
find_char [] r = none
find_char ((c, kind) ∷ cs) r = if r == c then some kind else find_char cs r

-- The kind of an operator or a punctuation mark of one character.
unfoldable pub one_char : ℕ → Option Kind
unfolding find_char
one_char r = find_char punct r

abbrev pub keyword_kinds : List (Text × Kind)
keyword_kinds =
    (text "req", kw_req)
    ∷ (text "flow", kw_flow)
    ∷ (text "import", kw_import)
    ∷ (text "let", kw_let)
    ∷ (text "base", kw_base)
    ∷ (text "timeout", kw_timeout)
    ∷ (text "json", kw_json)
    ∷ (text "header", kw_header)
    ∷ (text "query", kw_query)
    ∷ (text "auth", kw_auth)
    ∷ (text "bearer", kw_bearer)
    ∷ (text "pre", kw_pre)
    ∷ (text "post", kw_post)
    ∷ (text "hook", kw_hook)
    ∷ (text "print", kw_print)
    ∷ (text "println", kw_println)
    ∷ (text "printf", kw_printf)
    ∷ (text "true", kw_true)
    ∷ (text "false", kw_false)
    ∷ (text "null", kw_null)
    ∷ (text "GET", kw_get)
    ∷ (text "POST", kw_post_m)
    ∷ (text "PUT", kw_put)
    ∷ (text "PATCH", kw_patch)
    ∷ (text "DELETE", kw_delete)
    ∷ (text "HEAD", kw_head)
    ∷ (text "OPTIONS", kw_options)
    ∷ (text "and", op_and)
    ∷ (text "or", op_or)
    ∷ (text "not", op_not)
    ∷ (text "in", op_in)
    ∷ (text "contains", op_contains)
    ∷ []

unfoldable pub keyword_kind : Text → Option Kind
unfolding lookup text text_eq
keyword_kind lit = lookup lit keyword_kinds

abbrev pub or_ident : Option Kind → Kind
or_ident none = tok_ident
or_ident (some kind) = kind
