-- ===== src/Lexer/Token.antt =====
-- internal/lexer/token.go: the token kinds and tokens.
use pipetest.Base.{ℕ, Bool, ◌==◌}
use pipetest.Base.Text.{Text}

pub data Kind : Type 0 where
  tok_eof tok_illegal tok_nl tok_indent tok_dedent tok_ident tok_bare_key : Kind
  tok_string tok_number tok_duration tok_path kw_req kw_flow kw_import kw_let : Kind
  kw_base kw_timeout kw_json kw_header kw_query kw_auth kw_bearer kw_pre kw_post : Kind
  kw_hook kw_print kw_println kw_printf kw_true kw_false kw_null kw_get kw_post_m : Kind
  kw_put kw_patch kw_delete kw_head kw_options tok_arrow tok_question tok_dollar : Kind
  tok_hash tok_colon tok_comma tok_dot tok_assign tok_semicolon tok_lparen : Kind
  tok_rparen tok_lbrace tok_rbrace tok_lbrack tok_rbrack op_or op_and op_not op_eq : Kind
  op_ne op_lt op_lte op_gt op_gte op_in op_contains op_tilde op_plus op_minus : Kind
  op_mul op_div op_mod : Kind

-- The value of the constant, counted by `iota`.
unfoldable pub kind_id : Kind → ℕ
kind_id tok_eof = 0
kind_id tok_illegal = 1
kind_id tok_nl = 2
kind_id tok_indent = 3
kind_id tok_dedent = 4
kind_id tok_ident = 5
kind_id tok_bare_key = 6
kind_id tok_string = 7
kind_id tok_number = 8
kind_id tok_duration = 9
kind_id tok_path = 10
kind_id kw_req = 11
kind_id kw_flow = 12
kind_id kw_import = 13
kind_id kw_let = 14
kind_id kw_base = 15
kind_id kw_timeout = 16
kind_id kw_json = 17
kind_id kw_header = 18
kind_id kw_query = 19
kind_id kw_auth = 20
kind_id kw_bearer = 21
kind_id kw_pre = 22
kind_id kw_post = 23
kind_id kw_hook = 24
kind_id kw_print = 25
kind_id kw_println = 26
kind_id kw_printf = 27
kind_id kw_true = 28
kind_id kw_false = 29
kind_id kw_null = 30
kind_id kw_get = 31
kind_id kw_post_m = 32
kind_id kw_put = 33
kind_id kw_patch = 34
kind_id kw_delete = 35
kind_id kw_head = 36
kind_id kw_options = 37
kind_id tok_arrow = 38
kind_id tok_question = 39
kind_id tok_dollar = 40
kind_id tok_hash = 41
kind_id tok_colon = 42
kind_id tok_comma = 43
kind_id tok_dot = 44
kind_id tok_assign = 45
kind_id tok_semicolon = 46
kind_id tok_lparen = 47
kind_id tok_rparen = 48
kind_id tok_lbrace = 49
kind_id tok_rbrace = 50
kind_id tok_lbrack = 51
kind_id tok_rbrack = 52
kind_id op_or = 53
kind_id op_and = 54
kind_id op_not = 55
kind_id op_eq = 56
kind_id op_ne = 57
kind_id op_lt = 58
kind_id op_lte = 59
kind_id op_gt = 60
kind_id op_gte = 61
kind_id op_in = 62
kind_id op_contains = 63
kind_id op_tilde = 64
kind_id op_plus = 65
kind_id op_minus = 66
kind_id op_mul = 67
kind_id op_div = 68
kind_id op_mod = 69

abbrev pub kind_eq : Kind → Kind → Bool
kind_eq a b = kind_id a == kind_id b

pub record LexPosition : Type 0 where
  pub offset : ℕ
  pub line : ℕ
  pub column : ℕ

pub record LexSpan : Type 0 where
  pub start : LexPosition
  pub end : LexPosition

pub record Token : Type 0 where
  pub kind : Kind
  pub lit : Text
  pub span : LexSpan
