-- ===== src/Runtime/Steps.antt =====
-- internal/runtime/runtime.go: the name of a step and the diagnostics on it, the URL of its request, and the
-- log of assertions.
pub mod Reported
pub mod Joined
pub mod Logged
use pipetest.Ast.{
  Span, HttpMethod, UnaryOp, BinaryOp, Expr, Exprs, Pairs, method_get, method_post, method_put,
  method_patch, method_delete, method_head, method_options, unary_not, unary_plus, unary_minus,
  binary_or, binary_and, binary_eq, binary_ne, binary_lt, binary_lte, binary_gt, binary_gte,
  binary_in, binary_contains, binary_match, binary_add, binary_sub, binary_mul, binary_div,
  binary_mod, ident_expr, string_lit, number_lit, duration_lit, bool_lit, null_lit, dollar_expr,
  hash_expr, array_lit, object_lit, unary_expr, binary_expr, call_expr, field_expr, index_expr,
  paren_expr, bad_expr, no_exprs, expr_cons, no_pairs, pair_cons,
}
use pipetest.Base.Text.{Text, text, text_eq, has_prefix}
use pipetest.Base.{
  Bool, true, false, Option, none, some, List, [], ◌∷◌, ◌++◌, if◌then◌else◌, ◌||◌, ◌&&◌, ◌==◌,
}
use pipetest.Compiler.State.{PlanStep}
use pipetest.Diagnostics.{Diagnostic}

-- `t == ""`
unfoldable pub is_empty : Text → Bool
is_empty [] = true
is_empty (b ∷ bs) = false

unfoldable pub step_display_name : PlanStep → Text
unfolding is_empty text_eq
step_display_name step =
    if is_empty step.binding || text_eq step.binding step.request
    then step.request
    else step.request ++ b':' ∷ step.binding

-- A pointer to the text, nil when it is empty.
abbrev pub optional : Text → Option Text
optional [] = none
optional (b ∷ bs) = some (b ∷ bs)

unfoldable pub runtime_diag : Text → Text → Text → Span → Text → Text → Text → Diagnostic
unfolding text
runtime_diag code message file span hint flow req = record {
  severity = text "error";
  code = code;
  message = message;
  file = file;
  line = span.start.line;
  column = span.start.column;
  hint = hint;
  related = none;
  flow = optional flow;
  request = optional req;
}

unfoldable pub http_method_string : HttpMethod → Text
unfolding text
http_method_string method_get = text "GET"
http_method_string method_post = text "POST"
http_method_string method_put = text "PUT"
http_method_string method_patch = text "PATCH"
http_method_string method_delete = text "DELETE"
http_method_string method_head = text "HEAD"
http_method_string method_options = text "OPTIONS"

-- `strings.TrimLeft(s, "/")`
unfoldable pub trim_left : Text → Text
trim_left [] = []
trim_left (b ∷ bs) = if b == b'/' then trim_left bs else b ∷ bs

-- `strings.TrimRight(s, "/")`
unfoldable pub trim_right : Text → Text
trim_right [] = []
trim_right (b ∷ bs) =
    let rest = trim_right bs in
    if b == b'/' then (elim rest [ [] ↦ [] | c ∷ cs ↦ b ∷ c ∷ cs ]) else b ∷ rest

unfoldable pub combine_url : Text → Text → Text
unfolding has_prefix trim_left trim_right is_empty text
combine_url base path =
    if has_prefix (text "http://") path || has_prefix (text "https://") path
    then path
    else (if is_empty base then path else trim_right base ++ b'/' ∷ trim_left path)

unfoldable pub unary_op_string : UnaryOp → Text
unfolding text
unary_op_string unary_not = text "!"
unary_op_string unary_minus = text "-"
unary_op_string unary_plus = text "+"

unfoldable pub binary_op_string : BinaryOp → Text
unfolding text
binary_op_string binary_eq = text "=="
binary_op_string binary_ne = text "!="
binary_op_string binary_gt = text ">"
binary_op_string binary_gte = text ">="
binary_op_string binary_lt = text "<"
binary_op_string binary_lte = text "<="
binary_op_string binary_and = text "&&"
binary_op_string binary_or = text "||"
binary_op_string binary_contains = text "contains"
binary_op_string binary_in = text "in"
binary_op_string binary_add = text "+"
binary_op_string binary_sub = text "-"
binary_op_string binary_mul = text "*"
binary_op_string binary_div = text "/"
binary_op_string binary_mod = text "%"
binary_op_string binary_match = text "?"

-- `strings.Join(parts, ", ")`
unfoldable pub join_parts : List Text → Text
unfolding text
join_parts [] = []
join_parts (p ∷ []) = p
join_parts (p ∷ q ∷ ps) = p ++ (text ", " ++ join_parts (q ∷ ps))

-- `quote` is `strconv.Quote`.
module _ (quote : Text → Text) where
  unfoldable mutual
    unfolding unary_op_string binary_op_string join_parts text

    pub format_expr : Expr → Text
    format_expr (string_lit raw v _) = quote v
    format_expr (number_lit raw _) = raw
    format_expr (bool_lit b _) = if b then text "true" else text "false"
    format_expr (null_lit _) = text "null"
    format_expr (array_lit es _) = b'[' ∷ join_parts (format_exprs es) ++ text "]"
    format_expr (object_lit ps _) = b'{' ∷ join_parts (format_pairs ps) ++ text "}"
    format_expr (dollar_expr _) = text "$"
    format_expr (hash_expr _) = text "#"
    format_expr (ident_expr name _) = name
    format_expr (paren_expr x _) = b'(' ∷ format_expr x ++ text ")"
    format_expr (unary_expr op x _) = unary_op_string op ++ format_expr x
    format_expr (binary_expr op l r _) =
        format_expr l ++ b' ' ∷ (binary_op_string op ++ b' ' ∷ format_expr r)
    format_expr (field_expr x name _) = format_expr x ++ b'.' ∷ name
    format_expr (index_expr x i _) = format_expr x ++ b'[' ∷ (format_expr i ++ text "]")
    format_expr (call_expr f args _) =
        format_expr f ++ b'(' ∷ (join_parts (format_exprs args) ++ text ")")
    format_expr (duration_lit _ _) = text "<expr>"
    format_expr (bad_expr _) = text "<expr>"

    pub format_exprs : Exprs → List Text
    format_exprs no_exprs = []
    format_exprs (expr_cons e es) = format_expr e ∷ format_exprs es

    pub format_pairs : Pairs → List Text
    format_pairs no_pairs = []
    format_pairs (pair_cons key e _ ps) =
        (key.name ++ (text ": " ++ format_expr e)) ∷ format_pairs ps

-- `written` is what the log's writer has got.
pub record AssertionLogger : Type 0 where
  pub written : Text
  pub suppress_passing : Bool
  pub current_flow_name : Text
  pub current_request_target : Text

-- The two marks, in UTF-8.
abbrev pub status_mark : Bool → Text
status_mark true = 226 ∷ 156 ∷ 133 ∷ []
status_mark false = 226 ∷ 157 ∷ 140 ∷ []

abbrev pub write : Text → AssertionLogger → AssertionLogger
write t l = record l { written = l.written ++ t }

unfoldable pub enter_flow : Text → AssertionLogger → AssertionLogger
unfolding is_empty text_eq text
enter_flow flow l =
    if is_empty flow || text_eq flow l.current_flow_name
    then l
    else record (write (text "- flow " ++ (flow ++ text "\n")) l) {
      current_flow_name = flow;
      current_request_target = [];
    }

unfoldable pub enter_request : Text → AssertionLogger → AssertionLogger
unfolding text_eq text
enter_request target l =
    if text_eq target l.current_request_target
    then l
    else record (write (text "  - " ++ (target ++ text "\n")) l) { current_request_target = target }

-- A line on an assertion, whose expression has the text `shown`.
unfoldable pub log_line : Text → Text → Bool → AssertionLogger → AssertionLogger
unfolding enter_request is_empty text
log_line target shown passed l =
    if is_empty target
    then write (text "  - assertion " ++ (shown ++ b' ' ∷ (status_mark passed ++ text "\n")))
        (record l { current_request_target = [] })
    else write (text "    - assertion " ++ (shown ++ b' ' ∷ (status_mark passed ++ text "\n")))
        (enter_request target l)

unfoldable pub log :
    (Text → Text) → Text → Text → Expr → Bool → Option AssertionLogger → Option AssertionLogger
unfolding format_expr enter_flow log_line
log quote flow target expr passed none = none
log quote flow target expr passed (some l) =
    if passed && l.suppress_passing
    then some l
    else some (log_line target (format_expr quote expr) passed (enter_flow flow l))
