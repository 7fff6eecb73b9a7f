-- ===== src/Runtime/Eval.antt =====
-- internal/runtime/runtime.go: `evalExpr`. Identifiers that the runtime sets itself come first, then the flow's
-- variables, then the bindings of its earlier steps.
pub mod Misses
pub mod Bound
use pipetest.Ast.{
  Span, UnaryOp, BinaryOp, Expr, Exprs, Pairs, unary_not, unary_plus, unary_minus, binary_or,
  binary_and, binary_eq, binary_ne, binary_lt, binary_lte, binary_gt, binary_gte, binary_in,
  binary_contains, binary_match, binary_add, binary_sub, binary_mul, binary_div, binary_mod,
  ident_expr, string_lit, number_lit, duration_lit, bool_lit, null_lit, dollar_expr, hash_expr,
  array_lit, object_lit, unary_expr, binary_expr, call_expr, field_expr, index_expr, paren_expr,
  bad_expr, no_exprs, expr_cons, no_pairs, pair_cons,
}
use pipetest.Base.Assoc.{lookup}
use pipetest.Base.Text.{Text, text, text_eq}
use pipetest.Base.{
  ℕ, Bool, not, Option, none, some, List, [], ◌++◌, if◌then◌else◌, ◌||◌, ◌&&◌, length,
}
use pipetest.Runtime.Path.{json_path_lookup}
use pipetest.Runtime.Value.{
  Value, Values, Fields, EvalError, Library, field, set_field, element, count_values, count_fields,
  response_expr_value, new_json_access_error, checked, normalize, as_number, deep_equal, any_equal,
  contains, as_bool, null_value, bool_value, number_value, string_value, array_value, object_value,
  nil_object, no_values, value_cons, no_fields, field_cons, undefined_identifier, unknown_function,
  plain_error, value, error, Result, ◌>>=◌,
}

pub record FlowBinding : Type 0 where
  pub res : Value
  pub req : Value
  pub status : ℕ
  pub header : Value

-- `flow_vars` and `flow_views` are maps; `req_obj` and `headers` are `nil_object` outside a request.
pub record RequestContext : Type 0 where
  pub req_obj : Value
  pub flow_vars : List (Text × Value)
  pub res_json : Value
  pub status : ℕ
  pub headers : Value
  pub flow_views : List (Text × FlowBinding)

-- The function that a call names: its callee is an identifier.
unfoldable pub callee_name : Expr → Option Text
callee_name (ident_expr name _) = some name
callee_name _ = none

abbrev pub fail : {A : Type 0} → Text → Result A
fail message = error (plain_error message)

unfoldable pub or_fail : {A : Type 0} → Option EvalError → Result A → Result A
or_fail none r = r
or_fail (some e) r = error e

module _ (lib : Library) where
  abbrev pub view_value : FlowBinding → Value
  view_value b = object_value (
      field_cons (text "res") (response_expr_value b.res) (
        field_cons (text "req") b.req (
          field_cons (text "status") (number_value (lib.float_of b.status))
            (field_cons (text "header") b.header no_fields))))

  -- The values of names that no declaration gives.
  unfoldable pub reserved_value : Text → RequestContext → Option Value
  unfolding text text_eq response_expr_value
  reserved_value name c =
      if text_eq name (text "status")
      then some (number_value (lib.float_of c.status))
      else (if text_eq name (text "header")
          then some c.headers
          else (if text_eq name (text "req")
              then some c.req_obj
              else (if text_eq name (text "res")
                  then some (response_expr_value c.res_json)
                  else none)))

  abbrev pub view_or : Text → Option FlowBinding → Result Value
  view_or name (some b) = value (view_value b)
  view_or name none = error (undefined_identifier name)

  abbrev pub variable_or : Text → Option Value → RequestContext → Result Value
  variable_or name (some v) c = value v
  variable_or name none c = view_or name (lookup name c.flow_views)

  abbrev pub reserved_or : Text → Option Value → RequestContext → Result Value
  reserved_or name (some v) c = value v
  reserved_or name none c = variable_or name (lookup name c.flow_vars) c

  unfoldable pub eval_ident : Text → RequestContext → Result Value
  unfolding reserved_value lookup response_expr_value text
  eval_ident name c = reserved_or name (reserved_value name c) c

  unfoldable pub apply_unary : UnaryOp → Value → Result Value
  unfolding as_bool as_number
  apply_unary unary_not v = as_bool v >>= λ b. value (bool_value (not b))
  apply_unary unary_minus v = as_number lib v >>= λ n. value (number_value (lib.neg n))
  apply_unary unary_plus v = as_number lib v >>= λ n. value (number_value n)

  abbrev pub numbers : Value → Value → (ℕ → ℕ → Result Value) → Result Value
  numbers left right f = as_number lib left >>= λ l. as_number lib right >>= λ r. f l r

  abbrev pub booleans : Value → Value → (Bool → Bool → Bool) → Result Value
  booleans left right f = as_bool left >>= λ l. as_bool right >>= λ r. value (bool_value (f l r))

  abbrev pub compare_by : (ℕ → ℕ → Bool) → ℕ → ℕ → Result Value
  compare_by f l r = value (bool_value (f l r))

  abbrev pub arithmetic : (ℕ → ℕ → ℕ) → ℕ → ℕ → Result Value
  arithmetic f l r = value (number_value (f l r))

  -- `+` joins texts when either side is one.
  unfoldable pub apply_add : Value → Value → Result Value
  unfolding as_number
  apply_add (string_value l) right = value (string_value (l ++ lib.sprint right))
  apply_add left (string_value r) = value (string_value (lib.sprint left ++ r))
  apply_add left right = numbers left right (arithmetic lib.add)

  unfoldable pub apply_in : Value → Value → Result Value
  unfolding any_equal text
  apply_in left (array_value vs) = value (bool_value (any_equal lib vs left))
  apply_in left right = fail (text "in requires array on right side")

  unfoldable pub apply_binary : BinaryOp → Value → Value → Result Value
  unfolding deep_equal contains as_number as_bool apply_add apply_in text
  apply_binary binary_eq l r = value (bool_value (deep_equal lib l r))
  apply_binary binary_ne l r = value (bool_value (not (deep_equal lib l r)))
  apply_binary binary_gt l r = numbers l r (compare_by (λ a b. lib.less b a))
  apply_binary binary_gte l r = numbers l r (compare_by (λ a b. lib.less_eq b a))
  apply_binary binary_lt l r = numbers l r (compare_by lib.less)
  apply_binary binary_lte l r = numbers l r (compare_by lib.less_eq)
  apply_binary binary_and l r = booleans l r (λ a b. a && b)
  apply_binary binary_or l r = booleans l r (λ a b. a || b)
  apply_binary binary_contains l r = value (bool_value (contains lib l r))
  apply_binary binary_in l r = apply_in l r
  apply_binary binary_add l r = apply_add l r
  apply_binary binary_sub l r = numbers l r (arithmetic lib.sub)
  apply_binary binary_mul l r = numbers l r (arithmetic lib.mul)
  apply_binary binary_div l r =
      numbers l r
        (λ a b. if lib.is_zero b then fail (text "division by zero") else arithmetic lib.div a b)
  apply_binary binary_mod l r =
      numbers l r (λ a b.
        if lib.is_zero b then fail (text "modulo by zero") else arithmetic lib.remainder a b)
  apply_binary binary_match l r = fail (text "unsupported expression")

  unfoldable pub access_field : Value → Text → Result Value
  unfolding field text
  access_field (object_value fs) name = value (field name fs)
  access_field nil_object name = value null_value
  access_field v name = fail (text "field access on non-object")

  abbrev pub element_or : Option Value → Result Value
  element_or none = fail (text "index out of range")
  element_or (some v) = value v

  abbrev pub element_at : Option ℕ → Values → Result Value
  element_at none vs = fail (text "index out of range")
  element_at (some i) vs = element_or (element i vs)

  unfoldable pub access_index : Value → Value → Result Value
  unfolding field element as_number text
  access_index (object_value fs) idx = value (field (lib.sprint idx) fs)
  access_index nil_object idx = value null_value
  access_index (array_value vs) idx = as_number lib idx >>= λ n. element_at (lib.index_of n) vs
  access_index v idx = fail (text "index access on unsupported type")

  unfoldable pub length_of : Value → Result Value
  unfolding count_values count_fields text
  length_of (array_value vs) = value (number_value (lib.float_of (count_values vs)))
  length_of (object_value fs) = value (number_value (lib.float_of (count_fields fs)))
  length_of (string_value s) = value (number_value (lib.float_of (length s)))
  length_of v = fail (text "len unsupported for type")

  -- The functions of no, one and two arguments.
  unfoldable pub call_env : Values → Result Value
  unfolding normalize text
  call_env (value_cons a no_values) = value (string_value (lib.getenv (lib.sprint (normalize a))))
  call_env _ = fail (text "env expects 1 arg")

  unfoldable pub call_uuid : Span → Values → Result Value
  unfolding text
  call_uuid span no_values = value (string_value (lib.uuid span))
  call_uuid span _ = fail (text "uuid expects no args")

  unfoldable pub call_len : Values → Result Value
  unfolding normalize length_of text
  call_len (value_cons a no_values) = length_of (normalize a)
  call_len _ = fail (text "len expects 1 arg")

  unfoldable pub call_regex : Values → Result Value
  unfolding normalize checked text
  call_regex (value_cons a (value_cons b no_values)) =
      checked (text "invalid regex: ")
        (lib.regex (lib.sprint (normalize a)) (lib.sprint (normalize b)))
      >>= λ m. value (bool_value m)
  call_regex _ = fail (text "regex expects 2 args")

  unfoldable pub call_jsonpath : Values → Result Value
  unfolding normalize new_json_access_error json_path_lookup or_fail text
  call_jsonpath (value_cons a (value_cons b no_values)) =
      or_fail (new_json_access_error a) (json_path_lookup (normalize a) (lib.sprint (normalize b)))
  call_jsonpath _ = fail (text "jsonpath expects 2 args")

  unfoldable pub call_now : Span → Values → Result Value
  unfolding text
  call_now span no_values = value (string_value (lib.now span))
  call_now span _ = fail (text "now expects no args")

  unfoldable pub call_urlencode : Values → Result Value
  unfolding normalize text
  call_urlencode (value_cons a no_values) =
      value (string_value (lib.query_escape (lib.sprint (normalize a))))
  call_urlencode _ = fail (text "urlencode expects 1 arg")

  unfoldable pub apply_call : Text → Span → Values → Result Value
  unfolding call_env call_uuid call_len call_regex call_jsonpath call_now call_urlencode text
      text_eq
  apply_call name span args =
      if text_eq name (text "env")
      then call_env args
      else (if text_eq name (text "uuid")
          then call_uuid span args
          else (if text_eq name (text "len")
              then call_len args
              else (if text_eq name (text "regex")
                  then call_regex args
                  else (if text_eq name (text "jsonpath")
                      then call_jsonpath args
                      else (if text_eq name (text "now")
                          then call_now span args
                          else (if text_eq name (text "urlencode")
                              then call_urlencode args
                              else error (unknown_function name)))))))

  abbrev pub call_or_fail : Option Text → Span → Result Values → Result Value
  call_or_fail none span args = fail (text "callee must be identifier")
  call_or_fail (some name) span args = args >>= λ vs. apply_call name span vs

  unfoldable mutual
    unfolding eval_ident apply_unary apply_binary access_field access_index apply_call callee_name
        normalize new_json_access_error or_fail set_field response_expr_value checked text

    pub eval_expr : RequestContext → Expr → Result Value
    eval_expr c (string_lit raw v _) = value (string_value v)
    eval_expr c (number_lit raw _) =
        checked [] (lib.parse_float raw) >>= λ n. value (number_value n)
    eval_expr c (bool_lit b _) = value (bool_value b)
    eval_expr c (null_lit _) = value null_value
    eval_expr c (array_lit es _) = eval_exprs c es >>= λ vs. value (array_value vs)
    eval_expr c (object_lit ps _) = eval_pairs c ps no_fields >>= λ fs. value (object_value fs)
    eval_expr c (dollar_expr _) = value c.req_obj
    eval_expr c (hash_expr _) = value (response_expr_value c.res_json)
    eval_expr c (ident_expr name _) = eval_ident name c
    eval_expr c (paren_expr x _) = eval_expr c x
    eval_expr c (unary_expr op x _) = eval_expr c x >>= λ v. apply_unary op (normalize v)
    eval_expr c (binary_expr op l r _) =
        eval_expr c l >>= λ a. eval_expr c r >>= λ b. apply_binary op (normalize a) (normalize b)
    eval_expr c (field_expr x name _) =
        eval_expr c x >>= λ v. or_fail (new_json_access_error v) (access_field v name)
    eval_expr c (index_expr x i _) = eval_expr c x >>= λ v.
        or_fail (new_json_access_error v) (eval_expr c i >>= λ idx. access_index v idx)
    eval_expr c (call_expr f args span) = call_or_fail (callee_name f) span (eval_exprs c args)
    eval_expr c (duration_lit _ _) = fail (text "unsupported expression")
    eval_expr c (bad_expr _) = fail (text "unsupported expression")

    pub eval_exprs : RequestContext → Exprs → Result Values
    eval_exprs c no_exprs = value no_values
    eval_exprs c (expr_cons e es) =
        eval_expr c e >>= λ v. eval_exprs c es >>= λ vs. value (value_cons v vs)

    pub eval_pairs : RequestContext → Pairs → Fields → Result Fields
    eval_pairs c no_pairs fs = value fs
    eval_pairs c (pair_cons key e _ ps) fs =
        eval_expr c e >>= λ v. eval_pairs c ps (set_field key.name v fs)
