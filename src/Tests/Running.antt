-- ===== src/Tests/Running.antt =====
-- The runtime's functions on small inputs.
use pipetest.Ast.{
  Expr, FlowStep, ident_expr, field_expr, binary_expr, string_lit, hash_expr, binary_add, zero_span,
}
use pipetest.Base.Text.{Text, text, has_prefix, text_eq}
use pipetest.Base.{
  ◌≡◌, ◌↔◌, refl, ◌+◌, ◌-◌, ◌*◌, ◌||◌, true, false, some, List, [], ◌∷◌, ◌++◌, length, ltb, leb,
  ◌==◌, All,
}
use pipetest.Compiler.Idents.{collect_expr_idents}
use pipetest.Compiler.Plan.{plan_step}
use pipetest.Report.{canonical}
use pipetest.Runtime.Eval.Bound.{Unbound, undefined_identifier-collected}
use pipetest.Runtime.Eval.{RequestContext, eval_expr}
use pipetest.Runtime.Path.Segments.{
  Segment, by_name, by_index, is_segment, print_segments, follow, json_path_lookup-follow,
}
use pipetest.Runtime.Path.Fuel.{Ends, json_path_lookup-Ends}
use pipetest.Runtime.Path.{json_path_lookup}
use pipetest.Runtime.Steps.Joined.{
  is_absolute, slashes, no_slash, combine_url-slash, combine_url_one_slash,
}
use pipetest.Runtime.Steps.Logged.{written, line_text, written-log}
use pipetest.Runtime.Steps.Reported.{HasOwnAlias, step_display_name-canonical}
use pipetest.Runtime.Steps.{
  AssertionLogger, log, combine_url, step_display_name, format_expr, is_empty,
}
use pipetest.Runtime.Value.{
  Value, null_value, string_value, object_value, array_value, nil_object, value_cons, no_values,
  field_cons, no_fields, invalid_response, Library, accepted, value, error, undefined_identifier,
  json_access,
}

-- A library on numbers that stand for themselves.
abbrev library : Library
library = record {
  parse_float = λ t. accepted (length t);
  float_of = λ n. n;
  index_of = some;
  less = ltb;
  less_eq = leb;
  add = λ a b. a + b;
  sub = λ a b. a - b;
  mul = λ a b. a * b;
  div = λ a b. a;
  remainder = λ a b. b;
  neg = λ a. a;
  is_zero = λ a. a == 0;
  sprint = λ v. text "v";
  marshal = λ v. [];
  regex = λ a b. accepted true;
  getenv = λ t. [];
  query_escape = λ t. t;
  uuid = λ s. [];
  now = λ s. [];
}

abbrev context : RequestContext
context = record {
  req_obj = nil_object;
  flow_vars = (text "user", string_value (text "ann")) ∷ [];
  res_json = invalid_response (text "<html>") (text "bad");
  status = 200;
  headers = nil_object;
  flow_views = [];
}

abbrev ident : Text → Expr
ident name = ident_expr name zero_span

eval_join :
    eval_expr library context (
      binary_expr binary_add (string_lit [] (text "hi ") zero_span) (ident (text "user")) zero_span)
    ≡ value (string_value (text "hi v"))
unfolding eval_expr text
eval_join = refl

-- A field of a body that is not JSON is an error of its own.
eval_no_json :
    eval_expr library context (field_expr (hash_expr zero_span) (text "id") zero_span)
    ≡ error (json_access (text "response body is not valid json: bad"))
unfolding eval_expr text
eval_no_json = refl

eval_missing :
    eval_expr library context (ident (text "token")) ≡ error (undefined_identifier (text "token"))
unfolding eval_expr text
eval_missing = refl

undefined_identifier-collected_example :
    Unbound context (collect_expr_idents (ident (text "token"))) (text "token")
undefined_identifier-collected_example =
    undefined_identifier-collected context library (ident (text "token")) (text "token")
      eval_missing

-- A builtin that is not called passes the compiler, which does not collect its name, and is undefined here.
eval_builtin :
    eval_expr library context (ident (text "len")) ≡ error (undefined_identifier (text "len"))
unfolding eval_expr text
eval_builtin = refl

abbrev body : Value
body = object_value (
    field_cons (text "items")
      (array_value (value_cons (string_value (text "a")) (value_cons null_value no_values)))
      no_fields)

abbrev path : List Segment
path = by_name (text "items") ∷ by_index (text "0") ∷ []

path_written : All (λ s. is_segment s ≡ true) path
unfolding is_segment text
path_written = (refl, (refl, tt))

json_path_lookup-follow_example :
    json_path_lookup body (b'$' ∷ print_segments path) ≡ value (follow path body)
json_path_lookup-follow_example = json_path_lookup-follow body path path_written

json_path_lookup-Ends_example : Ends (json_path_lookup body (text "$.items[0]"))
json_path_lookup-Ends_example = json_path_lookup-Ends body (text "$.items[0]")

path_found : json_path_lookup body (text "$.items[0]") ≡ value (string_value (text "a"))
unfolding json_path_lookup text
path_found = refl

abbrev step : FlowStep
step = record { req_name = text "login"; alias = some (text "admin"); span = zero_span }

step_display_name-canonical_example :
    (step_display_name (plan_step step) ≡ canonical step) ↔ HasOwnAlias step
step_display_name-canonical_example = step_display_name-canonical step

url_relative :
    (has_prefix (text "http://") (text "users") || has_prefix (text "https://") (text "users"))
    ≡ false
unfolding has_prefix text
url_relative = refl

combine_url-slash_example :
    (combine_url ((b'h' ∷ text "ttp://api") ++ b'/' ∷ []) (text "users")
      ≡ combine_url (b'h' ∷ text "ttp://api") (text "users"))
    × (combine_url (b'h' ∷ text "ttp://api") (b'/' ∷ text "users")
        ≡ combine_url (b'h' ∷ text "ttp://api") (text "users"))
combine_url-slash_example = combine_url-slash b'h' (text "ttp://api") (text "users") url_relative

users_relative : is_absolute (text "users") ≡ false
unfolding text has_prefix
users_relative = refl

users_start : no_slash (text "users") ≡ true
unfolding text
users_start = refl

combine_url_one_slash_example :
    combine_url (text "http://ap" ++ b'i' ∷ slashes 2) (slashes 1 ++ text "users")
    ≡ (text "http://ap" ++ b'i' ∷ []) ++ b'/' ∷ text "users"
combine_url_one_slash_example =
    combine_url_one_slash (text "http://ap") (text "users") b'i' 2 1 refl users_start users_relative

abbrev logger : AssertionLogger
logger = record {
  written = [];
  suppress_passing = false;
  current_flow_name = [];
  current_request_target = [];
}

abbrev quote : Text → Text
quote t = t

names_known :
    (is_empty (text "shop") ≡ false)
    × (text_eq (text "shop") [] ≡ false)
    × (is_empty (text "login") ≡ false)
unfolding is_empty text_eq text
names_known = (refl, refl, refl)

written-log_example :
    written (
      log quote
        (text "shop")
        (text "login")
        (ident (text "b"))
        false
        (log quote (text "shop") (text "login") (ident (text "a")) true (some logger)))
    ≡ []
      ++ (text "- flow " ++ (text "shop" ++ text "\n"))
      ++ (text "  - " ++ (text "login" ++ text "\n"))
      ++ line_text (text "login") (format_expr quote (ident (text "a"))) true
      ++ line_text (text "login") (format_expr quote (ident (text "b"))) false
written-log_example =
    written-log quote (text "shop") (text "login") (ident (text "a")) (ident (text "b")) true false
      logger refl names_known.0 names_known.1 names_known.2
