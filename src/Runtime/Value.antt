-- ===== src/Runtime/Value.antt =====
-- internal/runtime/runtime.go: the values that expressions have, their errors, and the functions of the Go
-- library on them. A float64 is a number that stands for it, and what the library does with it is a
-- parameter. A map is the list of its entries; it is taken by value, so that what another name for
-- the same map later assigns is not seen.
use pipetest.Ast.{Span}
use pipetest.Base.{
  ℕ, zero, suc, Bool, false, Option, none, some, [], ◌∷◌, ◌++◌, if◌then◌else◌, ◌||◌,
}
use pipetest.Base.Text.{Text, text, text_eq, has_prefix}

mutual
  -- `nil_object` is a nil map. The last two are `invalidJSONString` and `invalidJSONResponse`: the body that is not
  -- JSON, and the decoder's error.
  pub data Value : Type 0 where
    null_value : Value
    bool_value : Bool → Value
    number_value : ℕ → Value
    string_value : Text → Value
    array_value : Values → Value
    object_value : Fields → Value
    nil_object : Value
    invalid_string : Text → Text → Value
    invalid_response : Text → Text → Value

  pub data Values : Type 0 where
    no_values : Values
    value_cons : Value → Values → Values

  pub data Fields : Type 0 where
    no_fields : Fields
    field_cons : Text → Value → Fields → Fields

-- An error of an evaluation. `json_access` is `jsonAccessError` with the text of its cause.
pub data EvalError : Type 0 where
  undefined_identifier unknown_function plain_error json_access : Text → EvalError

-- `err.Error()`
unfoldable pub error_text : EvalError → Text
unfolding text
error_text (undefined_identifier name) = text "undefined identifier " ++ name
error_text (unknown_function name) = text "unknown function " ++ name
error_text (plain_error message) = message
error_text (json_access cause) = text "response json is unavailable: " ++ cause

-- A value or an error. `unfinished` has no counterpart in the program: a loop that recurs on fuel gives
-- it when the fuel does not suffice.
pub data Result (A : Type 0) : Type 0 where
  value : A → Result A
  error : EvalError → Result A
  unfinished : Result A

infixl 5 ◌>>=◌
abbrev pub ◌>>=◌ : {A B : Type 0} → Result A → (A → Result B) → Result B
value a >>= f = f a
error e >>= f = error e
unfinished >>= f = unfinished

-- A result of the Go library: a value, or the text of an error.
pub data Checked (A : Type 0) : Type 0 where
  accepted : A → Checked A
  refused : Text → Checked A

-- The library's result, its error text behind a prefix.
unfoldable pub checked : {A : Type 0} → Text → Checked A → Result A
checked prefix (accepted a) = value a
checked prefix (refused message) = error (plain_error (prefix ++ message))

-- What the Go library does with these values.
pub record Library : Type 0 where
  -- `strconv.ParseFloat`, `float64(n)` of an int, and `int(f)`, none where that is negative
  pub parse_float : Text → Checked ℕ
  pub float_of : ℕ → ℕ
  pub index_of : ℕ → Option ℕ
  -- the operators of float64, `math.Mod` and `f == 0`
  pub less : ℕ → ℕ → Bool
  pub less_eq : ℕ → ℕ → Bool
  pub add : ℕ → ℕ → ℕ
  pub sub : ℕ → ℕ → ℕ
  pub mul : ℕ → ℕ → ℕ
  pub div : ℕ → ℕ → ℕ
  pub remainder : ℕ → ℕ → ℕ
  pub neg : ℕ → ℕ
  pub is_zero : ℕ → Bool
  -- `fmt.Sprint`, and the bytes of `json.Marshal`
  pub sprint : Value → Text
  pub marshal : Value → Text
  -- `regexp.Compile` and `MatchString`, `os.Getenv`, `url.QueryEscape`
  pub regex : Text → Text → Checked Bool
  pub getenv : Text → Text
  pub query_escape : Text → Text
  -- what a call of `uuid` or `now` gives, where it stands
  pub uuid : Span → Text
  pub now : Span → Text

-- `obj[name]`, nil where it is missing
unfoldable pub field : Text → Fields → Value
unfolding text_eq
field name no_fields = null_value
field name (field_cons key v fs) = if text_eq key name then v else field name fs

-- `obj[name] = v`
unfoldable pub set_field : Text → Value → Fields → Fields
unfolding text_eq
set_field name v no_fields = field_cons name v no_fields
set_field name v (field_cons key w fs) =
    if text_eq key name then field_cons key v fs else field_cons key w (set_field name v fs)

-- `arr[i]`, none where it is out of range
unfoldable pub element : ℕ → Values → Option Value
element i no_values = none
element zero (value_cons v vs) = some v
element (suc i) (value_cons v vs) = element i vs

unfoldable pub count_values : Values → ℕ
count_values no_values = 0
count_values (value_cons v vs) = suc (count_values vs)

unfoldable pub count_fields : Fields → ℕ
count_fields no_fields = 0
count_fields (field_cons key v fs) = suc (count_fields fs)

-- `responseExprValue`
unfoldable pub response_expr_value : Value → Value
response_expr_value (invalid_response raw err) = invalid_string raw err
response_expr_value v = v

-- `invalidJSONResponse.Error`
abbrev pub invalid_text : Text → Text
invalid_text err = text "response body is not valid json: " ++ err

-- `newJSONAccessError`, none for nil
unfoldable pub new_json_access_error : Value → Option EvalError
unfolding text
new_json_access_error (invalid_response raw err) = some (json_access (invalid_text err))
new_json_access_error (invalid_string raw err) = some (json_access (invalid_text err))
new_json_access_error v = none

-- `normalizeExprValue`: a nil map becomes an empty one.
unfoldable mutual
  pub normalize : Value → Value
  normalize (invalid_response raw err) = string_value raw
  normalize (invalid_string raw err) = string_value raw
  normalize (array_value vs) = array_value (normalize_values vs)
  normalize (object_value fs) = object_value (normalize_fields fs)
  normalize nil_object = object_value no_fields
  normalize v = v

  pub normalize_values : Values → Values
  normalize_values no_values = no_values
  normalize_values (value_cons v vs) = value_cons (normalize v) (normalize_values vs)

  pub normalize_fields : Fields → Fields
  normalize_fields no_fields = no_fields
  normalize_fields (field_cons key v fs) = field_cons key (normalize v) (normalize_fields fs)

-- `strings.Contains`
unfoldable pub text_contains : Text → Text → Bool
unfolding has_prefix
text_contains [] part = has_prefix part []
text_contains (b ∷ bs) part = has_prefix part (b ∷ bs) || text_contains bs part

module _ (lib : Library) where
  -- `asNumber`; of the kinds of number that it takes, an expression has float64 only.
  unfoldable pub as_number : Value → Result ℕ
  unfolding checked text
  as_number (number_value n) = value n
  as_number (string_value s) = checked [] (lib.parse_float s)
  as_number v = error (plain_error (text "expected number"))

  unfoldable pub deep_equal : Value → Value → Bool
  unfolding text_eq
  deep_equal a b = text_eq (lib.marshal a) (lib.marshal b)

  -- An element is equal to `right`.
  unfoldable pub any_equal : Values → Value → Bool
  unfolding deep_equal
  any_equal no_values right = false
  any_equal (value_cons v vs) right = deep_equal v right || any_equal vs right

  unfoldable pub contains : Value → Value → Bool
  unfolding any_equal text_contains
  contains (string_value s) right = text_contains s (lib.sprint right)
  contains (array_value vs) right = any_equal vs right
  contains v right = false

unfoldable pub as_bool : Value → Result Bool
unfolding text
as_bool (bool_value b) = value b
as_bool v = error (plain_error (text "expected boolean"))
