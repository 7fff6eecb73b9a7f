-- ===== src/Runtime/Eval/Misses/Calls.antt =====
-- No operation on values, and no builtin, misses an identifier.
use pipetest.Ast.{
  Span, UnaryOp, BinaryOp, unary_not, unary_plus, unary_minus, binary_or, binary_and, binary_eq,
  binary_ne, binary_lt, binary_lte, binary_gt, binary_gte, binary_in, binary_contains, binary_match,
  binary_add, binary_sub, binary_mul, binary_div, binary_mod,
}
use pipetest.Base.Text.{Text, text, text_eq}
use pipetest.Base.{ℕ, Bool, Option, none, some, [], if◌then◌else◌, ◌||◌, ◌&&◌}
use pipetest.Runtime.Eval.{
  fail, apply_unary, numbers, booleans, arithmetic, compare_by, apply_add, apply_in, apply_binary,
  access_field, element_or, element_at, access_index, length_of, call_env, call_uuid, call_len,
  call_regex, call_jsonpath, call_now, call_urlencode, apply_call,
}
use pipetest.Runtime.Value.{
  no_values, value_cons, Value, Values, Result, Library, normalize, as_number, bool_value,
  number_value, string_value, array_value, object_value, nil_object,
}
use pipetest.Runtime.Eval.Misses.{
  Misses, no_error, no_function, plain, Misses-bind, if-Misses, checked-Misses, as_bool-Misses,
  or_fail-Misses,
}
use pipetest.Runtime.Eval.Misses.Lookup.{json_path_lookup-Misses}

module _ {P : Text → Type 0} where
  module _ (lib : Library) where
    pub as_number-Misses : (v : Value) → Misses P (as_number lib v)
    unfolding as_number
    as_number-Misses (number_value n) = no_error
    as_number-Misses (string_value s) = checked-Misses [] (lib.parse_float s)
    as_number-Misses _ = plain

    pub numbers-Misses :
        (l r : Value) (f : ℕ → ℕ → Result Value)
        → ((a b : ℕ) → Misses P (f a b))
        → Misses P (numbers lib l r f)
    numbers-Misses l r f h =
        Misses-bind _ (as_number-Misses l) (λ a. Misses-bind _ (as_number-Misses r) (λ b. h a b))

    pub arithmetic-Misses :
        (l r : Value) (f : ℕ → ℕ → ℕ) → Misses P (numbers lib l r (arithmetic lib f))
    arithmetic-Misses l r f = numbers-Misses l r (arithmetic lib f) (λ a b. no_error)

    pub compare_by-Misses :
        (l r : Value) (f : ℕ → ℕ → Bool) → Misses P (numbers lib l r (compare_by lib f))
    compare_by-Misses l r f = numbers-Misses l r (compare_by lib f) (λ a b. no_error)

    pub booleans-Misses : (l r : Value) (f : Bool → Bool → Bool) → Misses P (booleans lib l r f)
    booleans-Misses l r f =
        Misses-bind _ (as_bool-Misses l) (λ a. Misses-bind _ (as_bool-Misses r) (λ b. no_error))

    pub apply_unary-Misses : (op : UnaryOp) (v : Value) → Misses P (apply_unary lib op v)
    unfolding apply_unary
    apply_unary-Misses unary_not v = Misses-bind _ (as_bool-Misses v) (λ b. no_error)
    apply_unary-Misses unary_minus v = Misses-bind _ (as_number-Misses v) (λ b. no_error)
    apply_unary-Misses unary_plus v = Misses-bind _ (as_number-Misses v) (λ b. no_error)

    pub apply_add-Misses : (l r : Value) → Misses P (apply_add lib l r)
    unfolding apply_add
    apply_add-Misses (string_value l) r = no_error
    apply_add-Misses l (string_value r) = no_error
    apply_add-Misses l r = arithmetic-Misses l r lib.add

    pub apply_in-Misses : (l r : Value) → Misses P (apply_in lib l r)
    unfolding apply_in
    apply_in-Misses l (array_value vs) = no_error
    apply_in-Misses l _ = plain

    pub apply_binary-Misses : (op : BinaryOp) (l r : Value) → Misses P (apply_binary lib op l r)
    unfolding apply_binary
    apply_binary-Misses binary_eq l r = no_error
    apply_binary-Misses binary_ne l r = no_error
    apply_binary-Misses binary_contains l r = no_error
    apply_binary-Misses binary_and l r = booleans-Misses l r (λ a b. a && b)
    apply_binary-Misses binary_or l r = booleans-Misses l r (λ a b. a || b)
    apply_binary-Misses binary_in l r = apply_in-Misses l r
    apply_binary-Misses binary_add l r = apply_add-Misses l r
    apply_binary-Misses binary_div l r =
        numbers-Misses l r
          (λ a b.
            if lib.is_zero b then fail (text "division by zero") else arithmetic lib lib.div a b)
          (λ a b. if-Misses (lib.is_zero b) plain no_error)
    apply_binary-Misses binary_mod l r =
        numbers-Misses l r
          (λ a b.
            if lib.is_zero b
            then fail (text "modulo by zero")
            else arithmetic lib lib.remainder a b)
          (λ a b. if-Misses (lib.is_zero b) plain no_error)
    apply_binary-Misses binary_match l r = plain
    apply_binary-Misses binary_gt l r = compare_by-Misses l r (λ a b. lib.less b a)
    apply_binary-Misses binary_gte l r = compare_by-Misses l r (λ a b. lib.less_eq b a)
    apply_binary-Misses binary_lt l r = compare_by-Misses l r lib.less
    apply_binary-Misses binary_lte l r = compare_by-Misses l r lib.less_eq
    apply_binary-Misses binary_sub l r = arithmetic-Misses l r lib.sub
    apply_binary-Misses binary_mul l r = arithmetic-Misses l r lib.mul

    pub access_field-Misses : (v : Value) (name : Text) → Misses P (access_field lib v name)
    unfolding access_field
    access_field-Misses (object_value fs) name = no_error
    access_field-Misses nil_object name = no_error
    access_field-Misses _ name = plain

    pub element_or-Misses : (o : Option Value) → Misses P (element_or lib o)
    element_or-Misses none = plain
    element_or-Misses (some v) = no_error

    pub element_at-Misses : (o : Option ℕ) (vs : Values) → Misses P (element_at lib o vs)
    element_at-Misses none vs = plain
    element_at-Misses (some i) vs = element_or-Misses _

    pub access_index-Misses : (v idx : Value) → Misses P (access_index lib v idx)
    unfolding access_index
    access_index-Misses (object_value fs) idx = no_error
    access_index-Misses nil_object idx = no_error
    access_index-Misses (array_value vs) idx =
        Misses-bind _ (as_number-Misses idx) (λ n. element_at-Misses (lib.index_of n) vs)
    access_index-Misses _ idx = plain

    pub length_of-Misses : (v : Value) → Misses P (length_of lib v)
    unfolding length_of
    length_of-Misses (array_value vs) = no_error
    length_of-Misses (object_value fs) = no_error
    length_of-Misses (string_value s) = no_error
    length_of-Misses _ = plain

    pub call_env-Misses : (args : Values) → Misses P (call_env lib args)
    unfolding call_env
    call_env-Misses (value_cons a no_values) = no_error
    call_env-Misses _ = plain

    pub call_uuid-Misses : (span : Span) (args : Values) → Misses P (call_uuid lib span args)
    unfolding call_uuid
    call_uuid-Misses span no_values = no_error
    call_uuid-Misses span _ = plain

    pub call_len-Misses : (args : Values) → Misses P (call_len lib args)
    unfolding call_len
    call_len-Misses (value_cons a no_values) = length_of-Misses (normalize a)
    call_len-Misses _ = plain

    pub call_regex-Misses : (args : Values) → Misses P (call_regex lib args)
    unfolding call_regex
    call_regex-Misses (value_cons a (value_cons b no_values)) =
        Misses-bind _
          (checked-Misses (text "invalid regex: ")
            (lib.regex (lib.sprint (normalize a)) (lib.sprint (normalize b))))
          (λ m. no_error {a = bool_value m})
    call_regex-Misses _ = plain

    pub call_jsonpath-Misses : (args : Values) → Misses P (call_jsonpath lib args)
    unfolding call_jsonpath
    call_jsonpath-Misses (value_cons a (value_cons b no_values)) =
        or_fail-Misses a (json_path_lookup-Misses (normalize a) (lib.sprint (normalize b)))
    call_jsonpath-Misses _ = plain

    pub call_now-Misses : (span : Span) (args : Values) → Misses P (call_now lib span args)
    unfolding call_now
    call_now-Misses span no_values = no_error
    call_now-Misses span _ = plain

    pub call_urlencode-Misses : (args : Values) → Misses P (call_urlencode lib args)
    unfolding call_urlencode
    call_urlencode-Misses (value_cons a no_values) = no_error
    call_urlencode-Misses _ = plain

    pub apply_call-Misses :
        (name : Text) (span : Span) (args : Values) → Misses P (apply_call lib name span args)
    unfolding apply_call
    apply_call-Misses name span args =
        if-Misses (text_eq name (text "env")) (call_env-Misses args) (
          if-Misses (text_eq name (text "uuid")) (call_uuid-Misses span args) (
            if-Misses (text_eq name (text "len")) (call_len-Misses args) (
              if-Misses (text_eq name (text "regex")) (call_regex-Misses args) (
                if-Misses (text_eq name (text "jsonpath")) (call_jsonpath-Misses args) (
                  if-Misses (text_eq name (text "now")) (call_now-Misses span args) (
                    if-Misses (text_eq name (text "urlencode")) (call_urlencode-Misses args)
                      no_function))))))
