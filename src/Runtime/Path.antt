-- ===== src/Runtime/Path.antt =====
-- internal/runtime/runtime.go: `jsonPathLookup`.
pub mod Segments
pub mod Fuel
use pipetest.Base.{
  ℕ, zero, suc, ◌+◌, ◌-◌, ◌*◌, Bool, Option, none, some, [], ◌∷◌, ◌++◌, if◌then◌else◌, ◌||◌, ◌&&◌,
  leb, ltb, ◌==◌, length,
}
use pipetest.Base.Text.{Text, text}
use pipetest.Runtime.Value.{
  Value, null_value, array_value, object_value, nil_object, Result, value, error, unfinished,
  plain_error, field, element,
}

abbrev pub is_digit_byte : ℕ → Bool
is_digit_byte b = leb b'0' b && leb b b'9'

abbrev pub is_name_byte : ℕ → Bool
is_name_byte b =
    (leb b'a' b && leb b b'z') || ((leb b'A' b && leb b b'Z') || (is_digit_byte b || b == b'_'))

-- The longest start of the text that passes the test, and what is after it.
unfoldable pub span_of : (ℕ → Bool) → Text → Text × Text
span_of p [] = ([], [])
span_of p (b ∷ bs) = let r = span_of p bs in if p b then (b ∷ r.0, r.1) else ([], b ∷ bs)

-- The number that digits write.
unfoldable pub digits_value : ℕ → Text → ℕ
digits_value n [] = n
digits_value n (b ∷ bs) = digits_value (n * 10 + (b - b'0')) bs

-- `strconv.Atoi` of digits: none above the largest int.
unfoldable pub atoi : Text → Option ℕ
unfolding digits_value
atoi ds = let n = digits_value 0 ds in if ltb n 9223372036854775808 then some n else none

abbrev pub syntax_error : Text → Result Value
syntax_error message = error (plain_error message)

abbrev pub range_error : Text → Result Value
range_error ds = syntax_error (
    text "invalid jsonpath index: strconv.Atoi: parsing \""
    ++ (ds ++ text "\": value out of range"))

-- The value that a segment selects, none where the lookup gives nil at once.
unfoldable pub select_field : Text → Value → Option Value
unfolding field
select_field name (object_value fs) = some (field name fs)
select_field name nil_object = some null_value
select_field name v = none

unfoldable pub select_element : ℕ → Value → Option Value
unfolding element
select_element i (array_value vs) = element i vs
select_element i v = none

-- The lookup goes on with the rest of the path.
abbrev pub or_null : (Value → Result Value) → Option Value → Result Value
or_null again none = value null_value
or_null again (some v) = again v

abbrev pub index_step :
    (Text → Value → Result Value) → Text → Text → Option ℕ → Value → Result Value
index_step again ds rest none cur = range_error ds
index_step again ds rest (some i) cur = or_null (again rest) (select_element i cur)

-- After `[`: digits and `]`.
unfoldable pub index_segment : (Text → Value → Result Value) → Text × Text → Value → Result Value
unfolding atoi select_element text
index_segment again ([], rest) cur = syntax_error (text "invalid jsonpath index")
index_segment again (d ∷ ds, []) cur = syntax_error (text "invalid jsonpath index")
index_segment again (d ∷ ds, b ∷ rest) cur =
    if b == b']'
    then index_step again (d ∷ ds) rest (atoi (d ∷ ds)) cur
    else syntax_error (text "invalid jsonpath index")

-- After `.`: a name.
unfoldable pub field_segment : (Text → Value → Result Value) → Text × Text → Value → Result Value
unfolding select_field text
field_segment again ([], rest) cur = syntax_error (text "invalid jsonpath segment")
field_segment again (b ∷ bs, rest) cur = or_null (again rest) (select_field (b ∷ bs) cur)

-- The loop; one unit of fuel for each segment.
unfoldable pub path_loop : ℕ → Text → Value → Result Value
unfolding index_segment field_segment span_of text
path_loop k [] cur = value cur
path_loop zero (b ∷ bs) cur = unfinished
path_loop (suc k) (b ∷ bs) cur =
    if b == b'.'
    then field_segment (path_loop k) (span_of is_name_byte bs) cur
    else (if b == b'['
        then index_segment (path_loop k) (span_of is_digit_byte bs) cur
        else syntax_error (text "invalid jsonpath syntax"))

-- A segment takes at least one byte of the path.
unfoldable pub json_path_lookup : Value → Text → Result Value
unfolding path_loop text
json_path_lookup root [] = syntax_error (text "jsonpath must start with $")
json_path_lookup root (b ∷ path) =
    if b == b'$'
    then path_loop (length path) path root
    else syntax_error (text "jsonpath must start with $")
