-- ===== src/Runtime/Eval/Misses.antt =====
-- The errors of an evaluation: which identifiers a result misses.
pub mod Lookup
pub mod Calls
use pipetest.Base.Text.{Text}
use pipetest.Base.{Bool, true, false, if◌then◌else◌}
use pipetest.Runtime.Eval.{or_fail}
use pipetest.Runtime.Value.{
  Value, undefined_identifier, unknown_function, plain_error, json_access, Result, value, error,
  ◌>>=◌, Checked, accepted, refused, checked, new_json_access_error, as_bool, bool_value,
  invalid_string, invalid_response,
}

-- The result misses no identifier but those that `P` allows.
pub data Misses (P : Text → Type 0) {A : Type 0} : Result A → Type 0 where
  no_error : {a : A} → Misses P (value a)
  missing : {name : Text} → P name → Misses P (error (undefined_identifier name))
  no_function : {name : Text} → Misses P (error (unknown_function name))
  plain : {message : Text} → Misses P (error (plain_error message))
  no_json : {cause : Text} → Misses P (error (json_access cause))

pub Misses-bind :
    {P : Text → Type 0} {A B : Type 0} {m : Result A} (f : A → Result B)
    → Misses P m
    → ((a : A) → Misses P (f a))
    → Misses P (m >>= f)
Misses-bind f no_error k = k _
Misses-bind f (missing p) k = missing p
Misses-bind f no_function k = no_function
Misses-bind f plain k = plain
Misses-bind f no_json k = no_json

pub Misses-weaken :
    {P Q : Text → Type 0} {A : Type 0} {m : Result A}
    → ((name : Text) → P name → Q name)
    → Misses P m
    → Misses Q m
Misses-weaken w no_error = no_error
Misses-weaken w (missing p) = missing (w _ p)
Misses-weaken w no_function = no_function
Misses-weaken w plain = plain
Misses-weaken w no_json = no_json

pub if-Misses :
    {P : Text → Type 0} {A : Type 0} (c : Bool) {a b : Result A}
    → Misses P a
    → Misses P b
    → Misses P (if c then a else b)
if-Misses true h k = h
if-Misses false h k = k

module _ {P : Text → Type 0} where
  pub checked-Misses : {A : Type 0} (prefix : Text) (c : Checked A) → Misses P (checked prefix c)
  unfolding checked
  checked-Misses prefix (accepted a) = no_error
  checked-Misses prefix (refused m) = plain

  pub as_bool-Misses : (v : Value) → Misses P (as_bool v)
  unfolding as_bool
  as_bool-Misses (bool_value b) = no_error
  as_bool-Misses _ = plain

  pub or_fail-Misses :
      (v : Value) {r : Result Value} → Misses P r → Misses P (or_fail (new_json_access_error v) r)
  unfolding or_fail new_json_access_error
  or_fail-Misses (invalid_string raw err) h = no_json
  or_fail-Misses (invalid_response raw err) h = no_json
  or_fail-Misses _ h = h
