-- ===== src/Runtime/Path/Fuel.antt =====
-- The loop of `jsonPathLookup` ends on every path.
use pipetest.Base.Text.{Text}
use pipetest.Base.{◌≡◌}
use pipetest.Runtime.Eval.Misses.{Misses, no_error, missing, no_function, plain, no_json}
use pipetest.Runtime.Eval.Misses.Lookup.{json_path_lookup-Misses}
use pipetest.Runtime.Path.{json_path_lookup}
use pipetest.Runtime.Value.{EvalError, Value, Result, value, error}

-- A value or an error; not a run that is cut off before its end.
pub data Ends {A : Type 0} : Result A → Type 0 where
  with_value : {a : A} → Ends (value a)
  with_error : {e : EvalError} → Ends (error e)

Misses-Ends : {P : Text → Type 0} {A : Type 0} {r : Result A} → Misses P r → Ends r
Misses-Ends no_error = with_value
Misses-Ends (missing p) = with_error
Misses-Ends no_function = with_error
Misses-Ends plain = with_error
Misses-Ends no_json = with_error

-- jsonPathLookup ends with a value or an error, on every value and every path.
pub json_path_lookup-Ends : (root : Value) (path : Text) → Ends (json_path_lookup root path)
json_path_lookup-Ends root path =
    Misses-Ends {P = λ name. name ≡ name} (json_path_lookup-Misses root path)
