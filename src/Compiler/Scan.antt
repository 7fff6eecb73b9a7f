-- ===== src/Compiler/Scan.antt =====
-- The two regular expressions of the compiler, as scanners over bytes: each looks for the first
-- match from the left, takes the longest name and goes on behind it.
use pipetest.Base.{
  ℕ, zero, suc, ◌+◌, ◌-◌, Bool, false, ◌&&◌, ◌||◌, List, [], ◌∷◌, Option, none, some, if◌then◌else◌,
  leb, ◌==◌, length,
}
use pipetest.Base.Assoc.{add}
use pipetest.Base.Order.{sort_by}
use pipetest.Base.Text.{Text, text_lt}

-- [A-Za-z_]
unfoldable pub is_name_start : ℕ → Bool
is_name_start c = leb b'A' c && leb c b'Z' || leb b'a' c && leb c b'z' || c == b'_'

-- [A-Za-z0-9_]
unfoldable pub is_name_char : ℕ → Bool
unfolding is_name_start
is_name_char c = is_name_start c || leb b'0' c && leb c b'9'

-- The longest run of name bytes, and what follows it.
unfoldable pub span_name : Text → Text × Text
unfolding is_name_char
span_name [] = ([], [])
span_name (c ∷ cs) =
    let (name, rest) = span_name cs in if is_name_char c then (c ∷ name, rest) else ([], c ∷ cs)

-- [A-Za-z_][A-Za-z0-9_]*
unfoldable pub match_name : Text → Option (Text × Text)
unfolding span_name is_name_start
match_name [] = none
match_name (c ∷ cs) =
    let (name, rest) = span_name cs in if is_name_start c then some (c ∷ name, rest) else none

-- `:` and a name: the name, and the bytes that the match takes.
unfoldable pub match_path_param : Text → Option (Text × ℕ)
unfolding match_name
match_path_param [] = none
match_path_param (c ∷ cs) =
    if c == b':'
    then elim (match_name cs) [ none ↦ none | some (name, _) ↦ some (name, suc (length name)) ]
    else none

-- The two closing braces.
unfoldable pub closes : Text → Bool
closes (a ∷ b ∷ rest) = a == b'}' && b == b'}'
closes _ = false

-- `{{`, a name and `}}`.
unfoldable pub match_template_var : Text → Option (Text × ℕ)
unfolding match_name closes
match_template_var (a ∷ b ∷ cs) =
    if a == b'{' && b == b'{'
    then elim (match_name cs) [
      | none ↦ none
      | some (name, rest) ↦ if closes rest then some (name, length name + 4) else none
    ]
    else none
match_template_var _ = none

-- `FindAllStringSubmatch(s, -1)`, the first group of each match; `skip` counts the bytes of the
-- last match that are still to pass.
unfoldable pub find_all : (Text → Option (Text × ℕ)) → ℕ → Text → List Text
find_all match skip [] = []
find_all match (suc skip) (c ∷ cs) = find_all match skip cs
find_all match zero (c ∷ cs) = elim (match (c ∷ cs)) [
  | none ↦ find_all match zero cs
  | some (name, width) ↦ name ∷ find_all match (width - 1) cs
]

unfoldable pub path_params : Text → List Text
unfolding find_all match_path_param
path_params = find_all match_path_param 0

-- The `seen` map and the slice `out` of a collector hold the same names.
unfoldable pub add_all : List Text → List Text → List Text
unfolding add
add_all [] out = out
add_all (n ∷ ns) out = add_all ns (add n out)

unfoldable pub collect_template_vars_in_string : Text → List Text
unfolding find_all match_template_var add_all sort_by
collect_template_vars_in_string raw =
    sort_by text_lt (add_all (find_all match_template_var 0 raw) [])
