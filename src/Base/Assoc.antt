-- ===== src/Base/Assoc.antt =====
-- Go's maps with text keys, as association lists in the order of first insertion.
use mathlib.Core.Path.{◌≡◌, refl}
use mathlib.Core.Bool.{Bool, true, false}
use mathlib.Core.Logic.{inl, inr}
use mathlib.Core.Option.{Option, none, some}
use mathlib.Core.List.{List, [], ◌∷◌, ◌++◌}
use native.Mathlib.Omega.{arith}
use pipetest.Base.Lists.{In, here, there}
use pipetest.Base.Tests.{Bool-cases, if◌then◌else◌, is_some}
use pipetest.Base.Text.{Text, text_eq, text_eq_iff}

-- A set of names: `map[string]struct{}`.
unfoldable pub member : Text → List Text → Bool
member k [] = false
member k (j ∷ m) = if text_eq j k then true else member k m

-- `if _, ok := m[k]; !ok { m[k] = struct{}{}; order = append(order, k) }`
unfoldable pub add : Text → List Text → List Text
unfolding member
add k m = if member k m then m else m ++ k ∷ []

module _ {ℓ} {V : Type ℓ} where
  unfoldable pub lookup : Text → List (Text × V) → Option V
  lookup k [] = none
  lookup k ((j, v) ∷ m) = if text_eq j k then some v else lookup k m

  unfoldable pub insert : Text → V → List (Text × V) → List (Text × V)
  insert k v [] = (k, v) ∷ []
  insert k v ((j, w) ∷ m) = if text_eq j k then (j, v) ∷ m else (j, w) ∷ insert k v m

  pub lookup-insert :
      (k j : Text) (v : V) (m : List (Text × V))
      → lookup j (insert k v m) ≡ (if text_eq k j then some v else lookup j m)
  unfolding lookup insert
  lookup-insert k j v [] = refl
  lookup-insert k j v ((i, w) ∷ m) =
      ground (arith, text_eq_iff k j, text_eq_iff i k, text_eq_iff i j, lookup-insert k j v m)

  abbrev pub keys : List (Text × V) → List Text
  keys [] = []
  keys ((k, v) ∷ m) = k ∷ keys m

  pub member-keys : (k : Text) (m : List (Text × V)) → member k (keys m) ≡ is_some (lookup k m)
  unfolding lookup member
  member-keys k [] = refl
  member-keys k ((j, v) ∷ m) = ground (arith, member-keys k m)

pub member-append :
    (k : Text) (xs ys : List Text)
    → member k (xs ++ ys) ≡ (if member k xs then true else member k ys)
unfolding member
member-append k [] ys = refl
member-append k (x ∷ xs) ys = ground (arith, member-append k xs ys)

pub member-add :
    (k j : Text) (m : List Text) → member j (add k m) ≡ (if text_eq k j then true else member j m)
unfolding add member
member-add k j m = ground (arith, member-append j m (k ∷ []), text_eq_iff k j)

pub lookup-In :
    {V : Type 0} (k : Text) {v : V} (m : List (Text × V)) → lookup k m ≡ some v → In (k, v) m
unfolding lookup
lookup-In k [] e = cc
lookup-In k {v} ((j, w) ∷ m) e = elim (Bool-cases (text_eq j k)) [
  | inl same ↦ here (ground (arith, same, e, text_eq_iff j k))
  | inr other ↦ there (lookup-In k m (ground (arith, other, e)))
]
