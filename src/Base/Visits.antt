-- ===== src/Base/Visits.antt =====
-- Depth-first marks: a map from names to 0 (not met), 1 (on the stack) and 2 (done).
use mathlib.Core.List.{List, [], ◌∷◌}
use mathlib.Core.Logic.{inl, inr}
use mathlib.Core.Option.{none, some}
use mathlib.Core.Path.{◌≡◌}
use native.Mathlib.Omega.{arith}
use Prim.Native.Nat.{ℕ, ◌+◌, ◌≤◌, ◌<◌}
use pipetest.Base.Assoc.{lookup, insert, lookup-insert}
use pipetest.Base.Lists.{length}
use pipetest.Base.Tests.{if◌then◌else◌, ◌==◌, Bool-cases}
use pipetest.Base.Text.{Text, text_eq, text_eq_iff, text_eq_refl}

-- `vis[path]`: 0 for a name not met, 1 while it is on the stack, 2 when it is done.
unfoldable pub vis_of : Text → List (Text × ℕ) → ℕ
unfolding lookup
vis_of name vis = elim (lookup name vis) [ none ↦ 0 | some n ↦ n ]

pub vis_of-insert :
    (name k : Text) (n : ℕ) (state : List (Text × ℕ))
    → vis_of k (insert name n state) ≡ (if text_eq name k then n else vis_of k state)
unfolding vis_of
vis_of-insert name k n state = ground (arith, lookup-insert name k n state)

module _ {V : Type 0} where
  -- How many keys were not met yet.
  unfoldable pub unmet : List (Text × ℕ) → List (Text × V) → ℕ
  unfolding vis_of
  unmet state [] = 0
  unmet state ((k, _) ∷ rest) = (if vis_of k state == 0 then 1 else 0) + unmet state rest

  pub unmet-le-length :
      (state : List (Text × ℕ)) (rs : List (Text × V)) → unmet state rs ≤ length rs
  unfolding unmet
  unmet-le-length state [] = omega arith
  unmet-le-length state (x ∷ rest) = ground (arith, unmet-le-length state rest)

  pub unmet-insert-le :
      (name : Text) (n : ℕ) (state : List (Text × ℕ)) (rs : List (Text × V))
      → 0 < n
      → unmet (insert name n state) rs ≤ unmet state rs
  unfolding unmet
  unmet-insert-le name n state [] h = omega arith
  unmet-insert-le name n state ((k, _) ∷ rest) h =
      ground (arith, vis_of-insert name k n state, unmet-insert-le name n state rest)

  -- Marking a request that was not met leaves fewer.
  pub unmet-insert-lt :
      (name : Text) (n : ℕ) (state : List (Text × ℕ)) (rs : List (Text × V)) (v : V)
      → 0 < n
      → vis_of name state ≡ 0
      → lookup name rs ≡ some v
      → unmet (insert name n state) rs < unmet state rs
  unfolding unmet lookup
  unmet-insert-lt name n state [] v h z e = cc
  unmet-insert-lt name n state ((k, x) ∷ rest) v h z e = elim (Bool-cases (text_eq k name)) [
    | inl same ↦ ground (
      arith,
      text_eq_iff k name,
      text_eq_refl k,
      vis_of-insert name k n state,
      unmet-insert-le name n state rest,
    )
    | inr other ↦ ground (
      arith,
      vis_of-insert name k n state,
      unmet-insert-lt name n state rest v h z (ground arith),
    )
  ]
