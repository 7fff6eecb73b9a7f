-- ===== src/Base/Names.antt =====
-- Sorted lists of names.
use mathlib.Core.Bool.{true}
use mathlib.Core.List.{List, [], ◌∷◌}
use mathlib.Core.Path.{◌≡◌, refl}
use native.Mathlib.Omega.{arith}
use pipetest.Base.Assoc.{member}
use pipetest.Base.Order.{sort_by, insert_by}
use pipetest.Base.Tests.{if◌then◌else◌}
use pipetest.Base.Text.{Text, text_eq, text_lt}

-- Sorting keeps the names.
member-insert_by :
    (k x : Text) (ys : List Text)
    → member k (insert_by text_lt x ys) ≡ (if text_eq x k then true else member k ys)
unfolding member insert_by
member-insert_by k x [] = refl
member-insert_by k x (y ∷ ys) = ground (arith, member-insert_by k x ys)

pub member-sort_by : (k : Text) (xs : List Text) → member k (sort_by text_lt xs) ≡ member k xs
unfolding member sort_by
member-sort_by k [] = refl
member-sort_by k (x ∷ xs) =
    ground (arith, member-sort_by k xs, member-insert_by k x (sort_by text_lt xs))
