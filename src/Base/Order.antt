-- ===== src/Base/Order.antt =====
-- Stable insertion sort by a `less` function, as `sort.Strings` and `sort.SliceStable` order.
use mathlib.Core.Path.{◌≡◌, refl, ap, ◌∙◌}
use mathlib.Core.Logic.{inl, inr}
use mathlib.Core.Bool.{Bool, true, false}
use mathlib.Core.List.{List, [], ◌∷◌}
use pipetest.Base.Tests.{if◌then◌else◌, Bool-cases}
use pipetest.Base.Lists.{All, In, here, there, Pairwise, All-map, All-In, In-All}

module _ {ℓ} {A : Type ℓ} (less : A → A → Bool) where
  -- `x` goes in front of the first element that is not less than it.
  unfoldable pub insert_by : A → List A → List A
  insert_by x [] = x ∷ []
  insert_by x (y ∷ ys) = if less y x then y ∷ insert_by x ys else x ∷ y ∷ ys

  unfoldable pub sort_by : List A → List A
  unfolding insert_by
  sort_by [] = []
  sort_by (x ∷ xs) = insert_by x (sort_by xs)

  -- No later element is less than an earlier one.
  abbrev pub IsSorted : List A → Type 0
  IsSorted = Pairwise (λ x y. less y x ≡ false)

  -- A list in order is left as it is.
  pub sort_by-eq_self : (xs : List A) → IsSorted xs → sort_by xs ≡ xs
  unfolding sort_by
  sort_by-eq_self [] h = refl
  sort_by-eq_self (x ∷ []) h = refl
  sort_by-eq_self (x ∷ y ∷ xs) h =
      ap (insert_by x) (sort_by-eq_self (y ∷ xs) h.1) ∙ (rw (h.0.0) refl)

  pub All-insert_by {κ} :
      (P : A → Type κ) (x : A) (ys : List A) → P x → All P ys → All P (insert_by x ys)
  unfolding insert_by
  All-insert_by P x [] p h = (p, tt)
  All-insert_by P x (y ∷ ys) p h = elim (Bool-cases (less y x)) [
    | inl e ↦ rw e (h.0, All-insert_by P x ys p h.1)
    | inr e ↦ rw e (p, h)
  ]

  pub All-sort_by {κ} : (P : A → Type κ) (xs : List A) → All P xs → All P (sort_by xs)
  unfolding sort_by
  All-sort_by P [] h = tt
  All-sort_by P (x ∷ xs) h = All-insert_by P x (sort_by xs) h.0 (All-sort_by P xs h.1)

  -- For a strict weak order the result is sorted.
  module _ (asym : (a b : A) → less a b ≡ true → less b a ≡ false)
      (trans : (a b c : A) → less b a ≡ false → less c b ≡ false → less c a ≡ false) where
    insert_by-IsSorted : (x : A) (ys : List A) → IsSorted ys → IsSorted (insert_by x ys)
    unfolding insert_by
    insert_by-IsSorted x [] h = (tt, tt)
    insert_by-IsSorted x (y ∷ ys) h = elim (Bool-cases (less y x)) [
      | inl e ↦
          rw e (
            All-insert_by (λ z. less z y ≡ false) x ys (asym y x e) h.0,
            insert_by-IsSorted x ys h.1,
          )
      | inr e ↦ rw e ((e, All-map ys (λ z k. trans x y z e k) h.0), h)
    ]

    pub sort_by-IsSorted : (xs : List A) → IsSorted (sort_by xs)
    unfolding sort_by
    sort_by-IsSorted [] = tt
    sort_by-IsSorted (x ∷ xs) = insert_by-IsSorted x (sort_by xs) (sort_by-IsSorted xs)

module _ {A : Type 0} (less : A → A → Bool) where
  In-insert_by_self : (x : A) (ys : List A) → In x (insert_by less x ys)
  unfolding insert_by
  In-insert_by_self x [] = here refl
  In-insert_by_self x (y ∷ ys) = elim (Bool-cases (less y x)) [
    | inl e ↦ rw e (there (In-insert_by_self x ys))
    | inr e ↦ rw e (here refl)
  ]

  In-insert_by : {a : A} (x : A) (ys : List A) → In a ys → In a (insert_by less x ys)
  unfolding insert_by
  In-insert_by x [] m = there m
  In-insert_by x (y ∷ ys) (here p) = elim (Bool-cases (less y x)) [
    | inl e ↦ rw e (here p)
    | inr e ↦ rw e (there (here p))
  ]
  In-insert_by x (y ∷ ys) (there m) = elim (Bool-cases (less y x)) [
    | inl e ↦ rw e (there (In-insert_by x ys m))
    | inr e ↦ rw e (there (there m))
  ]

  pub In-sort_by : {a : A} (xs : List A) → In a xs → In a (sort_by less xs)
  unfolding sort_by
  In-sort_by [] m = m
  In-sort_by (x ∷ xs) (here e) = rw e (In-insert_by_self x (sort_by less xs))
  In-sort_by (x ∷ xs) (there m) = In-insert_by x (sort_by less xs) (In-sort_by xs m)

  -- Sorting brings nothing in.
  pub sort_by-In : {a : A} (xs : List A) → In a (sort_by less xs) → In a xs
  sort_by-In xs m =
      All-In (λ b. In b xs)
        (All-sort_by less (λ b. In b xs) xs (In-All (λ b. In b xs) xs (λ b k. k))) m
