-- ===== src/Base/Lists.antt =====
-- Lists: lengths, counts, predicates over all elements, and membership.
use Prim.Native.Nat.{ℕ, zero, suc, ◌+◌, ◌-◌}
use mathlib.Core.Path.{◌≡◌, refl, ap, sym, subst}
use mathlib.Core.Logic.{◌⊎◌, inl, inr}
use mathlib.Core.Bool.{Bool, true, ◌&&◌}
use mathlib.Core.Option.{Option, none, some}
use mathlib.Core.List.{List, [], ◌∷◌, ◌++◌, map}
use native.Mathlib.Omega.{arith}
use pipetest.Base.Tests.{if◌then◌else◌}

module _ {ℓ} {A : Type ℓ} where
  abbrev pub length : List A → ℕ
  length [] = 0
  length (x ∷ xs) = suc (length xs)

  pub length-append : (xs ys : List A) → length (xs ++ ys) ≡ length xs + length ys
  length-append [] ys = omega arith
  length-append (x ∷ xs) ys = omega (arith, length-append xs ys)

  -- The number of elements that pass a test.
  abbrev pub count : (A → Bool) → List A → ℕ
  count p [] = 0
  count p (x ∷ xs) = (if p x then 1 else 0) + count p xs

  pub count-append : (p : A → Bool) (xs ys : List A) → count p (xs ++ ys) ≡ count p xs + count p ys
  count-append p [] ys = omega arith
  count-append p (x ∷ xs) ys = omega (arith, count-append p xs ys)

  abbrev pub filter : (A → Bool) → List A → List A
  filter p [] = []
  filter p (x ∷ xs) = if p x then x ∷ filter p xs else filter p xs

  pub filter-append :
      (p : A → Bool) (xs ys : List A) → filter p (xs ++ ys) ≡ filter p xs ++ filter p ys
  filter-append p [] ys = refl
  filter-append p (x ∷ xs) ys = ground (arith, filter-append p xs ys)

  abbrev pub take : ℕ → List A → List A
  take zero xs = []
  take (suc n) [] = []
  take (suc n) (x ∷ xs) = x ∷ take n xs

  pub take-append : (xs ys : List A) → take (length xs) (xs ++ ys) ≡ xs
  take-append [] ys = refl
  take-append (x ∷ xs) ys = ap (λ zs. x ∷ zs) (take-append xs ys)

  abbrev pub drop : ℕ → List A → List A
  drop zero xs = xs
  drop (suc n) [] = []
  drop (suc n) (x ∷ xs) = drop n xs

  pub length-drop : (n : ℕ) (xs : List A) → length (drop n xs) ≡ length xs - n
  length-drop zero xs = omega arith
  length-drop (suc n) [] = omega arith
  length-drop (suc n) (x ∷ xs) = omega (arith, length-drop n xs)

  -- The elements of an option, at most one.
  abbrev pub option_list : Option A → List A
  option_list none = []
  option_list (some a) = a ∷ []

abbrev pub All {ℓ κ} : {A : Type ℓ} → (A → Type κ) → List A → Type κ
All P [] = Unit
All P (x ∷ xs) = P x × All P xs

abbrev pub all {ℓ} : {A : Type ℓ} → (A → Bool) → List A → Bool
all p [] = true
all p (x ∷ xs) = p x && all p xs

pub all-All {ℓ} :
    {A : Type ℓ} (p : A → Bool) (xs : List A) → all p xs ≡ true → All (λ x. p x ≡ true) xs
all-All p [] e = tt
all-All p (x ∷ xs) e = (ground arith, all-All p xs (ground arith))

-- `x` stands in the list; a proof says where.
pub data In {A : Type 0} (x : A) : List A → Type 0 where
  here : {y : A} {ys : List A} → x ≡ y → In x (y ∷ ys)
  there : {y : A} {ys : List A} → In x ys → In x (y ∷ ys)

pub All-append {ℓ κ} :
    {A : Type ℓ} (P : A → Type κ) (xs ys : List A) → All P xs → All P ys → All P (xs ++ ys)
All-append P [] ys hx hy = hy
All-append P (x ∷ xs) ys hx hy = (hx.0, All-append P xs ys hx.1 hy)

-- Every element stands in the relation to every later one.
abbrev pub Pairwise {ℓ κ} : {A : Type ℓ} → (A → A → Type κ) → List A → Type κ
Pairwise R [] = Unit
Pairwise R (x ∷ xs) = All (R x) xs × Pairwise R xs

pub All-map {ℓ κ μ} :
    {A : Type ℓ} {P : A → Type κ} {Q : A → Type μ} (xs : List A)
    → ((x : A) → P x → Q x)
    → All P xs
    → All Q xs
All-map [] f h = tt
All-map (x ∷ xs) f h = (f x h.0, All-map xs f h.1)

pub All-In {κ} : {A : Type 0} (P : A → Type κ) {x : A} {xs : List A} → All P xs → In x xs → P x
All-In P h (here e) = subst P (sym e) h.0
All-In P h (there m) = All-In P h.1 m

pub In-All {κ} : {A : Type 0} (P : A → Type κ) (xs : List A) → ((x : A) → In x xs → P x) → All P xs
In-All P [] f = tt
In-All P (x ∷ xs) f = (f x (here refl), In-All P xs (λ y m. f y (there m)))

pub not-In-nil : {A : Type 0} {x : A} → ¬ In x []
not-In-nil m = elim m [ ]

pub In-append-left : {A : Type 0} {x : A} {xs : List A} (ys : List A) → In x xs → In x (xs ++ ys)
In-append-left ys (here e) = here e
In-append-left ys (there m) = there (In-append-left ys m)

pub In-append-right : {A : Type 0} {x : A} (xs : List A) {ys : List A} → In x ys → In x (xs ++ ys)
In-append-right [] m = m
In-append-right (y ∷ xs) m = there (In-append-right xs m)

pub In-append : {A : Type 0} {x : A} (xs ys : List A) → In x (xs ++ ys) → In x xs ⊎ In x ys
In-append [] ys m = inr m
In-append (y ∷ xs) ys (here e) = inl (here e)
In-append (y ∷ xs) ys (there m) = elim (In-append xs ys m) [ inl a ↦ inl (there a) | inr b ↦ inr b ]

module _ {A B : Type 0} (f : A → B) where
  pub All-map_of {κ} : (P : B → Type κ) (xs : List A) → All (λ x. P (f x)) xs → All P (map f xs)
  All-map_of P [] h = tt
  All-map_of P (x ∷ xs) h = (h.0, All-map_of P xs h.1)

  pub Pairwise-map_of {κ} :
      (R : B → B → Type κ) (xs : List A)
      → Pairwise (λ x y. R (f x) (f y)) xs
      → Pairwise R (map f xs)
  Pairwise-map_of R [] h = tt
  Pairwise-map_of R (x ∷ xs) h = (All-map_of (R (f x)) xs h.0, Pairwise-map_of R xs h.1)

  pub In-map : {x : A} {xs : List A} → In x xs → In (f x) (map f xs)
  In-map (here e) = here (ap f e)
  In-map (there m) = there (In-map m)
