-- ===== src/Runtime/Steps/Joined.antt =====
-- The URL of a request: a slash at the end of its base, or at the start of its path.
use pipetest.Base.Text.{Text, text, has_prefix}
use pipetest.Base.{
  ◌≡◌, refl, ℕ, zero, suc, Bool, true, false, not, [], ◌∷◌, ◌++◌, ◌||◌, ◌==◌, arith, Bool-cases,
  inl, inr,
}
use pipetest.Runtime.Steps.{trim_left, trim_right, is_empty, combine_url}

abbrev pub is_absolute : Text → Bool
is_absolute path = has_prefix (text "http://") path || has_prefix (text "https://") path

trim_right-slash : (base : Text) → trim_right (base ++ b'/' ∷ []) ≡ trim_right base
unfolding trim_right
trim_right-slash [] = refl
trim_right-slash (b ∷ bs) = rw (trim_right-slash bs) refl

slash_relative : (path : Text) → is_absolute (b'/' ∷ path) ≡ false
unfolding has_prefix text
slash_relative path = refl

nonempty-append : (b : ℕ) (bs : Text) → is_empty ((b ∷ bs) ++ b'/' ∷ []) ≡ false
unfolding is_empty
nonempty-append b bs = refl

-- Before a path that is no URL itself, a slash more at the end of a base that is not empty, or at
-- the start of the path, does not change the URL.
pub combine_url-slash :
    (b : ℕ) (bs path : Text)
    → is_absolute path ≡ false
    → (combine_url ((b ∷ bs) ++ b'/' ∷ []) path ≡ combine_url (b ∷ bs) path)
      × (combine_url (b ∷ bs) (b'/' ∷ path) ≡ combine_url (b ∷ bs) path)
unfolding combine_url is_empty trim_left
combine_url-slash b bs path h = (rw (h, trim_right-slash (b ∷ bs)) refl, rw h refl)

unfoldable pub slashes : ℕ → Text
slashes zero = []
slashes (suc n) = b'/' ∷ slashes n

-- The text does not begin with a slash.
abbrev pub no_slash : Text → Bool
no_slash [] = true
no_slash (b ∷ bs) = not (b == b'/')

trim_left-slashes :
    (n : ℕ) (path : Text) → no_slash path ≡ true → trim_left (slashes n ++ path) ≡ path
unfolding trim_left slashes
trim_left-slashes zero [] h = refl
trim_left-slashes zero (b ∷ bs) h = let e : (b == b'/') ≡ false = ground (arith, h) in rw e refl
trim_left-slashes (suc n) path h = trim_left-slashes n path h

trim_right-slashes : (n : ℕ) → trim_right (slashes n) ≡ []
unfolding trim_right slashes
trim_right-slashes zero = refl
trim_right-slashes (suc n) = rw (trim_right-slashes n) refl

-- A byte stays before what stays.
trim_right-keeps :
    (b x : ℕ) (xs rest : Text) → trim_right rest ≡ x ∷ xs → trim_right (b ∷ rest) ≡ b ∷ x ∷ xs
unfolding trim_right
trim_right-keeps b x xs rest e = elim (Bool-cases (b == b'/')) [
  | inl t ↦ rw (t, e) refl
  | inr t ↦ rw (t, e) refl
]

trim_right-core :
    (bs : Text) (c n : ℕ) → (c == b'/') ≡ false → trim_right (bs ++ c ∷ slashes n) ≡ bs ++ c ∷ []
unfolding trim_right
trim_right-core [] c n h = rw (h, trim_right-slashes n) refl
trim_right-core (b ∷ []) c n h = trim_right-keeps b c [] (c ∷ slashes n) (trim_right-core [] c n h)
trim_right-core (b ∷ x ∷ xs) c n h =
    trim_right-keeps b x (xs ++ c ∷ []) (x ∷ (xs ++ c ∷ slashes n)) (trim_right-core (x ∷ xs) c n h)

relative_slashes :
    (n : ℕ) (path : Text) → is_absolute path ≡ false → is_absolute (slashes n ++ path) ≡ false
unfolding slashes
relative_slashes zero path h = h
relative_slashes (suc n) path h = slash_relative (slashes n ++ path)

filled : (bs : Text) (c : ℕ) (rest : Text) → is_empty (bs ++ c ∷ rest) ≡ false
unfolding is_empty
filled [] c rest = refl
filled (b ∷ bs) c rest = refl

-- With any number of slashes, also none, at the end of a base that has another byte before them,
-- and at the start of a path that is no URL itself, the URL is the base without its last
-- slashes, one slash, and the path without its first slashes.
pub combine_url_one_slash :
    (bs path : Text) (c m n : ℕ)
    → (c == b'/') ≡ false
    → no_slash path ≡ true
    → is_absolute path ≡ false
    → combine_url (bs ++ c ∷ slashes m) (slashes n ++ path) ≡ (bs ++ c ∷ []) ++ b'/' ∷ path
unfolding combine_url
combine_url_one_slash bs path c m n h s a =
    rw
      (
        relative_slashes n path a,
        filled bs c (slashes m),
        trim_right-core bs c m h,
        trim_left-slashes n path s,
      )
      refl
