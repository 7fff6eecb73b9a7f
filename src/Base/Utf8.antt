-- ===== src/Base/Utf8.antt =====
-- The encoding UTF-8, as `unicode/utf8` reads it, and the character classes of `unicode`, whose
-- tables are a parameter.
use mathlib.Core.Path.{◌≡◌, refl}
use mathlib.Core.Logic.{◌⊎◌, inl, inr}
use mathlib.Core.Bool.{Bool, true, false, ◌&&◌, ◌||◌}
use mathlib.Core.List.{[], ◌∷◌}
use Prim.Native.Nat.{ℕ, ◌+◌, ◌-◌, ◌*◌, ◌≤◌, ◌<◌}
use native.Mathlib.Omega.{arith}
use pipetest.Base.Lists.{length}
use pipetest.Base.Tests.{if◌then◌else◌, leb, ltb, ◌==◌, Bool-cases}
use pipetest.Base.Text.{Text}

-- `unicode.IsLetter`, `unicode.IsDigit` and `unicode.IsSpace`
pub record Unicode : Type 0 where
  pub is_letter : ℕ → Bool
  pub is_digit : ℕ → Bool
  pub is_space : ℕ → Bool

abbrev pub within : ℕ → ℕ → ℕ → Bool
within low high b = leb low b && leb b high

-- What `unicode` documents of the ASCII characters.
pub record AsciiLaws (uc : Unicode) : Type 0 where
  pub letter : (r : ℕ) → r < 128 → uc.is_letter r ≡ (within b'a' b'z' r || within b'A' b'Z' r)
  pub digit : (r : ℕ) → r < 128 → uc.is_digit r ≡ within b'0' b'9' r
  pub space : (r : ℕ) → r < 128 → uc.is_space r ≡ (r == b' ' || within b'\t' b'\r' r)

-- A character with the number of its bytes.
pub record Rune : Type 0 where
  pub rune : ℕ
  pub size : ℕ

-- `utf8.RuneError` with a size of one: the bytes are not UTF-8.
abbrev pub rune_error : Rune
rune_error = record { rune = 65533; size = 1 }

abbrev is_cont : ℕ → Bool
is_cont = within 128 191

-- The rest of a character of two, three or four bytes whose first byte is `b`. The bounds on its
-- second byte rule out a longer form than needed, the surrogates, and what is above 0x10FFFF.
unfoldable pub decode_2 : ℕ → Text → Rune
decode_2 b [] = rune_error
decode_2 b (c ∷ cs) =
    if is_cont c then (record { rune = (b - 192) * 64 + (c - 128); size = 2 }) else rune_error

unfoldable pub decode_3 : ℕ → ℕ → ℕ → Text → Rune
decode_3 low high b (c ∷ d ∷ ds) =
    if within low high c && is_cont d
    then (record { rune = (b - 224) * 4096 + (c - 128) * 64 + (d - 128); size = 3 })
    else rune_error
decode_3 low high b _ = rune_error

unfoldable pub decode_4 : ℕ → ℕ → ℕ → Text → Rune
decode_4 low high b (c ∷ d ∷ e ∷ es) =
    if within low high c && (is_cont d && is_cont e)
    then (record {
      rune = (b - 240) * 262144 + (c - 128) * 4096 + (d - 128) * 64 + (e - 128);
      size = 4;
    })
    else rune_error
decode_4 low high b _ = rune_error

unfoldable pub decode_long : ℕ → Text → Rune
unfolding decode_2 decode_3 decode_4
decode_long b bs =
    if within 194 223 b
    then decode_2 b bs
    else (if within 224 224 b
        then decode_3 160 191 b bs
        else (if within 237 237 b
            then decode_3 128 159 b bs
            else (if within 225 239 b
                then decode_3 128 191 b bs
                else (if within 240 240 b
                    then decode_4 144 191 b bs
                    else (if within 241 243 b
                        then decode_4 128 191 b bs
                        else (if within 244 244 b then decode_4 128 143 b bs else rune_error))))))

-- `utf8.DecodeRuneInString`
unfoldable pub decode_rune : Text → Rune
unfolding decode_long
decode_rune [] = record { rune = 65533; size = 0 }
decode_rune (b ∷ bs) = if ltb b 128 then (record { rune = b; size = 1 }) else decode_long b bs

-- The size is that of some of the bytes there are, and not zero.
pub record Fits (bs : Text) (r : Rune) : Type 0 where
  pub not_zero : 1 ≤ r.size
  pub in_text : r.size ≤ 1 + length bs

if-Fits : {bs : Text} (c : Bool) {r s : Rune} → Fits bs r → Fits bs s → Fits bs (if c then r else s)
if-Fits true h k = h
if-Fits false h k = k

one-Fits : {b : ℕ} (bs : Text) → Fits bs (record { rune = b; size = 1 })
one-Fits bs = record { not_zero = omega arith; in_text = omega arith }

decode_2-Fits : (b : ℕ) (bs : Text) → Fits bs (decode_2 b bs)
unfolding decode_2
decode_2-Fits b [] = one-Fits []
decode_2-Fits b (c ∷ cs) =
    if-Fits (is_cont c) (record { not_zero = omega arith; in_text = omega arith })
      (one-Fits (c ∷ cs))

decode_3-Fits : (low high b : ℕ) (bs : Text) → Fits bs (decode_3 low high b bs)
unfolding decode_3
decode_3-Fits low high b (c ∷ d ∷ ds) =
    if-Fits (within low high c && is_cont d)
      (record { not_zero = omega arith; in_text = omega arith }) (one-Fits (c ∷ d ∷ ds))
decode_3-Fits low high b (c ∷ []) = one-Fits (c ∷ [])
decode_3-Fits low high b [] = one-Fits []

decode_4-Fits : (low high b : ℕ) (bs : Text) → Fits bs (decode_4 low high b bs)
unfolding decode_4
decode_4-Fits low high b (c ∷ d ∷ e ∷ es) =
    if-Fits (within low high c && (is_cont d && is_cont e))
      (record { not_zero = omega arith; in_text = omega arith }) (one-Fits (c ∷ d ∷ e ∷ es))
decode_4-Fits low high b (c ∷ d ∷ []) = one-Fits (c ∷ d ∷ [])
decode_4-Fits low high b (c ∷ []) = one-Fits (c ∷ [])
decode_4-Fits low high b [] = one-Fits []

decode_long-Fits : (b : ℕ) (bs : Text) → Fits bs (decode_long b bs)
unfolding decode_long
decode_long-Fits b bs = if-Fits (within 194 223 b) (decode_2-Fits b bs) (
    if-Fits (within 224 224 b) (decode_3-Fits 160 191 b bs) (
      if-Fits (within 237 237 b) (decode_3-Fits 128 159 b bs) (
        if-Fits (within 225 239 b) (decode_3-Fits 128 191 b bs) (
          if-Fits (within 240 240 b) (decode_4-Fits 144 191 b bs) (
            if-Fits (within 241 243 b) (decode_4-Fits 128 191 b bs)
              (if-Fits (within 244 244 b) (decode_4-Fits 128 143 b bs) (one-Fits bs)))))))

pub decode_rune-Fits : (b : ℕ) (bs : Text) → Fits bs (decode_rune (b ∷ bs))
unfolding decode_rune
decode_rune-Fits b bs = if-Fits (ltb b 128) (one-Fits bs) (decode_long-Fits b bs)

-- An ASCII byte is a character of its own.
pub decode_rune-ascii :
    (b : ℕ) (bs : Text) → b < 128 → decode_rune (b ∷ bs) ≡ (record { rune = b; size = 1 })
unfolding decode_rune
decode_rune-ascii b bs h = ground arith

-- A character that is not ASCII.
record Long (r : Rune) : Type 0 where
  not_ascii : 128 ≤ r.rune

if-Long : (c : Bool) {r s : Rune} → (c ≡ true → Long r) → Long s → Long (if c then r else s)
if-Long true h k = h refl
if-Long false h k = k

decode_2-long : (b : ℕ) (bs : Text) → 194 ≤ b → 128 ≤ (decode_2 b bs).rune
unfolding decode_2
decode_2-long b [] h = omega arith
decode_2-long b (c ∷ cs) h = ground arith

decode_3-long :
    (low high b : ℕ) (bs : Text) → (160 ≤ low) ⊎ (225 ≤ b) → 128 ≤ (decode_3 low high b bs).rune
unfolding decode_3
decode_3-long low high b (c ∷ d ∷ ds) h = ground arith
decode_3-long low high b (c ∷ []) h = omega arith
decode_3-long low high b [] h = omega arith

decode_4-long :
    (low high b : ℕ) (bs : Text) → (144 ≤ low) ⊎ (241 ≤ b) → 128 ≤ (decode_4 low high b bs).rune
unfolding decode_4
decode_4-long low high b (c ∷ d ∷ e ∷ es) h = ground arith
decode_4-long low high b (c ∷ d ∷ []) h = omega arith
decode_4-long low high b (c ∷ []) h = omega arith
decode_4-long low high b [] h = omega arith

long : {r : Rune} → 128 ≤ r.rune → Long r
long h = record { not_ascii = h }

decode_long-Long : (b : ℕ) (bs : Text) → Long (decode_long b bs)
unfolding decode_long
decode_long-Long b bs =
    if-Long (within 194 223 b) (λ e. long (decode_2-long b bs (ground arith)))
      (if-Long (within 224 224 b) (λ e. long (decode_3-long 160 191 b bs (inl (omega arith))))
        (if-Long (within 237 237 b) (λ e. long (decode_3-long 128 159 b bs (inr (ground arith))))
          (if-Long (within 225 239 b) (λ e. long (decode_3-long 128 191 b bs (inr (ground arith))))
            (if-Long (within 240 240 b) (λ e. long (decode_4-long 144 191 b bs (inl (omega arith))))
              (if-Long (within 241 243 b)
                (λ e. long (decode_4-long 128 191 b bs (inr (ground arith))))
                (if-Long (within 244 244 b)
                  (λ e. long (decode_4-long 128 143 b bs (inr (ground arith))))
                  (record { not_ascii = omega arith })))))))

-- An ASCII character is one byte.
pub decode_rune-one :
    (b : ℕ) (bs : Text)
    → (decode_rune (b ∷ bs)).rune < 128
    → decode_rune (b ∷ bs) ≡ (record { rune = b; size = 1 })
unfolding decode_rune
decode_rune-one b bs h = elim (Bool-cases (ltb b 128)) [
  | inl e ↦ rw e refl
  | inr e ↦ absurd (omega (arith, (decode_long-Long b bs).not_ascii, rw e at h))
]
