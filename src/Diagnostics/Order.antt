-- ===== src/Diagnostics/Order.antt =====
-- The comparison of `SortAndDedupe` is a strict weak order whose ties have one key.
use pipetest.Base.{inl, inr, Bool-cases, ℕ, Bool, true, false, ◌≡◌, arith, ltb}
use pipetest.Base.Text.{Text, text_lt, text_eq_iff, text_lt_irrefl, text_lt_trans, text_lt_total}
use pipetest.Diagnostics.{
  Diagnostic, RelatedKey, related_sort_key, text_first, number_first, diagnostic_less, dedupe_key,
}

pub text_lt_asym : (a b : Text) → text_lt a b ≡ true → text_lt b a ≡ false
text_lt_asym a b h = ground (arith, text_lt_trans a b a, text_lt_irrefl a)

-- Each step of the comparison keeps what the later steps have: asymmetry,
text_first_asym :
    (a b : Text) (l m : Bool)
    → (l ≡ true → m ≡ false)
    → text_first a b l ≡ true
    → text_first b a m ≡ false
text_first_asym a b l m later h = ground (arith, text_eq_iff a b, text_eq_iff b a, text_lt_asym a b)

number_first_asym :
    (a b : ℕ) (l m : Bool)
    → (l ≡ true → m ≡ false)
    → number_first a b l ≡ true
    → number_first b a m ≡ false
number_first_asym a b l m later h = ground arith

-- transitivity of "not less",
text_first_trans :
    (a b c : Text) (l m n : Bool)
    → (l ≡ false → m ≡ false → n ≡ false)
    → text_first b a l ≡ false
    → text_first c b m ≡ false
    → text_first c a n ≡ false
text_first_trans a b c l m n later h k = ground (
  arith,
  text_eq_iff b a,
  text_eq_iff c b,
  text_eq_iff c a,
  text_lt_total a b,
  text_lt_total b c,
  text_lt_asym c a,
  text_lt_trans a b c,
)

number_first_trans :
    (a b c : ℕ) (l m n : Bool)
    → (l ≡ false → m ≡ false → n ≡ false)
    → number_first b a l ≡ false
    → number_first c b m ≡ false
    → number_first c a n ≡ false
number_first_trans a b c l m n later h k = ground arith

-- and that a tie is an equality.
text_first_tie :
    (a b : Text) (l m : Bool)
    → text_first a b l ≡ false
    → text_first b a m ≡ false
    → (a ≡ b) × (l ≡ false) × (m ≡ false)
text_first_tie a b l m h k = ground (arith, text_eq_iff a b, text_eq_iff b a, text_lt_total a b)

number_first_tie :
    (a b : ℕ) (l m : Bool)
    → number_first a b l ≡ false
    → number_first b a m ≡ false
    → (a ≡ b) × (l ≡ false) × (m ≡ false)
number_first_tie a b l m h k = ground arith

-- The two related positions, compared last.
abbrev related_less : RelatedKey → RelatedKey → Bool
related_less a b = text_first a.file b.file (number_first a.line b.line (ltb a.column b.column))

related_asym : (a b : RelatedKey) → related_less a b ≡ true → related_less b a ≡ false
related_asym a b = text_first_asym a.file b.file _ _ (
    number_first_asym a.line b.line (ltb a.column b.column) (ltb b.column a.column)
      (λ h. ground arith))

related_trans :
    (a b c : RelatedKey)
    → related_less b a ≡ false
    → related_less c b ≡ false
    → related_less c a ≡ false
related_trans a b c = text_first_trans a.file b.file c.file _ _ _ (
    number_first_trans a.line b.line c.line (ltb b.column a.column) (ltb c.column b.column)
      (ltb c.column a.column) (λ h k. ground arith))

related_tie : (a b : RelatedKey) → related_less a b ≡ false → related_less b a ≡ false → a ≡ b
related_tie a b h k =
    let (f, h1, k1) =
      text_first_tie a.file b.file (number_first a.line b.line (ltb a.column b.column))
        (number_first b.line a.line (ltb b.column a.column)) h k in
    ground arith

pub diagnostic_less_asym :
    (a b : Diagnostic) → diagnostic_less a b ≡ true → diagnostic_less b a ≡ false
unfolding diagnostic_less
diagnostic_less_asym a b = text_first_asym a.file b.file _ _ (
    number_first_asym a.line b.line _ _ (
      number_first_asym a.column b.column _ _ (
        text_first_asym a.code b.code _ _ (
          text_first_asym a.message b.message _ _
            (related_asym (related_sort_key a.related) (related_sort_key b.related))))))

pub diagnostic_less_trans :
    (a b c : Diagnostic)
    → diagnostic_less b a ≡ false
    → diagnostic_less c b ≡ false
    → diagnostic_less c a ≡ false
unfolding diagnostic_less
diagnostic_less_trans a b c = text_first_trans a.file b.file c.file _ _ _ (
    number_first_trans a.line b.line c.line _ _ _ (
      number_first_trans a.column b.column c.column _ _ _ (
        text_first_trans a.code b.code c.code _ _ _ (
          text_first_trans a.message b.message c.message _ _ _ (
            related_trans (related_sort_key a.related) (related_sort_key b.related)
              (related_sort_key c.related))))))

-- What the comparison and the key read of a diagnostic.
pub record SameRank (a b : Diagnostic) : Type 0 where
  pub file_eq : a.file ≡ b.file
  pub line_eq : a.line ≡ b.line
  pub column_eq : a.column ≡ b.column
  pub code_eq : a.code ≡ b.code
  pub message_eq : a.message ≡ b.message
  pub related_eq : related_sort_key a.related ≡ related_sort_key b.related

pub diagnostic_less_tie :
    (a b : Diagnostic) → diagnostic_less a b ≡ false → diagnostic_less b a ≡ false → SameRank a b
unfolding diagnostic_less
diagnostic_less_tie a b h k =
    let (f, h1, k1) = text_first_tie a.file b.file _ _ h k in
    let (l, h2, k2) = number_first_tie a.line b.line _ _ h1 k1 in
    let (c, h3, k3) = number_first_tie a.column b.column _ _ h2 k2 in
    let (d, h4, k4) = text_first_tie a.code b.code _ _ h3 k3 in
    let (m, h5, k5) = text_first_tie a.message b.message _ _ h4 k4 in
    record {
      file_eq = f;
      line_eq = l;
      column_eq = c;
      code_eq = d;
      message_eq = m;
      related_eq = related_tie (related_sort_key a.related) (related_sort_key b.related) h5 k5;
    }

pub SameRank-dedupe_key : (a b : Diagnostic) → SameRank a b → dedupe_key a ≡ dedupe_key b
unfolding dedupe_key
SameRank-dedupe_key a b s =
    simp (s.file_eq, s.line_eq, s.column_eq, s.code_eq, s.message_eq, s.related_eq)

-- Of two diagnostics with different keys, the one that is not the greater is the less.
pub diagnostic_less_of_key_ne :
    (a b : Diagnostic)
    → diagnostic_less b a ≡ false
    → ¬ (dedupe_key a ≡ dedupe_key b)
    → diagnostic_less a b ≡ true
diagnostic_less_of_key_ne a b h ne = elim (Bool-cases (diagnostic_less a b)) [
  | inl e ↦ e
  | inr e ↦ absurd (ne (SameRank-dedupe_key a b (diagnostic_less_tie a b e h)))
]
