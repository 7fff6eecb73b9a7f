-- ===== src/Diagnostics.antt =====
-- internal/diagnostics/diagnostics.go: the diagnostic record, its order and its key, and the
-- sorting and deduplication that every command applies before it prints.
pub mod Order
pub mod Keys
pub mod Output
use Prim.Native.Nat.{◌/◌, ◌%◌}
use pipetest.Base.{
  ℕ, zero, suc, ◌+◌, Bool, List, [], ◌∷◌, ◌++◌, Option, none, some, if◌then◌else◌, ltb, ◌==◌,
}
use pipetest.Base.Assoc.{member}
use pipetest.Base.Order.{sort_by}
use pipetest.Base.Text.{Text, text_eq, text_lt}

pub record Related : Type 0 where
  pub file : Text
  pub line : ℕ
  pub column : ℕ
  pub message : Text

pub record Diagnostic : Type 0 where
  pub severity : Text
  pub code : Text
  pub message : Text
  pub file : Text
  pub line : ℕ
  pub column : ℕ
  pub hint : Text
  pub related : Option Related
  pub flow : Option Text
  pub request : Option Text

pub record RelatedKey : Type 0 where
  pub file : Text
  pub line : ℕ
  pub column : ℕ

unfoldable pub related_sort_key : Option Related → RelatedKey
related_sort_key none = record { file = []; line = 0; column = 0 }
related_sort_key (some r) = record { file = r.file; line = r.line; column = r.column }

-- `if a != b { return a < b }` and the next comparison otherwise.
abbrev pub text_first : Text → Text → Bool → Bool
text_first a b later = if text_eq a b then later else text_lt a b

abbrev pub number_first : ℕ → ℕ → Bool → Bool
number_first a b later = if a == b then later else ltb a b

unfoldable pub diagnostic_less : Diagnostic → Diagnostic → Bool
unfolding related_sort_key
diagnostic_less a b =
    let ar = related_sort_key a.related in
    let br = related_sort_key b.related in
    text_first a.file b.file (
      number_first a.line b.line (
        number_first a.column b.column (
          text_first a.code b.code (
            text_first a.message b.message (
              text_first ar.file br.file
                (number_first ar.line br.line (ltb ar.column br.column)))))))

-- `strconv.Itoa` of a number that is not negative; `n` divisions are more than it takes.
itoa_digits : ℕ → ℕ → Text → Text
itoa_digits zero n acc = acc
itoa_digits (suc fuel) n acc =
    let rest = itoa_digits fuel (n / 10) ((b'0' + n % 10) ∷ acc) in if n == 0 then acc else rest

unfoldable pub itoa : ℕ → Text
unfolding itoa_digits
itoa n = if n == 0 then b'0' ∷ [] else itoa_digits n n []

unfoldable pub dedupe_key : Diagnostic → Text
unfolding related_sort_key itoa
dedupe_key d =
    let rk = related_sort_key d.related in
    d.code
    ++ b'|'
      ∷ (d.file
          ++ b'|'
            ∷ (itoa d.line
                ++ b'|'
                  ∷ (itoa d.column
                      ++ b'|'
                        ∷ (d.message
                            ++ b'|'
                              ∷ (rk.file ++ b'|' ∷ (itoa rk.line ++ b'|' ∷ itoa rk.column))))))

-- The second loop of `SortAndDedupe`, with `seen`.
unfoldable pub dedupe : List Text → List Diagnostic → List Diagnostic
dedupe seen [] = []
dedupe seen (d ∷ ds) =
    let rest = dedupe seen ds in
    let kept = d ∷ dedupe (dedupe_key d ∷ seen) ds in
    if member (dedupe_key d) seen then rest else kept

unfoldable pub sort_and_dedupe : List Diagnostic → List Diagnostic
unfolding dedupe
sort_and_dedupe ds = dedupe [] (sort_by diagnostic_less ds)
