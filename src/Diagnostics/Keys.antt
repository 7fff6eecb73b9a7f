-- ===== src/Diagnostics/Keys.antt =====
-- The deduplicating loop keeps one diagnostic of each key, in the order of its input.
use pipetest.Base.{
  false, ◌≡◌, refl, sym, ap, List, [], ◌∷◌, inl, inr, Bool-cases, arith, All, All-map, All-In,
  In-All, In, here, there, Pairwise,
}
use pipetest.Base.Assoc.{member}
use pipetest.Base.Text.{Text, text_eq, text_eq_iff}
use pipetest.Diagnostics.{Diagnostic, dedupe_key, dedupe}

module _ {κ} (P : Diagnostic → Type κ) where
  pub All-dedupe : (seen : List Text) (ds : List Diagnostic) → All P ds → All P (dedupe seen ds)
  unfolding dedupe
  All-dedupe seen [] h = tt
  All-dedupe seen (d ∷ ds) h = elim (Bool-cases (member (dedupe_key d) seen)) [
    | inl e ↦ rw e (All-dedupe seen ds h.1)
    | inr e ↦ rw e (h.0, All-dedupe (dedupe_key d ∷ seen) ds h.1)
  ]

pub dedupe-In :
    {e : Diagnostic} (seen : List Text) (ds : List Diagnostic) → In e (dedupe seen ds) → In e ds
dedupe-In seen ds m =
    All-In (λ b. In b ds) (All-dedupe (λ b. In b ds) seen ds (In-All (λ b. In b ds) ds (λ b k. k)))
      m

pub Pairwise-dedupe {κ} :
    (R : Diagnostic → Diagnostic → Type κ) (seen : List Text) (ds : List Diagnostic)
    → Pairwise R ds
    → Pairwise R (dedupe seen ds)
unfolding dedupe
Pairwise-dedupe R seen [] h = tt
Pairwise-dedupe R seen (d ∷ ds) h = elim (Bool-cases (member (dedupe_key d) seen)) [
  | inl e ↦ rw e (Pairwise-dedupe R seen ds h.1)
  | inr e ↦ rw e (
    All-dedupe (R d) (dedupe_key d ∷ seen) ds h.0,
    Pairwise-dedupe R (dedupe_key d ∷ seen) ds h.1,
  )
]

-- Nothing that was seen comes out.
dedupe-fresh :
    (seen : List Text) (ds : List Diagnostic)
    → All (λ e. member (dedupe_key e) seen ≡ false) (dedupe seen ds)
unfolding dedupe
dedupe-fresh seen [] = tt
dedupe-fresh seen (d ∷ ds) = elim (Bool-cases (member (dedupe_key d) seen)) [
  | inl e ↦ rw e (dedupe-fresh seen ds)
  | inr e ↦ rw e (e, All-map _ (still_fresh seen) (dedupe-fresh (dedupe_key d ∷ seen) ds))
]
  where
    still_fresh :
        (old : List Text) (x : Diagnostic)
        → member (dedupe_key x) (dedupe_key d ∷ old) ≡ false
        → member (dedupe_key x) old ≡ false
    still_fresh old x h = unfold member in ground arith

abbrev pub OtherKey : Diagnostic → Diagnostic → Type 0
OtherKey a b = ¬ (dedupe_key a ≡ dedupe_key b)

OtherKey-of_fresh :
    (d e : Diagnostic) (seen : List Text)
    → member (dedupe_key e) (dedupe_key d ∷ seen) ≡ false
    → OtherKey d e
unfolding member
OtherKey-of_fresh d e seen h p = ground (arith, text_eq_iff (dedupe_key d) (dedupe_key e))

pub dedupe-OtherKey : (seen : List Text) (ds : List Diagnostic) → Pairwise OtherKey (dedupe seen ds)
unfolding dedupe
dedupe-OtherKey seen [] = tt
dedupe-OtherKey seen (d ∷ ds) = elim (Bool-cases (member (dedupe_key d) seen)) [
  | inl e ↦ rw e (dedupe-OtherKey seen ds)
  | inr e ↦ rw e (
    All-map _ (λ x. OtherKey-of_fresh d x seen) (dedupe-fresh (dedupe_key d ∷ seen) ds),
    dedupe-OtherKey (dedupe_key d ∷ seen) ds,
  )
]

-- The diagnostic that stands for `d` in the output.
pub record Kept (d : Diagnostic) (out : List Diagnostic) : Type 0 where
  pub kept : Diagnostic
  pub kept_in : In kept out
  pub same_key : dedupe_key kept ≡ dedupe_key d

Kept-cons :
    {d : Diagnostic} (x : Diagnostic) {out : List Diagnostic} → Kept d out → Kept d (x ∷ out)
Kept-cons x k = record { kept = k.kept; kept_in = there k.kept_in; same_key = k.same_key }

pub dedupe-Kept :
    {d : Diagnostic} (seen : List Text) (ds : List Diagnostic)
    → In d ds
    → member (dedupe_key d) seen ≡ false
    → Kept d (dedupe seen ds)
unfolding dedupe
dedupe-Kept seen [] m h = elim m [ ]
dedupe-Kept {d} seen (x ∷ ds) (here p) h =
    rw (← ap dedupe_key p, h)
      (record { kept = x; kept_in = here refl; same_key = ap dedupe_key (sym p) })
dedupe-Kept {d} seen (x ∷ ds) (there m) h = elim (Bool-cases (member (dedupe_key x) seen)) [
  | inl e ↦ rw e (dedupe-Kept seen ds m h)
  | inr e ↦ rw e (elim (Bool-cases (text_eq (dedupe_key x) (dedupe_key d))) [
    | inl same ↦ record {
      kept = x;
      kept_in = here refl;
      same_key = (text_eq_iff (dedupe_key x) (dedupe_key d)).0 same;
    }
    | inr other ↦
        Kept-cons x (dedupe-Kept (dedupe_key x ∷ seen) ds m (unfold member in ground arith))
  ])
]

-- A list whose keys are all new and all different is left as it is.
pub dedupe-eq_self :
    (seen : List Text) (ds : List Diagnostic)
    → Pairwise OtherKey ds
    → All (λ e. member (dedupe_key e) seen ≡ false) ds
    → dedupe seen ds ≡ ds
unfolding dedupe
dedupe-eq_self seen [] h n = refl
dedupe-eq_self seen (d ∷ ds) h n =
    rw n.0 (ap (◌∷◌ d) (dedupe-eq_self (dedupe_key d ∷ seen) ds h.1 (still ds h.0 n.1)))
  where
    still :
        (es : List Diagnostic)
        → All (OtherKey d) es
        → All (λ e. member (dedupe_key e) seen ≡ false) es
        → All (λ e. member (dedupe_key e) (dedupe_key d ∷ seen) ≡ false) es
    still [] a b = tt
    still (e ∷ es) a b = (
      unfold member in ground (arith, text_eq_iff (dedupe_key d) (dedupe_key e)),
      still es a.1 b.1,
    )
