-- ===== src/Diagnostics/Output.antt =====
-- What `SortAndDedupe` promises of its output.
use pipetest.Base.{
  ◌≢◌, true, false, ◌≡◌, refl, sym, ◌∙◌, ap, List, [], ◌∷◌, All, In, here, there, All-In,
  not-In-nil, Option, Pairwise,
}
use pipetest.Base.Assoc.{member}
use pipetest.Base.Order.{sort_by, sort_by-IsSorted, sort_by-eq_self, In-sort_by, sort_by-In}
use pipetest.Base.Text.{Text}
use pipetest.Diagnostics.Keys.{
  OtherKey, Kept, dedupe-OtherKey, dedupe-Kept, dedupe-In, dedupe-eq_self, Pairwise-dedupe,
}
use pipetest.Diagnostics.Order.{
  diagnostic_less_asym, diagnostic_less_trans, diagnostic_less_of_key_ne,
}
use pipetest.Diagnostics.{Diagnostic, dedupe_key, diagnostic_less, sort_and_dedupe}

abbrev IsLess : Diagnostic → Diagnostic → Type 0
IsLess a b = diagnostic_less a b ≡ true

abbrev NotGreater : Diagnostic → Diagnostic → Type 0
NotGreater a b = diagnostic_less b a ≡ false

Pairwise-IsLess :
    (ds : List Diagnostic) → Pairwise NotGreater ds → Pairwise OtherKey ds → Pairwise IsLess ds
Pairwise-IsLess [] h k = tt
Pairwise-IsLess (d ∷ ds) h k = (less ds h.0 k.0, Pairwise-IsLess ds h.1 k.1)
  where
    less : (es : List Diagnostic) → All (NotGreater d) es → All (OtherKey d) es → All (IsLess d) es
    less [] a b = tt
    less (e ∷ es) a b = (diagnostic_less_of_key_ne d e a.0 b.0, less es a.1 b.1)

output_sorted : (ds : List Diagnostic) → Pairwise NotGreater (sort_and_dedupe ds)
unfolding sort_and_dedupe
output_sorted ds =
    Pairwise-dedupe NotGreater [] (sort_by diagnostic_less ds)
      (sort_by-IsSorted diagnostic_less diagnostic_less_asym diagnostic_less_trans ds)

output_keys : (ds : List Diagnostic) → Pairwise OtherKey (sort_and_dedupe ds)
unfolding sort_and_dedupe
output_keys ds = dedupe-OtherKey [] (sort_by diagnostic_less ds)

-- The output of `SortAndDedupe` is strictly increasing in the order of its comparison, and no two
-- of its diagnostics have one key.
pub sort_and_dedupe_strict :
    (ds : List Diagnostic)
    → Pairwise (λ a b. diagnostic_less a b ≡ true) (sort_and_dedupe ds)
      × Pairwise (λ a b. ¬ (dedupe_key a ≡ dedupe_key b)) (sort_and_dedupe ds)
sort_and_dedupe_strict ds =
    (Pairwise-IsLess (sort_and_dedupe ds) (output_sorted ds) (output_keys ds), output_keys ds)

-- Every diagnostic given to `SortAndDedupe` has one of its key in the output, and every
-- diagnostic of the output was given.
pub sort_and_dedupe_covers :
    (ds : List Diagnostic) (d : Diagnostic)
    → (In d ds → Kept d (sort_and_dedupe ds)) × (In d (sort_and_dedupe ds) → In d ds)
unfolding sort_and_dedupe
sort_and_dedupe_covers ds d = (
  λ m.
      dedupe-Kept [] (sort_by diagnostic_less ds) (In-sort_by diagnostic_less ds m)
        (unfold member in refl),
  λ m. sort_by-In diagnostic_less ds (dedupe-In [] (sort_by diagnostic_less ds) m),
)

-- Sorting and deduplicating a second time changes nothing.
pub sort_and_dedupe_idem :
    (ds : List Diagnostic) → sort_and_dedupe (sort_and_dedupe ds) ≡ sort_and_dedupe ds
sort_and_dedupe_idem ds = again (sort_and_dedupe ds) (output_sorted ds) (output_keys ds)
  where
    nothing_seen : (es : List Diagnostic) → All (λ e. member (dedupe_key e) [] ≡ false) es
    nothing_seen [] = tt
    nothing_seen (e ∷ es) = (unfold member in refl, nothing_seen es)

    again :
        (es : List Diagnostic)
        → Pairwise NotGreater es
        → Pairwise OtherKey es
        → sort_and_dedupe es ≡ es
    again es h k =
        unfold sort_and_dedupe in
        (rw (sort_by-eq_self diagnostic_less es h) (dedupe-eq_self [] es k (nothing_seen es)))

-- A diagnostic that is given is never lost altogether.
pub sort_and_dedupe-nonempty :
    (d : Diagnostic) (ds : List Diagnostic) → sort_and_dedupe (d ∷ ds) ≢ []
sort_and_dedupe-nonempty d ds e =
    not_in_nil (sort_and_dedupe (d ∷ ds)) e
      ((sort_and_dedupe_covers (d ∷ ds) d).0 (here refl)).kept_in
  where
    not_in_nil : {x : Diagnostic} (xs : List Diagnostic) → xs ≡ [] → In x xs → ⊥
    not_in_nil [] e m = elim m [ ]
    not_in_nil (y ∷ ys) e m = absurd (cc)

Pairwise-In :
    (ds : List Diagnostic)
    → Pairwise OtherKey ds
    → {a b : Diagnostic} → In a ds
    → In b ds
    → dedupe_key a ≡ dedupe_key b
    → a ≡ b
Pairwise-In [] h m n e = absurd (not-In-nil m)
Pairwise-In (x ∷ ds) h (here p) (here q) e = p ∙ sym q
Pairwise-In (x ∷ ds) h {a} {b} (here p) (there n) e =
    absurd (All-In (OtherKey x) h.0 n (ap dedupe_key (sym p) ∙ e))
Pairwise-In (x ∷ ds) h {a} {b} (there m) (here q) e =
    absurd (All-In (OtherKey x) h.0 m (ap dedupe_key (sym q) ∙ sym e))
Pairwise-In (x ∷ ds) h (there m) (there n) e = Pairwise-In ds h.1 m n e

-- Two diagnostics of the output that differ at most in the flow and the request that they name do
-- not differ: of the same failure in two flows only one is kept.
pub sort_and_dedupe_one_flow :
    (ds : List Diagnostic) (d : Diagnostic) (flow request : Option Text)
    → In d (sort_and_dedupe ds)
    → In (record d { flow = flow; request = request }) (sort_and_dedupe ds)
    → record d { flow = flow; request = request } ≡ d
sort_and_dedupe_one_flow ds d flow request m n =
    Pairwise-In (sort_and_dedupe ds) (output_keys ds) n m (unfold dedupe_key in refl)
