-- ===== src/Runtime/Eval/Misses/Lookup.antt =====
-- `jsonPathLookup` misses no identifier.
use pipetest.Base.Text.{Text}
use pipetest.Base.{
  ℕ, Bool, Option, none, some, [], ◌∷◌, ◌==◌, zero, suc, length, ◌≤◌, arith, Bool-cases, inl, inr,
}
use pipetest.Runtime.Path.{
  is_name_byte, is_digit_byte, span_of, atoi, select_field, select_element, or_null, index_step,
  index_segment, field_segment, path_loop, json_path_lookup,
}
use pipetest.Runtime.Value.{Value, Result}
use pipetest.Runtime.Eval.Misses.{Misses, no_error, plain, if-Misses}

length-span_of : (p : ℕ → Bool) (bs : Text) → length (span_of p bs).1 ≤ length bs
unfolding span_of
length-span_of p [] = omega arith
length-span_of p (b ∷ bs) = elim (Bool-cases (p b)) [
  | inl e ↦ rw e (omega (arith, length-span_of p bs))
  | inr e ↦ rw e (omega arith)
]

module _ {P : Text → Type 0} where
  pub or_null-Misses :
      (again : Value → Result Value) (o : Option Value)
      → ((v : Value) → Misses P (again v))
      → Misses P (or_null again o)
  or_null-Misses again none h = no_error
  or_null-Misses again (some v) h = h v

  pub index_step-Misses :
      (again : Text → Value → Result Value) (ds rest : Text) (o : Option ℕ) (cur : Value)
      → ((v : Value) → Misses P (again rest v))
      → Misses P (index_step again ds rest o cur)
  index_step-Misses again ds rest none cur h = plain
  index_step-Misses again ds rest (some i) cur h =
      or_null-Misses (again rest) (select_element i cur) h

  pub index_segment-Misses :
      (again : Text → Value → Result Value) (s : Text × Text) (cur : Value)
      → ((rest : Text) (v : Value) → length rest ≤ length s.1 → Misses P (again rest v))
      → Misses P (index_segment again s cur)
  unfolding index_segment
  index_segment-Misses again ([], rest) cur h = plain
  index_segment-Misses again (d ∷ ds, []) cur h = plain
  index_segment-Misses again (d ∷ ds, b ∷ rest) cur h =
      if-Misses (b == b']')
        (index_step-Misses again (d ∷ ds) rest (atoi (d ∷ ds)) cur (λ v. h rest v (omega arith)))
        plain

  pub field_segment-Misses :
      (again : Text → Value → Result Value) (s : Text × Text) (cur : Value)
      → ((rest : Text) (v : Value) → length rest ≤ length s.1 → Misses P (again rest v))
      → Misses P (field_segment again s cur)
  unfolding field_segment
  field_segment-Misses again ([], rest) cur h = plain
  field_segment-Misses again (b ∷ bs, rest) cur h =
      or_null-Misses (again rest) (select_field (b ∷ bs) cur) (λ v. h rest v (omega arith))

  -- Fuel for each byte of the path suffices.
  pub path_loop-Misses :
      (k : ℕ) (path : Text) (cur : Value) → length path ≤ k → Misses P (path_loop k path cur)
  unfolding path_loop
  path_loop-Misses k [] cur le = no_error
  path_loop-Misses zero (b ∷ bs) cur le = absurd (omega (arith, le))
  path_loop-Misses (suc k) (b ∷ bs) cur le =
      let again =
        λ (p : ℕ → Bool) (rest : Text) (v : Value) (lt : length rest ≤ length (span_of p bs).1).
          path_loop-Misses k rest v (omega (arith, lt, length-span_of p bs, le)) in
      if-Misses (b == b'.')
        (field_segment-Misses (path_loop k) (span_of is_name_byte bs) cur (again is_name_byte))
        (if-Misses (b == b'[')
          (index_segment-Misses (path_loop k) (span_of is_digit_byte bs) cur (again is_digit_byte))
          plain)

  pub json_path_lookup-Misses : (root : Value) (path : Text) → Misses P (json_path_lookup root path)
  unfolding json_path_lookup
  json_path_lookup-Misses root [] = plain
  json_path_lookup-Misses root (b ∷ path) =
      if-Misses (b == b'$') (path_loop-Misses (length path) path root (omega arith)) plain
