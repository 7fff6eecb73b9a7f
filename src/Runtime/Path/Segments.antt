-- ===== src/Runtime/Path/Segments.antt =====
-- A path that is written from its segments selects what the segments select one after the other.
use pipetest.Base.Text.{Text}
use pipetest.Base.{
  ◌≡◌, refl, ℕ, zero, suc, ◌≤◌, Bool, true, false, Option, none, some, List, [], ◌∷◌, ◌++◌, length,
  length-append, arith, all, All, ltb, ◌&&◌,
}
use pipetest.Runtime.Path.{
  is_name_byte, is_digit_byte, span_of, digits_value, atoi, select_field, select_element, or_null,
  index_segment, field_segment, path_loop, json_path_lookup,
}
use pipetest.Runtime.Value.{Value, null_value, value}

-- A name, or an index by its decimal digits.
pub data Segment : Type 0 where
  by_name : Text → Segment
  by_index : Text → Segment

-- The segment can be written: it is not empty, and an index is an int.
unfoldable pub is_segment : Segment → Bool
unfolding digits_value
is_segment (by_name []) = false
is_segment (by_name (b ∷ bs)) = all is_name_byte (b ∷ bs)
is_segment (by_index []) = false
is_segment (by_index (b ∷ bs)) =
    all is_digit_byte (b ∷ bs) && ltb (digits_value 0 (b ∷ bs)) 9223372036854775808

unfoldable pub print_segments : List Segment → Text
print_segments [] = []
print_segments (by_name name ∷ ss) = b'.' ∷ (name ++ print_segments ss)
print_segments (by_index ds ∷ ss) = b'[' ∷ (ds ++ b']' ∷ print_segments ss)

abbrev pub select : Segment → Value → Option Value
select (by_name name) v = select_field name v
select (by_index ds) v = select_element (digits_value 0 ds) v

-- The value that the segments select, null from the first that selects nothing.
unfoldable pub follow : List Segment → Value → Value
unfolding select_field select_element digits_value
follow [] v = v
follow (s ∷ ss) v = elim (select s v) [ none ↦ null_value | some w ↦ follow ss w ]

-- The text does not begin with a byte that passes the test.
abbrev Stops : (ℕ → Bool) → Text → Type 0
Stops p [] = Unit
Stops p (b ∷ bs) = p b ≡ false

span_of-append :
    (p : ℕ → Bool) (xs rest : Text)
    → all p xs ≡ true
    → Stops p rest
    → span_of p (xs ++ rest) ≡ (xs, rest)
unfolding span_of
span_of-append p [] [] h s = refl
span_of-append p [] (b ∷ bs) h s = rw s refl
span_of-append p (x ∷ xs) rest h s =
    let e : p x ≡ true = ground arith in
    let i = span_of-append p xs rest (ground arith) s in rw (e, i) refl

segments-stop :
    (p : ℕ → Bool)
    → p b'.' ≡ false
    → p b'[' ≡ false
    → (ss : List Segment) → Stops p (print_segments ss)
unfolding print_segments
segments-stop p d o [] = tt
segments-stop p d o (by_name name ∷ ss) = d
segments-stop p d o (by_index ds ∷ ss) = o

follow_segment :
    (k : ℕ) (ss : List Segment) (o : Option Value)
    → ((v : Value) → path_loop k (print_segments ss) v ≡ value (follow ss v))
    → or_null (path_loop k (print_segments ss)) o
      ≡ value (elim o [ none ↦ null_value | some w ↦ follow ss w ])
follow_segment k ss none h = refl
follow_segment k ss (some v) h = h v

atoi-in_range :
    (ds : Text)
    → ltb (digits_value 0 ds) 9223372036854775808 ≡ true
    → atoi ds ≡ some (digits_value 0 ds)
unfolding atoi
atoi-in_range ds h = rw h refl

path_loop-follow :
    (k : ℕ) (ss : List Segment) (v : Value)
    → All (λ s. is_segment s ≡ true) ss
    → length (print_segments ss) ≤ k
    → path_loop k (print_segments ss) v ≡ value (follow ss v)
unfolding path_loop print_segments follow is_segment field_segment index_segment
path_loop-follow k [] v h le = refl
path_loop-follow zero (by_name name ∷ ss) v h le = absurd (omega (arith, le))
path_loop-follow zero (by_index ds ∷ ss) v h le = absurd (omega (arith, le))
path_loop-follow (suc k) (by_name [] ∷ ss) v h le = absurd (let z : false ≡ true = h.0 in cc)
path_loop-follow (suc k) (by_index [] ∷ ss) v h le = absurd (let z : false ≡ true = h.0 in cc)
path_loop-follow (suc k) (by_name (b ∷ bs) ∷ ss) v h le =
    let e =
      span_of-append is_name_byte (b ∷ bs) (print_segments ss) h.0
        (segments-stop is_name_byte refl refl ss) in
    rw e (
      follow_segment k ss (select_field (b ∷ bs) v) (λ w.
        path_loop-follow k ss w h.1 (omega (arith, le, length-append {0} bs (print_segments ss)))))
path_loop-follow (suc k) (by_index (b ∷ bs) ∷ ss) v h le =
    let e =
      span_of-append is_digit_byte (b ∷ bs) (b']' ∷ print_segments ss) (ground (arith, h.0)) refl in
    let n = atoi-in_range (b ∷ bs) (ground (arith, h.0)) in
    rw (e, n)
      (follow_segment k ss (select_element (digits_value 0 (b ∷ bs)) v) (λ w.
        path_loop-follow k ss w h.1
          (omega (arith, le, length-append {0} bs (b']' ∷ print_segments ss)))))

-- The lookup of a path that is $ and the text of segments gives the value that the segments select
-- one after the other, and null from the first that selects nothing.
pub json_path_lookup-follow :
    (root : Value) (ss : List Segment)
    → All (λ s. is_segment s ≡ true) ss
    → json_path_lookup root (b'$' ∷ print_segments ss) ≡ value (follow ss root)
unfolding json_path_lookup
json_path_lookup-follow root ss h =
    path_loop-follow (length (print_segments ss)) ss root h (omega arith)
