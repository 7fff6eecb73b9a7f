-- ===== src/Compiler/Merge/Shapes.antt =====
-- What a pass of `applyLines` leaves in the fields of the shape.
use pipetest.Ast.{ReqLine, assert_stmt, AssertStmt}
use pipetest.Base.{◌≡◌, refl, ◌∙◌, Bool, true, false, List, [], ◌∷◌, ◌++◌, Option, or_else, arith}
use pipetest.Compiler.Merge.Select.{last_of}
use pipetest.Compiler.Merge.{
  Shape, apply_line, apply_assert, apply_each, apply_lines, override_asserts,
}

-- A property of shapes that each line keeps, and that says nothing of the assertions, is kept by
-- the pass.
module _ {κ} (P : Shape → Type κ)
    (stable : (s : Shape) (as' : List AssertStmt) → P s → P (record s { asserts = as' })) where
  apply_assert-keeps :
      (b : Bool) (l : ReqLine) (s : Shape) (c : List AssertStmt)
      → P s
      → P (apply_assert b l (s, c)).0
  unfolding apply_assert
  apply_assert-keeps true (assert_stmt l) s c h = h
  apply_assert-keeps false (assert_stmt l) s c h = stable s (s.asserts ++ l ∷ []) h
  apply_assert-keeps true _ s c h = h
  apply_assert-keeps false _ s c h = h

  override-keeps : (b : Bool) (p : Shape × List AssertStmt) → P p.0 → P (override_asserts b p)
  override-keeps true (s, []) h = h
  override-keeps true (s, a ∷ as') h = stable s (a ∷ as') h
  override-keeps false (s, c) h = h

  apply_each-keeps :
      (b : Bool) (ls : List ReqLine) (p : Shape × List AssertStmt)
      → ((l : ReqLine) (s : Shape) → P s → P (apply_line l s))
      → P p.0
      → P (apply_each b ls p).0
  unfolding apply_each
  apply_each-keeps b [] p step h = h
  apply_each-keeps b (l ∷ ls) (s, c) step h =
      apply_each-keeps b ls _ step (apply_assert-keeps b l (apply_line l s) c (step l s h))

  pub apply_lines-keeps :
      (ls : List ReqLine) (b : Bool) (s : Shape)
      → ((l : ReqLine) (s : Shape) → P s → P (apply_line l s))
      → P s
      → P (apply_lines ls b s)
  unfolding apply_lines
  apply_lines-keeps ls b s step h = override-keeps b _ (apply_each-keeps b ls (s, []) step h)

-- A field that each line of one kind overwrites ends as the last such line.
module _ {B : Type 0} (get : Shape → Option B) (f : ReqLine → Option B)
    (step : (l : ReqLine) (s : Shape) → get (apply_line l s) ≡ or_else (f l) (get s))
    (stable : (s : Shape) (as' : List AssertStmt) → get (record s { asserts = as' }) ≡ get s) where
  get-apply_each :
      (b : Bool) (ls : List ReqLine) (s : Shape) (c : List AssertStmt)
      → get (apply_each b ls (s, c)).0 ≡ or_else (last_of f ls) (get s)
  unfolding apply_each last_of
  get-apply_each b [] s c = refl
  get-apply_each b (l ∷ ls) s c =
      let here' =
        apply_assert-keeps (λ t. get t ≡ get (apply_line l s)) (λ t as' h. stable t as' ∙ h) b l
          (apply_line l s) c refl in
      let (s', c') = apply_assert b l (apply_line l s, c) in
      get-apply_each b ls s' c' ∙ ground (arith, here', step l s)

  pub get-apply_lines :
      (b : Bool) (ls : List ReqLine) (s : Shape)
      → get (apply_lines ls b s) ≡ or_else (last_of f ls) (get s)
  unfolding apply_lines
  get-apply_lines b ls s =
      override-keeps (λ t. get t ≡ or_else (last_of f ls) (get s)) (λ t as' h. stable t as' ∙ h) b _
        (get-apply_each b ls s [])
